-- ===== src/Api/Reading.antt =====
-- A list's parameters, as a server reads them from the query.
use mathlib.Core.Option
use split_proxy.Base.{◌≡◌, ◌∙◌, Text, String, Option, some, List, All}
use split_proxy.Text.{trim}
use split_proxy.Text.Queries.{IsWhole}
use split_proxy.Api.Building.{query_suffix}
use split_proxy.Api.Entries.{
  read_suffix, get_param, nonempty, Present, entries, EntryIsWhole, value_of, get_param-entries,
  entries-AreRead,
}

-- A list's parameters, each as a server reads it.
pub record Reads (suffix : Text) (page page_size search group guid : Option Text) : Type 0 where
  pub params : List (Text × Text)
  pub read : read_suffix suffix ≡ some params
  pub has_page : get_param "page" params ≡ page
  pub has_page_size : get_param "page_size" params ≡ page_size
  pub has_search : get_param "search" params ≡ search
  pub has_group : get_param "group" params ≡ group
  pub has_guid : get_param "guid" params ≡ guid

pub entries-Reads :
    (es : List (String × Option Text)) (suffix : Text)
    → suffix ≡ query_suffix (entries es)
    → All EntryIsWhole es
    → Reads suffix
        (value_of "page" es)
        (value_of "page_size" es)
        (value_of "search" es)
        (value_of "group" es)
        (value_of "guid" es)
entries-Reads es suffix same h = record {
  params = entries es;
  read = entries-AreRead es suffix same h;
  has_page = get_param-entries "page" es;
  has_page_size = get_param-entries "page_size" es;
  has_search = get_param-entries "search" es;
  has_group = get_param-entries "group" es;
  has_guid = get_param-entries "guid" es;
}

pub Reads-eq :
    {suffix : Text} {page page_size search group guid : Option Text}
    {page' page_size' search' group' guid' : Option Text}
    → Reads suffix page page_size search group guid
    → page ≡ page'
    → page_size ≡ page_size'
    → search ≡ search'
    → group ≡ group'
    → guid ≡ guid'
    → Reads suffix page' page_size' search' group' guid'
Reads-eq r a b c d e = record {
  params = r.params;
  read = r.read;
  has_page = r.has_page ∙ a;
  has_page_size = r.has_page_size ∙ b;
  has_search = r.has_search ∙ c;
  has_group = r.has_group ∙ d;
  has_guid = r.has_guid ∙ e;
}

abbrev pub searched : Option Text → Option Text
searched search = nonempty (Option.map trim search)

abbrev pub SearchIsWhole : Option Text → Type 0
SearchIsWhole search = Present IsWhole (Option.map trim search)
