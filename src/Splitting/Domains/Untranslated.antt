-- ===== src/Splitting/Domains/Untranslated.antt =====
-- When the add button of the domains shows a text that is in neither language.
use split_proxy.Base.{Text, List}
use split_proxy.Script.{Script}
use split_proxy.Script.Shows.{Shows}
use split_proxy.Splitting.Validation.{Unicode}
use split_proxy.Splitting.Domains.State.{DomainsTab}
use split_proxy.Splitting.Domains.Handlers.{handle_add_domains, entered_patterns}

module _ (u : Unicode) (c : DomainsTab) where
  abbrev entered : List Text
  entered = entered_patterns c.new_domains

  abbrev add_button : Script DomainsTab (Unit {0})
  add_button = handle_add_domains u c
