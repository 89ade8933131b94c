-- ===== src/Agreement/Rows.antt =====
-- Rows of a table, each with a group, against the groups that a server has under their keys.
use split_proxy.Base.{
  ◌≡◌, ◌≢◌, sym, ◌∙◌, ap, ℕ, Text, Bool, true, false, Option, List, [], ◌∷◌, map, All, text_beq,
  text_beq_iff, Bool-cases, inl, inr, if◌then◌else◌, Member, at_head, in_tail,
}
use split_proxy.Api.{ApiCall, DomainRule, CidrRule, WorkerItem}
use split_proxy.Script.{is_fulfilled}
use split_proxy.Script.Run.{Surroundings}

-- Where a row has its key and its group.
pub record Table (R : Type 0) : Type 0 where
  pub key : R → Text
  pub group : R → Option ℕ

abbrev pub domain_rows : Table DomainRule
domain_rows = record { key = λ r. r.pattern; group = λ r. r.group }

abbrev pub cidr_rows : Table CidrRule
cidr_rows = record { key = λ r. r.cidr; group = λ r. r.worker_group }

abbrev pub worker_rows : Table WorkerItem
worker_rows = record { key = λ r. r.guid; group = λ r. r.group }

-- The group that each row shows is the one that the server has.
abbrev pub Agrees : {R : Type 0} → Table R → (Text → Option ℕ) → List R → Type 0
Agrees t groups rows = All (λ r. t.group r ≡ groups (t.key r)) rows

-- The groups after an update of one key: that one has the new group if the update was accepted,
-- and all others have what they had.
abbrev pub Updates : Text → Option ℕ → Bool → (Text → Option ℕ) → (Text → Option ℕ) → Type 0
Updates key group accepted before after =
    (after key ≡ (if accepted then group else before key))
    × ((k : Text) → k ≢ key → after k ≡ before k)

-- A server whose calls update the groups that it has.
abbrev pub Stores :
    {W G : Type 0}
    → Surroundings W
    → (Text → G → ApiCall)
    → (G → Option ℕ)
    → (W → Text → Option ℕ)
    → Type 0
Stores {W} {G} u call value groups =
    (key : Text) (g : G) (w : W)
    → Updates key (value g) (is_fulfilled (u.serve (call key g) w).0) (groups w)
        (groups (u.serve (call key g) w).1)

-- A server that keeps an accepted update under a normal form of its key.
abbrev pub StoresUnder :
    {W G : Type 0}
    → (Text → Text)
    → Surroundings W
    → (Text → G → ApiCall)
    → (G → Option ℕ)
    → (W → Text → Option ℕ)
    → Type 0
StoresUnder {W} {G} normal u call value groups =
    (key : Text) (g : G) (w : W)
    → Updates (normal key) (value g) (is_fulfilled (u.serve (call key g) w).0) (groups w)
        (groups (u.serve (call key g) w).1)

module _ {R : Type 0} (t : Table R) (key : Text) (group : Option ℕ) where
  -- A change of the rows with one key.
  pub record Regroups (set : R → R) : Type 0 where
    pub key_kept : (r : R) → t.key (set r) ≡ t.key r
    pub hit : (r : R) → text_beq (t.key r) key ≡ true → t.group (set r) ≡ group
    pub miss : (r : R) → text_beq (t.key r) key ≡ false → t.group (set r) ≡ t.group r

  same_key : (r : R) → text_beq (t.key r) key ≡ true → t.key r ≡ key
  same_key r h = (text_beq_iff (t.key r) key).0 h

  other_key : (r : R) → text_beq (t.key r) key ≡ false → t.key r ≢ key
  other_key r h e = cc (h, (text_beq_iff (t.key r) key).1 e)

  module _ {before after : Text → Option ℕ} where
    pub accepted-Agrees :
        (set : R → R)
        → Regroups set
        → Updates key group true before after
        → (rows : List R) → Agrees t before rows
        → Agrees t after (map set rows)
    accepted-Agrees set g h [] k = tt
    accepted-Agrees set g h (r ∷ rows) (here, k) = (
      elim (Bool-cases (text_beq (t.key r) key)) [
        | inl same ↦ g.hit r same ∙ (sym h.0 ∙ ap after (sym (g.key_kept r ∙ same_key r same)))
        | inr differs ↦
            g.miss r differs
            ∙ (here ∙ (sym (h.1 (t.key r) (other_key r differs)) ∙ ap after (sym (g.key_kept r))))
      ],
      accepted-Agrees set g h rows k,
    )

    pub rejected-Agrees :
        Updates key group false before after
        → (rows : List R) → Agrees t before rows
        → Agrees t after rows
    rejected-Agrees h [] k = tt
    rejected-Agrees h (r ∷ rows) (here, k) = (
      elim (Bool-cases (text_beq (t.key r) key)) [
        | inl same ↦
            here ∙ (ap before (same_key r same) ∙ (sym h.0 ∙ ap after (sym (same_key r same))))
        | inr differs ↦ here ∙ sym (h.1 (t.key r) (other_key r differs))
      ],
      rejected-Agrees h rows k,
    )

  -- A row that was changed disagrees with a server that does not have the group under its key.
  pub Regroups-stale :
      (after : Text → Option ℕ) (set : R → R)
      → Regroups set
      → after key ≢ group
      → (r : R) (rows : List R) → Member r rows
      → t.key r ≡ key
      → ¬ Agrees t after (map set rows)
  Regroups-stale after set g stale r [] m same h = elim m [ ]
  Regroups-stale after set g stale r (x ∷ rows) (at_head e) same h =
      let at_key : t.key x ≡ key = sym (ap t.key e) ∙ same in
      let changed = g.hit x ((text_beq_iff (t.key x) key).1 at_key) in
      stale (ap after (sym (g.key_kept x ∙ at_key)) ∙ (sym h.0 ∙ changed))
  Regroups-stale after set g stale r (x ∷ rows) (in_tail m) same h =
      Regroups-stale after set g stale r rows m same h.1
