-- ===== src/Splitting/Tabs/Laws.antt =====
-- A chosen tab stays open in the query, and through a reload.
use split_proxy.Base.{
  ◌≡◌, ◌≢◌, refl, sym, ap, false, Text, text_beq, text_beq_iff, some, [], ◌∷◌, arith, if◌then◌else◌,
  Bool-cases, inl, inr,
}
use split_proxy.Text.{params_to_string}
use split_proxy.Text.Queries.{AreWhole, IsWhole, read_query-params_to_string}
use split_proxy.Text.Ascii.{IsAscii-IsWhole}
use split_proxy.Text.Decoding.{read_query}
use split_proxy.Splitting.Tabs.{
  Params, get_value, without_name, set_value, tab_name, active_tab, change_tab,
}

get_value-without_name :
    (name other : Text) (ps : Params)
    → text_beq name other ≡ false
    → get_value other (without_name name ps) ≡ get_value other ps
unfolding get_value without_name
get_value-without_name name other [] h = refl
get_value-without_name name other ((k, v) ∷ ps) h = elim (Bool-cases (text_beq k name)) [
  | inl same ↦
      let e = (text_beq_iff k name).0 same in
      rw (same, e, h) (get_value-without_name name other ps h)
  | inr differ ↦
      rw differ
        (ap (λ o. if text_beq k other then some v else o) (get_value-without_name name other ps h))
]

module _ (name value : Text) where
  set_value_self : (ps : Params) → get_value name (set_value name value ps) ≡ some value
  unfolding get_value set_value
  set_value_self [] = rw ((text_beq_iff name name).1 refl) refl
  set_value_self ((k, v) ∷ ps) = elim (Bool-cases (text_beq k name)) [
    | inl same ↦ rw (same, (text_beq_iff name name).1 refl) refl
    | inr differ ↦ rw (differ, differ) (set_value_self ps)
  ]

  set_value-other :
      (other : Text) (ps : Params)
      → text_beq name other ≡ false
      → get_value other (set_value name value ps) ≡ get_value other ps
  unfolding get_value set_value
  set_value-other other [] h = rw h refl
  set_value-other other ((k, v) ∷ ps) h = elim (Bool-cases (text_beq k name)) [
    | inl same ↦
        let e = (text_beq_iff k name).0 same in
        rw (same, e, h) (get_value-without_name name other ps h)
    | inr differ ↦
        rw differ (ap (λ o. if text_beq k other then some v else o) (set_value-other other ps h))
  ]

  without_name-AreWhole : (ps : Params) → AreWhole ps → AreWhole (without_name name ps)
  unfolding without_name
  without_name-AreWhole [] h = tt
  without_name-AreWhole ((k, v) ∷ ps) h = elim (Bool-cases (text_beq k name)) [
    | inl same ↦ rw same (without_name-AreWhole ps h.1)
    | inr differ ↦ rw differ (h.0, without_name-AreWhole ps h.1)
  ]

  set_value-AreWhole :
      (ps : Params)
      → IsWhole name
      → IsWhole value
      → AreWhole ps
      → AreWhole (set_value name value ps)
  unfolding set_value
  set_value-AreWhole [] n v h = ((n, v), tt)
  set_value-AreWhole ((k, w) ∷ ps) n v h = elim (Bool-cases (text_beq k name)) [
    | inl same ↦ rw same ((n, v), without_name-AreWhole ps h.1)
    | inr differ ↦ rw differ (h.0, set_value-AreWhole ps n v h.1)
  ]

text_beq_ne : (s t : Text) → t ≢ s → text_beq s t ≡ false
text_beq_ne s t h = elim (Bool-cases (text_beq s t)) [
  | inl same ↦ absurd (h (sym ((text_beq_iff s t).0 same)))
  | inr differ ↦ differ
]

-- After a change of tab in a query without lone surrogates, the address that the browser shows
-- reads back as the query, in it the page opens the chosen tab, and every other parameter is as
-- it was.
pub change_tab-active_tab :
    (key other : Text) (ps : Params)
    → IsWhole key
    → AreWhole ps
    → other ≢ tab_name
    → (read_query (params_to_string (change_tab key ps)) ≡ some (change_tab key ps))
      × ((active_tab (change_tab key ps) ≡ key)
          × (get_value other (change_tab key ps) ≡ get_value other ps))
unfolding change_tab active_tab
change_tab-active_tab key other ps k h differ = (
  read_query-params_to_string (set_value tab_name key ps)
      (set_value-AreWhole tab_name key ps (IsAscii-IsWhole tab_name (omega arith)) k h),
  (
    rw (set_value_self tab_name key ps) refl,
    set_value-other tab_name key other ps (text_beq_ne tab_name other differ),
  ),
)
