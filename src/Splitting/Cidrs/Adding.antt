-- ===== src/Splitting/Cidrs/Adding.antt =====
-- The requests that `handleAddCidrs` can send.
use split_proxy.Base.{
  ℕ, ◌≡◌, ◌≢◌, ◌⊎◌, inl, inr, refl, true, false, not, Text, Option, none, some, List, [], ◌∷◌, any,
  All, length, arith, nat_beq, Bool-cases,
}
use split_proxy.Api.{
  ApiCall, CidrRule, Paginated, PaginationParams, get_list_cidr, add_cidrs, Outcome, fulfilled,
  rejected,
}
use split_proxy.Script.{◌>>=◌}
use split_proxy.Script.Run.{Surroundings, run, Event, sent}
use split_proxy.Script.Sends.{Sends, sending}
use split_proxy.Splitting.Validation.{is_valid_cidr}
use split_proxy.Splitting.Cidrs.{
  CidrsTab, cidrs_loaded, load_cidrs, entered_cidrs, to_first_page, cidrs_added, submit_cidrs,
  handle_add_cidrs,
}

abbrev pub Valid : Text → Type 0
Valid cidr = is_valid_cidr cidr ≡ true

-- A reload, or the addition of the entered ranges to the chosen group, where there are some, and
-- each is valid.
abbrev pub Requested : CidrsTab → ApiCall → Type 0
Requested c q =
    ((params : PaginationParams) × (q ≡ get_list_cidr params))
    ⊎ ((group : ℕ) × ((c.cidr_group ≡ some group)
          × ((q ≡ add_cidrs (entered_cidrs c.new_cidr) group)
              × ((entered_cidrs c.new_cidr ≢ []) × All Valid (entered_cidrs c.new_cidr)))))

cidrs_loaded-Sends :
    {P : ApiCall → Type 0} (o : Outcome (Paginated CidrRule)) → Sends P (cidrs_loaded o)
unfolding cidrs_loaded
cidrs_loaded-Sends (fulfilled r) = search sending depth 8
cidrs_loaded-Sends (rejected e) = search sending

module _ {P : ApiCall → Type 0}
    (reloads : (params : PaginationParams) → P (get_list_cidr params)) where
  load_cidrs-Sends : (c : CidrsTab) → Sends P (load_cidrs c)
  unfolding load_cidrs
  load_cidrs-Sends c = search (sending, cidrs_loaded-Sends, reloads) depth 8

  to_first_page-Sends : (c : CidrsTab) → Sends P (to_first_page c)
  unfolding to_first_page
  to_first_page-Sends c = search (sending, load_cidrs-Sends)

  cidrs_added-Sends : (c : CidrsTab) (o : Outcome (Unit {0})) → Sends P (cidrs_added c o)
  unfolding cidrs_added
  cidrs_added-Sends c (fulfilled _) = search (sending, to_first_page-Sends) depth 10
  cidrs_added-Sends c (rejected e) = search sending

  submit_cidrs-Sends :
      (c : CidrsTab) (cidrs : List Text) (chosen : Option ℕ)
      → ((group : ℕ) → chosen ≡ some group → P (add_cidrs cidrs group))
      → Sends P (submit_cidrs c cidrs chosen)
  unfolding submit_cidrs
  submit_cidrs-Sends c cidrs none h = search sending
  submit_cidrs-Sends c cidrs (some group) h =
      let p = h group refl in search (sending, cidrs_added-Sends, p) depth 8

any-Valid :
    (cidrs : List Text) → any (λ cidr. not (is_valid_cidr cidr)) cidrs ≡ false → All Valid cidrs
any-Valid [] h = tt
any-Valid (cidr ∷ cidrs) h = (ground arith, any-Valid cidrs (ground arith))

-- Whatever the server answers, the only requests of the add button are reloads and the addition of
-- the entered ranges to the chosen group, and the latter only where there is a range, a group is
-- chosen, and every range is valid.
pub handle_add_cidrs-Requested : (c : CidrsTab) → Sends (Requested c) (handle_add_cidrs c)
unfolding handle_add_cidrs
handle_add_cidrs-Requested c =
    let cidrs = entered_cidrs c.new_cidr in
    elim (Bool-cases (nat_beq (length cidrs) 0)) [
      | inl empty ↦ rw empty (search sending)
      | inr filled ↦ elim (Bool-cases (any (λ cidr. not (is_valid_cidr cidr)) cidrs)) [
        | inl invalid ↦ rw (filled, invalid) (search sending)
        | inr valid ↦
            rw (filled, valid)
              (submit_cidrs-Sends (λ params. inl (params, refl)) c cidrs c.cidr_group
                (λ group e.
                  inr (group, (e, (refl, (λ n. ground (arith, n), any-Valid cidrs valid))))))
      ]
    ]

any-none :
    (cidrs : List Text) → All Valid cidrs → any (λ cidr. not (is_valid_cidr cidr)) cidrs ≡ false
any-none [] h = refl
any-none (cidr ∷ cidrs) h = rw h.0 (any-none cidrs h.1)

-- Where there are entered ranges, all of them valid, and a group is chosen, the first request of
-- the add button is the addition of those ranges to that group.
pub handle_add_cidrs-sent :
    {W : Type 0} (t : Surroundings W) (c s : CidrsTab) (w : W) (group : ℕ)
    → entered_cidrs c.new_cidr ≢ []
    → All Valid (entered_cidrs c.new_cidr)
    → c.cidr_group ≡ some group
    → (rest : List Event) × ((run t (handle_add_cidrs c) s w).events
        ≡ sent (add_cidrs (entered_cidrs c.new_cidr) group) ∷ rest)
unfolding handle_add_cidrs submit_cidrs ◌>>=◌
handle_add_cidrs-sent t c s w group ne valid chosen =
    elim (Bool-cases (nat_beq (length (entered_cidrs c.new_cidr)) 0)) [
      | inl empty ↦ absurd (ne (ground arith))
      | inr filled ↦ rw (filled, any-none (entered_cidrs c.new_cidr) valid, chosen) (_, refl)
    ]
