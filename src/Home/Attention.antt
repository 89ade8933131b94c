-- ===== src/Home/Attention.antt =====
-- What the cards of the dashboard say of the workers and the groups.
use split_proxy.Base.{
  ℕ, ◌+◌, ◌<◌, ◌≡◌, ◌≢◌, ◌↔◌, refl, ap, Bool, true, false, not, ◌||◌, List, [], ◌∷◌, map, filter,
  length, All, arith, ltb, nat_beq, if◌then◌else◌, Bool-cases, inl, inr,
}
use split_proxy.Api.{GroupItem, WorkerItem}
use split_proxy.Home.{
  HomePage, ConfigContext, offline_workers, groups_with_problems, take, page_loading, is_healthy,
  filled, no_problems, group_alert, offline_alert, attention,
}

none_kept {ℓ} :
    {A : Type ℓ} (p : A → Bool) (xs : List A)
    → (ltb 0 (length (filter p xs)) ≡ false) ↔ All (λ x. p x ≡ false) xs
none_kept p [] = (λ h. tt, λ h. refl)
none_kept p (x ∷ xs) = elim (Bool-cases (p x)) [
  | inl kept ↦ (λ h. absurd (ground arith), λ h. cc (h.0, kept))
  | inr dropped ↦ rw dropped (λ h. (refl, (none_kept p xs).0 h), λ h. (none_kept p xs).1 h.1)
]

-- No alert of a group says that there are no problems.
alerts-ne-calm :
    (offline : ℕ) (problems : List GroupItem)
    → (ltb 0 offline || ltb 0 (length problems)) ≡ true
    → filled (offline_alert offline (map group_alert (take 3 problems))) ≢ filled (no_problems ∷ [])
unfolding offline_alert group_alert
alerts-ne-calm offline [] h = ground arith
alerts-ne-calm offline (g ∷ gs) h = ground arith

-- A group whose workers are all online, of which there is one.
abbrev pub IsWell : GroupItem → Type 0
IsWell g = (g.offline ≡ 0) × (0 < g.online)

problem : GroupItem → Bool
problem g = ltb 0 g.offline || nat_beq g.online 0

problem-IsWell : (g : GroupItem) → (problem g ≡ false) ↔ IsWell g
unfolding problem
problem-IsWell g = (λ h. (ground arith, ground arith), λ h. ground arith)

All-iff {ℓ} :
    {A : Type ℓ} {P Q : A → Type 0} (same : (x : A) → P x ↔ Q x) (xs : List A) → All P xs ↔ All Q xs
All-iff same [] = (λ h. tt, λ h. tt)
All-iff same (x ∷ xs) =
    (λ h. ((same x).0 h.0, (All-iff same xs).0 h.1), λ h. ((same x).1 h.0, (All-iff same xs).1 h.1))

abbrev pub IsOnline : WorkerItem → Type 0
IsOnline w = w.online ≡ true

offline-IsOnline : (w : WorkerItem) → (not w.online ≡ false) ↔ IsOnline w
offline-IsOnline w = (λ h. ground arith, λ h. ground arith)

iff_trans : {A B C : Type 0} → A ↔ B → B ↔ C → A ↔ C
iff_trans f g = (λ a. g.0 (f.0 a), λ c. f.1 (g.1 c))

either_false : (a b : Bool) → ((a || b) ≡ false) ↔ ((a ≡ false) × (b ≡ false))
either_false a b = (λ h. ground arith, λ h. ground arith)

no_problems_iff :
    (gs : List GroupItem) → (ltb 0 (length (groups_with_problems gs)) ≡ false) ↔ All IsWell gs
unfolding groups_with_problems problem
no_problems_iff gs = iff_trans (none_kept problem gs) (All-iff problem-IsWell gs)

workers-IsOnline_iff :
    (ws : List WorkerItem) → (ltb 0 (offline_workers ws) ≡ false) ↔ All IsOnline ws
unfolding offline_workers
workers-IsOnline_iff ws = iff_trans (none_kept (λ w. not w.online) ws) (All-iff offline-IsOnline ws)

-- The attention card says that there are no problems exactly when the page does not load, every
-- worker that it has is online, and every group has a worker that is online and none that is not.
pub attention-calm_iff :
    (c : ConfigContext) (s : HomePage)
    → (attention c s ≡ filled (no_problems ∷ []))
      ↔ ((page_loading c s ≡ false) × (All IsOnline s.workers × All IsWell s.groups))
unfolding attention
attention-calm_iff c s =
    let offline = ltb 0 (offline_workers s.workers) in
    let problems = ltb 0 (length (groups_with_problems s.groups)) in
    let well = λ (h : All IsOnline s.workers × All IsWell s.groups).
      (either_false offline problems).1
        ((workers-IsOnline_iff s.workers).1 h.0, (no_problems_iff s.groups).1 h.1) in
    elim (Bool-cases (page_loading c s)) [
      | inl loads ↦ (λ h. cc (rw loads at h), λ h. cc (h.0, loads))
      | inr loaded ↦ elim (Bool-cases (offline || problems)) [
        | inl some_problem ↦ (
          λ h. absurd (
              alerts-ne-calm (offline_workers s.workers) (groups_with_problems s.groups)
                some_problem (rw (loaded, some_problem) at h)),
          λ h. cc (well h.1, some_problem),
        )
        | inr calm ↦ (
          λ h.
              let (a, b) = (either_false offline problems).0 calm in
              (loaded, ((workers-IsOnline_iff s.workers).0 a, (no_problems_iff s.groups).0 b)),
          λ h. rw (loaded, calm) refl,
        )
      ]
    ]

-- The server's counts of a group add up.
abbrev pub IsCounted : GroupItem → Type 0
IsCounted g = g.workers ≡ g.online + g.offline

problem-is_healthy : (g : GroupItem) → IsCounted g → problem g ≡ not (is_healthy g)
unfolding problem is_healthy
problem-is_healthy g h = ground arith

-- Where the counts of every group add up, the groups with problems, of which the attention card
-- shows the first three, are those whose row is not marked healthy, in their order.
pub groups_with_problems-is_healthy :
    (gs : List GroupItem)
    → All IsCounted gs
    → groups_with_problems gs ≡ filter (λ g. not (is_healthy g)) gs
unfolding groups_with_problems problem
groups_with_problems-is_healthy [] h = refl
groups_with_problems-is_healthy (g ∷ gs) h =
    rw (problem-is_healthy g h.0)
      (ap (λ t. if not (is_healthy g) then g ∷ t else t) (groups_with_problems-is_healthy gs h.1))
