-- ===== src/Home/Figures.antt =====
-- The percentages and the counts of the dashboard.
use split_proxy.Base.{
  ◌+◌, ◌≤◌, ◌≡◌, ◌∙◌, ap, Bool, true, false, not, ◌&&◌, Option, none, some, List, [], ◌∷◌, map,
  filter, length, All, arith, ltb, if◌then◌else◌, Bool-cases, inl, inr,
}
use split_proxy.Api.{GroupItem, WorkerItem}
use split_proxy.Home.{
  HomePage, ConfigContext, online_workers, offline_workers, percent, is_healthy, page_loading,
  GroupRow, group_row, Card, skeleton, empty, filled, worker_groups, Availability,
  availability_card,
}
use split_proxy.Home.Percent.{percent-bounds, percent-full}
use split_proxy.Home.Attention.{IsCounted}

abbrev pub rows : {A : Type 0} → Card A → List A
rows skeleton = []
rows (empty key) = []
rows (filled xs) = xs

abbrev pub IsAtMostAll : GroupRow → Type 0
IsAtMostAll r = r.percentage ≤ 100

abbrev pub IsFull : GroupRow → Type 0
IsFull r = r.percentage ≡ 100

-- No row is over 100 percent, and the healthy ones are at 100.
abbrev pub AreFigures : List GroupRow → Type 0
AreFigures rs = All IsAtMostAll rs × All IsFull (filter (λ r. r.healthy) rs)

healthy-IsFull : (g : GroupItem) → IsCounted g → is_healthy g ≡ true → IsFull (group_row g)
unfolding group_row is_healthy
healthy-IsFull g counted healthy =
    let all_online : g.online ≡ g.workers = ground (arith, counted, healthy) in
    ap (λ n. percent n g.workers) all_online ∙ percent-full g.workers (ground (arith, healthy))

group_row-AreFigures : (gs : List GroupItem) → All IsCounted gs → AreFigures (map group_row gs)
unfolding group_row
group_row-AreFigures [] h = (tt, tt)
group_row-AreFigures (g ∷ gs) h =
    let rest = group_row-AreFigures gs h.1 in
    let at_most = percent-bounds g.online g.workers (omega arith) in
    elim (Bool-cases (is_healthy g)) [
      | inl healthy ↦ rw healthy ((at_most, rest.0), (healthy-IsFull g h.0 healthy, rest.1))
      | inr degraded ↦ rw degraded ((at_most, rest.0), rest.1)
    ]

counted-AreFigures :
    (loading : Bool) (gs : List GroupItem)
    → All IsCounted gs
    → AreFigures (
        rows (
          if loading then skeleton else elim gs [
            | [] ↦ empty "homePage.noGroups"
            | g ∷ hs ↦ filled (map group_row (g ∷ hs))
          ]))
counted-AreFigures true gs h = (tt, tt)
counted-AreFigures false [] h = (tt, tt)
counted-AreFigures false (g ∷ gs) h = group_row-AreFigures (g ∷ gs) h

-- Every worker that the page has is counted once.
online-add-offline : (ws : List WorkerItem) → online_workers ws + offline_workers ws ≡ length ws
unfolding online_workers offline_workers
online-add-offline [] = omega arith
online-add-offline (w ∷ ws) = elim (Bool-cases w.online) [
  | inl on ↦ simp on (omega (arith, online-add-offline ws))
  | inr off ↦ simp off (omega (arith, online-add-offline ws))
]

-- A card of all workers, where it is shown: its percentage, and that it counts the workers that the
-- page has.
abbrev pub IsAvailability : HomePage → Option Availability → Type 0
IsAvailability s none = Unit
IsAvailability s (some a) = (a.availability ≤ 100) × (a.online + a.offline ≡ length s.workers)

-- Where the counts of every group add up and the server has at least the workers that the page
-- has: no group's row is over 100 percent, and that of a group which is marked healthy is at 100;
-- and the card of all workers, where it is shown, is not over 100 percent and counts as online and
-- offline together the workers that the page has, not those that the server has.
pub figures-bounded :
    (c : ConfigContext) (s : HomePage)
    → All IsCounted s.groups
    → length s.workers ≤ s.worker_count
    → AreFigures (rows (worker_groups c s)) × IsAvailability s (availability_card c s)
unfolding worker_groups availability_card
figures-bounded c s counted enough =
    let sum = online-add-offline s.workers in
    let at_most = percent-bounds (online_workers s.workers) s.worker_count (omega (arith, sum)) in
    (
      counted-AreFigures (page_loading c s) s.groups counted,
      elim (Bool-cases (not (page_loading c s) && ltb 0 s.worker_count)) [
        | inl shown ↦ rw shown (at_most, sum)
        | inr hidden ↦ rw hidden tt
      ],
    )
