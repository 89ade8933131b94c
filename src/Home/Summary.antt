-- ===== src/Home/Summary.antt =====
-- What `HomePage` computes from its state for the cards.
use split_proxy.Base.{
  ℕ, zero, suc, Bool, false, not, ◌&&◌, ◌||◌, Text, Option, none, some, List, [], ◌∷◌, filter, find,
  length, ltb, nat_beq, if◌then◌else◌,
}
use split_proxy.Api.{GroupItem, WorkerItem}

unfoldable pub online_workers : List WorkerItem → ℕ
online_workers workers = length (filter (λ w. w.online) workers)

unfoldable pub offline_workers : List WorkerItem → ℕ
offline_workers workers = length (filter (λ w. not w.online) workers)

unfoldable pub groups_with_problems : List GroupItem → List GroupItem
groups_with_problems = filter (λ group. ltb 0 group.offline || nat_beq group.online 0)

-- `Number(b.online) - Number(a.online) > 0`: the later one `b` belongs first.
abbrev pub belongs_first : WorkerItem → WorkerItem → Bool
belongs_first b a = b.online && not a.online

-- The stable order of `Array.prototype.sort`, by insertion from the right.
unfoldable pub insert_worker : WorkerItem → List WorkerItem → List WorkerItem
insert_worker w [] = w ∷ []
insert_worker w (v ∷ vs) = if belongs_first v w then v ∷ insert_worker w vs else w ∷ v ∷ vs

unfoldable pub sort_workers : List WorkerItem → List WorkerItem
sort_workers [] = []
sort_workers (w ∷ ws) = insert_worker w (sort_workers ws)

-- `slice(0, n)`
abbrev pub take {ℓ} : {A : Type ℓ} → ℕ → List A → List A
take zero xs = []
take (suc n) [] = []
take (suc n) (x ∷ xs) = x ∷ take n xs

unfoldable pub recent_workers : List WorkerItem → List WorkerItem
recent_workers workers = take 6 (sort_workers workers)

-- `id === group.id` for `number | null`.
abbrev pub is_group : Option ℕ → GroupItem → Bool
is_group none group = false
is_group (some id) group = nat_beq group.id id

unfoldable pub group_of : Option ℕ → List GroupItem → Option GroupItem
group_of id groups = find (is_group id) groups

-- `getGroupName(id)`; `missing` is the dash that the page shows instead.
unfoldable pub get_group_name : Text → Option ℕ → List GroupItem → Text
get_group_name missing id groups = elim (group_of id groups) [
  | none ↦ missing
  | some group ↦ group.group_name
]
