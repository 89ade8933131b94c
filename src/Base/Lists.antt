-- ===== src/Base/Lists.antt =====
-- Lists measured by native numbers, and the predicates and searches that the pages use.
use Prim.Native.Nat.{ℕ, suc, ◌+◌}
use mathlib.Core.Path.{◌≡◌, refl, ap}
use mathlib.Core.Bool.{Bool, true, false, ◌&&◌, ◌||◌}
use mathlib.Core.Option.{Option, none, some}
use mathlib.Core.List.{List, [], ◌∷◌, ◌++◌, map}
use native.Mathlib.Omega.{arith}
use split_proxy.Base.Tests.{if◌then◌else◌}

module _ {ℓ} {A : Type ℓ} where
  abbrev pub length : List A → ℕ
  length [] = 0
  length (x ∷ xs) = suc (length xs)

  -- `xs.filter(p)`
  abbrev pub filter : (A → Bool) → List A → List A
  filter p [] = []
  filter p (x ∷ xs) = if p x then x ∷ filter p xs else filter p xs

  -- `xs.every(p)`
  abbrev pub every : (A → Bool) → List A → Bool
  every p [] = true
  every p (x ∷ xs) = p x && every p xs

  -- `xs.some(p)`
  abbrev pub any : (A → Bool) → List A → Bool
  any p [] = false
  any p (x ∷ xs) = p x || any p xs

  -- `xs.find(p)`, with `none` for `undefined`.
  abbrev pub find : (A → Bool) → List A → Option A
  find p [] = none
  find p (x ∷ xs) = if p x then some x else find p xs

  -- Membership, with the place kept.
  pub data Member (a : A) : List A → Type ℓ where
    at_head : {x : A} {xs : List A} → a ≡ x → Member a (x ∷ xs)
    in_tail : {x : A} {xs : List A} → Member a xs → Member a (x ∷ xs)

  -- `xs.filter((_, index) => test(results[index]))`, the tests' results in a list.
  abbrev pub select : List Bool → List A → List A
  select bs [] = []
  select [] (x ∷ xs) = []
  select (b ∷ bs) (x ∷ xs) = if b then x ∷ select bs xs else select bs xs

  abbrev pub All {κ} : (A → Type κ) → List A → Type κ
  All P [] = Unit
  All P (x ∷ xs) = P x × All P xs

  pub length-append : (xs ys : List A) → length (xs ++ ys) ≡ length xs + length ys
  length-append [] ys = omega arith
  length-append (x ∷ xs) ys = omega (arith, length-append xs ys)

-- The truth of `undefined` or a string: an empty string is false.
abbrev pub is_truthy {ℓ} : {A : Type ℓ} → Option (List A) → Bool
is_truthy none = false
is_truthy (some []) = false
is_truthy (some (x ∷ xs)) = true

-- `results.reduce((count, result) => count + (result ? 1 : 0), 0)`
abbrev pub count_true : List Bool → ℕ
count_true [] = 0
count_true (b ∷ bs) = (if b then 1 else 0) + count_true bs

module _ {ℓ κ} {A : Type ℓ} {B : Type κ} where
  pub length-map : (f : A → B) (xs : List A) → length (map f xs) ≡ length xs
  length-map f [] = refl
  length-map f (x ∷ xs) = ap suc (length-map f xs)

  -- `xs.flatMap(f)`
  abbrev pub flat_map : (A → List B) → List A → List B
  flat_map f [] = []
  flat_map f (x ∷ xs) = f x ++ flat_map f xs
