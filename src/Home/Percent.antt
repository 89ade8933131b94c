-- ===== src/Home/Percent.antt =====
-- How large the rounded percentages of `HomePage` are, and how exact their quotients.
use native.Mathlib.Nat.{
  pow-suc, one-le-pow, div-add-mod, div-le_of_le-mul, div-eq_of_lt-le, mul-div_cancel, mul-mod_left,
  mul-le-mul_right, div-lt_iff_lt-mul,
}
use split_proxy.Base.{
  ℕ, zero, suc, ◌+◌, ◌-◌, ◌*◌, ◌/◌, ◌%◌, ◌^◌, ◌≤◌, ◌<◌, ◌≡◌, refl, ◌∙◌, ap, true, arith, ltb, leb,
  Bool-cases, inl, inr,
}
use split_proxy.Home.Doubles.{Double, nearest, places, excess, ratio, hundredfold, round, percent}

pow_pos : (e : ℕ) → 0 < 2 ^ e
pow_pos e = one-le-pow e 2 (omega arith)

pow_split : (j k : ℕ) → 2 ^ (j + k) ≡ 2 ^ j * 2 ^ k
pow_split j zero = grind arith
pow_split j (suc k) = grind (arith, pow-suc 2 k, pow-suc 2 (j + k), pow_split j k)

div-lt-of_rest : (x d k : ℕ) → 0 < x % d → x ≤ k * d → x / d < k
div-lt-of_rest x d k rest h = elim (Bool-cases (ltb (x / d) k)) [
  | inl below ↦ ground arith
  | inr above ↦
      let much : k * d ≤ x / d * d = mul-le-mul_right d (ground (arith, above)) in
      absurd (grind (arith, div-add-mod x d, much))
]

pow_shift : (n k : ℕ) → n * 2 ^ suc k ≡ 2 * n * 2 ^ k
pow_shift n k = grind (arith, pow-suc 2 k)

-- A quotient of at most `k` is rounded to at most `k`.
nearest-le : (x d k : ℕ) → 0 < d → x ≤ k * d → nearest x d ≤ k
unfolding nearest
nearest-le x d k pos h = elim (Bool-cases (ltb (2 * (x % d)) d)) [
  | inl down ↦ rw down (div-le_of_le-mul d (grind (arith, h)))
  | inr up ↦ let below = div-lt-of_rest x d k (ground (arith, up, pos)) h in ground (arith, below)
]

excess-le : (fuel n e : ℕ) → n < 2 ^ 53 * 2 ^ e → excess fuel n ≤ e
unfolding excess
excess-le zero n e h = omega arith
excess-le (suc fuel) n zero h = elim (Bool-cases (ltb n (2 ^ 53))) [
  | inl small ↦ rw small (omega arith)
  | inr big ↦ absurd (ground arith)
]
excess-le (suc fuel) n (suc e) h = elim (Bool-cases (ltb n (2 ^ 53))) [
  | inl small ↦ rw small (omega arith)
  | inr big ↦ rw big (
      let less : n / 2 < 2 ^ 53 * 2 ^ e = omega (arith, pow-suc 2 e) in
      omega (arith, excess-le fuel (n / 2) e less))
]

places-full : (fuel n d : ℕ) → 2 ^ 52 * d ≤ n * 2 ^ fuel → 2 ^ 52 * d ≤ n * 2 ^ places fuel n d
unfolding places
places-full zero n d h = h
places-full (suc fuel) n d h = elim (Bool-cases (leb (2 ^ 52 * d) n)) [
  | inl enough ↦ rw enough (ground arith)
  | inr few ↦
      rw (few, pow_shift n (places fuel (2 * n) d))
        (places-full fuel (2 * n) d (grind (arith, pow_shift n fuel, h)))
]

-- The quotient of two counts that are not zero has the full 53 bits.
pub ratio-full : (a b : ℕ) → 0 < a → b < 2 ^ 53 → 2 ^ 52 * b ≤ a * 2 ^ (ratio a b).exponent
unfolding ratio
ratio-full a b pos h = places-full 106 a b (omega arith)

nearest_exact : (k d : ℕ) → 0 < d → nearest (k * d) d ≡ k
unfolding nearest
nearest_exact k d pos = rw (mul-div_cancel k pos, mul-mod_left k d) (ground (arith, pos))

-- The number is at most `n`, and it is `n`.
abbrev AtMost : ℕ → Double → Type 0
AtMost n x = x.mantissa ≤ n * 2 ^ x.exponent

abbrev Is : ℕ → Double → Type 0
Is n x = x.mantissa ≡ n * 2 ^ x.exponent

ratio-AtMost : (a b : ℕ) → 0 < b → a ≤ b → AtMost 1 (ratio a b)
unfolding ratio
ratio-AtMost a b pos h =
    let e = places 106 a b in
    nearest-le (a * 2 ^ e) b (1 * 2 ^ e) pos (grind (arith, mul-le-mul_right (2 ^ e) h))

ratio-Is : (a : ℕ) → 0 < a → Is 1 (ratio a a)
unfolding ratio
ratio-Is a pos =
    let e = places 106 a a in ap (λ x. nearest x a) (grind arith) ∙ nearest_exact (1 * 2 ^ e) a pos

pow_split_times : (j k : ℕ) → 100 * 2 ^ (j + k) ≡ 100 * 2 ^ j * 2 ^ k
pow_split_times j k = grind (arith, pow_split j k)

-- `k` bits are dropped of a number below 2 ^ e.
hundred_split : (e k : ℕ) → k ≤ e → 100 * 2 ^ e ≡ 100 * 2 ^ (e - k) * 2 ^ k
hundred_split e k h =
    let back : e - k + k ≡ e = omega arith in rw (← pow_split_times (e - k) k, back) refl

kept_exponent : (e k : ℕ) → k ≤ e → (n : ℕ) → n * 2 ^ (k - e) ≡ n
kept_exponent e k h n = let none_left : k - e ≡ 0 = omega arith in rw none_left (omega arith)

excess-le-exponent : (x : Double) → AtMost 1 x → excess 7 (x.mantissa * 100) ≤ x.exponent
excess-le-exponent x h =
    excess-le 7 (x.mantissa * 100) x.exponent (omega (arith, pow_pos x.exponent, h))

hundredfold-AtMost : (x : Double) → AtMost 1 x → AtMost 100 (hundredfold x)
unfolding hundredfold
hundredfold-AtMost x h =
    let k = excess 7 (x.mantissa * 100) in
    let small = excess-le-exponent x h in
    rw (kept_exponent x.exponent k small (nearest (x.mantissa * 100) (2 ^ k))) (
      nearest-le (x.mantissa * 100) (2 ^ k) (100 * 2 ^ (x.exponent - k)) (pow_pos k)
        (omega (arith, hundred_split x.exponent k small, h)))

hundredfold-Is : (x : Double) → Is 1 x → Is 100 (hundredfold x)
unfolding hundredfold
hundredfold-Is x h =
    let k = excess 7 (x.mantissa * 100) in
    let small = excess-le-exponent x (omega (arith, h)) in
    let whole : x.mantissa * 100 ≡ 100 * 2 ^ (x.exponent - k) * 2 ^ k =
      omega (arith, hundred_split x.exponent k small, h) in
    kept_exponent x.exponent k small (nearest (x.mantissa * 100) (2 ^ k))
    ∙ (ap (λ n. nearest n (2 ^ k)) whole
        ∙ nearest_exact (100 * 2 ^ (x.exponent - k)) (2 ^ k) (pow_pos k))

round-AtMost : (n : ℕ) (x : Double) → AtMost n x → round x ≤ n
unfolding round
round-AtMost n x h =
    let pos : 0 < 2 * 2 ^ x.exponent = omega (arith, pow_pos x.exponent) in
    let less : (2 * x.mantissa + 2 ^ x.exponent) / (2 * 2 ^ x.exponent) < suc n =
      (div-lt_iff_lt-mul pos).1 (grind (arith, pow_pos x.exponent, h)) in
    omega (arith, less)

round-Is : (n : ℕ) (x : Double) → Is n x → round x ≡ n
unfolding round
round-Is n x h =
    div-eq_of_lt-le (2 * 2 ^ x.exponent) (grind (arith, h)) (grind (arith, pow_pos x.exponent, h))

-- A part of a total has at most 100 percent of it.
pub percent-bounds : (part total : ℕ) → part ≤ total → percent part total ≤ 100
unfolding percent
percent-bounds part total h = elim (Bool-cases (ltb 0 total)) [
  | inl some_workers ↦ rw some_workers (
      round-AtMost 100 (hundredfold (ratio part total))
        (hundredfold-AtMost (ratio part total) (ratio-AtMost part total (ground arith) h)))
  | inr no_workers ↦ rw no_workers (omega arith)
]

-- A total that is not zero has 100 percent of itself.
pub percent-full : (total : ℕ) → 0 < total → percent total total ≡ 100
unfolding percent
percent-full total pos =
    let some_workers : ltb 0 total ≡ true = ground arith in
    rw some_workers (
      round-Is 100 (hundredfold (ratio total total))
        (hundredfold-Is (ratio total total) (ratio-Is total pos)))
