-- ===== src/Home/Doubles.antt =====
-- The language's numbers where `HomePage` divides counts, multiplies by 100 and rounds: binary
-- floating point with 53 bits (IEEE 754), for counts below 2 ^ 53, which are exact.
use split_proxy.Base.{ℕ, zero, suc, ◌+◌, ◌-◌, ◌*◌, ◌/◌, ◌%◌, ◌^◌, ltb, leb, if◌then◌else◌}

-- The number `mantissa / 2 ^ exponent`.
pub record Double : Type 0 where
  pub mantissa : ℕ
  pub exponent : ℕ

-- The whole number next to `x / d`, and the even one of two that are equally near.
unfoldable pub nearest : ℕ → ℕ → ℕ
nearest x d =
    let q = x / d in
    let r = x % d in if ltb (2 * r) d then q else if ltb d (2 * r) then q + 1 else q + q % 2

-- How often `n` is doubled until `n / d` has 53 bits in front of the point, at most `fuel` times.
unfoldable pub places : ℕ → ℕ → ℕ → ℕ
places zero n d = 0
places (suc fuel) n d =
    let rest = places fuel (2 * n) d in if leb (2 ^ 52 * d) n then 0 else suc rest

-- How many bits `n` has over 53, at most `fuel`.
unfoldable pub excess : ℕ → ℕ → ℕ
excess zero n = 0
excess (suc fuel) n = let rest = excess fuel (n / 2) in if ltb n (2 ^ 53) then 0 else suc rest

-- `a / b`: the quotient of two counts has 53 bits after at most 105 doublings.
unfoldable pub ratio : ℕ → ℕ → Double
ratio a b = let e = places 106 a b in record { mantissa = nearest (a * 2 ^ e) b; exponent = e }

-- `x * 100`: 100 has 7 bits.
unfoldable pub hundredfold : Double → Double
hundredfold x =
    let m = x.mantissa * 100 in
    let k = excess 7 m in
    record { mantissa = nearest m (2 ^ k) * 2 ^ (k - x.exponent); exponent = x.exponent - k }

-- `Math.round(x)`: the next whole number, and the larger of two that are equally near.
unfoldable pub round : Double → ℕ
round x = (2 * x.mantissa + 2 ^ x.exponent) / (2 * 2 ^ x.exponent)

-- `total > 0 ? Math.round((part / total) * 100) : 0`
unfoldable pub percent : ℕ → ℕ → ℕ
percent part total = if ltb 0 total then round (hundredfold (ratio part total)) else 0
