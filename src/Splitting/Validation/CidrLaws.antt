-- ===== src/Splitting/Validation/CidrLaws.antt =====
-- What `isValidCidr` accepts, stated without its code: four octets and a prefix length.
use mathlib.Core.List.{append_assoc}
use split_proxy.Base.{
  ℕ, ◌≡◌, ◌↔◌, refl, ◌∙◌, true, false, Text, List, [], ◌∷◌, ◌++◌, All, every, arith, nat_beq_iff,
}
use split_proxy.Text.{trim, split}
use split_proxy.Text.Laws.{Free, join, split-join, split-append, join-Free}
use split_proxy.Splitting.Validation.{
  is_digit, octet_dot, prefix_length, cidr_regex, in_octet, is_valid_cidr, first_part,
}
use split_proxy.Splitting.Validation.Language.{Language, full_match_iff}
use split_proxy.Splitting.Validation.Octets.{
  IsDigits, IsOctet, decimal, IsCidr, one_to_three-IsDigits, IsDigits-one_to_three,
  prefix_length-decimal, decimal-prefix_length, in_octet_iff, IsDigits-Free,
}

-- What the whole expression describes.
record Parts (s : Text) : Type 0 where
  a : Text
  b : Text
  c : Text
  d : Text
  p : Text
  digits : All IsDigits (a ∷ b ∷ c ∷ d ∷ [])
  prefix : Language prefix_length p
  spelled : s ≡ join b'.' (a ∷ b ∷ c ∷ d ∷ []) ++ b'/' ∷ p

octet_dot-IsDigits :
    (x : Text) → Language octet_dot x → (o : Text) × (x ≡ o ++ b'.' ∷ []) × IsDigits o
octet_dot-IsDigits x (o, dot, e, lo, (c, ec, pc)) =
    (o, rw (e, ec, (nat_beq_iff c b'.').0 pc), one_to_three-IsDigits o lo)

Language-Parts : (s : Text) → Language cidr_regex s → Parts s
unfolding cidr_regex join
Language-Parts s
      (
        x,
        y,
        e,
        l,
        (x', y', e', l', (x'', y'', e'', l'', (d, z, ed, ld, (w, p, ez, (c, ew, pc), lp)))),
      ) =
    let (o, eo, ho) = octet_dot-IsDigits x l in
    let (o', eo', ho') = octet_dot-IsDigits x' l' in
    let (o'', eo'', ho'') = octet_dot-IsDigits x'' l'' in
    record {
      a = o;
      b = o';
      c = o'';
      d = d;
      p = p;
      digits = (ho, (ho', (ho'', (one_to_three-IsDigits d ld, tt))));
      prefix = lp;
      spelled =
          rw (e, eo, e', eo', e'', eo'', ed, ez, ew, (nat_beq_iff c b'/').0 pc) (simp append_assoc);
    }

octet_dot-of_IsDigits : (o : Text) → IsDigits o → Language octet_dot (o ++ b'.' ∷ [])
octet_dot-of_IsDigits o h = (o, b'.' ∷ [], refl, IsDigits-one_to_three o h, (b'.', refl, refl))

Parts-Language : (s : Text) → Parts s → Language cidr_regex s
unfolding cidr_regex join
Parts-Language s r =
    let t4 = r.d ++ b'/' ∷ r.p in
    let t3 = (r.c ++ b'.' ∷ []) ++ t4 in
    let t2 = (r.b ++ b'.' ∷ []) ++ t3 in
    (
      r.a ++ b'.' ∷ [],
      t2,
      r.spelled ∙ simp append_assoc,
      octet_dot-of_IsDigits r.a r.digits.0,
      (
        r.b ++ b'.' ∷ [],
        t3,
        refl,
        octet_dot-of_IsDigits r.b r.digits.1.0,
        (
          r.c ++ b'.' ∷ [],
          t4,
          refl,
          octet_dot-of_IsDigits r.c r.digits.1.1.0,
          (
            r.d,
            b'/' ∷ r.p,
            refl,
            IsDigits-one_to_three r.d r.digits.1.1.1.0,
            (b'/' ∷ [], r.p, refl, (b'/', refl, refl), r.prefix),
          ),
        ),
      ),
    )

All-Free : (x : ℕ) (ts : List Text) → is_digit x ≡ false → All IsDigits ts → All (Free x) ts
All-Free x [] out h = tt
All-Free x (t ∷ ts) out h = (IsDigits-Free x t out h.0.2, All-Free x ts out h.1)

-- The octets that the code takes from the text are those of the expression.
Parts-octets :
    (s : Text) (r : Parts s) → split b'.' (first_part (split b'/' s)) ≡ r.a ∷ r.b ∷ r.c ∷ r.d ∷ []
Parts-octets s r =
    let octets : List Text = r.a ∷ r.b ∷ r.c ∷ r.d ∷ [] in
    let no_slash = join-Free b'/' b'.' octets refl (All-Free b'/' octets refl r.digits) in
    rw (r.spelled, split-append b'/' (join b'.' octets) r.p no_slash)
      (split-join b'.' r.a (r.b ∷ r.c ∷ r.d ∷ []) (All-Free b'.' octets refl r.digits))

every-in_octet : (ts : List Text) → All IsDigits ts → (every in_octet ts ≡ true) ↔ All IsOctet ts
every-in_octet [] h = (λ e. tt, λ o. refl)
every-in_octet (t ∷ ts) h = (
  λ e. (
    record { digits = h.0; small = (in_octet_iff t h.0).0 (ground arith) },
    (every-in_octet ts h.1).0 (ground arith),
  ),
  λ o. rw ((in_octet_iff t h.0).1 o.0.small) ((every-in_octet ts h.1).1 o.1),
)

is_valid_cidr-IsCidr : (v : Text) → is_valid_cidr v ≡ true → IsCidr (trim v)
unfolding is_valid_cidr
is_valid_cidr-IsCidr v h =
    let r = Language-Parts (trim v) ((full_match_iff cidr_regex (trim v)).0 (ground arith)) in
    let (bits, in_range, e) = prefix_length-decimal r.p r.prefix in
    record {
      a = r.a;
      b = r.b;
      c = r.c;
      d = r.d;
      bits = bits;
      octets =
          (every-in_octet (r.a ∷ r.b ∷ r.c ∷ r.d ∷ []) r.digits).0
            (ground (arith, Parts-octets (trim v) r));
      in_range = in_range;
      spelled = rw (← e) r.spelled;
    }

IsCidr-Parts : {s : Text} → IsCidr s → Parts s
IsCidr-Parts i = record {
  a = i.a;
  b = i.b;
  c = i.c;
  d = i.d;
  p = decimal i.bits;
  digits = (
    i.octets.0.digits,
    (i.octets.1.0.digits, (i.octets.1.1.0.digits, (i.octets.1.1.1.0.digits, tt))),
  );
  prefix = decimal-prefix_length i.bits i.in_range;
  spelled = i.spelled;
}

IsCidr-is_valid_cidr : (v : Text) → IsCidr (trim v) → is_valid_cidr v ≡ true
unfolding is_valid_cidr IsCidr-Parts
IsCidr-is_valid_cidr v i =
    let r = IsCidr-Parts i in
    rw ((full_match_iff cidr_regex (trim v)).1 (Parts-Language (trim v) r), Parts-octets (trim v) r)
      ((every-in_octet (r.a ∷ r.b ∷ r.c ∷ r.d ∷ []) r.digits).1 i.octets)

-- A text is accepted exactly when it is, without the white space around it, four octets of 0 to
-- 255, each in one to three digits, with dots between them, a slash, and a number from 0 to 32
-- without a leading zero.
pub is_valid_cidr_iff : (v : Text) → (is_valid_cidr v ≡ true) ↔ IsCidr (trim v)
is_valid_cidr_iff v = (is_valid_cidr-IsCidr v, IsCidr-is_valid_cidr v)
