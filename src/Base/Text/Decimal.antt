-- ===== src/Base/Text/Decimal.antt =====
-- `Atoi` reads what `Itoa` writes.
use Prim.Native.Nat.{ℕ, zero, suc, ◌+◌, ◌/◌, ◌%◌, ◌^◌, ◌≤◌, ◌<◌}
use mathlib.Core.Path.{◌≡◌, refl, sym, ap, ◌∙◌}
use mathlib.Core.Logic.{inl, inr}
use mathlib.Core.Option.{some}
use mathlib.Core.List.{[], ◌∷◌}
use native.Mathlib.Omega.{arith}
use net_flux.Base.Tests.{◌==◌, Bool-cases}
use net_flux.Base.Int.{ℤ, pos, negsuc}
use net_flux.Base.Text.{Str, digits, itoa, parse_digits, atoi}

-- The value of digits that follow others depends on those only.
parse_digits-digits :
    (fuel n : ℕ) (more : Str) → n < fuel → parse_digits 0 (digits fuel n more) ≡ parse_digits n more
unfolding digits parse_digits
parse_digits-digits zero n more h = absurd (omega arith)
parse_digits-digits (suc fuel) n more h = elim (Bool-cases (n / 10 == 0)) [
  | inl last ↦ rw last (ground arith)
  | inr more_ ↦
      rw more_
        (parse_digits-digits fuel (n / 10) ((48 + n % 10) ∷ more) (ground arith) ∙ ground arith)
]

-- The first of the digits.
digits_first :
    (fuel n : ℕ) (more : Str)
    → n < fuel
    → (c : ℕ) × (s : Str) × (digits fuel n more ≡ c ∷ s) × (48 ≤ c) × (c ≤ 57)
unfolding digits
digits_first zero n more h = absurd (omega arith)
digits_first (suc fuel) n more h = elim (Bool-cases (n / 10 == 0)) [
  | inl last ↦ (48 + n % 10, more, rw last refl, omega arith, omega arith)
  | inr more_ ↦ rw more_ (digits_first fuel (n / 10) ((48 + n % 10) ∷ more) (ground arith))
]

parse_digits-first :
    (fuel n : ℕ) (c : ℕ) (s : Str)
    → n < fuel
    → digits fuel n [] ≡ c ∷ s
    → parse_digits 0 (c ∷ s) ≡ some n
parse_digits-first fuel n c s h e =
    ap (parse_digits 0) (sym e) ∙ parse_digits-digits fuel n [] h ∙ unfold parse_digits in refl

atoi_unsigned :
    (n c : ℕ) (s : Str)
    → 48 ≤ c
    → c ≤ 57
    → parse_digits 0 (c ∷ s) ≡ some n
    → n < 2 ^ 63
    → atoi (c ∷ s) ≡ some (pos n)
unfolding atoi
atoi_unsigned n c s low high read small = ground arith

atoi_minus :
    (n c : ℕ) (s : Str)
    → parse_digits 0 (c ∷ s) ≡ some (suc n)
    → n < 2 ^ 63
    → atoi (45 ∷ c ∷ s) ≡ some (negsuc n)
unfolding atoi
atoi_minus n c s read small = ground arith

-- The values that an `int` holds.
abbrev pub FitsInt : ℤ → Type 0
FitsInt (pos n) = n < 2 ^ 63
FitsInt (negsuc n) = n < 2 ^ 63

pub atoi-itoa : (v : ℤ) → FitsInt v → atoi (itoa v) ≡ some v
unfolding itoa
atoi-itoa (pos n) small =
    let (c, s, e, low, high) = digits_first (n + 1) n [] (omega arith) in
    ap atoi e
    ∙ atoi_unsigned n c s low high (parse_digits-first (n + 1) n c s (omega arith) e) small
atoi-itoa (negsuc n) small =
    let (c, s, e, low, high) = digits_first (n + 2) (n + 1) [] (omega arith) in
    ap (λ t. atoi (45 ∷ t)) e
    ∙ atoi_minus n c s
        (parse_digits-first (n + 2) (n + 1) c s (omega arith) e ∙ ap some (omega arith)) small

-- Nothing that `Itoa` writes is empty.
pub itoa_some : (v : ℤ) → (c : ℕ) × (s : Str) × (itoa v ≡ c ∷ s)
unfolding itoa
itoa_some (pos n) = let (c, s, e, _, _) = digits_first (n + 1) n [] (omega arith) in (c, s, e)
itoa_some (negsuc n) = (45, digits (n + 2) (n + 1) [], refl)
