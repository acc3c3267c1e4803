-- ===== src/Base/Text/Trim.antt =====
-- `TrimSpace` leaves nothing more to trim.
use Prim.Native.Nat.{ℕ}
use mathlib.Core.Path.{◌≡◌, refl, ap, ◌∙◌}
use mathlib.Core.Logic.{◌⊎◌, inl, inr}
use mathlib.Core.Bool.{false}
use mathlib.Core.List.{[], ◌∷◌, ◌++◌, reverse, reverse-append, reverse-reverse}
use native.Mathlib.Omega.{arith}
use net_flux.Base.Tests.{Bool-cases}
use net_flux.Base.Text.{Str, is_space, trim_left, trim_space}

-- What is left on the left is empty or starts with something else than a space.
abbrev IsLeftTrimmed : Str → Type 0
IsLeftTrimmed [] = Unit {0}
IsLeftTrimmed (c ∷ s) = is_space c ≡ false

trim_left-IsLeftTrimmed : (s : Str) → IsLeftTrimmed (trim_left s)
unfolding trim_left
trim_left-IsLeftTrimmed [] = tt
trim_left-IsLeftTrimmed (c ∷ s) = elim (Bool-cases (is_space c)) [
  | inl space ↦ rw space (trim_left-IsLeftTrimmed s)
  | inr other ↦ rw other other
]

trim_left_same : (s : Str) → IsLeftTrimmed s → trim_left s ≡ s
unfolding trim_left
trim_left_same [] trimmed = refl
trim_left_same (c ∷ s) other = rw other refl

trim_left-last :
    (s : Str) (c : ℕ) → is_space c ≡ false → trim_left (s ++ (c ∷ [])) ≡ trim_left s ++ (c ∷ [])
unfolding trim_left
trim_left-last [] c other = rw other refl
trim_left-last (b ∷ s) c other = ground (arith, trim_left-last s c other)

-- Texts of which nothing can be trimmed, seen from their first character.
trim_space-starts :
    (c : ℕ) (w : Str)
    → is_space c ≡ false
    → trim_space (c ∷ reverse (trim_left w)) ≡ c ∷ reverse (trim_left w)
unfolding trim_space
trim_space-starts c w other =
    let u = trim_left w in
    let back = reverse-append (c ∷ []) (reverse u) ∙ ap (λ x. x ++ (c ∷ [])) (reverse-reverse u) in
    let kept =
      trim_left-last u c other
      ∙ ap (λ x. x ++ (c ∷ [])) (trim_left_same u (trim_left-IsLeftTrimmed w)) in
    ap (λ x. reverse (trim_left (reverse x))) (trim_left_same (c ∷ reverse u) other)
    ∙ ap (λ x. reverse (trim_left x)) back
    ∙ ap reverse kept
    ∙ reverse-append u (c ∷ [])

-- The right end of a text whose left end is trimmed.
trim_right_cases :
    (u : Str)
    → IsLeftTrimmed u
    → (reverse (trim_left (reverse u)) ≡ [])
      ⊎ ((c : ℕ) × (w : Str) × (is_space c ≡ false)
          × (reverse (trim_left (reverse u)) ≡ c ∷ reverse (trim_left w)))
unfolding trim_left
trim_right_cases [] trimmed = inl refl
trim_right_cases (c ∷ u) other = inr (
  c,
  reverse u,
  other,
  ap (λ x. reverse (trim_left x)) (reverse-append (c ∷ []) u)
      ∙ ap reverse (trim_left-last (reverse u) c other)
      ∙ reverse-append (trim_left (reverse u)) (c ∷ []),
)

pub trim_space_idem : (s : Str) → trim_space (trim_space s) ≡ trim_space s
unfolding trim_space
trim_space_idem s = elim (trim_right_cases (trim_left s) (trim_left-IsLeftTrimmed s)) [
  | inl e ↦ rw e (unfold trim_space in unfold trim_left in refl)
  | inr (c, w, other, e) ↦ rw e (trim_space-starts c w other)
]
