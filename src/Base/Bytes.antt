-- ===== src/Base/Bytes.antt =====
-- Byte sequences: what the sources use of Go's `copy` and of the package encoding/binary.
use Prim.Native.Nat.{ℕ, zero, suc, ◌+◌, ◌*◌, ◌/◌, ◌%◌, ◌^◌, ◌≤◌, ◌<◌}
use mathlib.Core.Path.{◌≡◌, refl, ap, ◌∙◌}
use mathlib.Core.List.{List, [], ◌∷◌, ◌++◌, reverse, reverse-reverse}
use native.Mathlib.Nat.{pow-suc, zero-add, suc-add}
use native.Mathlib.Omega.{arith}
use net_flux.Base.Lists.{length, take, drop, length-reverse}

module _ {ℓ} {A : Type ℓ} where
  -- `copy(dst, src)`: the shorter length decides.
  unfoldable pub copy : List A → List A → List A
  copy [] src = []
  copy (x ∷ dst) [] = x ∷ dst
  copy (x ∷ dst) (y ∷ src) = y ∷ copy dst src

  -- `copy(dst[at:], src)`.
  unfoldable pub copy_at : List A → ℕ → List A → List A
  copy_at dst zero src = copy dst src
  copy_at [] (suc i) src = []
  copy_at (x ∷ dst) (suc i) src = x ∷ copy_at dst i src

  -- `buff[from : from + n]`.
  unfoldable pub slice : List A → ℕ → ℕ → List A
  slice buff from n = take n (drop from buff)

module _ {ℓ} {A : Type ℓ} where
  pub length-copy : (dst src : List A) → length (copy dst src) ≡ length dst
  unfolding copy
  length-copy [] src = refl
  length-copy (x ∷ dst) [] = refl
  length-copy (x ∷ dst) (y ∷ src) = ap suc (length-copy dst src)

  pub length-copy_at :
      (dst : List A) (i : ℕ) (src : List A) → length (copy_at dst i src) ≡ length dst
  unfolding copy_at
  length-copy_at dst zero src = length-copy dst src
  length-copy_at [] (suc i) src = refl
  length-copy_at (x ∷ dst) (suc i) src = ap suc (length-copy_at dst i src)

  pub take-copy :
      (dst src : List A) → length src ≤ length dst → take (length src) (copy dst src) ≡ src
  unfolding copy
  take-copy dst [] h = refl
  take-copy [] (y ∷ src) h = absurd (omega arith)
  take-copy (x ∷ dst) (y ∷ src) h = ap (◌∷◌ y) (take-copy dst src (omega arith))

  -- What was copied is read back.
  pub slice-copy_at :
      (dst : List A) (i : ℕ) (src : List A)
      → i + length src ≤ length dst
      → slice (copy_at dst i src) i (length src) ≡ src
  unfolding slice copy_at
  slice-copy_at dst zero src h = take-copy dst src (omega arith)
  slice-copy_at [] (suc i) src h = absurd (omega arith)
  slice-copy_at (x ∷ dst) (suc i) src h = slice-copy_at dst i src (omega arith)

  -- What lies before the target is left alone.
  pub take-copy_at : (dst : List A) (i : ℕ) (src : List A) → take i (copy_at dst i src) ≡ take i dst
  unfolding copy_at
  take-copy_at dst zero src = refl
  take-copy_at [] (suc i) src = refl
  take-copy_at (x ∷ dst) (suc i) src = ap (◌∷◌ x) (take-copy_at dst i src)

  drop-copy : (dst src : List A) → drop (length src) (copy dst src) ≡ drop (length src) dst
  unfolding copy
  drop-copy [] [] = refl
  drop-copy [] (y ∷ src) = refl
  drop-copy (x ∷ dst) [] = refl
  drop-copy (x ∷ dst) (y ∷ src) = drop-copy dst src

  -- Nor does what lies behind it change.
  pub drop-copy_at :
      (dst : List A) (i : ℕ) (src : List A)
      → drop (length src) (drop i (copy_at dst i src)) ≡ drop (length src) (drop i dst)
  unfolding copy_at
  drop-copy_at dst zero src = drop-copy dst src
  drop-copy_at [] (suc i) src = refl
  drop-copy_at (x ∷ dst) (suc i) src = drop-copy_at dst i src

  copy-append : (dst xs ys : List A) → copy_at (copy dst xs) (length xs) ys ≡ copy dst (xs ++ ys)
  unfolding copy copy_at
  copy-append [] [] [] = refl
  copy-append [] [] (y ∷ ys) = refl
  copy-append [] (x ∷ xs) ys = refl
  copy-append (d ∷ dst) [] ys = refl
  copy-append (d ∷ dst) (x ∷ xs) ys = ap (◌∷◌ x) (copy-append dst xs ys)

  -- Two copies in a row are one copy of both.
  pub copy_at-append :
      (dst : List A) (i : ℕ) (xs ys : List A)
      → copy_at (copy_at dst i xs) (i + length xs) ys ≡ copy_at dst i (xs ++ ys)
  unfolding copy_at
  copy_at-append dst zero xs ys = rw zero-add (copy-append dst xs ys)
  copy_at-append [] (suc i) xs ys = rw suc-add refl
  copy_at-append (d ∷ dst) (suc i) xs ys = rw suc-add (ap (◌∷◌ d) (copy_at-append dst i xs ys))

  pub take-append_length : (xs ys : List A) → take (length xs) (xs ++ ys) ≡ xs
  take-append_length [] ys = refl
  take-append_length (x ∷ xs) ys = ap (◌∷◌ x) (take-append_length xs ys)

  pub drop-append_length : (xs ys : List A) → drop (length xs) (xs ++ ys) ≡ ys
  drop-append_length [] ys = refl
  drop-append_length (x ∷ xs) ys = drop-append_length xs ys

-- `binary.LittleEndian.PutUint16/32/64` at n = 2, 4, 8: the n low bytes, lowest first.
unfoldable pub put_le : ℕ → ℕ → List ℕ
put_le zero v = []
put_le (suc n) v = v % 256 ∷ put_le n (v / 256)

-- `binary.LittleEndian.Uint16/32/64`.
unfoldable pub get_le : List ℕ → ℕ
get_le [] = 0
get_le (b ∷ bs) = b + 256 * get_le bs

-- The big-endian forms are the same bytes, highest first.
unfoldable pub put_be : ℕ → ℕ → List ℕ
put_be n v = reverse (put_le n v)

unfoldable pub get_be : List ℕ → ℕ
get_be bs = get_le (reverse bs)

pub length-put_le : (n v : ℕ) → length (put_le n v) ≡ n
unfolding put_le
length-put_le zero v = refl
length-put_le (suc n) v = ap suc (length-put_le n (v / 256))

pub get_le-put_le : (n v : ℕ) → v < 256 ^ n → get_le (put_le n v) ≡ v
unfolding put_le get_le
get_le-put_le zero v h = omega arith
get_le-put_le (suc n) v h = omega (arith, get_le-put_le n (v / 256) (omega (arith, pow-suc 256 n)))

pub length-put_be : (n v : ℕ) → length (put_be n v) ≡ n
unfolding put_be
length-put_be n v = length-reverse (put_le n v) ∙ length-put_le n v

pub get_be-put_be : (n v : ℕ) → v < 256 ^ n → get_be (put_be n v) ≡ v
unfolding put_be get_be
get_be-put_be n v h = ap get_le (reverse-reverse (put_le n v)) ∙ get_le-put_le n v h
