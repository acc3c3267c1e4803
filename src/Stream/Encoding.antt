-- ===== src/Stream/Encoding.antt =====
-- Every write of a field is one copy of the field's bytes at the position, and every read of a
-- field takes its bytes off what lies behind the position.
pub mod Reads
use net_flux.Base.{
  ℕ, ◌+◌, ◌-◌, ◌≤◌, ◌<◌, ◌^◌, zero, suc, ◌≡◌, refl, sym, ap, ◌∙◌, subst, false, List, [], ◌∷◌, ◌++◌,
  ltb, length, get_or, set, take, drop, length-append, length-drop, drop-drop, append_assoc,
  take-append-drop, length-take, take_length, arith,
}
use net_flux.Base.Bytes.{
  length-put_be, length-put_le, get_be-put_be, get_le-put_le, copy, copy_at, slice, copy_at-append,
  length-copy_at, take-append_length, drop-append_length,
}
use net_flux.Stream.Defs.{
  Stream, ByteOrder, big, little, Io, ok, too_small, left, advance, put_uint, get_uint, read_byte,
  read_uint, read_buff, read_string, write_byte, write_uint, write_bytes, write_string, store,
  uint16,
}

pub length-put_uint : (o : ByteOrder) (n v : ℕ) → length (put_uint o n v) ≡ n
unfolding put_uint
length-put_uint big n v = length-put_be n v
length-put_uint little n v = length-put_le n v

pub get_uint-put_uint : (o : ByteOrder) (n v : ℕ) → v < 256 ^ n → get_uint o (put_uint o n v) ≡ v
unfolding put_uint get_uint
get_uint-put_uint big n v h = get_be-put_be n v h
get_uint-put_uint little n v h = get_le-put_le n v h

-- What is left is what lies behind the position.
pub left-drop : (s : Stream) → left s ≡ length (drop s.pos s.buff)
unfolding left
left-drop s = sym (length-drop s.pos s.buff)

-- The bytes `bs` lie at the position, and `rest` behind them.
abbrev pub Holds : Stream → List ℕ → List ℕ → Type 0
Holds s bs rest = drop s.pos s.buff ≡ bs ++ rest

module _ (s : Stream) (bs rest : List ℕ) (h : Holds s bs rest) where
  pub Holds-left : length bs ≤ left s
  Holds-left = omega (arith, left-drop s, ap length h, length-append bs rest)

  pub Holds-slice : slice s.buff s.pos (length bs) ≡ bs
  unfolding slice
  Holds-slice = rw h (take-append_length bs rest)

  pub Holds-advance : drop (s.pos + length bs) s.buff ≡ rest
  Holds-advance =
      sym (drop-drop s.pos (length bs) s.buff)
      ∙ ap (drop (length bs)) h
      ∙ drop-append_length bs rest

set-copy_at : (xs : List ℕ) (i b : ℕ) → set xs i b ≡ copy_at xs i (b ∷ [])
unfolding copy_at copy
set-copy_at [] zero b = refl
set-copy_at [] (suc i) b = refl
set-copy_at (x ∷ []) zero b = refl
set-copy_at (x ∷ y ∷ xs) zero b = refl
set-copy_at (x ∷ xs) (suc i) b = ap (◌∷◌ x) (set-copy_at xs i b)

pub get_or-Holds :
    (xs : List ℕ) (i b : ℕ) (rest : List ℕ) → drop i xs ≡ b ∷ rest → get_or xs i 0 ≡ b
get_or-Holds [] zero b rest h = cc
get_or-Holds [] (suc i) b rest h = cc
get_or-Holds (x ∷ xs) zero b rest h = cc
get_or-Holds (x ∷ xs) (suc i) b rest h = get_or-Holds xs i b rest h

-- The fields that a message is made of: what is written, and what the reader asks for.
pub data Field : Type 0 where
  byte : ℕ → Field
  uint : ℕ → ℕ → Field
  buff : List ℕ → Field
  string : List ℕ → Field

-- The values that the Go types of the arguments hold; a string as long as its prefix can say.
abbrev pub Fits : Field → Type 0
Fits (byte b) = b < 256
Fits (uint n v) = v < 256 ^ n
Fits (buff bs) = Unit
Fits (string bs) = length bs < 65536

unfoldable pub encode : ByteOrder → Field → List ℕ
encode o (byte b) = b ∷ []
encode o (uint n v) = put_uint o n v
encode o (buff bs) = bs
encode o (string bs) = put_uint o 2 (uint16 (length bs)) ++ bs

unfoldable pub write_field : ByteOrder → Field → Stream → Stream × Io (Unit {0})
write_field o (byte b) s = write_byte b s
write_field o (uint n v) s = write_uint o n v s
write_field o (buff bs) s = write_bytes bs s
write_field o (string bs) s = write_string o bs s

abbrev pub tag {ℓ} : {A : Type ℓ} → (A → Field) → Stream × Io A → Stream × Io Field
tag f (s, ok a) = (s, ok (f a))
tag f (s, too_small) = (s, too_small)

-- The reads that a field like this one calls for; only its shape is looked at.
unfoldable pub read_field : ByteOrder → Field → Stream → Stream × Io Field
read_field o (byte b) s = tag byte (read_byte s)
read_field o (uint n v) s = tag (uint n) (read_uint o n s)
read_field o (buff bs) s = tag buff (read_buff (length bs) s)
read_field o (string bs) s = tag string (read_string o s)

pub lacks_false : (a b : ℕ) → b ≤ a → ltb a b ≡ false
lacks_false a b h = ground arith

write_bytes_ok :
    (bs : List ℕ) (s : Stream) → length bs ≤ left s → write_bytes bs s ≡ (store s bs, ok tt)
unfolding write_bytes
write_bytes_ok bs s h = rw (lacks_false (left s) (length bs) h)

pub write_uint_ok :
    (o : ByteOrder) (n v : ℕ) (s : Stream)
    → n ≤ left s
    → write_uint o n v s ≡ (store s (put_uint o n v), ok tt)
unfolding write_uint
write_uint_ok o n v s h = rw (lacks_false (left s) n h)

pub left-store : (s : Stream) (bs : List ℕ) → left (store s bs) ≡ left s - length bs
unfolding left
left-store s bs = omega (arith, length-copy_at s.buff s.pos bs)

pub store-append : (s : Stream) (xs ys : List ℕ) → store (store s xs) ys ≡ store s (xs ++ ys)
store-append s xs ys = λ i. record { pos = at i; buff = copy_at-append s.buff s.pos xs ys i }
  where
    at : s.pos + length xs + length ys ≡ s.pos + length (xs ++ ys)
    at = omega (arith, length-append xs ys)

copy_at-nil : (xs : List ℕ) (i : ℕ) → copy_at xs i [] ≡ xs
unfolding copy_at copy
copy_at-nil [] zero = refl
copy_at-nil (x ∷ xs) zero = refl
copy_at-nil [] (suc i) = refl
copy_at-nil (x ∷ xs) (suc i) = ap (◌∷◌ x) (copy_at-nil xs i)

pub store-nil : (s : Stream) → store s [] ≡ s
store-nil s = λ i. record { pos = stay i; buff = copy_at-nil s.buff s.pos i }
  where
    stay : s.pos + 0 ≡ s.pos
    stay = omega arith

write_byte_ok : (b : ℕ) (s : Stream) → 1 ≤ left s → write_byte b s ≡ (store s (b ∷ []), ok tt)
unfolding write_byte
write_byte_ok b s h = rw (lacks_false (left s) 1 h) (rw set-copy_at refl)

pub write_string_ok :
    (o : ByteOrder) (bs : List ℕ) (s : Stream)
    → length (put_uint o 2 (uint16 (length bs)) ++ bs) ≤ left s
    → write_string o bs s ≡ (store s (put_uint o 2 (uint16 (length bs)) ++ bs), ok tt)
unfolding write_string
write_string_ok o bs s h = rw (write_uint_ok o 2 n s (omega (arith, parts, width))) (
    write_bytes_ok bs (store s pre) (omega (arith, parts, width, left-store s pre))
    ∙ ap (λ t. (t, ok tt)) (store-append s pre bs))
  where
    n : ℕ
    n = uint16 (length bs)

    pre : List ℕ
    pre = put_uint o 2 n

    parts : length (pre ++ bs) ≡ length pre + length bs
    parts = length-append pre bs

    width : length pre ≡ 2
    width = length-put_uint o 2 n

-- A write with room for the bytes succeeds, and copies the field's bytes to the position.
pub write_field_ok :
    (o : ByteOrder) (f : Field) (s : Stream)
    → length (encode o f) ≤ left s
    → write_field o f s ≡ (store s (encode o f), ok tt)
unfolding write_field encode
write_field_ok o (byte b) s h = write_byte_ok b s h
write_field_ok o (uint n v) s h = write_uint_ok o n v s (omega (arith, length-put_uint o n v))
write_field_ok o (buff bs) s h = write_bytes_ok bs s h
write_field_ok o (string bs) s h = write_string_ok o bs s h
