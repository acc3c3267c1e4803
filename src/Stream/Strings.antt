-- ===== src/Stream/Strings.antt =====
-- Strings, with their sixteen-bit length in front, and what a failed call leaves behind.
use net_flux.Base.{
  ℕ, ◌+◌, ◌%◌, ◌≤◌, ◌<◌, ◌≡◌, refl, true, List, ◌++◌, ltb, length, take, drop, length-append, arith,
  ◌⊎◌, inl, inr,
}
use native.Mathlib.Decide.{dec_lt}
use net_flux.Base.Bytes.{copy_at}
use net_flux.Stream.Defs.{
  Stream, ByteOrder, ok, too_small, IsValid, left, store, write_bytes, write_uint, write_string,
  read_string, put_uint, uint16, write_byte,
}
use net_flux.Stream.Encoding.Reads.{read_string_ok}
use net_flux.Stream.Encoding.{
  Field, byte, uint, buff, string, encode, write_field, write_string_ok, write_uint_ok, left-store,
  length-put_uint,
}
use net_flux.Stream.RoundTrip.{Holds-store}

room_bound : (s : Stream) (n : ℕ) → IsValid s → n ≤ left s → s.pos + n ≤ length s.buff
unfolding left
room_bound s n v h = omega arith

-- A string for which there is room is written without an error, whatever its length, and read back
-- as its first `length % 65536` bytes: all of it exactly where it is shorter than 65536 bytes.
pub read-write_string :
    (o : ByteOrder) (bs : List ℕ) (s : Stream)
    → IsValid s
    → 2 + length bs ≤ left s
    → ((write_string o bs s).1 ≡ ok tt)
      × (read_string o (record s { buff = (write_string o bs s).0.buff }) ≡ (
        record s { pos = s.pos + (2 + length bs % 65536); buff = (write_string o bs s).0.buff },
        ok (take (length bs % 65536) bs),
      ))
read-write_string o bs s v room = rw (write_string_ok o bs s (omega (arith, width, parts))) (
  refl,
  read_string_ok o bs (record s { buff = copy_at s.buff s.pos text })
      (drop (s.pos + length text) s.buff) (Holds-store s text (fits room)),
)
  where
    pre : List ℕ
    pre = put_uint o 2 (uint16 (length bs))

    text : List ℕ
    text = pre ++ bs

    width : length pre ≡ 2
    width = length-put_uint o 2 (uint16 (length bs))

    parts : length text ≡ length pre + length bs
    parts = length-append pre bs

    fits : 2 + length bs ≤ left s → s.pos + length text ≤ length s.buff
    fits h = room_bound s (length text) v (omega (arith, width, parts))

-- If there is room for the length field and not for the string, the call fails, and yet the length
-- field is in the buffer and the position stands behind it.
pub write_string_torn :
    (o : ByteOrder) (bs : List ℕ) (s : Stream)
    → 2 ≤ left s
    → left s < 2 + length bs
    → write_string o bs s ≡ (store s (put_uint o 2 (length bs % 65536)), too_small)
unfolding write_string write_bytes
write_string_torn o bs s h k = rw (write_uint_ok o 2 (uint16 (length bs)) s h) (
    ground (
      arith,
      left-store s (put_uint o 2 (uint16 (length bs))),
      length-put_uint o 2 (uint16 (length bs)),
    ))

too_long : (a b : ℕ) → a < b → ltb a b ≡ true
too_long a b h = ground arith

write_string_short :
    (o : ByteOrder) (bs : List ℕ) (s : Stream) → left s < 2 → write_string o bs s ≡ (s, too_small)
unfolding write_string write_uint
write_string_short o bs s h = rw (too_long (left s) 2 h)

write_string_error :
    (o : ByteOrder) (bs : List ℕ) (s : Stream)
    → left s < 2 + length bs
    → (write_string o bs s).1 ≡ too_small
write_string_error o bs s h = elim (dec_lt (left s) 2) [
  | yes short ↦ rw (write_string_short o bs s short)
  | no long ↦ rw (write_string_torn o bs s (omega arith) h)
]

-- In either byte order a write of a field that needs more bytes than are left fails; and unless
-- the field is a string, the failed write changes nothing.
pub write_field_error :
    (o : ByteOrder) (f : Field) (s : Stream)
    → left s < length (encode o f)
    → ((write_field o f s).1 ≡ too_small)
      × (((write_field o f s).0 ≡ s) ⊎ ((bs : List ℕ) × (f ≡ string bs)))
unfolding write_field encode write_byte write_uint write_bytes
write_field_error o (byte b) s h = rw (too_long (left s) 1 h) (refl, inl refl)
write_field_error o (uint n v) s h =
    rw (too_long (left s) n (omega (arith, length-put_uint o n v))) (refl, inl refl)
write_field_error o (buff bs) s h = rw (too_long (left s) (length bs) h) (refl, inl refl)
write_field_error o (string bs) s h = (
  write_string_error o bs s (
      omega (
        arith,
        length-append (put_uint o 2 (uint16 (length bs))) bs,
        length-put_uint o 2 (uint16 (length bs)),
      )),
  inr (bs, refl),
)
