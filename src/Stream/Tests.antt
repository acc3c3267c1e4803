-- ===== src/Stream/Tests.antt =====
-- Runs of the stream's methods, and its theorems at concrete inputs.
use net_flux.Base.{ℕ, ◌+◌, ◌%◌, ◌≡◌, refl, List, [], ◌∷◌, length, take, replicate, none, arith}
use net_flux.Base.Bytes.{put_be, put_le, copy, copy_at}
use net_flux.Stream.Defs.{
  Stream, ByteOrder, big, Io, ok, too_small, new_stream, reset, left, write_string, read_string,
  store, put_uint, get_uint,
}
use net_flux.Stream.Encoding.{Field, byte, uint, string, encode}
use net_flux.Stream.RoundTrip.{write_fields, read_fields, encode_all, read-write_fields}
use net_flux.Stream.Strings.{read-write_string}
use net_flux.Stream.Defs
use net_flux.Stream.BigEndian
use net_flux.Stream.LittleEndian

abbrev blank : Stream
blank = record { pos = 0; buff = 0 ∷ 0 ∷ 0 ∷ 0 ∷ 0 ∷ 0 ∷ [] }

big_bytes : (BigEndian.write_uint32 0x01020304 blank).0.buff ≡ 1 ∷ 2 ∷ 3 ∷ 4 ∷ 0 ∷ 0 ∷ []
unfolding BigEndian.write_uint32 put_uint put_be put_le copy_at copy left Defs.write_uint
big_bytes = refl

little_bytes : (LittleEndian.write_uint16 0x0102 blank).0.buff ≡ 2 ∷ 1 ∷ 0 ∷ 0 ∷ 0 ∷ 0 ∷ []
unfolding LittleEndian.write_uint16 put_uint put_le copy_at copy left Defs.write_uint
little_bytes = refl

-- The two implementations differ at a nil slice.
nil_slice :
    (BigEndian.write_buff none blank ≡ (blank, too_small))
    × (LittleEndian.write_buff none blank ≡ (blank, ok tt))
unfolding BigEndian.write_buff LittleEndian.write_buff Defs.write_bytes left copy_at copy
nil_slice = (refl, refl)

abbrev message : List Field
message = byte 7 ∷ uint 2 513 ∷ string (104 ∷ 105 ∷ []) ∷ []

abbrev room : List ℕ
room = replicate 8 0

read-write_fields_example :
    let w = write_fields big message (new_stream room) in
    (w.1 ≡ ok tt) × (read_fields big message (reset w.0 w.0.buff) ≡ (w.0, ok message))
unfolding encode_all encode put_uint put_be put_le
read-write_fields_example = read-write_fields big message room (omega arith) (omega arith)

abbrev hi : List ℕ
hi = 104 ∷ 105 ∷ []

read-write_string_example :
    ((write_string big hi blank).1 ≡ ok tt)
    × (read_string big (record blank { buff = (write_string big hi blank).0.buff }) ≡ (
      record blank { pos = 0 + (2 + length hi % 65536); buff = (write_string big hi blank).0.buff },
      ok (take (length hi % 65536) hi),
    ))
unfolding left
read-write_string_example = read-write_string big hi blank (omega arith) (omega arith)

abbrev long : List ℕ
long = 1 ∷ 2 ∷ 3 ∷ 4 ∷ 5 ∷ []
