-- ===== src/Stream/Defs.antt =====
-- The two structs of stream.go and the methods that differ only in the byte order.
-- A method returns the stream after the call beside its result; a failed call may have moved it.
use net_flux.Base.{ℕ, ◌+◌, ◌-◌, ◌≤◌, Bool, List, ltb, if◌then◌else◌, length, get_or, set, ◌%◌}
use net_flux.Base.Bytes.{put_le, get_le, put_be, get_be, copy, copy_at, slice}

-- `BigEndianStreamImpl` and `LittleEndianStreamImpl` have the same fields.
pub record Stream : Type 0 where
  pub pos : ℕ
  pub buff : List ℕ

pub data ByteOrder : Type 0 where
  big little : ByteOrder

-- `too_small` is the error "buff is too small to io", the only one of the package.
pub data Io {ℓ} (A : Type ℓ) : Type ℓ where
  ok : A → Io A
  too_small : Io A

-- The position never passes the end, so that `Left` is not negative.
abbrev pub IsValid : Stream → Type 0
IsValid s = s.pos ≤ length s.buff

unfoldable pub new_stream : List ℕ → Stream
new_stream buff = record { pos = 0; buff = buff }

unfoldable pub size : Stream → ℕ
size s = length s.buff

unfoldable pub left : Stream → ℕ
left s = length s.buff - s.pos

unfoldable pub reset : Stream → List ℕ → Stream
reset s buff = record s { pos = 0; buff = buff }

abbrev pub advance : Stream → ℕ → Stream
advance s n = record s { pos = s.pos + n }

-- `impl.Left() < n`
abbrev pub lacks : Stream → ℕ → Bool
lacks s n = ltb (left s) n

unfoldable pub read_byte : Stream → Stream × Io ℕ
read_byte s = if lacks s 1 then (s, too_small) else (advance s 1, ok (get_or s.buff s.pos 0))

-- `binary.PutUint…` into a slice of n bytes, and `binary.Uint…` of it.
unfoldable pub put_uint : ByteOrder → ℕ → ℕ → List ℕ
put_uint big n v = put_be n v
put_uint little n v = put_le n v

unfoldable pub get_uint : ByteOrder → List ℕ → ℕ
get_uint big bs = get_be bs
get_uint little bs = get_le bs

-- `ReadUint16`, `ReadUint32` and `ReadUint64` are this at n = 2, 4, 8.
unfoldable pub read_uint : ByteOrder → ℕ → Stream → Stream × Io ℕ
read_uint o n s =
    if lacks s n then (s, too_small) else (advance s n, ok (get_uint o (slice s.buff s.pos n)))

-- `ReadBuff` of a size that is not negative; Go panics at a negative one.
unfoldable pub read_buff : ℕ → Stream → Stream × Io (List ℕ)
read_buff n s = if lacks s n then (s, too_small) else (advance s n, ok (slice s.buff s.pos n))

-- A failure of the second read leaves the position behind the length field.
abbrev pub read_string_body : Stream × Io ℕ → Stream × Io (List ℕ)
read_string_body (s, too_small) = (s, too_small)
read_string_body (s, ok n) = read_buff n s

unfoldable pub read_string : ByteOrder → Stream → Stream × Io (List ℕ)
unfolding read_uint
read_string o s = read_string_body (read_uint o 2 s)

-- What `CopyBuff` leaves in a slice of n bytes; the position does not move.
unfoldable pub copy_buff : List ℕ → Stream → Stream × Io (List ℕ)
copy_buff b s =
    if lacks s (length b) then (s, too_small) else (s, ok (copy b (slice s.buff s.pos (length b))))

unfoldable pub write_byte : ℕ → Stream → Stream × Io (Unit {0})
write_byte b s =
    if lacks s 1
    then (s, too_small)
    else (record s { pos = s.pos + 1; buff = set s.buff s.pos b }, ok tt)

-- The state after `copy(impl.buff[impl.pos:], bytes)` and the step of the position.
abbrev pub store : Stream → List ℕ → Stream
store s bytes = record s { pos = s.pos + length bytes; buff = copy_at s.buff s.pos bytes }

unfoldable pub write_uint : ByteOrder → ℕ → ℕ → Stream → Stream × Io (Unit {0})
write_uint o n v s = if lacks s n then (s, too_small) else (store s (put_uint o n v), ok tt)

unfoldable pub write_bytes : List ℕ → Stream → Stream × Io (Unit {0})
write_bytes bytes s = if lacks s (length bytes) then (s, too_small) else (store s bytes, ok tt)

-- The conversion `uint16(len)`.
abbrev pub uint16 : ℕ → ℕ
uint16 n = n % 65536

abbrev pub write_string_body : List ℕ → Stream × Io (Unit {0}) → Stream × Io (Unit {0})
write_string_body b (s, too_small) = (s, too_small)
write_string_body b (s, ok _) = write_bytes b s

unfoldable pub write_string : ByteOrder → List ℕ → Stream → Stream × Io (Unit {0})
unfolding write_uint
write_string o b s = write_string_body b (write_uint o 2 (uint16 (length b)) s)
