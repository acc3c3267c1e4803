-- ===== src/Stream/BigEndian.antt =====
-- The methods of `BigEndianStreamImpl`. A slice argument is `none` where Go has nil.
use net_flux.Base.{ℕ, Option, none, some, List, length, if◌then◌else◌}
use net_flux.Base.Int.{ℤ, pos, negsuc}
use net_flux.Base.Bytes.{copy}
use net_flux.Stream.Defs
use net_flux.Stream.Defs.{Stream, Io, ok, too_small, big, read_uint, write_uint, write_bytes, lacks}

unfoldable pub new : List ℕ → Stream
new = Defs.new_stream

unfoldable pub size : Stream → ℕ
size = Defs.size

-- `Length` is the number of bytes used, which is the position.
unfoldable pub used_length : Stream → ℕ
used_length s = s.pos

unfoldable pub contents : Stream → List ℕ
contents s = s.buff

unfoldable pub left : Stream → ℕ
left = Defs.left

unfoldable pub reset : Stream → List ℕ → Stream
reset = Defs.reset

unfoldable pub read_byte : Stream → Stream × Io ℕ
read_byte = Defs.read_byte

unfoldable pub read_uint16 : Stream → Stream × Io ℕ
read_uint16 = read_uint big 2

unfoldable pub read_uint32 : Stream → Stream × Io ℕ
read_uint32 = read_uint big 4

unfoldable pub read_uint64 : Stream → Stream × Io ℕ
read_uint64 = read_uint big 8

unfoldable pub read_buff : ℕ → Stream → Stream × Io (List ℕ)
read_buff = Defs.read_buff

abbrev read_result : List ℕ → Stream × Io (List ℕ) → Stream × List ℕ × ℤ × Io (Unit {0})
read_result p (s, ok buf) = (s, copy p buf, pos (length buf), ok tt)
read_result p (s, too_small) = (s, p, negsuc 0, too_small)

-- `Read` fills the whole slice or fails with the count -1: the slice after the call, the count,
-- the error.
unfoldable pub read : List ℕ → Stream → Stream × List ℕ × ℤ × Io (Unit {0})
read p s = read_result p (read_buff (length p) s)

unfoldable pub read_string : Stream → Stream × Io (List ℕ)
read_string = Defs.read_string big

unfoldable pub copy_buff : List ℕ → Stream → Stream × Io (List ℕ)
copy_buff = Defs.copy_buff

unfoldable pub write_byte : ℕ → Stream → Stream × Io (Unit {0})
write_byte = Defs.write_byte

unfoldable pub write_uint16 : ℕ → Stream → Stream × Io (Unit {0})
write_uint16 = write_uint big 2

unfoldable pub write_uint32 : ℕ → Stream → Stream × Io (Unit {0})
write_uint32 = write_uint big 4

unfoldable pub write_uint64 : ℕ → Stream → Stream × Io (Unit {0})
write_uint64 = write_uint big 8

-- A nil slice is refused, after a first test that its length 0 always passes.
unfoldable pub write_buff : Option (List ℕ) → Stream → Stream × Io (Unit {0})
write_buff none s = if lacks s 0 then (s, too_small) else (s, too_small)
write_buff (some buff) s = write_bytes buff s

abbrev slice_length : Option (List ℕ) → ℕ
slice_length none = 0
slice_length (some b) = length b

-- `Write` returns the length of its argument also beside an error.
unfoldable pub write : Option (List ℕ) → Stream → Stream × ℕ × Io (Unit {0})
write b s = let (s', err) = write_buff b s in (s', slice_length b, err)

unfoldable pub write_string : List ℕ → Stream → Stream × Io (Unit {0})
write_string = Defs.write_string big
