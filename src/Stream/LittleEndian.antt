-- ===== src/Stream/LittleEndian.antt =====
-- The methods of `LittleEndianStreamImpl`. A slice argument is `none` where Go has nil.
use net_flux.Base.{ℕ, Option, none, some, List, []}
use net_flux.Stream.Defs
use net_flux.Stream.Defs.{
  Stream, Io, ok, too_small, little, read_uint, write_uint, write_bytes, lacks,
}

unfoldable pub new : List ℕ → Stream
new = Defs.new_stream

unfoldable pub size : Stream → ℕ
size = Defs.size

unfoldable pub contents : Stream → List ℕ
contents s = s.buff

unfoldable pub left : Stream → ℕ
left = Defs.left

unfoldable pub reset : Stream → List ℕ → Stream
reset = Defs.reset

unfoldable pub read_byte : Stream → Stream × Io ℕ
read_byte = Defs.read_byte

unfoldable pub read_uint16 : Stream → Stream × Io ℕ
read_uint16 = read_uint little 2

unfoldable pub read_uint32 : Stream → Stream × Io ℕ
read_uint32 = read_uint little 4

unfoldable pub read_uint64 : Stream → Stream × Io ℕ
read_uint64 = read_uint little 8

unfoldable pub read_buff : ℕ → Stream → Stream × Io (List ℕ)
read_buff = Defs.read_buff

unfoldable pub read_string : Stream → Stream × Io (List ℕ)
read_string = Defs.read_string little

unfoldable pub copy_buff : List ℕ → Stream → Stream × Io (List ℕ)
copy_buff = Defs.copy_buff

unfoldable pub write_byte : ℕ → Stream → Stream × Io (Unit {0})
write_byte = Defs.write_byte

unfoldable pub write_uint16 : ℕ → Stream → Stream × Io (Unit {0})
write_uint16 = write_uint little 2

unfoldable pub write_uint32 : ℕ → Stream → Stream × Io (Unit {0})
write_uint32 = write_uint little 4

unfoldable pub write_uint64 : ℕ → Stream → Stream × Io (Unit {0})
write_uint64 = write_uint little 8

-- A nil slice has length 0, and nothing is written.
unfoldable pub write_buff : Option (List ℕ) → Stream → Stream × Io (Unit {0})
write_buff none s = write_bytes [] s
write_buff (some buff) s = write_bytes buff s

unfoldable pub write_string : List ℕ → Stream → Stream × Io (Unit {0})
write_string = Defs.write_string little
