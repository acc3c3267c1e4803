-- ===== src/Stream.antt =====
-- pkg/network/stream/stream.go: a byte buffer with a position, read and written in either byte
-- order. `Defs` has what the two implementations have in common, with the byte order as an
-- argument; `BigEndian` and `LittleEndian` are the two sets of methods.
pub mod Defs
pub mod BigEndian
pub mod LittleEndian
pub mod Safety
pub mod Encoding
pub mod RoundTrip
pub mod Strings
mod Tests
