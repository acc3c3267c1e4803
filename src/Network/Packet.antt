-- ===== src/Network/Packet.antt =====
-- pkg/network/types.go and `parseHeader` of pkg/network/tcp_reader.go: the packet header, eight
-- bytes in front of each payload, and the errors of the package.
use net_flux.Base.{ℕ, ◌<◌, ◌≡◌, refl, List, [], ◌∷◌, ◌++◌, length, get_or, arith}
use net_flux.Base.Bytes.{put_be, get_be, put_le, get_le, slice}

-- `ErrClosed`, `ErrNoReady`, the errors that the package builds from a text, the two of the
-- package io, and the errors that other code hands in.
pub data NetError : Type 0 where
  err_closed err_no_ready packet_too_large unknown_command handler_required not_tcp eof
        unexpected_eof :
      NetError
  other : ℕ → NetError

pub record PacketHeader : Type 0 where
  pub length : ℕ  -- uint16
  pub cmd : ℕ  -- uint8
  pub sub_cmd : ℕ  -- uint8
  pub version : ℕ  -- uint8
  pub flags : ℕ  -- uint16
  pub reserved : ℕ  -- uint8

abbrev pub current_version : ℕ
current_version = 1

abbrev pub no_flags : ℕ
no_flags = 0

abbrev pub no_reserved : ℕ
no_reserved = 0

abbrev pub header_size : ℕ
header_size = 8

abbrev pub max_packet_size : ℕ
max_packet_size = 65535

-- `buf` holds eight bytes.
unfoldable pub parse_header : List ℕ → PacketHeader
parse_header buf = record {
  length = get_be (slice buf 0 2);
  cmd = get_or buf 2 0;
  sub_cmd = get_or buf 3 0;
  version = get_or buf 4 0;
  flags = get_be (slice buf 5 2);
  reserved = get_or buf 7 0;
}

-- The eight bytes that stand for a header.
unfoldable pub header_bytes : PacketHeader → List ℕ
header_bytes h =
    put_be 2 h.length ++ (h.cmd ∷ h.sub_cmd ∷ h.version ∷ put_be 2 h.flags ++ (h.reserved ∷ []))

-- The values that the Go types of the fields hold.
pub record FitsHeader (h : PacketHeader) : Type 0 where
  pub length_fits : h.length < 65536
  pub flags_fits : h.flags < 65536

pub length-header_bytes : (h : PacketHeader) → length (header_bytes h) ≡ 8
unfolding header_bytes put_be put_le
length-header_bytes h = refl

-- `parseHeader` gives back the header whose eight bytes it is given, where the values are within
-- the widths of the two 16-bit fields.
pub parse_header-header_bytes :
    (h : PacketHeader) → FitsHeader h → parse_header (header_bytes h) ≡ h
unfolding parse_header header_bytes put_be put_le get_be get_le slice
parse_header-header_bytes h fits = ground arith
