-- ===== src/Network/Writer/Frame.antt =====
-- What lies in the buffer of a `tcpWriter` when it is handed to `writeAll`.
use net_flux.Base.{ℕ, suc, ◌+◌, ◌%◌, ◌≤◌, ◌≡◌, List, ◌∷◌, ◌++◌, length, take, arith}
use net_flux.Base.Bytes.{put_be, put_le, copy, copy_at, take-copy}
use net_flux.Network.Packet.{
  PacketHeader, header_bytes, header_size, current_version, no_flags, no_reserved,
}
use net_flux.Network.Writer.{fill}

-- The header that `WritePacket` sends in front of a payload.
unfoldable pub header_of : ℕ → ℕ → ℕ → PacketHeader
header_of cmd subcmd n = record {
  length = n % 65536;
  cmd = cmd;
  sub_cmd = subcmd;
  version = current_version;
  flags = no_flags;
  reserved = no_reserved;
}

-- The bytes of one packet on the wire.
unfoldable pub frame : ℕ → ℕ → List ℕ → List ℕ
frame cmd subcmd payload = header_bytes (header_of cmd subcmd (length payload)) ++ payload

-- Whatever the buffer held, its first bytes are the frame.
pub take-fill :
    (cmd subcmd : ℕ) (payload storage : List ℕ)
    → header_size + length payload ≤ length storage
    → take (header_size + length payload) (fill cmd subcmd payload storage)
      ≡ frame cmd subcmd payload
unfolding fill frame header_of header_bytes copy_at copy put_be put_le
take-fill cmd subcmd payload (a ∷ b ∷ c ∷ d ∷ e ∷ f ∷ g ∷ h ∷ storage) fits =
    let eight : 8 + length payload
        ≡ suc (suc (suc (suc (suc (suc (suc (suc (length payload)))))))) =
      omega arith in
    rw eight (rw (take-copy storage payload (omega arith)))
take-fill cmd subcmd payload storage fits = absurd (omega arith)
