-- ===== src/Network/Reader.antt =====
-- pkg/network/tcp_reader.go: packets read off the bytes that a connection delivers.
pub mod Framing
pub mod Progress
pub mod Ending
use net_flux.Base.{
  ℕ, zero, suc, ◌+◌, ◌⊎◌, inl, inr, Bool, true, false, Option, none, some, List, [], ◌∷◌, length,
  take, drop, ltb, leb, ◌==◌, if◌then◌else◌,
}
use net_flux.Base.Bytes.{copy_at}
use net_flux.Network.Packet.{
  NetError, err_no_ready, packet_too_large, eof, unexpected_eof, PacketHeader, parse_header,
  header_size, max_packet_size,
}
use net_flux.Network.Writer.{grow}

-- The bytes that the connection will deliver until it ends, and the payload buffer at its full
-- capacity.
pub record TcpReader : Type 0 where
  pub input : List ℕ
  pub storage : List ℕ

-- `io.ReadFull` of n bytes: the bytes read, those still to come, and the error.
unfoldable pub read_full : ℕ → List ℕ → List ℕ × List ℕ × Option NetError
read_full n input =
    if leb n (length input)
    then (take n input, drop n input, none)
    else (input, [], some (if length input == 0 then eof else unexpected_eof))

-- The part of `ReadPacket` behind the header.
unfoldable pub read_payload :
    PacketHeader → TcpReader → TcpReader × (NetError ⊎ PacketHeader × List ℕ)
read_payload h r =
    let (bytes, rest, err) = read_full h.length r.input in
    let storage = copy_at (grow h.length r.storage) 0 bytes in
    let next : TcpReader = record { input = rest; storage = storage } in
    if ltb max_packet_size h.length
    then (r, inl packet_too_large)
    else if h.length == 0
    then (r, inr (h, []))
    else elim err [ some e ↦ (next, inl e) | none ↦ (next, inr (h, take h.length storage)) ]

-- `usable` is the test that there is a connection and that it is not closed.
unfoldable pub read_packet : Bool → TcpReader → TcpReader × (NetError ⊎ PacketHeader × List ℕ)
read_packet usable r =
    let (bytes, rest, err) = read_full header_size r.input in
    let next = record r { input = rest } in
    if usable
    then elim err [ some e ↦ (next, inl e) | none ↦ read_payload (parse_header bytes) next ]
    else (r, inl err_no_ready)

-- How the reading loop ends: by the parent's context, or by an error of `ReadPacket`.
pub data Exit : Type 0 where
  cancelled : Exit
  failed : NetError → Exit

-- `done k` and `usable k` are what the k-th look at the parent's context and at the connection
-- finds. The handler's error is only logged, so the loop keeps its state and goes on.
module _ {S : Type 0} (done usable : ℕ → Bool)
    (handler : PacketHeader → List ℕ → S → S × Option NetError) where
  unfoldable pub deliver : ℕ → NetError ⊎ PacketHeader × List ℕ → S → S ⊎ Exit
  deliver k (inl e) s = inr (failed e)
  deliver k (inr (h, payload)) s =
      if done (k + 1) then inr cancelled else inl (handler h payload s).0

  -- `loop`; `none` means that the fuel ran out.
  unfoldable pub loop : ℕ → ℕ → TcpReader → S → Option (TcpReader × S × Exit)
  loop zero k r s = none
  loop (suc fuel) k r s =
      let (r', packet) = read_packet (usable k) r in
      if done k
      then some (r, s, cancelled)
      else elim (deliver k packet s) [ inr e ↦ some (r', s, e) | inl s' ↦ loop fuel (k + 2) r' s' ]
