-- ===== src/Network/Writer/Sends.antt =====
-- `WritePacket` as a whole.
use net_flux.Base.{
  Option-cases, ℕ, ◌+◌, ◌≤◌, ◌<◌, ◌≡◌, ◌⊎◌, inl, inr, refl, ap, true, false, Option, some, List,
  ◌++◌, length, take, ltb, length-replicate, length-take, arith,
}
use net_flux.Network.Packet.{NetError, err_no_ready, packet_too_large, header_size, max_packet_size}
use net_flux.Network.Writer.{
  IoWriter, TcpWriter, write_all, grow, fill, write_payload, write_packet,
}
use net_flux.Network.Writer.All.{write_all_from_lem}
use net_flux.Network.Writer.Frame.{frame, take-fill}

pub length-grow : (need : ℕ) (storage : List ℕ) → need ≤ length (grow need storage)
unfolding grow
length-grow need storage = ground (arith, length-replicate {A = ℕ} need 0)

pub fits_small : (n : ℕ) → n ≤ 65535 → ltb max_packet_size n ≡ false
fits_small n h = ground arith

module _ (w : IoWriter) {Msg : Type 0} (marshal : Msg → NetError ⊎ List ℕ) where
  -- What a call has sent: a part of the frame from its start, and all of it if there is no error.
  pub record Sent (bytes : List ℕ) (s t : w.State) (err : Option NetError) : Type 0 where
    pub count : ℕ
    pub within : count ≤ length bytes
    pub complete : ((e : NetError) × (err ≡ some e)) ⊎ (count ≡ length bytes)
    pub taken_prefix : w.taken t ≡ w.taken s ++ take count bytes

  -- For every writer that keeps the contract of `io.Writer`, a packet whose message marshals to at
  -- most 65535 bytes, and whatever earlier packets left in the buffer: with fuel for its bytes the
  -- call ends, it has sent a beginning of the packet's frame, and the whole frame if it reports no
  -- error.
  pub write_packet_sends :
      (fuel cmd subcmd : ℕ) (pkt : Msg) (payload : List ℕ) (tw : TcpWriter) (s : w.State)
      → marshal pkt ≡ inr payload
      → length payload ≤ 65535
      → header_size + length payload < fuel
      → (tw' : TcpWriter) × (t : w.State) × (err : Option NetError) × (write_packet w marshal fuel
            true cmd subcmd pkt tw s
          ≡ some (tw', t, err))
        × Sent (frame cmd subcmd payload) s t err
  unfolding write_packet write_payload write_all
  write_packet_sends fuel cmd subcmd pkt payload tw s bytes small h =
      let (t, k, err, ran, wrote) =
        write_all_from_lem w fuel 0 (frame cmd subcmd payload) s
          (omega (arith, short, ap length laid)) in
      (
        record tw { storage = storage },
        t,
        err,
        rw bytes (rw (fits_small (length payload) small) (rw laid (rw ran refl))),
        record {
          count = k;
          within = wrote.within;
          complete = elim (Option-cases err) [
            | inl sent_all ↦ inr (wrote.complete sent_all)
            | inr failed ↦ inl failed
          ];
          taken_prefix = wrote.taken_prefix;
        },
      )
    where
      storage : List ℕ
      storage = fill cmd subcmd payload (grow (header_size + length payload) tw.storage)

      laid : take (header_size + length payload) storage ≡ frame cmd subcmd payload
      laid =
          take-fill cmd subcmd payload (grow (header_size + length payload) tw.storage)
            (length-grow (header_size + length payload) tw.storage)

      short : length (take (header_size + length payload) storage) ≤ header_size + length payload
      short = omega (arith, length-take (header_size + length payload) storage)

  -- A packet is refused, with the buffer and the writer as they were: if the connection is missing
  -- or closed; on a usable connection, one whose message cannot be marshalled, with the marshaller's
  -- error; and one whose message marshals to more than 65535 bytes.
  pub write_packet_refused :
      (fuel cmd subcmd : ℕ) (bad large : Msg) (e : NetError) (payload : List ℕ) (tw : TcpWriter)
      (s : w.State)
      → marshal bad ≡ inl e
      → marshal large ≡ inr payload
      → 65535 < length payload
      → (write_packet w marshal fuel false cmd subcmd large tw s ≡ some (tw, s, some err_no_ready))
        × (write_packet w marshal fuel true cmd subcmd bad tw s ≡ some (tw, s, some e))
        × (write_packet w marshal fuel true cmd subcmd large tw s
            ≡ some (tw, s, some packet_too_large))
  unfolding write_packet write_payload
  write_packet_refused fuel cmd subcmd bad large e payload tw s fails bytes long =
      (refl, ground arith, ground arith)
