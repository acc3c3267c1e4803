-- ===== src/Network/Reader/Framing.antt =====
-- The reader takes apart what the writer put together.
use net_flux.Base.{
  ℕ, zero, suc, ◌+◌, ◌≤◌, ◌<◌, ◌≡◌, inr, refl, ◌∙◌, true, false, Option, none, some, List, [], ◌∷◌,
  ◌++◌, length, take, leb, ◌==◌, if◌then◌else◌, length-append, append_assoc, subst, arith,
}
use net_flux.Base.Bytes.{copy_at, take-append_length, drop-append_length, slice, slice-copy_at}
use net_flux.Network.Packet.{
  NetError, eof, PacketHeader, header_bytes, length-header_bytes, parse_header-header_bytes,
  FitsHeader, header_size,
}
use net_flux.Network.Writer.{grow}
use net_flux.Network.Writer.Sends.{length-grow, fits_small}
use net_flux.Network.Writer.Frame.{header_of, frame}
use net_flux.Network.Reader.{TcpReader, failed, read_full, read_payload, read_packet, deliver, loop}

read_full-append : (bs rest : List ℕ) → read_full (length bs) (bs ++ rest) ≡ (bs, rest, none)
unfolding read_full
read_full-append bs rest = rw (enough, take-append_length bs rest, drop-append_length bs rest)
  where
    enough : leb (length bs) (length (bs ++ rest)) ≡ true
    enough = ground (arith, length-append bs rest)

-- The storage of the reader after a payload was read into it.
unfoldable pub keep : List ℕ → List ℕ → List ℕ
keep payload storage =
    if length payload == 0 then storage else copy_at (grow (length payload) storage) 0 payload

read_full-header :
    (h : PacketHeader) (rest : List ℕ)
    → read_full header_size (header_bytes h ++ rest) ≡ (header_bytes h, rest, none)
read_full-header h rest =
    subst (λ n. read_full n (header_bytes h ++ rest) ≡ (header_bytes h, rest, none))
      (length-header_bytes h) (read_full-append (header_bytes h) rest)

take-stored :
    (payload storage : List ℕ)
    → take (length payload) (copy_at (grow (length payload) storage) 0 payload) ≡ payload
unfolding slice
take-stored payload storage =
    slice-copy_at (grow (length payload) storage) 0 payload
      (omega (arith, length-grow (length payload) storage))

empty : (xs : List ℕ) → length xs ≡ 0 → xs ≡ []
empty [] h = refl
empty (x ∷ xs) h = absurd (omega arith)

read_payload-append :
    (h : PacketHeader) (payload rest storage : List ℕ)
    → h.length ≡ length payload
    → length payload ≤ 65535
    → read_payload h (record { input = payload ++ rest; storage = storage })
      ≡ (record { input = rest; storage = keep payload storage }, inr (h, payload))
unfolding read_payload keep
read_payload-append h payload rest storage e small = ground (
  arith,
  fits_small (length payload) small,
  read_full-append payload rest,
  take-stored payload storage,
  empty payload,
)

-- One packet at the head of the input is read back, header and payload, and what follows is left.
pub read_packet-frame :
    (cmd subcmd : ℕ) (payload rest storage : List ℕ)
    → length payload ≤ 65535
    → read_packet true (record { input = frame cmd subcmd payload ++ rest; storage = storage }) ≡ (
      record { input = rest; storage = keep payload storage },
      inr (header_of cmd subcmd (length payload), payload),
    )
unfolding read_packet frame
read_packet-frame cmd subcmd payload rest storage small = ground (
  arith,
  append_assoc (header_bytes h) payload rest,
  read_full-header h (payload ++ rest),
  parse_header-header_bytes h fits,
  read_payload-append h payload rest storage same small,
)
  where
    h : PacketHeader
    h = header_of cmd subcmd (length payload)

    same : h.length ≡ length payload
    same = unfold header_of in omega arith

    fits : FitsHeader h
    fits = unfold header_of in omega arith

-- A packet to send: command, subcommand and payload.
abbrev pub Message : Type 0
Message = ℕ × ℕ × List ℕ

unfoldable pub frames : List Message → List ℕ
frames [] = []
frames ((cmd, subcmd, payload) ∷ ms) = frame cmd subcmd payload ++ frames ms

abbrev pub AllSmall : List Message → Type 0
AllSmall [] = Unit
AllSmall ((_, _, payload) ∷ ms) = (length payload ≤ 65535) × AllSmall ms

module _ {S : Type 0} (handler : PacketHeader → List ℕ → S → S × Option NetError) where
  -- What the handler makes of the packets in turn.
  unfoldable pub handle_all : List Message → S → S
  handle_all [] s = s
  handle_all ((cmd, subcmd, payload) ∷ ms) s =
      handle_all ms (handler (header_of cmd subcmd (length payload)) payload s).0

  loop_step :
      (fuel k : ℕ) (r r' : TcpReader) (s : S) (h : PacketHeader) (payload : List ℕ)
      → read_packet true r ≡ (r', inr (h, payload))
      → loop (λ _. false) (λ _. true) handler (suc fuel) k r s
        ≡ loop (λ _. false) (λ _. true) handler fuel (k + 2) r' (handler h payload s).0
  unfolding loop deliver
  loop_step fuel k r r' s h payload e = ground arith

  -- A connection that delivers the frames of a sequence of packets and then ends, on which nobody
  -- cancels or closes: the loop hands each packet to the handler, in order, each once and with its
  -- own payload, whatever errors the handler returns, and ends by `io.EOF`. Fuel for one round more
  -- than there are packets is enough.
  pub loop-frames :
      (ms : List Message) (fuel k : ℕ) (storage : List ℕ) (s : S)
      → AllSmall ms
      → length ms < fuel
      → (storage' : List ℕ) × (loop
            (λ _. false)
            (λ _. true)
            handler
            fuel
            k
            (record { input = frames ms; storage = storage })
            s
          ≡ some (record { input = []; storage = storage' }, handle_all ms s, failed eof))
  unfolding loop frames handle_all deliver
  loop-frames ms zero k storage s small h = absurd (omega arith)
  loop-frames [] (suc fuel) k storage s small h = (storage, unfold read_packet read_full in refl)
  loop-frames ((cmd, subcmd, payload) ∷ ms) (suc fuel) k storage s small h =
      let (last, ran) =
        loop-frames ms fuel (k + 2) (keep payload storage)
          (handler (header_of cmd subcmd (length payload)) payload s).0 small.1 (omega arith) in
      (
        last,
        loop_step fuel k _ _ s (header_of cmd subcmd (length payload)) payload
              (read_packet-frame cmd subcmd payload (frames ms) storage small.0)
            ∙ ran,
      )
