-- ===== src/Network/Reader/Progress.antt =====
-- The reading loop ends.
use net_flux.Base.{
  ℕ, zero, suc, ◌+◌, ◌-◌, ◌≤◌, ◌<◌, ◌≡◌, ◌∙◌, ◌⊎◌, inl, inr, refl, Bool, false, Option, none, some,
  List, length, length-drop, Bool-cases, arith,
}
use net_flux.Network.Packet.{NetError, PacketHeader, header_size, parse_header}
use net_flux.Network.Reader.{
  TcpReader, Exit, cancelled, failed, read_full, read_payload, read_packet, deliver, loop,
}

read_full-rest : (n : ℕ) (input : List ℕ) → length (read_full n input).1 ≤ length input - n
unfolding read_full
read_full-rest n input = ground (arith, length-drop n input)

read_full-room : (n : ℕ) (input : List ℕ) → (read_full n input).2 ≡ none → n ≤ length input
unfolding read_full
read_full-room n input h = ground arith

read_payload-shrinks :
    (h : PacketHeader) (r : TcpReader) → length (read_payload h r).0.input ≤ length r.input
unfolding read_payload
read_payload-shrinks h r = ground (arith, read_full-rest h.length r.input)

-- A packet takes at least its header off the input.
pub read_packet-shrinks :
    (usable : Bool) (r : TcpReader) (h : PacketHeader) (payload : List ℕ)
    → (read_packet usable r).1 ≡ inr (h, payload)
    → length (read_packet usable r).0.input + header_size ≤ length r.input
unfolding read_packet
read_packet-shrinks usable r h payload e = ground (
  arith,
  read_full-rest header_size r.input,
  read_full-room header_size r.input,
  read_payload-shrinks (parse_header (read_full header_size r.input).0)
      (record r { input = (read_full header_size r.input).1 }),
)

module _ {S : Type 0} (done usable : ℕ → Bool)
    (handler : PacketHeader → List ℕ → S → S × Option NetError) where
  -- What a round of the loop comes to: an end, or a next round on a shorter input.
  abbrev Round : ℕ → ℕ → TcpReader → S → Type 0
  Round fuel k r s =
      ((r' : TcpReader) × (s' : S) × (e : Exit) × (loop done usable handler (suc fuel) k r s
          ≡ some (r', s', e)))
      ⊎ ((r' : TcpReader) × (s' : S) × (loop done usable handler (suc fuel) k r s
            ≡ loop done usable handler fuel (k + 2) r' s')
          × (length r'.input < length r.input))

  Round-of :
      (fuel k : ℕ) (r : TcpReader) (s : S) (p : TcpReader × (NetError ⊎ PacketHeader × List ℕ))
      → done k ≡ false
      → read_packet (usable k) r ≡ p
      → Round fuel k r s
  unfolding loop deliver
  Round-of fuel k r s (r', inl e) run q = inl (r', s, failed e, ground arith)
  Round-of fuel k r s (r', inr (h, payload)) run q = elim (Bool-cases (done (k + 1))) [
    | inl stop ↦ inl (r', s, cancelled, ground arith)
    | inr on ↦ inr (
      r',
      (handler h payload s).0,
      ground arith,
      ground (arith, read_packet-shrinks (usable k) r h payload),
    )
  ]

  round : (fuel k : ℕ) (r : TcpReader) (s : S) → Round fuel k r s
  unfolding loop
  round fuel k r s = elim (Bool-cases (done k)) [
    | inl stop ↦ inl (r, s, cancelled, ground arith)
    | inr run ↦ Round-of fuel k r s (read_packet (usable k) r) run refl
  ]

  -- Whatever bytes arrive, whatever the handler does, and whenever the context is cancelled or the
  -- connection closed, the loop ends: fuel for more rounds than there are bytes is enough.
  pub loop_ends :
      (fuel k : ℕ) (r : TcpReader) (s : S)
      → length r.input < fuel
      → (r' : TcpReader) × (s' : S) × (e : Exit) × (loop done usable handler fuel k r s
          ≡ some (r', s', e))
  loop_ends zero k r s h = absurd (omega arith)
  loop_ends (suc fuel) k r s h = elim (round fuel k r s) [
    | inl ended ↦ ended
    | inr (r', s', next, less) ↦
        let (t, u, e, ran) = loop_ends fuel (k + 2) r' s' (omega arith) in (t, u, e, next ∙ ran)
  ]
