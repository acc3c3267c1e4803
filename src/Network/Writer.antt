-- ===== src/Network/Writer.antt =====
-- pkg/network/tcp_writer.go: `writeAll`, and the frame that `WritePacket` builds in a buffer which
-- it keeps from packet to packet.
pub mod All
pub mod Frame
pub mod Sends
use net_flux.Base.{
  ℕ, zero, suc, ◌+◌, ◌-◌, ◌%◌, ◌≤◌, ◌<◌, ◌≡◌, ◌≢◌, ◌⊎◌, inl, inr, refl, sym, ap, ◌∙◌, Bool, true,
  false, ◌||◌, Option, none, some, List, [], ◌∷◌, ◌++◌, length, take, drop, set, replicate, ltb,
  leb, ◌==◌, if◌then◌else◌, arith,
}
use net_flux.Base.Bytes.{put_be, copy_at}
use net_flux.Network.Packet.{
  NetError, err_no_ready, packet_too_large, header_size, max_packet_size, current_version, no_flags,
  no_reserved,
}

-- An `io.Writer`, which belongs to the environment: its states, the call, and the bytes that it has
-- taken so far. The laws are those that the documentation of `io.Writer` states.
pub record IoWriter : Type 1 where
  pub State : Type 0
  pub write : List ℕ → State → State × ℕ × Option NetError
  pub taken : State → List ℕ
  -- "It returns the number of bytes written from p (0 <= n <= len(p))."
  pub bounded : (p : List ℕ) (s : State) → (write p s).1 ≤ length p
  -- "Write must return a non-nil error if it returns n < len(p)": less than that is used, that a
  -- call with no error has written something.
  pub progress : (p : List ℕ) (s : State) → (write p s).2 ≡ none → 0 < length p → 0 < (write p s).1
  -- The bytes that were taken are the first n of p.
  pub takes : (p : List ℕ) (s : State) → taken (write p s).0 ≡ taken s ++ take (write p s).1 p

module _ (w : IoWriter) where
  -- `writeAll`; `none` means that the fuel ran out.
  unfoldable pub write_all_from : ℕ → ℕ → List ℕ → w.State → Option (w.State × ℕ × Option NetError)
  write_all_from zero total p s = none
  write_all_from (suc fuel) total p s =
      let (t, n, err) = w.write p s in
      let rest = write_all_from fuel (total + n) (drop n p) t in
      if length p == 0
      then some (s, total, none)
      else elim err [ some e ↦ some (t, total + n, some e) | none ↦ rest ]

  unfoldable pub write_all : ℕ → List ℕ → w.State → Option (w.State × ℕ × Option NetError)
  unfolding write_all_from
  write_all fuel p s = write_all_from fuel 0 p s

-- The buffer of a `tcpWriter`, at its full capacity: what lies in it is left from earlier packets.
pub record TcpWriter : Type 0 where
  pub storage : List ℕ

-- `if cap(w.buff) < need { w.buff = make([]byte, need) }`
unfoldable pub grow : ℕ → List ℕ → List ℕ
grow need storage = if ltb (length storage) need then replicate need 0 else storage

-- The assignments that lay the header and the payload out in the buffer, over what it held.
unfoldable pub fill : ℕ → ℕ → List ℕ → List ℕ → List ℕ
fill cmd subcmd payload b0 =
    let b1 = copy_at b0 0 (put_be 2 (length payload % 65536)) in
    let b2 = set b1 2 cmd in
    let b3 = set b2 3 subcmd in
    let b4 = set b3 4 current_version in
    let b5 = copy_at b4 5 (put_be 2 no_flags) in
    let b6 = set b5 7 no_reserved in copy_at b6 header_size payload

module _ (w : IoWriter) {Msg : Type 0} (marshal : Msg → NetError ⊎ List ℕ) where
  -- The part of `WritePacket` behind the conversion of the message to bytes.
  unfoldable pub write_payload :
      ℕ → ℕ → ℕ → List ℕ → TcpWriter → w.State → Option (TcpWriter × w.State × Option NetError)
  unfolding write_all
  write_payload fuel cmd subcmd payload tw s =
      let need = header_size + length payload in
      let storage = fill cmd subcmd payload (grow need tw.storage) in
      if ltb max_packet_size (length payload)
      then some (tw, s, some packet_too_large)
      else elim (write_all w fuel (take need storage) s) [
        | none ↦ none
        | some (t, n, err) ↦ some (record tw { storage = storage }, t, err)
      ]

  -- `usable` is the test of the connection. The result is `none` only if the fuel runs out.
  unfoldable pub write_packet :
      ℕ → Bool → ℕ → ℕ → Msg → TcpWriter → w.State → Option (TcpWriter × w.State × Option NetError)
  unfolding write_payload
  write_packet fuel usable cmd subcmd pkt tw s =
      if usable
      then elim (marshal pkt) [
        | inl e ↦ some (tw, s, some e)
        | inr payload ↦ write_payload fuel cmd subcmd payload tw s
      ]
      else some (tw, s, some err_no_ready)
