-- ===== src/Network/Delivery.antt =====
-- From `WritePacket` on one side of a connection to the event handler on the other: tcp_writer.go,
-- tcp_reader.go, misc/proto.go and `OnMessage` of tcp_con.go together.
mod Tests
use net_flux.Base.{
  ℕ, zero, suc, ◌+◌, ◌≤◌, ◌<◌, ◌≡◌, refl, sym, ap, ◌∙◌, ◌⊎◌, inl, inr, Bool, true, false, Option,
  none, some, List, [], ◌∷◌, ◌++◌, append_assoc, append-nil, Option-cases, take, take_length,
  length, arith,
}
use net_flux.Network.Packet.{NetError, eof, header_size, PacketHeader}
use net_flux.Network.Writer.{IoWriter, TcpWriter, write_packet}
use net_flux.Network.Writer.Frame.{frame, header_of}
use net_flux.Network.Writer.Sends.{Sent, write_packet_sends}
use net_flux.Network.Reader.{TcpReader, Exit, failed, loop}
use net_flux.Network.Reader.Framing.{Message, frames, AllSmall, handle_all, loop-frames}
use net_flux.Network.Dispatch.{Kind, decode, unbox, HandlerCall, hand_over, on_message}
use net_flux.Network.Dispatch.Routing.{codes, Among, callback, unbox-codes, on_message-unbox}

-- A message to send, with the type that its codes stand for and its encoding.
pub record Item (Msg : Type 0) : Type 0 where
  pub kind : Kind
  pub cmd : ℕ
  pub subcmd : ℕ
  pub message : Msg
  pub payload : List ℕ

module _ {Msg : Type 0} where
  abbrev pub packets : List (Item Msg) → List Message
  packets [] = []
  packets (i ∷ is) = (i.cmd, i.subcmd, i.payload) ∷ packets is

module _ (w : IoWriter) {Msg : Type 0} (marshal : Msg → NetError ⊎ List ℕ) where
  -- The calls of `WritePacket` for a list of messages, up to the first error.
  unfoldable pub send_items :
      ℕ → List (Item Msg) → TcpWriter → w.State → Option (TcpWriter × w.State × Option NetError)
  send_items fuel [] tw s = some (tw, s, none)
  send_items fuel (i ∷ is) tw s =
      elim (write_packet w marshal fuel true i.cmd i.subcmd i.message tw s) [
        | none ↦ none
        | some (tw', t, some e) ↦ some (tw', t, some e)
        | some (tw', t, none) ↦ send_items fuel is tw' t
      ]

  module _ (fuel : ℕ) (i : Item Msg) (is : List (Item Msg)) (tw tw' : TcpWriter)
      (s t : w.State) where
    send_items-failed :
        (e : NetError)
        → write_packet w marshal fuel true i.cmd i.subcmd i.message tw s ≡ some (tw', t, some e)
        → send_items fuel (i ∷ is) tw s ≡ some (tw', t, some e)
    unfolding send_items
    send_items-failed e ran = ground arith

    send_items-sent :
        write_packet w marshal fuel true i.cmd i.subcmd i.message tw s ≡ some (tw', t, none)
        → send_items fuel (i ∷ is) tw s ≡ send_items fuel is tw' t
    unfolding send_items
    send_items-sent ran = ground arith

module _ {Msg : Type 0} (marshal : Msg → NetError ⊎ List ℕ)
    (unmarshal : Kind → List ℕ → NetError ⊎ Msg) where
  -- The codes are those of the type, the library encodes the message and decodes it again, and the
  -- encoding fits a packet.
  pub record Travels (i : Item Msg) : Type 0 where
    pub coded : Among (i.cmd, i.subcmd) (codes i.kind)
    pub encoded : marshal i.message ≡ inr i.payload
    pub decoded : unmarshal i.kind i.payload ≡ inr i.message
    pub small : length i.payload ≤ 65535

  abbrev pub AllTravel : List (Item Msg) → Type 0
  AllTravel [] = Unit
  AllTravel (i ∷ is) = Travels i × AllTravel is

  AllTravel-small : (is : List (Item Msg)) → AllTravel is → AllSmall (packets is)
  AllTravel-small [] h = tt
  AllTravel-small (i ∷ is) h = (h.0.small, AllTravel-small is h.1)

  module _ (w : IoWriter) where
    -- A call without an error has put the whole frame on the wire.
    Sent-whole :
        (bytes : List ℕ) (s t : w.State) (err : Option NetError)
        → err ≡ none
        → Sent w marshal bytes s t err
        → w.taken t ≡ w.taken s ++ bytes
    Sent-whole bytes s t err fine sent = elim sent.complete [
      | inl (e, bad) ↦ absurd (ground arith)
      | inr all ↦
          sent.taken_prefix
          ∙ ap (λ l. w.taken s ++ l) (ap (λ n. take n bytes) all ∙ take_length bytes)
    ]

    -- What the calls have put on the wire.
    send_items-frames :
        (fuel : ℕ) (is : List (Item Msg)) (tw : TcpWriter) (s : w.State)
        → AllTravel is
        → header_size + 65535 < fuel
        → (tw' : TcpWriter) × (t : w.State) × (err : Option NetError) × (send_items w marshal fuel
              is tw s
            ≡ some (tw', t, err))
          × (((e : NetError) × (err ≡ some e)) ⊎ (w.taken t ≡ w.taken s ++ frames (packets is)))
    unfolding frames
    send_items-frames fuel [] tw s h enough =
        (tw, s, none, unfold send_items in refl, inr (sym (append-nil (w.taken s))))
    send_items-frames fuel (i ∷ is) tw s h enough =
        let (tw1, s1, err1, ran, sent) =
          write_packet_sends w marshal fuel i.cmd i.subcmd i.message i.payload tw s h.0.encoded
            h.0.small (omega (arith, h.0.small)) in
        elim (Option-cases err1) [
          | inr (e, bad) ↦ (
            tw1,
            s1,
            some e,
            send_items-failed w marshal fuel i is tw tw1 s s1 e
                (ran ∙ ap (λ x. some (tw1, s1, x)) bad),
            inl (e, refl),
          )
          | inl fine ↦
              let (tw2, s2, err2, ran2, wire) = send_items-frames fuel is tw1 s1 h.1 enough in
              (
                tw2,
                s2,
                err2,
                send_items-sent w marshal fuel i is tw tw1 s s1
                      (ran ∙ ap (λ x. some (tw1, s1, x)) fine)
                    ∙ ran2,
                elim wire [
                  | inl bad ↦ inl bad
                  | inr all ↦ inr (
                      all
                      ∙ ap (λ l. l ++ frames (packets is))
                          (Sent-whole (frame i.cmd i.subcmd i.payload) s s1 err1 fine sent)
                      ∙ append_assoc (w.taken s) (frame i.cmd i.subcmd i.payload)
                          (frames (packets is)))
                ],
              )
        ]

  module _ {S : Type 0} (handler : HandlerCall Msg → S → S × Option NetError) where
    -- The callbacks for the messages in turn, each with the message that was sent.
    unfoldable pub calls_all : List (Item Msg) → S → S
    calls_all [] s = s
    calls_all (i ∷ is) s = calls_all is (handler (callback i.cmd i.subcmd (some i.message)) s).0

    abbrev pub receive : PacketHeader → List ℕ → S → S × Option NetError
    receive = on_message unmarshal handler true none

    hand_over-decoded :
        (kind : Kind) (bytes : List ℕ) (m : Msg) (call : Option Msg → HandlerCall Msg) (s : S)
        → unmarshal kind bytes ≡ inr m
        → hand_over unmarshal handler (decode unmarshal kind bytes) call s
          ≡ handler (call (some m)) s
    unfolding hand_over decode
    hand_over-decoded kind bytes m call s h = ground arith

    receive-callback :
        (i : Item Msg) (s : S)
        → Travels i
        → receive (header_of i.cmd i.subcmd (length i.payload)) i.payload s
          ≡ handler (callback i.cmd i.subcmd (some i.message)) s
    unfolding header_of
    receive-callback i s h =
        on_message-unbox unmarshal handler (header_of i.cmd i.subcmd (length i.payload)) i.payload s
        ∙ ap (λ m. hand_over unmarshal handler m (callback i.cmd i.subcmd) s)
            (unbox-codes unmarshal i.kind i.cmd i.subcmd i.payload h.coded)
        ∙ hand_over-decoded i.kind i.payload i.message (callback i.cmd i.subcmd) s h.decoded

    handle_all-calls_all :
        (is : List (Item Msg)) (s : S)
        → AllTravel is
        → handle_all receive (packets is) s ≡ calls_all is s
    unfolding handle_all calls_all
    handle_all-calls_all [] s h = refl
    handle_all-calls_all (i ∷ is) s h =
        ap (λ p. handle_all receive (packets is) p.0) (receive-callback i s h.0)
        ∙ handle_all-calls_all is (handler (callback i.cmd i.subcmd (some i.message)) s).0 h.1

    length-packets : (is : List (Item Msg)) → length (packets is) ≡ length is
    length-packets [] = refl
    length-packets (i ∷ is) = ap suc (length-packets is)

    -- Messages that the library encodes and decodes again, under the codes of their types, sent by
    -- `WritePacket` over a writer within the contract of `io.Writer` that has taken nothing yet: the
    -- calls end, and if none reports an error, a reader that receives what the writer has taken, on a
    -- connection that nobody cancels or closes before its end, calls the callback of each message's
    -- command with that message, in the order of the calls, whatever the callbacks return, and ends
    -- with `io.EOF`. Fuel for the largest packet and for one round more than messages is enough.
    pub send_items-loop :
        (w : IoWriter) (fuel rounds : ℕ) (is : List (Item Msg)) (tw : TcpWriter) (s : w.State)
        (storage : List ℕ) (st : S)
        → AllTravel is
        → w.taken s ≡ []
        → header_size + 65535 < fuel
        → length is < rounds
        → (tw' : TcpWriter) × (t : w.State) × (err : Option NetError) × (send_items w marshal fuel
              is tw s
            ≡ some (tw', t, err))
          × (((e : NetError) × (err ≡ some e))
              ⊎ ((storage' : List ℕ) × (loop
                      (λ _. false)
                      (λ _. true)
                      receive
                      rounds
                      0
                      (record { input = w.taken t; storage = storage })
                      st
                    ≡ some
                        (record { input = []; storage = storage' }, calls_all is st, failed eof))))
    send_items-loop w fuel rounds is tw s storage st h empty enough more =
        let (tw', t, err, ran, wire) = send_items-frames w fuel is tw s h enough in
        let (storage', looped) =
          loop-frames receive (packets is) rounds 0 storage st (AllTravel-small is h)
            (omega (arith, length-packets is)) in
        (
          tw',
          t,
          err,
          ran,
          elim wire [
            | inl bad ↦ inl bad
            | inr all ↦ inr (
              storage',
              rw (all ∙ ap (λ l. l ++ frames (packets is)) empty)
                  (rw (← handle_all-calls_all is st h) looped),
            )
          ],
        )
