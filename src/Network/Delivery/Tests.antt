-- ===== src/Network/Delivery/Tests.antt =====
-- Two messages over a writer that takes all it is given.
use net_flux.Base.{
  ℕ, ◌≡◌, refl, ◌⊎◌, inl, inr, true, false, Option, none, some, List, [], ◌∷◌, ◌++◌, length,
  take_length, ap, sym, arith,
}
use net_flux.Network.Packet.{NetError, eof}
use net_flux.Network.Writer.{IoWriter, TcpWriter}
use net_flux.Network.Reader.{failed, loop}
use net_flux.Network.Dispatch.{Kind, ping, lookup_ack, HandlerCall}
use net_flux.Network.Dispatch.Routing.{codes}
use net_flux.Network.Delivery.{Item, send_items, receive, calls_all, send_items-loop}

abbrev taking : IoWriter
taking = record {
  State = List ℕ;
  write = λ p s. (s ++ p, length p, none);
  taken = λ s. s;
  bounded = λ p s. omega arith;
  progress = λ p s h some_. some_;
  takes = λ p s. ap (λ q. s ++ q) (sym (take_length p));
}

abbrev marshal : List ℕ → NetError ⊎ List ℕ
marshal m = inr m

abbrev unmarshal : Kind → List ℕ → NetError ⊎ List ℕ
unmarshal kind bytes = inr bytes

abbrev log_call :
    HandlerCall (List ℕ)
    → List (HandlerCall (List ℕ))
    → List (HandlerCall (List ℕ)) × Option NetError
log_call call calls = (call ∷ calls, none)

abbrev items : List (Item (List ℕ))
items =
    record { kind = ping; cmd = 10; subcmd = 10; message = 1 ∷ 2 ∷ []; payload = 1 ∷ 2 ∷ [] }
    ∷ record { kind = lookup_ack; cmd = 20; subcmd = 13; message = []; payload = [] }
    ∷ []

abbrev writer : TcpWriter
writer = record { storage = [] }

send_items-loop_example :
    (tw' : TcpWriter) × (t : List ℕ) × (err : Option NetError) × (send_items taking marshal 65544
        items writer []
      ≡ some (tw', t, err))
    × (((e : NetError) × (err ≡ some e))
        ⊎ ((storage' : List ℕ) × (loop
                (λ _. false)
                (λ _. true)
                (receive marshal unmarshal log_call)
                3
                0
                (record { input = t; storage = [] })
                []
              ≡ some (
                record { input = []; storage = storage' },
                calls_all marshal unmarshal log_call items [],
                failed eof,
              ))))
unfolding codes
send_items-loop_example =
    send_items-loop marshal unmarshal log_call taking 65544 3 items writer [] [] []
      (
        record { coded = inl (refl, refl); encoded = refl; decoded = refl; small = omega arith },
        (
          record { coded = inl (refl, refl); encoded = refl; decoded = refl; small = omega arith },
          tt,
        ),
      )
      refl (omega arith) (omega arith)
