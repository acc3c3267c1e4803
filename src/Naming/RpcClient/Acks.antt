-- ===== src/Naming/RpcClient/Acks.antt =====
-- What a LOOKUP_ACK puts into the channels of those who wait.
pub mod Begun
use net_flux.Base.{
  ℕ, ◌≡◌, ◌≢◌, refl, ap, ◌∙◌, inl, inr, Bool, true, false, ◌||◌, Option, none, some, Option-cases,
  List, [], ◌∷◌, ◌++◌, length, ◌==◌, if◌then◌else◌, arith,
}
use native.Mathlib.Decide.{ℕ_discrete}
use net_flux.Base.Map
use net_flux.Base.Map.{lookup-insert, lookup-insert_self, lookup-delete_self}
use net_flux.Base.Text.{Str}
use net_flux.Naming.Types.{Service}
use net_flux.Naming.RpcClient.{
  lookup_key, LookupResult, found, RpcClient, begin_lookup, or_default, send, deliver, deliver_keys,
  keys_of, deliver_services, send_all, handle_lookup_ack,
}
use net_flux.Base.Text.{str_discrete}

-- Whether the channel belongs to the key.
unfoldable pub owns : List (Str × ℕ) → ℕ → Str → Bool
owns pending ch key = elim (Map.lookup str_discrete key pending) [ none ↦ false | some c ↦ c == ch ]

unfoldable pub owns_any : List (Str × ℕ) → ℕ → List Str → Bool
owns_any pending ch [] = false
owns_any pending ch (key ∷ keys) = owns pending ch key || owns_any pending ch keys

-- The keys under which a lookup is answered by a service: its name with its own group, with the
-- client's and with none, each behind "@".
abbrev pub answers : Str → Service → List Str
answers group_name svc =
    (svc.name ++ (64 ∷ svc.group_name))
    ∷ (svc.name ++ (64 ∷ group_name))
    ∷ (svc.name ++ (64 ∷ []))
    ∷ []

-- Whether a service of the list has a key whose lookup waits on the channel.
unfoldable pub named_in : Str → List (Str × ℕ) → ℕ → List (Option Service) → Bool
named_in group_name pending ch [] = false
named_in group_name pending ch (none ∷ services) = named_in group_name pending ch services
named_in group_name pending ch (some svc ∷ services) =
    owns_any pending ch (answers group_name svc) || named_in group_name pending ch services

unfoldable pub waits_on : List (Str × ℕ) → ℕ → Bool
waits_on [] ch = false
waits_on ((key, c) ∷ pending) ch = (c == ch) || waits_on pending ch

-- The result that waits in a channel, or one that is put there on a condition.
unfoldable pub filled : LookupResult → Bool → Option LookupResult → Option LookupResult
filled res hit (some r) = some r
filled res hit none = if hit then some res else none

lookup-send :
    (c ch : ℕ) (res : LookupResult) (chans : List (ℕ × LookupResult))
    → Map.lookup ℕ_discrete ch (send c res chans)
      ≡ filled res (c == ch) (Map.lookup ℕ_discrete ch chans)
unfolding send filled
lookup-send c ch res chans = ground (arith, lookup-insert ℕ_discrete c ch res chans)

lookup-send_all :
    (ch : ℕ) (res : LookupResult) (pending : List (Str × ℕ)) (chans : List (ℕ × LookupResult))
    → Map.lookup ℕ_discrete ch (send_all res pending chans)
      ≡ filled res (waits_on pending ch) (Map.lookup ℕ_discrete ch chans)
unfolding send_all waits_on filled
lookup-send_all ch res [] chans = ground arith
lookup-send_all ch res ((key, c) ∷ pending) chans =
    ground (arith, lookup-send_all ch res pending (send c res chans), lookup-send c ch res chans)

module _ (pending : List (Str × ℕ)) (res : LookupResult) where
  -- A key that was delivered has a result in its channel.
  abbrev IsServed : List (ℕ × LookupResult) × List (Str × Unit {0}) → Type 0
  IsServed (chans, delivered) =
      (key : Str) (ch : ℕ)
      → Map.lookup str_discrete key delivered ≡ some tt
      → Map.lookup str_discrete key pending ≡ some ch
      → (r : LookupResult) × (Map.lookup ℕ_discrete ch chans ≡ some r)

  -- What a step does to every channel, with the property of the delivered keys kept.
  record Serves (hit : ℕ → Bool) (p q : List (ℕ × LookupResult) × List (Str × Unit {0}))
      : Type 0 where
    served : IsServed q
    content :
        (ch : ℕ) → Map.lookup ℕ_discrete ch q.0 ≡ filled res (hit ch) (Map.lookup ℕ_discrete ch p.0)

  send-IsServed :
      (key : Str) (c : ℕ) (chans : List (ℕ × LookupResult)) (delivered : List (Str × Unit {0}))
      → Map.lookup str_discrete key pending ≡ some c
      → IsServed (chans, delivered)
      → IsServed (send c res chans, Map.insert str_discrete key tt delivered)
  unfolding filled
  send-IsServed key c chans delivered owned h q ch d o = elim (str_discrete key q) [
    | yes same ↦ elim (Option-cases (Map.lookup ℕ_discrete c chans)) [
      | inl empty ↦ (res, ground (arith, lookup-send c ch res chans))
      | inr (r, full) ↦ (r, ground (arith, lookup-send c ch res chans))
    ]
    | no other ↦
        let (r, full) = h q ch (ground (arith, lookup-insert str_discrete key q tt delivered)) o in
        (r, ground (arith, lookup-send c ch res chans))
  ]

  deliver_again :
      (key : Str) (c ch : ℕ) (r : LookupResult) (chans : List (ℕ × LookupResult))
      → Map.lookup ℕ_discrete c chans ≡ some r
      → Map.lookup ℕ_discrete ch chans ≡ filled res (c == ch) (Map.lookup ℕ_discrete ch chans)
  unfolding filled
  deliver_again key c ch r chans full = ground arith

  filled_never : (o : Option LookupResult) → o ≡ filled res false o
  unfolding filled
  filled_never none = refl
  filled_never (some r) = refl

  deliver_nobody :
      (key : Str) (chans : List (ℕ × LookupResult)) (delivered : List (Str × Unit {0}))
      → Map.lookup str_discrete key pending ≡ none
      → deliver pending res key (chans, delivered) ≡ (chans, delivered)
  unfolding deliver
  deliver_nobody key chans delivered nobody = ground arith

  deliver_done :
      (key : Str) (chans : List (ℕ × LookupResult)) (delivered : List (Str × Unit {0}))
      → Map.lookup str_discrete key delivered ≡ some tt
      → deliver pending res key (chans, delivered) ≡ (chans, delivered)
  unfolding deliver
  deliver_done key chans delivered done = ground arith

  deliver_new :
      (key : Str) (c : ℕ) (chans : List (ℕ × LookupResult)) (delivered : List (Str × Unit {0}))
      → Map.lookup str_discrete key delivered ≡ none
      → Map.lookup str_discrete key pending ≡ some c
      → deliver pending res key (chans, delivered)
        ≡ (send c res chans, Map.insert str_discrete key tt delivered)
  unfolding deliver
  deliver_new key c chans delivered new owned = ground arith

  deliver-Serves :
      (key : Str) (p : List (ℕ × LookupResult) × List (Str × Unit {0}))
      → IsServed p
      → Serves (λ ch. owns pending ch key) p (deliver pending res key p)
  unfolding owns
  deliver-Serves key (chans, delivered) h =
      elim (Option-cases (Map.lookup str_discrete key pending)) [
        | inl nobody ↦ rw (deliver_nobody key chans delivered nobody) (record {
          served = h;
          content = λ ch. ground (arith, filled_never (Map.lookup ℕ_discrete ch chans));
        })
        | inr (c, owned) ↦ elim (Option-cases (Map.lookup str_discrete key delivered)) [
          | inl new ↦ rw (deliver_new key c chans delivered new owned) (record {
            served = send-IsServed key c chans delivered owned h;
            content = λ ch. ground (arith, lookup-send c ch res chans);
          })
          | inr (_, done) ↦
              let (r, full) = h key c done owned in
              rw (deliver_done key chans delivered done) (record {
                served = h;
                content = λ ch. ground (arith, deliver_again key c ch r chans full);
              })
        ]
      ]

  filled_twice :
      (a b : Bool) (o : Option LookupResult) → filled res b (filled res a o) ≡ filled res (a || b) o
  unfolding filled
  filled_twice a b none = ground arith
  filled_twice a b (some r) = refl

  deliver_keys-Serves :
      (keys : List Str) (p : List (ℕ × LookupResult) × List (Str × Unit {0}))
      → IsServed p
      → Serves (λ ch. owns_any pending ch keys) p (deliver_keys pending res keys p)
  unfolding deliver_keys owns_any
  deliver_keys-Serves [] p h = record {
    served = h;
    content = λ ch. filled_never (Map.lookup ℕ_discrete ch p.0);
  }
  deliver_keys-Serves (key ∷ keys) p h =
      let first = deliver-Serves key p h in
      let rest = deliver_keys-Serves keys (deliver pending res key p) first.served in
      record {
        served = rest.served;
        content = λ ch.
            rest.content ch
            ∙ ap (filled res (owns_any pending ch keys)) (first.content ch)
            ∙ filled_twice (owns pending ch key) (owns_any pending ch keys)
                (Map.lookup ℕ_discrete ch p.0);
      }

  deliver_services-Serves :
      (group_name : Str) (services : List (Option Service))
      (p : List (ℕ × LookupResult) × List (Str × Unit {0}))
      → IsServed p
      → Serves
          (λ ch. named_in group_name pending ch services)
          p
          (deliver_services group_name pending res services p)
  unfolding deliver_services named_in keys_of lookup_key
  deliver_services-Serves group_name [] p h = record {
    served = h;
    content = λ ch. filled_never (Map.lookup ℕ_discrete ch p.0);
  }
  deliver_services-Serves group_name (none ∷ services) p h =
      deliver_services-Serves group_name services p h
  deliver_services-Serves group_name (some svc ∷ services) p h =
      let first = deliver_keys-Serves (keys_of group_name svc) p h in
      let rest =
        deliver_services-Serves group_name services
          (deliver_keys pending res (keys_of group_name svc) p) first.served in
      record {
        served = rest.served;
        content = λ ch.
            rest.content ch
            ∙ ap (filled res (named_in group_name pending ch services)) (first.content ch)
            ∙ filled_twice (owns_any pending ch (keys_of group_name svc))
                (named_in group_name pending ch services) (Map.lookup ℕ_discrete ch p.0);
      }

-- A LOOKUP_ACK leaves the pending lookups as they are, and every channel that holds a result. An
-- empty channel gets the services of the message if the message is not empty and one of its services
-- has a key, with its own group, the client's or none, whose lookup waits on that channel, and an
-- empty list if the message is empty and some lookup waits on it; else it stays empty.
pub handle_lookup_ack-chans :
    (services : List (Option Service)) (r : RpcClient) (ch : ℕ)
    → let r' = handle_lookup_ack (some services) r in
      (r'.pending ≡ r.pending)
      × (Map.lookup ℕ_discrete ch r'.chans
          ≡ filled
              (found services)
              (if length services == 0
                then waits_on r.pending ch
                else named_in r.group_name r.pending ch services)
              (Map.lookup ℕ_discrete ch r.chans))
unfolding handle_lookup_ack
handle_lookup_ack-chans [] r ch =
    (refl, unfold deliver_services in lookup-send_all ch (found []) r.pending r.chans)
handle_lookup_ack-chans (svc ∷ services) r ch = (
  refl,
  ground (
    arith,
    (deliver_services-Serves r.pending (found (svc ∷ services)) r.group_name (svc ∷ services)
          (r.chans, []) (unfold Map.lookup in λ key c d o. absurd (ground arith))).content
        ch,
  ),
)
