-- ===== src/Balancer/Compose.antt =====
-- pkg/balancer/compose.go: the instance of a stream is remembered in the configuration of the
-- discovery client, which the inner balancer may share.
use net_flux.Base.{
  refl, ℕ, ◌≡◌, ◌⊎◌, inl, inr, Bool, true, false, Option, none, some, [], ◌∷◌, ◌++◌, if◌then◌else◌,
  arith,
}
use net_flux.Base.Int.{ℤ}
use net_flux.Balancer.Client.{BalanceError, client_not_set, client_error, json_error}
use net_flux.Base.Text.{Str, is_empty_str, itoa}
use net_flux.Naming.Types.{Instance, DiscoClient, KeepsConfig}
use net_flux.Balancer.Robin.{robin_key}

-- `fmt.Sprintf("service_%s_%s_%d", serviceName, streamId, nodeId)`
unfoldable pub compose_key : Str → Str → ℤ → Str
compose_key service_name stream_id node =
    (115 ∷ 101 ∷ 114 ∷ 118 ∷ 105 ∷ 99 ∷ 101 ∷ 95 ∷ [])
    ++ service_name
    ++ (95 ∷ stream_id)
    ++ (95 ∷ itoa node)

-- `inner` is the `Resolve` of the inner balancer, which uses the same client, and B its state;
-- `marshal` and `unmarshal` are those of the library json. `has_client` tells that the client is not
-- nil.
module _ (d : DiscoClient) {B : Type 0}
    (inner : Str → Str → ℤ → B → d.State → B × d.State × (BalanceError ⊎ Option Instance))
    (marshal : Option Instance → ℕ ⊎ Str) (unmarshal : Str → ℕ ⊎ Instance) where
  -- The error of `SetConfig` is ignored.
  unfoldable pub remember :
      Str → B → d.State → Option Instance → B × d.State × (BalanceError ⊎ Option Instance)
  remember key b s instance_ = elim (marshal instance_) [
    | inl e ↦ (b, s, inl (json_error e))
    | inr buf ↦ (b, (d.set_config key buf s).0, inr instance_)
  ]

  unfoldable pub ask_inner :
      Str
      → B × d.State × (BalanceError ⊎ Option Instance)
      → B × d.State × (BalanceError ⊎ Option Instance)
  ask_inner key (b, s, inl e) = (b, s, inl e)
  ask_inner key (b, s, inr x) = remember key b s x

  unfoldable pub compose_resolve :
      Bool → Str → Str → ℤ → B → d.State → B × d.State × (BalanceError ⊎ Option Instance)
  compose_resolve false service_name stream_id node b s = (b, s, inl client_not_set)
  compose_resolve true service_name stream_id node b s =
      let key = compose_key service_name stream_id node in
      let (t, content) = d.get_config key s in
      elim content [
        | inl e ↦ (b, t, inl (client_error e))
        | inr stored ↦
            let asked = ask_inner key (inner service_name stream_id node b t) in
            if is_empty_str stored then asked else elim (unmarshal stored) [
              | inl e ↦ (b, t, inl (json_error e))
              | inr x ↦ (b, t, inr (some x))
            ]
      ]

  -- For a client that keeps its configuration, and a stream with a blank one: an instance that the
  -- inner balancer chooses is returned, and if its JSON is not blank, stands for the same instance
  -- and is stored without an error, the next call for the stream returns the same instance again,
  -- without a call of the inner balancer, whatever state that has.
  pub compose_resolve_sticky :
      (service_name stream_id : Str) (node : ℤ) (b b1 b2 : B) (s t u : d.State) (blank buf : Str)
      (x : Instance)
      → KeepsConfig d
      → d.get_config (compose_key service_name stream_id node) s ≡ (t, inr blank)
      → is_empty_str blank ≡ true
      → inner service_name stream_id node b t ≡ (b1, u, inr (some x))
      → marshal (some x) ≡ inr buf
      → unmarshal buf ≡ inr x
      → is_empty_str buf ≡ false
      → (d.set_config (compose_key service_name stream_id node) buf u).1 ≡ none
      → let (c, s', first) = compose_resolve true service_name stream_id node b s in
        (first ≡ inr (some x))
        × ((compose_resolve true service_name stream_id node b2 s').2 ≡ inr (some x))
        × ((compose_resolve true service_name stream_id node b2 s').0 ≡ b2)
  unfolding compose_resolve remember ask_inner
  compose_resolve_sticky service_name stream_id node b b1 b2 s t u blank buf x keeps got empty
        chosen bytes back full stored =
      ground (arith, keeps (compose_key service_name stream_id node) buf u stored)

-- The two balancers, which may share a client, do not keep their keys apart: the key of a stream of
-- a service is the key of the service whose name is the two joined by an underscore.
pub compose_key-robin_key :
    (service_name stream_id : Str) (node : ℤ)
    → compose_key service_name stream_id node ≡ robin_key (service_name ++ (95 ∷ stream_id)) node
unfolding compose_key robin_key
compose_key-robin_key service_name stream_id node = refl
