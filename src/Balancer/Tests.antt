-- ===== src/Balancer/Tests.antt =====
-- The balancers at a service with three instances, over a client that stores one configuration.
use net_flux.Base.{
  ℕ, ◌+◌, ◌<◌, length, ◌≡◌, refl, ◌⊎◌, inl, inr, true, false, Option, none, some, List, [], ◌∷◌,
  ◌++◌, take, drop, ◌==◌, if◌then◌else◌, arith,
}
use net_flux.Base.Int.{ℤ, pos, negsuc}
use net_flux.Balancer.Client.{BalanceError, json_error}
use net_flux.Base.Text.{Str, is_empty_str, is_space, digits, itoa}
use net_flux.Naming.Types.{Instance, Service, DiscoClient}
use net_flux.Naming.Samples.{sample}
use net_flux.Balancer.Robin.{RoundRobin, pick, resolve, service_of, store_and_pick, fetch}
use net_flux.Balancer.Robin.Rotation.{picks, chosen, picks-rotation}
use net_flux.Balancer.Robin.Cached.{NotJson, resolve_again}
use net_flux.Balancer.Compose.{compose_resolve, compose_resolve_sticky}

abbrev host : ℕ → Instance
host n = sample n true

abbrev service : Service
service = record {
  name = 97 ∷ [];
  group_name = 49 ∷ [];
  cluster = [];
  valid = true;
  instances = host 1 ∷ host 2 ∷ host 3 ∷ [];
}

decimal : itoa (negsuc 1023) ≡ 45 ∷ 49 ∷ 48 ∷ 50 ∷ 52 ∷ []
unfolding itoa digits
decimal = refl

abbrev robin : RoundRobin
robin = record { next_index = 1; total_weight = pos 0; group_name = [] }

picks-rotation_example :
    ((picks 3 service robin).1 ≡ chosen (drop 2 service.instances ++ take 2 service.instances))
    × ((picks 3 service robin).0.next_index ≡ 1)
picks-rotation_example = picks-rotation service robin (omega arith)

abbrev one_cell : DiscoClient
one_cell = record {
  State = Str;
  get_config = λ key s. (s, inr s);
  set_config = λ key value s. (value, none);
  get_service = λ name grp s. (s, inr (some service));
}

abbrev marshal : Service → ℕ ⊎ Str
marshal s = inr (123 ∷ s.name)

abbrev unmarshal : Str → ℕ ⊎ Option Service
unmarshal [] = inl 6
unmarshal (c ∷ _) = if c == 110 then inl 7 else inr (some service)

-- As in `name:"a"`; a service that has nothing is the empty text.
abbrev text_of : Str → List Instance → Str
text_of [] [] = []
text_of name _ = 110 ∷ 97 ∷ 109 ∷ 101 ∷ 58 ∷ 34 ∷ name

abbrev text : Service → Str
text s = text_of s.name s.instances

refused : (name : Str) (xs : List Instance) → 0 < length xs → unmarshal (text_of name xs) ≡ inl 7
refused name [] many = elim many [ ]
refused [] (x ∷ xs) many = refl
refused (c ∷ name) (x ∷ xs) many = refl

visible : (name : Str) (xs : List Instance) → 0 < length xs → is_empty_str (text_of name xs) ≡ false
unfolding is_empty_str is_space
visible name [] many = elim many [ ]
visible [] (x ∷ xs) many = refl
visible (c ∷ name) (x ∷ xs) many = refl

not_json : NotJson one_cell marshal unmarshal text
not_json = record {
  error = λ _. 7;
  refused = λ s many. refused s.name s.instances many;
  visible = λ s many. visible s.name s.instances many;
}

resolve_again_example :
    (e : ℕ) × ((resolve one_cell marshal unmarshal text
        (97 ∷ [])
        (pos 1)
        robin
        (resolve one_cell marshal unmarshal text (97 ∷ []) (pos 1) robin []).1).2
      ≡ inl (json_error e))
unfolding resolve service_of store_and_pick fetch pick is_empty_str is_space
resolve_again_example =
    resolve_again one_cell marshal unmarshal text (97 ∷ []) (pos 1) robin robin [] (some (host 3))
      (λ k v s h. refl) not_json refl

abbrev instance_json : Option Instance → ℕ ⊎ Str
instance_json none = inl 3
instance_json (some x) = inr (123 ∷ x.instance_id)

abbrev parse_instance : Str → ℕ ⊎ Instance
parse_instance (_ ∷ n ∷ []) = inr (host n)
parse_instance _ = inl 4

-- An inner balancer that counts its calls.
abbrev counting : Str → Str → ℤ → ℕ → Str → ℕ × Str × (BalanceError ⊎ Option Instance)
counting service_name stream_id node b s = (b + 1, s, inr (some (host (b + 1))))

compose_resolve_sticky_example :
    let (c, s', first) =
      compose_resolve one_cell counting instance_json parse_instance true
        (97 ∷ [])
        (98 ∷ [])
        (pos 4)
        0
        [] in
    (first ≡ inr (some (host 1)))
    × ((compose_resolve one_cell counting instance_json parse_instance true
          (97 ∷ [])
          (98 ∷ [])
          (pos 4)
          5
          s').2
        ≡ inr (some (host 1)))
    × ((compose_resolve one_cell counting instance_json parse_instance true
          (97 ∷ [])
          (98 ∷ [])
          (pos 4)
          5
          s').0
        ≡ 5)
unfolding is_empty_str is_space
compose_resolve_sticky_example =
    compose_resolve_sticky one_cell counting instance_json parse_instance (97 ∷ []) (98 ∷ [])
      (pos 4) 0 1 5 [] [] [] [] (123 ∷ 1 ∷ []) (host 1) (λ k v s h. refl) refl refl refl refl refl
      refl refl
