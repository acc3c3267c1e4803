-- ===== src/Naming/RpcClient/Choice.antt =====
-- Which service and which instance a lookup's caller gets.
use net_flux.Base.{
  ◌≡◌, ◌≢◌, inr, Bool, true, false, ◌&&◌, Option, none, some, List, [], ◌∷◌, ◌++◌, arith,
}
use net_flux.Base.Text.{Str}
use net_flux.Naming.Types.{Instance, Service}
use net_flux.Naming.RpcClient.{
  find_named, get_service, first_usable, pick_instance, get_service_instance,
}

abbrev pub is_usable : Instance → Bool
is_usable inst = inst.healthy && inst.enable

-- No service of the list has the name.
abbrev pub NoneNamed : Str → List (Option Service) → Type 0
NoneNamed name [] = Unit
NoneNamed name (none ∷ services) = NoneNamed name services
NoneNamed name (some svc ∷ services) = (svc.name ≢ name) × NoneNamed name services

-- No instance of the list is usable.
abbrev pub NoneUsable : List Instance → Type 0
NoneUsable [] = Unit
NoneUsable (inst ∷ rest) = (is_usable inst ≡ false) × NoneUsable rest

find_named-first :
    (name : Str) (before after : List (Option Service)) (svc : Service)
    → NoneNamed name before
    → svc.name ≡ name
    → find_named name (before ++ (some svc ∷ after)) ≡ some svc
unfolding find_named
find_named-first name [] after svc none_ same = ground arith
find_named-first name (none ∷ before) after svc none_ same =
    find_named-first name before after svc none_ same
find_named-first name (some other ∷ before) after svc none_ same =
    ground (arith, find_named-first name before after svc none_.1 same, none_.0)

first_usable-first :
    (before after : List Instance) (inst : Instance)
    → NoneUsable before
    → is_usable inst ≡ true
    → first_usable (before ++ (inst ∷ after)) ≡ some inst
unfolding first_usable
first_usable-first [] after inst none_ good = ground arith
first_usable-first (other ∷ before) after inst none_ good =
    ground (arith, first_usable-first before after inst none_.1 good, none_.0)

pick_instance-first :
    (svc : Service) (before after : List Instance) (inst : Instance)
    → svc.instances ≡ before ++ (inst ∷ after)
    → NoneUsable before
    → is_usable inst ≡ true
    → pick_instance (some svc) ≡ inr inst
unfolding pick_instance
pick_instance-first svc [] after inst split none_ good =
    ground (arith, split, first_usable-first [] after inst none_ good)
pick_instance-first svc (other ∷ before) after inst split none_ good =
    ground (arith, split, first_usable-first (other ∷ before) after inst none_ good)

get_service-first :
    (name : Str) (before after : List (Option Service)) (svc : Service)
    → NoneNamed name before
    → svc.name ≡ name
    → get_service name (inr (before ++ (some svc ∷ after))) ≡ inr (some svc)
unfolding get_service
get_service-first name [] after svc none_ same =
    ground (arith, find_named-first name [] after svc none_ same)
get_service-first name (x ∷ before) after svc none_ same =
    ground (arith, find_named-first name (x ∷ before) after svc none_ same)

-- A lookup's caller gets the first instance that is healthy and enabled of the first service that
-- has the name asked for, where there are such a service and such an instance of it.
pub get_service_instance-first :
    (name : Str) (before after : List (Option Service)) (svc : Service) (xs ys : List Instance)
    (inst : Instance)
    → NoneNamed name before
    → svc.name ≡ name
    → svc.instances ≡ xs ++ (inst ∷ ys)
    → NoneUsable xs
    → is_usable inst ≡ true
    → get_service_instance name (inr (before ++ (some svc ∷ after))) ≡ inr inst
unfolding get_service_instance
get_service_instance-first name before after svc xs ys inst unnamed same split unusable good =
    ground (
      arith,
      get_service-first name before after svc unnamed same,
      pick_instance-first svc xs ys inst split unusable good,
    )
