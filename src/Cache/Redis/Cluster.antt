-- ===== src/Cache/Redis/Cluster.antt =====
-- From a list of addresses in a text to a client of the cluster, in pkg/util/redis/redis.go.
use net_flux.Base.{
  ℕ, zero, suc, ◌≡◌, refl, sym, ap, ◌∙◌, ◌⊎◌, inl, inr, Bool, true, ◌&&◌, not, Option, none, some,
  List, [], ◌∷◌, ◌++◌, map, ltb, ◌==◌, if◌then◌else◌, Option-cases, arith,
}
use net_flux.Base.Int.{ℤ, pos, negsuc}
use net_flux.Base.Text.{Str, trim_space, trim_left}
use net_flux.Base.Text.Trim.{trim_space_idem}
use net_flux.Cache.Redis.{
  Options, pool_or_default, split_comma, trimmed, new_options_from_cluster, Universal,
  cluster_client, address_empty, new_redis_client, NewError, bad_options, ping_failed, new_client,
}

-- Addresses with a comma between each two.
unfoldable pub join_comma : Str → List Str → Str
join_comma first [] = first
join_comma first (next ∷ rest) = first ++ (44 ∷ join_comma next rest)

abbrev pub has_no_comma : Str → Bool
has_no_comma [] = true
has_no_comma (c ∷ s) = not (c == 44) && has_no_comma s

abbrev pub have_no_comma : List Str → Bool
have_no_comma [] = true
have_no_comma (s ∷ rest) = has_no_comma s && have_no_comma rest

split_comma_one : (s : Str) → has_no_comma s ≡ true → split_comma s ≡ s ∷ []
unfolding split_comma
split_comma_one [] ok = refl
split_comma_one (c ∷ s) ok = let rest = split_comma_one s in ground (arith, ok, rest)

split_comma-append :
    (s t : Str) → has_no_comma s ≡ true → split_comma (s ++ (44 ∷ t)) ≡ s ∷ split_comma t
unfolding split_comma
split_comma-append [] t ok = refl
split_comma-append (c ∷ s) t ok = let rest = split_comma-append s t in ground (arith, ok, rest)

split_comma-join_comma :
    (first : Str) (rest : List Str)
    → have_no_comma (first ∷ rest) ≡ true
    → split_comma (join_comma first rest) ≡ first ∷ rest
unfolding join_comma
split_comma-join_comma first [] ok = split_comma_one first (ground (arith, ok))
split_comma-join_comma first (next ∷ rest) ok =
    split_comma-append first (join_comma next rest) (ground (arith, ok))
    ∙ ap (◌∷◌ first) (split_comma-join_comma next rest (ground (arith, ok)))

-- A text in front of others unless it is empty, where nothing is left to trim.
trimmed-kept :
    (t : Str) (rest : List Str)
    → trim_space t ≡ t
    → trimmed rest ≡ rest
    → let kept : List Str = elim t [ [] ↦ rest | c ∷ addr ↦ (c ∷ addr) ∷ rest ] in
      trimmed kept ≡ kept
unfolding trimmed
trimmed-kept [] rest same others = others
trimmed-kept (c ∷ s) rest same others = rw (trimmed, same) (ap (◌∷◌ (c ∷ s)) others)

trimmed_idem : (addrs : List Str) → trimmed (trimmed addrs) ≡ trimmed addrs
unfolding trimmed
trimmed_idem [] = refl
trimmed_idem (s ∷ rest) =
    trimmed-kept (trim_space s) (trimmed rest) (trim_space_idem s) (trimmed_idem rest)

-- The texts that are not empty.
abbrev pub not_empty : List Str → List Str
not_empty [] = []
not_empty ([] ∷ rest) = not_empty rest
not_empty ((c ∷ s) ∷ rest) = (c ∷ s) ∷ not_empty rest

-- A size, or ten if it is not positive.
abbrev pub positive_or_ten : ℤ → ℤ
positive_or_ten (pos n) = if ltb 0 n then pos n else pos 10
positive_or_ten (negsuc n) = pos 10

pool_or_default-ten : (n : ℤ) → pool_or_default n ≡ positive_or_ten n
unfolding pool_or_default
pool_or_default-ten (pos zero) = refl
pool_or_default-ten (pos (suc n)) = ground arith
pool_or_default-ten (negsuc n) = refl

trimmed-not_empty : (addrs : List Str) → trimmed addrs ≡ not_empty (map trim_space addrs)
unfolding trimmed
trimmed-not_empty [] = refl
trimmed-not_empty (s ∷ rest) = go (trim_space s) (trimmed-not_empty rest)
  where
    go :
        (t : Str)
        → trimmed rest ≡ not_empty (map trim_space rest)
        → (elim t as (λ _. List Str) [ [] ↦ trimmed rest | c ∷ addr ↦ (c ∷ addr) ∷ trimmed rest ])
          ≡ not_empty (t ∷ map trim_space rest)
    go [] same = same
    go (c ∷ addr) same = ap (◌∷◌ (c ∷ addr)) same

module _ {S : Type 0} (ping close : Universal → S → S × Option ℕ) where
  -- What `New` gives for the addresses that are left: none, and the error of an empty address; else a
  -- client of the cluster that has answered a ping, or the ping's error once the client is closed.
  abbrev pub Makes : List Str → Str → ℤ → S → S × (NewError ⊎ Universal) → Type 0
  Makes [] password size s r = r ≡ (s, inl (bad_options address_empty))
  Makes (a ∷ addrs) password size s r =
      let cli = cluster_client (a ∷ addrs) password size in
      ((t : S) × (ping cli s ≡ (t, none)) × (r ≡ (t, inr cli)))
      ⊎ ((t : S) × (e : ℕ) × (ping cli s ≡ (t, some e))
          × (r ≡ ((close cli t).0, inl (ping_failed e))))

  abbrev options_for : List Str → Str → ℤ → Options
  options_for addrs password pool_size = record {
    addr = [];
    cluster = addrs;
    password = password;
    db = pos 0;
    pool_size = pool_or_default pool_size;
  }

  new_client-Makes :
      (addrs : List Str) (password : Str) (pool_size : ℤ) (s : S)
      → trimmed addrs ≡ addrs
      → Makes addrs password
          (pool_or_default pool_size)
          s
          (new_client ping close (some (options_for addrs password pool_size)) s)
  unfolding new_client new_redis_client trim_space trim_left
  new_client-Makes [] password pool_size s same = refl
  new_client-Makes (a ∷ addrs) password pool_size s same =
      let cli = cluster_client (a ∷ addrs) password (pool_or_default pool_size) in
      elim (Option-cases (ping cli s).1) [
        | inl fine ↦ inl ((ping cli s).0, rw fine refl, rw (new_client, same) (rw fine refl))
        | inr (e, failed) ↦
            inr ((ping cli s).0, e, rw failed refl, rw (new_client, same) (rw failed refl))
      ]

  -- `New` with the options for addresses that have no comma themselves and are joined by commas: it
  -- pings a client of the cluster for those that are not blank, without the space around them and in
  -- their order, with the pool's size or ten if that is not positive, and closes it where the ping
  -- fails; if all are blank, it makes none and its error is that of an address that is empty.
  pub new_client-cluster :
      (first : Str) (rest : List Str) (password : Str) (pool_size : ℤ) (s : S)
      → have_no_comma (first ∷ rest) ≡ true
      → Makes (not_empty (map trim_space (first ∷ rest))) password (positive_or_ten pool_size) s (
          new_client ping close
            (some (new_options_from_cluster (join_comma first rest) password pool_size))
            s)
  unfolding new_options_from_cluster
  new_client-cluster first rest password pool_size s ok =
      rw
        (
          sym (trimmed-not_empty (first ∷ rest)),
          sym (pool_or_default-ten pool_size),
          split_comma-join_comma first rest ok,
        )
        (new_client-Makes (trimmed (first ∷ rest)) password pool_size s
          (trimmed_idem (first ∷ rest)))
