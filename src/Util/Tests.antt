-- ===== src/Util/Tests.antt =====
-- Hashes of short strings, and addresses.
use net_flux.Base.{ℕ, ◌≡◌, refl, ◌⊎◌, inl, inr, [], ◌∷◌, ◌++◌, ◌==◌, if◌then◌else◌, arith}
use net_flux.Base.Int.{pos}
use net_flux.Base.Text.{Str, codes, itoa}
use net_flux.Util.Hash.{
  xor, mix, mix_blocks, mix_each, hash, offset64, hash-mix_each, simple_hash, sum_bytes,
}
use net_flux.Util.Addresses.{
  bad_port, before_first_slash, parse_host_and_port, Splits, parse_host_and_port-addresses,
}

-- The published value of FNV-1a for "foobar".
foobar : hash (λ bs. bs) (codes "foobar") ≡ 9625390261332436968
unfolding hash mix_blocks mix_each mix xor
foobar = refl

simple : simple_hash (codes "ab") ≡ 195
unfolding simple_hash sum_bytes
simple = refl

hash-mix_each_example :
    hash (λ bs. bs) (200 ∷ codes "0123456ten") ≡ mix_each (200 ∷ codes "0123456ten") offset64
hash-mix_each_example =
    hash-mix_each (λ bs. bs) (200 ∷ codes "0123456ten") (λ str ascii. refl)
      (omega arith, (omega arith, (omega arith, tt)))

-- The parts around the first colon.
unfoldable split_colon : Str → ℕ ⊎ Str × Str
split_colon [] = inl 1
split_colon (c ∷ s) =
    let rest = split_colon s in
    if c == 58
    then inr ([], s)
    else elim rest [ inl e ↦ inl e | inr (host, port) ↦ inr (c ∷ host, port) ]

split_colon-Splits : Splits split_colon
unfolding split_colon
split_colon-Splits [] port ok numbered = refl
split_colon-Splits (c ∷ host) port ok numbered =
    let rest = split_colon-Splits host port in ground (arith, ok, numbered, rest)

parse_host_and_port-addresses_example :
    (parse_host_and_port split_colon (codes "10.0.0.7" ++ (58 ∷ itoa (pos 8080) ++ codes "/x"))
      ≡ inr (codes "10.0.0.7", pos 8080))
    × (parse_host_and_port split_colon (codes "http" ++ (58 ∷ 47 ∷ 47 ∷ codes "10.0.0.7:8080"))
        ≡ inl bad_port)
parse_host_and_port-addresses_example =
    parse_host_and_port-addresses split_colon (codes "10.0.0.7") (codes "/x") (pos 8080) 104
      (codes "ttp") (codes "10.0.0.7:8080") split_colon-Splits refl (omega arith)
      (unfold before_first_slash in refl) refl
