-- ===== src/Util/Addresses.antt =====
-- pkg/util/net.go: addresses with a host and a port. `net.SplitHostPort` is a parameter, with errors
-- as numbers.
use net_flux.Base.{
  ℕ, zero, suc, ◌+◌, ◌/◌, ◌%◌, ◌≡◌, refl, sym, ap, ◌∙◌, ◌⊎◌, inl, inr, Bool, true, false, ◌&&◌,
  ◌||◌, not, none, some, [], ◌∷◌, ◌++◌, append-nil, drop, ◌==◌, if◌then◌else◌, arith,
}
use net_flux.Base.Int.{ℤ, pos, negsuc}
use net_flux.Base.Text.{Str, digits, itoa, atoi}
use net_flux.Base.Text.Decimal.{FitsInt, atoi-itoa, itoa_some}

pub data AddressError : Type 0 where
  invalid_address bad_port : AddressError
  split_error : ℕ → AddressError

-- `strings.HasPrefix(addr, "://")`
unfoldable pub has_separator : Str → Bool
has_separator (a ∷ b ∷ c ∷ s) = (a == 58) && (b == 47) && (c == 47)
has_separator _ = false

-- `strings.Contains(addr, "://")`
unfoldable pub contains_separator : Str → Bool
contains_separator [] = false
contains_separator (c ∷ s) = has_separator (c ∷ s) || contains_separator s

-- `strings.Split(addr, "://")[0]`
unfoldable pub before_separator : Str → Str
before_separator [] = []
before_separator (c ∷ s) =
    let rest = before_separator s in if has_separator (c ∷ s) then [] else c ∷ rest

unfoldable pub parse_protocol : Str → AddressError ⊎ Str
parse_protocol addr =
    if contains_separator addr then inr (before_separator addr) else inl invalid_address

-- `strings.TrimPrefix(addr, "://")`
unfoldable pub trim_separator : Str → Str
trim_separator addr = if has_separator addr then drop 3 addr else addr

-- `strings.Split(addr, "/")[0]`, which is the address itself if it has no slash.
unfoldable pub before_first_slash : Str → Str
before_first_slash [] = []
before_first_slash (c ∷ s) = let rest = before_first_slash s in if c == 47 then [] else c ∷ rest

module _ (split_host_port : Str → ℕ ⊎ Str × Str) where
  unfoldable pub parse_port : Str → AddressError ⊎ ℤ
  parse_port addr = elim (split_host_port addr) [
    | inl e ↦ inl (split_error e)
    | inr (host, port) ↦ elim (atoi port) [ none ↦ inl bad_port | some p ↦ inr p ]
  ]

  unfoldable pub parse_host : Str → AddressError ⊎ Str
  parse_host addr = elim (split_host_port addr) [
    | inl e ↦ inl (split_error e)
    | inr (host, port) ↦ inr host
  ]

  unfoldable pub parse_host_and_port : Str → AddressError ⊎ Str × ℤ
  parse_host_and_port addr =
      let addr1 = if contains_separator addr then trim_separator addr else addr in
      let addr2 = before_first_slash addr1 in
      elim (split_host_port addr2) [
        | inl e ↦ inl (split_error e)
        | inr (host, port) ↦ elim (atoi port) [ none ↦ inl bad_port | some p ↦ inr (host, p) ]
      ]

-- No colon, bracket or slash.
abbrev pub plain : Str → Bool
plain [] = true
plain (c ∷ s) = not ((c == 58) || (c == 91) || (c == 93) || (c == 47)) && plain s

-- "host:port" is split at its colon.
abbrev pub Splits : (Str → ℕ ⊎ Str × Str) → Type 0
Splits split =
    (host port : Str)
    → plain host ≡ true
    → plain port ≡ true
    → split (host ++ (58 ∷ port)) ≡ inr (host, port)

plain-digits : (fuel n : ℕ) (more : Str) → plain more ≡ true → plain (digits fuel n more) ≡ true
unfolding digits
plain-digits zero n more ok = ok
plain-digits (suc fuel) n more ok =
    let rest = plain-digits fuel (n / 10) ((48 + n % 10) ∷ more) (ground (arith, ok)) in
    ground (arith, ok, rest)

plain-itoa : (v : ℤ) → plain (itoa v) ≡ true
unfolding itoa
plain-itoa (pos n) = plain-digits (n + 1) n [] refl
plain-itoa (negsuc n) = plain-digits (n + 2) (n + 1) [] refl

before_first_slash-append :
    (s rest : Str) → plain s ≡ true → before_first_slash (s ++ rest) ≡ s ++ before_first_slash rest
unfolding before_first_slash
before_first_slash-append [] rest ok = refl
before_first_slash-append (c ∷ s) rest ok =
    let later = before_first_slash-append s rest in ground (arith, ok, later)

has_separator-plain :
    (c : ℕ) (s : Str)
    → plain (c ∷ s) ≡ true
    → (rest : Str) → has_separator ((c ∷ s) ++ rest) ≡ false
unfolding has_separator
has_separator-plain c [] ok [] = refl
has_separator-plain c [] ok (a ∷ []) = refl
has_separator-plain c [] ok (a ∷ b ∷ rest) = ground (arith, ok)
has_separator-plain c (a ∷ []) ok [] = refl
has_separator-plain c (a ∷ []) ok (b ∷ rest) = ground (arith, ok)
has_separator-plain c (a ∷ b ∷ s) ok rest = ground (arith, ok)

has_separator-port :
    (c : ℕ) (s rest : Str) → plain (c ∷ s) ≡ true → has_separator (58 ∷ (c ∷ s) ++ rest) ≡ false
unfolding has_separator
has_separator-port c [] [] ok = refl
has_separator-port c [] (a ∷ rest) ok = ground (arith, ok)
has_separator-port c (a ∷ s) rest ok = ground (arith, ok)

-- An address whose host is plain is not trimmed.
trimmed-same :
    (host : Str) (v : ℤ) (rest : Str)
    → plain host ≡ true
    → has_separator (host ++ (58 ∷ itoa v ++ rest)) ≡ false
trimmed-same (c ∷ host) v rest ok = has_separator-plain c host ok (58 ∷ itoa v ++ rest)
trimmed-same [] v rest ok =
    let (c, s, e) = itoa_some v in
    rw e (has_separator-port c s rest (ap plain (sym e) ∙ plain-itoa v))

parse-untrimmed :
    (split : Str → ℕ ⊎ Str × Str) (host port addr : Str)
    → Splits split
    → plain host ≡ true
    → plain port ≡ true
    → has_separator addr ≡ false
    → before_first_slash addr ≡ host ++ (58 ∷ port)
    → parse_host_and_port split addr
      ≡ (elim (atoi port) [ none ↦ inl bad_port | some p ↦ inr (host, p) ])
unfolding parse_host_and_port trim_separator
parse-untrimmed split host port addr splits plain_host plain_port no_separator first =
    let parts = ap split first ∙ splits host port plain_host plain_port in
    ground (arith, no_separator, parts)

-- Where "host:port" is split at its colon. An address of a host with no colon, bracket or slash and of
-- a port that an `int` holds, with nothing behind it up to its first slash, gives the host and the
-- port. An address with a scheme that is not empty and has no such character gives the error of a port
-- that is no number, whatever follows.
pub parse_host_and_port-addresses :
    (split : Str → ℕ ⊎ Str × Str) (host rest : Str) (port : ℤ) (c : ℕ) (scheme more : Str)
    → Splits split
    → plain host ≡ true
    → FitsInt port
    → before_first_slash rest ≡ []
    → plain (c ∷ scheme) ≡ true
    → (parse_host_and_port split (host ++ (58 ∷ itoa port ++ rest)) ≡ inr (host, port))
      × (parse_host_and_port split ((c ∷ scheme) ++ (58 ∷ 47 ∷ 47 ∷ more)) ≡ inl bad_port)
unfolding before_first_slash
parse_host_and_port-addresses split host rest port c scheme more splits ok fits none_left named =
    let first =
      before_first_slash-append host (58 ∷ itoa port ++ rest) ok
      ∙ ap (λ s. host ++ (58 ∷ s))
          (before_first_slash-append (itoa port) rest (plain-itoa port)
            ∙ ap (λ s. itoa port ++ s) none_left
            ∙ append-nil (itoa port)) in
    let first' = before_first_slash-append (c ∷ scheme) (58 ∷ 47 ∷ 47 ∷ more) named in
    (
      parse-untrimmed split host (itoa port) _ splits ok (plain-itoa port)
            (trimmed-same host port rest ok) first
          ∙ rw (atoi-itoa port fits) refl,
      parse-untrimmed split (c ∷ scheme) [] _ splits named refl
            (has_separator-plain c scheme named (58 ∷ 47 ∷ 47 ∷ more)) first'
          ∙ unfold atoi in refl,
    )
