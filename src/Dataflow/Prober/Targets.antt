-- ===== src/Dataflow/Prober/Targets.antt =====
-- The URLs that pkg/dataflow/task/net_prober.go makes of an address, and the host of a URL. The
-- packages net/url and net are a parameter.
use net_flux.Base.{
  ℕ, ◌≡◌, refl, ◌⊎◌, inl, inr, Bool, true, false, ◌&&◌, ◌||◌, Option, none, some, List, [], ◌∷◌,
  ◌++◌, ◌==◌, if◌then◌else◌, Bool-cases, Sum-cases, arith,
}
use net_flux.Base.Text.{Str, codes, trim_space}

pub data TargetError : Type 0 where
  empty_address invalid_address : TargetError
  url_error : ℕ → TargetError

-- `url.URL`, with what its methods `String` and `Hostname` return.
pub record Url : Type 0 where
  pub host : Str
  pub text : Str
  pub hostname : Str

-- `url.Parse`; `net.SplitHostPort`, as far as the host; and `net.ParseIP` with the text of the address.
pub record NetApi : Type 0 where
  pub parse_url : Str → ℕ ⊎ Url
  pub split_host_port : Str → Option Str
  pub parse_ip : Str → Option Str

unfoldable pub has_prefix : Str → Str → Bool
has_prefix [] s = true
has_prefix (c ∷ p) [] = false
has_prefix (c ∷ p) (d ∷ s) = (c == d) && has_prefix p s

-- `strings.Contains(s, sub)`, for a text `sub` that is not empty.
unfoldable pub contains : Str → Str → Bool
contains sub [] = false
contains sub (c ∷ s) = has_prefix sub (c ∷ s) || contains sub s

-- `strings.Split(s, "/")[0]`
unfoldable pub before_slash : Str → Str
before_slash [] = []
before_slash (c ∷ s) = let rest = before_slash s in if c == 47 then [] else c ∷ rest

-- The text from its first "/"; "/" if there is none.
unfoldable pub path_of : Str → Str
path_of [] = 47 ∷ []
path_of (c ∷ s) = let rest = path_of s in if c == 47 then c ∷ s else rest

-- The target of a URL, given its host and its text.
abbrev parsed_target : Str → Str → TargetError ⊎ List Str
parsed_target [] text = inl invalid_address
parsed_target (c ∷ s) text = inr (text ∷ [])

unfoldable pub targets_of : NetApi → Str → TargetError ⊎ List Str
targets_of net [] = inl empty_address
targets_of net (c ∷ s) =
    let addr = c ∷ s in
    let host = before_slash addr in
    let path = path_of addr in
    if contains (codes "://") addr
    then elim (net.parse_url addr) [
      | inl e ↦ inl (url_error e)
      | inr u ↦ parsed_target u.host u.text
    ]
    else inr ((codes "https://" ++ (host ++ path)) ∷ (codes "http://" ++ (host ++ path)) ∷ [])

unfoldable pub probe_target_urls : NetApi → Str → TargetError ⊎ List Str
probe_target_urls net addr = targets_of net (trim_space addr)

unfoldable pub destination_host : NetApi → Str → Str
destination_host net raw_url = elim (net.parse_url raw_url) [
  | inl e ↦ raw_url
  | inr u ↦ elim (net.split_host_port u.host) [ none ↦ u.hostname | some host ↦ host ]
]

-- An address with a path is asked for as it is.
before_slash-path_of : (s : Str) → contains (47 ∷ []) s ≡ true → before_slash s ++ path_of s ≡ s
unfolding contains has_prefix before_slash path_of
before_slash-path_of [] h = ground arith
before_slash-path_of (c ∷ s) h = ground (arith, before_slash-path_of s)

-- An error, or at least one target.
abbrev pub Target : TargetError ⊎ List Str → Type 0
Target r =
    ((e : TargetError) × (r ≡ inl e)) ⊎ ((url : Str) × (urls : List Str) × (r ≡ inr (url ∷ urls)))

parsed_target-Target : (host text : Str) → Target (parsed_target host text)
parsed_target-Target [] text = inl (invalid_address, refl)
parsed_target-Target (c ∷ s) text = inr (text, [], refl)

targets_of-Target : (net : NetApi) (addr : Str) → Target (targets_of net addr)
unfolding targets_of
targets_of-Target net [] = inl (empty_address, refl)
targets_of-Target net (c ∷ s) =
    let addr = c ∷ s in
    elim (Bool-cases (contains (codes "://") addr)) [
      | inl url ↦ elim (Sum-cases (net.parse_url addr)) [
        | inl (e, failed) ↦ inl (url_error e, ground arith)
        | inr (u, parsed) ↦ rw url (rw parsed (parsed_target-Target u.host u.text))
      ]
      | inr plain ↦ inr (
        codes "https://" ++ (before_slash addr ++ path_of addr),
        (codes "http://" ++ (before_slash addr ++ path_of addr)) ∷ [],
        rw plain refl,
      )
    ]

pub probe_target_urls-Target : (net : NetApi) (addr : Str) → Target (probe_target_urls net addr)
unfolding probe_target_urls
probe_target_urls-Target net addr = targets_of-Target net (trim_space addr)
