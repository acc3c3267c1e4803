-- ===== src/Dataflow/Prober.antt =====
-- pkg/dataflow/task/net_prober.go: the probes of a destination, and the metric made of them. The
-- context, the clock, the HTTP client, the resolver and net/url are those of Go, and parameters.
pub mod Durations
pub mod Targets
pub mod Report
pub mod Samples
mod Tests
use net_flux.Base.{
  ℕ, zero, suc, ◌+◌, ◌-◌, ◌*◌, ◌/◌, ◌^◌, ◌⊎◌, inl, inr, Bool, true, false, Option, none, some, List,
  [], ◌∷◌, ◌++◌, length, leb, ◌==◌, if◌then◌else◌,
}
use net_flux.Base.Text.{Str}

pub data ProbeError : Type 0 where
  context_error request_error bad_status : ℕ → ProbeError

-- What `Probe` counts; the times are in nanoseconds.
pub record Tally : Type 0 where
  pub rtts : List ℕ
  pub failures : ℕ
  pub last_status : ℕ
  pub last_err : Option ProbeError

abbrev pub no_tally : Tally
no_tally = record { rtts = []; failures = 0; last_status = 0; last_err = none }

-- The tally after a probe and the time that it took. A nil error is that of no URL, with status 0.
unfoldable pub count_probe : Option ProbeError ⊎ ℕ → ℕ → Tally → Tally
count_probe (inl (some e)) took t = record t { failures = t.failures + 1; last_err = some e }
count_probe (inl none) took t = record t { rtts = t.rtts ++ took ∷ []; last_status = 0 }
count_probe (inr status) took t = record t { rtts = t.rtts ++ took ∷ []; last_status = status }

-- The world: the error of the context now, the wait of a probe interval that the context can end, the
-- clock, and a request to a URL, with the status of its answer.
pub record World : Type 1 where
  pub State : Type 0
  pub ctx_err : State → State × Option ℕ
  pub pause : State → State × Option ℕ
  pub now : State → State × ℕ
  pub request : Str → State → State × (ℕ ⊎ ℕ)

module _ (world : World) where
  unfoldable pub do_request : Str → world.State → world.State × (ProbeError ⊎ ℕ)
  do_request url s =
      let (t, answer) = world.request url s in
      elim answer [
        | inl e ↦ (t, inl (request_error e))
        | inr status ↦ (t, if leb 400 status then inl (bad_status status) else inr status)
      ]

  -- The loop of `doProbe`, with the error of the URL before; `none` is its nil.
  unfoldable pub try_urls :
      Option ProbeError → List Str → world.State → world.State × (Option ProbeError ⊎ ℕ)
  try_urls err [] s = (s, inl err)
  try_urls err (url ∷ urls) s =
      let (t, done) = world.ctx_err s in
      let (u, answer) = do_request url t in
      elim done [
        | some e ↦ (t, inl (some (context_error e)))
        | none ↦ elim answer [ inr status ↦ (u, inr status) | inl e ↦ try_urls (some e) urls u ]
      ]

  -- `doProbe`, for at least one URL: `Probe` has made some, and without any Go divides by zero.
  unfoldable pub do_probe : List Str → world.State → world.State × (Option ProbeError ⊎ ℕ)
  do_probe urls s = try_urls none urls s

  -- One probe, timed. The clock is not read again after one that fails.
  unfoldable pub attempt : List Str → Tally → world.State → world.State × Tally
  attempt urls t s =
      let (s1, start) = world.now s in
      let (s2, answer) = do_probe urls s1 in
      let (s3, end) = world.now s2 in
      (
        elim answer [ inl (some e) ↦ s2 | inl none ↦ s3 | inr status ↦ s3 ],
        count_probe answer (end - start) t,
      )

  -- A context that is done leaves the remaining probes as failures.
  unfoldable pub give_up : ℕ → ℕ → Tally → Tally
  give_up remaining e t = record t {
    failures = t.failures + remaining;
    last_err = some (context_error e);
  }

  -- What comes before a probe: `inl` where the loop ends. The first one does not wait.
  unfoldable pub before_probe : Bool → world.State → world.State × (ℕ ⊎ Unit {0})
  before_probe first s =
      let (t, done) = world.ctx_err s in
      let (u, ended) = world.pause t in
      elim done [
        | some e ↦ (t, inl e)
        | none ↦
            if first then (t, inr tt) else elim ended [ some e ↦ (u, inl e) | none ↦ (u, inr tt) ]
      ]

  -- The loop of `Probe`, by the number of probes that remain.
  unfoldable pub probes : List Str → ℕ → Bool → Tally → world.State → world.State × Tally
  probes urls zero first t s = (s, t)
  probes urls (suc remaining) first t s =
      let (s1, go) = before_probe first s in
      let (s2, t') = attempt urls t s1 in
      elim go [
        | inl e ↦ (s1, give_up (suc remaining) e t)
        | inr tt ↦ probes urls remaining false t' s2
      ]
