-- ===== src/Logger/Rolling/Ticks.antt =====
-- What a tick of the timer makes of the files that it knows.
use net_flux.Base.{ℕ, ◌≡◌, Bool, false, Option, none, some, List, [], ◌∷◌, if◌then◌else◌}
use native.Mathlib.Decide.{ℕ_discrete}
use net_flux.Base.Map
use net_flux.Base.Text.{Str}
use net_flux.Logger.Rolling.{RollingFile, Files, dated, offer, opened}

module _ (check : ℕ → Str) (can_open : Str → Bool) (equal_fold : Str → Str → Bool) where
  -- A file opened anew, if there is one.
  abbrev rolled : ℕ → Option RollingFile → Option RollingFile
  rolled f none = none
  rolled f (some rf) = some (opened check can_open f rf)

  abbrev can_roll : ℕ → Option RollingFile → Bool
  can_roll f none = false
  can_roll f (some rf) = can_open (dated rf.file_name (check f))

  -- No file of the table is named like the text that its own `checkFun` returns.
  abbrev pub Differ : Files → Type 0
  Differ s =
      (f : ℕ) (rf : RollingFile)
      → Map.lookup ℕ_discrete f s.files ≡ some rf
      → equal_fold (check f) rf.file_name ≡ false

  -- The files of the list that can be opened anew.
  unfoldable pub openable : Files → List ℕ → List ℕ
  openable s [] = []
  openable s (f ∷ fs) =
      let rest = openable s fs in
      if can_roll f (Map.lookup ℕ_discrete f s.files) then f ∷ rest else rest

  -- Sends that do not wait, one after the other.
  abbrev offers : List ℕ → List ℕ → List ℕ
  offers [] pipeline = pipeline
  offers (f ∷ fs) pipeline = offers fs (offer f pipeline)

  -- The name that a file is written to once it is opened anew.
  abbrev pub new_name : ℕ → Option RollingFile → Option Str
  new_name f none = none
  new_name f (some rf) =
      if can_open (dated rf.file_name (check f)) then some (dated rf.file_name (check f)) else none
