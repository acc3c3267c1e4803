-- ===== src/Logger/Rolling.antt =====
-- pkg/logger/rolling.go: files that are opened anew for each day. A pointer to a file is a number;
-- an open handler is the name that was opened. What `checkFun` returns at a moment, and whether a
-- name can be opened, are parameters. `pipeline` is the channel of capacity 16, and `file_list` the
-- map of the timer's goroutine, in the order in which it goes through it.
pub mod Ticks
use net_flux.Base.{
  ℕ, ◌+◌, Bool, true, false, ◌||◌, Option, none, some, List, [], ◌∷◌, ◌++◌, length, ltb, ◌==◌,
  if◌then◌else◌,
}
use native.Mathlib.Decide.{ℕ_discrete}
use net_flux.Base.Map
use net_flux.Base.Text.{Str}

pub record RollingFile : Type 0 where
  pub file_name : Str
  pub check_flag : Str
  pub file_handler : Option Str

pub record Files : Type 0 where
  pub files : List (ℕ × RollingFile)
  pub pipeline : List ℕ
  pub file_list : List ℕ

unfoldable pub capacity : ℕ
capacity = 16

-- `fmt.Sprintf("%s.%s", fileName, checkFlag)`
unfoldable pub dated : Str → Str → Str
dated file_name flag = file_name ++ (46 ∷ flag)

-- A send that does not wait.
unfoldable pub offer : ℕ → List ℕ → List ℕ
offer f pipeline = if ltb (length pipeline) capacity then pipeline ++ f ∷ [] else pipeline

unfoldable pub is_member : ℕ → List ℕ → Bool
is_member f [] = false
is_member f (g ∷ gs) = g == f || is_member f gs

unfoldable pub without : ℕ → List ℕ → List ℕ
without f [] = []
without f (g ∷ gs) = let rest = without f gs in if g == f then rest else g ∷ rest

module _ (check : ℕ → Str) (can_open : Str → Bool) where
  -- What `Open` leaves of the file: a handler that was open is closed.
  unfoldable pub opened : ℕ → RollingFile → RollingFile
  opened f rf = record rf {
    check_flag = check f;
    file_handler =
        if can_open (dated rf.file_name (check f))
        then some (dated rf.file_name (check f))
        else none;
  }

  unfoldable pub open_file : ℕ → RollingFile → Files → Files × Bool
  open_file f rf s =
      let ok = can_open (dated rf.file_name (check f)) in
      (
        record s {
          files = Map.insert ℕ_discrete f (opened f rf) s.files;
          pipeline = if ok then offer f s.pipeline else s.pipeline;
        },
        ok,
      )

  -- The case of the timer's loop for a file on the channel.
  unfoldable pub receive : Files → Files
  receive s = elim s.pipeline [
    | [] ↦ s
    | f ∷ fs ↦ record s {
      pipeline = fs;
      file_list = if is_member f s.file_list then s.file_list else s.file_list ++ f ∷ [];
    }
  ]

  -- The body of the loop of a tick. `equal_fold` is that of the package strings.
  unfoldable pub roll : (Str → Str → Bool) → ℕ → Files → Files
  roll equal_fold f s = elim (Map.lookup ℕ_discrete f s.files) [
    | none ↦ s
    | some rf ↦
        if equal_fold (check f) rf.file_name
        then s
        else (open_file f (record rf { check_flag = check f })
            (record s { file_list = without f s.file_list })).0
  ]

  unfoldable pub roll_all : (Str → Str → Bool) → List ℕ → Files → Files
  roll_all equal_fold [] s = s
  roll_all equal_fold (f ∷ fs) s = roll_all equal_fold fs (roll equal_fold f s)

  unfoldable pub tick : (Str → Str → Bool) → Files → Files
  tick equal_fold s = roll_all equal_fold s.file_list s

-- `Write`, with the name that the bytes go to; `none` is the error `os.ErrClosed`.
unfoldable pub write_to : ℕ → Files → Option Str
write_to f s = elim (Map.lookup ℕ_discrete f s.files) [ none ↦ none | some rf ↦ rf.file_handler ]
