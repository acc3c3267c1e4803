-- ===== src/Logger/Tests.antt =====
-- Two files on the day after the one that they were opened on, one of which cannot be opened.
use net_flux.Base.{
  ℕ, ◌≡◌, refl, Bool, true, false, ◌&&◌, Option, none, some, List, [], ◌∷◌, ◌++◌, ◌==◌,
}
use native.Mathlib.Decide.{ℕ_discrete}
use net_flux.Base.Map
use net_flux.Base.Text.{Str, codes}
use net_flux.Base.Int.{pos}
use net_flux.Logger.Levels.{
  warning, info, error, fatal, alert, LogLogger, Frame, theirs, plain, line, std_logger, new_logger,
  level_number,
}
use net_flux.Logger.Levels.Lines.{
  Call, message, err, set_to, output_to, rank, tag, is_fatal, reaches, line_of, lines_of, hand_all,
  run_calls, run_calls-lines,
}
use net_flux.Logger.Rolling.{RollingFile, Files, dated}
use net_flux.Logger.Rolling.Ticks.{openable}

abbrev today : ℕ → Str
today f = codes "20260102"

abbrev can_open : Str → Bool
can_open [] = false
can_open (c ∷ s) = c == 97

abbrev named : Str → Str → RollingFile
named name day = record { file_name = name; check_flag = day; file_handler = some (dated name day) }

abbrev two : Files
two = record {
  files =
      (1, named (codes "a.log") (codes "20260101"))
      ∷ (2, named (codes "b.log") (codes "20260101"))
      ∷ [];
  pipeline = [];
  file_list = 2 ∷ 1 ∷ [];
}

-- Equality of texts, for names in which no letter has another case.
abbrev same_text : Str → Str → Bool
same_text [] [] = true
same_text [] (d ∷ t) = false
same_text (c ∷ s) [] = false
same_text (c ∷ s) (d ∷ t) = c == d && same_text s t

one_left : openable today can_open same_text two (2 ∷ 1 ∷ []) ≡ 1 ∷ []
unfolding openable Map.lookup dated ℕ_discrete
one_left = refl

abbrev note :
    LogLogger
    → Option Frame
    → Str
    → List (ℕ × Option Frame × Str)
    → List (ℕ × Option Frame × Str) × Option ℕ
note l frame text noted = (noted ++ ((l.log_writer, frame, text) ∷ []), none)

-- A program with `std`: `info` is below the level that it sets, the last call is not reached.
abbrev calls : List (Call Str)
calls =
    message warning plain (codes "slow")
    ∷ set_to (pos 400)
    ∷ output_to 7
    ∷ message error plain (codes "bad")
    ∷ message info line (codes "up")
    ∷ err fatal none
    ∷ err fatal (some (codes "lost"))
    ∷ message alert plain (codes "late")
    ∷ []

run_calls-lines_example :
    run_calls (λ _ text. text) note (theirs 1 ∷ []) calls (std_logger (λ _. pos 0) [] 2 3) [] ≡ (
      (2, some (theirs 1), codes "[WARN] slow")
          ∷ (7, some (theirs 1), codes "[ERROR] bad")
          ∷ (7, some (theirs 1), codes "[FATAL] lost")
          ∷ [],
      true,
    )
unfolding lines_of line_of hand_all std_logger new_logger level_number reaches rank tag is_fatal
run_calls-lines_example =
    run_calls-lines (λ _ text. text) note 1 [] calls (std_logger (λ _. pos 0) [] 2 3) []
