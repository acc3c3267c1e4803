-- ===== src/Logger/Levels.antt =====
-- pkg/logger/logger.go: loggers with levels over the package log, which is a parameter: `log_output` is
-- `Output` of a `log.Logger`, given the stack frame that the call depth stands for and the text, and
-- `format` the functions of the package fmt. Writers are numbers. The functions for the levels differ
-- in their level, in the function of fmt and in whether they are methods or functions for `std`.
pub mod Lines
use net_flux.Base.{
  ℕ, ◌+◌, ◌-◌, ◌*◌, Bool, true, false, ◌||◌, Option, none, some, List, [], ◌∷◌, ◌++◌, get_elem?,
  leb, ◌==◌, if◌then◌else◌,
}
use mathlib.Core.Logic.{ite}
use net_flux.Base.Int.{ℤ, pos, negsuc}
use net_flux.Base.Text.{Str, str_discrete, codes}

pub data Level : Type 0 where
  debug info warning error fatal alert : Level

-- `LevelDebug` to `LevelAlert`
unfoldable pub level_number : Level → ℤ
level_number debug = pos 100
level_number info = pos 200
level_number warning = pos 300
level_number error = pos 400
level_number fatal = pos 500
level_number alert = pos 600

-- `namePrefix` is not used.
unfoldable pub level_depth : ℕ
level_depth = 4

-- What a `log.Logger` keeps.
pub record LogLogger : Type 0 where
  pub log_writer : ℕ
  pub log_prefix : Str
  pub log_flags : ℕ

-- `is_std` tells whether it is `std`.
pub record Logger : Type 0 where
  pub level : ℤ
  pub writer : ℕ
  pub logger : LogLogger
  pub is_std : Bool

-- `MappingLevelWithName`; `to_upper` is `strings.ToUpper`.
unfoldable pub mapping_level_with_name : (Str → Str) → Str → ℤ
mapping_level_with_name to_upper level =
    let name = to_upper level in
    ite (str_discrete name (codes "ALL")) (level_number debug) (
      ite (str_discrete name (codes "DEBUG")) (level_number debug) (
        ite (str_discrete name (codes "WARN")) (level_number warning) (
          ite (str_discrete name (codes "WARNING")) (level_number warning) (
            ite (str_discrete name (codes "ERROR")) (level_number error)
              (ite (str_discrete name (codes "FATAL")) (level_number fatal) (level_number info))))))

unfoldable pub equals : ℤ → ℤ → Bool
equals (pos m) (pos n) = m == n
equals (negsuc m) (negsuc n) = m == n
equals _ _ = false

-- `mappingLevel`
unfoldable pub mapping_level : ℤ → Str
mapping_level level =
    if equals level (level_number info)
    then codes "[INFO]"
    else if equals level (level_number fatal)
    then codes "[FATAL]"
    else if equals level (level_number warning)
    then codes "[WARN]"
    else if equals level (level_number error)
    then codes "[ERROR]"
    else if equals level (level_number alert)
    then codes " MB_FATAL "
    else codes "[DEBUG]"

-- `New`. `env` is the value of MB_LOG_LEVEL, and `atoi` the number that `strconv.Atoi` returns,
-- whatever its error.
unfoldable pub new_logger : (Str → ℤ) → Str → ℕ → Str → ℕ → ℤ → Logger
new_logger atoi env out prefix flag level = record {
  level = elim env [ [] ↦ level | c ∷ s ↦ atoi (c ∷ s) ];
  writer = out;
  logger = record { log_writer = out; log_prefix = prefix; log_flags = flag };
  is_std = false;
}

-- `std`, on the standard error of the system; `flag` is `log.LstdFlags`.
unfoldable pub std_logger : (Str → ℤ) → Str → ℕ → ℕ → Logger
std_logger atoi env stderr flag = record (new_logger atoi env stderr [] flag (level_number info)) {
  is_std = true;
}

-- The methods that set, and the writer that was given first.
unfoldable pub set_flags : ℕ → Logger → Logger
set_flags flag l = record l { logger = record l.logger { log_flags = flag } }

unfoldable pub set_output : ℕ → Logger → Logger
set_output w l = record l { logger = record l.logger { log_writer = w } }

unfoldable pub get_output : Logger → ℕ
get_output l = l.writer

unfoldable pub set_prefix : Str → Logger → Logger
set_prefix prefix l = record l { logger = record l.logger { log_prefix = prefix } }

unfoldable pub set_level : ℤ → Logger → Logger
set_level level l = record l { level = level }

unfoldable pub at_most : ℤ → ℤ → Bool
at_most (pos m) (pos n) = leb m n
at_most (pos m) (negsuc n) = false
at_most (negsuc m) (pos n) = true
at_most (negsuc m) (negsuc n) = leb n m

-- The frames of the stack: functions of this file, and those that called them.
pub data Frame : Type 0 where
  ours : Frame
  theirs : ℕ → Frame

-- `Sprint`, `Sprintf` with its format, and `Sprintln`.
pub data Form : Type 0 where
  plain line : Form
  formatted : Str → Form

-- The levels whose functions call `os.Exit`.
unfoldable pub exits : Level → Bool
exits fatal = true
exits _ = false

module _ {Args S : Type 0} (format : Form → Args → Str)
    (log_output : LogLogger → Option Frame → Str → S → S × Option ℕ) where
  -- `output`, called from the top of the stack. A call depth of one is the caller of the library's
  -- `Output`.
  unfoldable pub output : List Frame → ℤ → ℕ → Str → Logger → S → S × Option ℕ
  output stack level calldepth text l s =
      let depth = if l.is_std then calldepth + 1 else calldepth in
      let frame = get_elem? (ours ∷ stack) (depth - 1) in
      log_output l.logger frame (mapping_level level ++ (32 ∷ text)) s

  -- `Err`; the error is its text.
  unfoldable pub output_err : List Frame → ℤ → ℕ → Option Str → Logger → S → S × Option ℕ
  output_err stack level calldepth none l s = (s, none)
  output_err stack level calldepth (some text) l s =
      if at_most l.level level then output (ours ∷ stack) level calldepth text l s else (s, none)

  -- `Output`, `Outputf` and `Outputln`
  unfoldable pub output_form : List Frame → ℤ → ℕ → Form → Args → Logger → S → S × Option ℕ
  output_form stack level calldepth form args l s =
      if at_most l.level level
      then output (ours ∷ stack) level calldepth (format form args) l s
      else (s, none)

  -- The methods from `Debug` to `Alertln`. The second result tells whether the program exits.
  unfoldable pub log_method : List Frame → Level → Form → Args → Logger → S → S × Bool
  log_method stack level form args l s =
      let (t, _) = output_form (ours ∷ stack) (level_number level) level_depth form args l s in
      (t, exits level)

  -- The methods from `ErrDebug` to `ErrAlert`.
  unfoldable pub log_err_method : List Frame → Level → Option Str → Logger → S → S × Bool
  log_err_method stack level none l s = (s, false)
  log_err_method stack level (some text) l s =
      let (t, _) = output_err (ours ∷ stack) (level_number level) level_depth (some text) l s in
      (t, exits level)

  -- The functions of the same names, for `std`.
  unfoldable pub log_function : List Frame → Level → Form → Args → Logger → S → S × Bool
  log_function stack level form args std s = log_method (ours ∷ stack) level form args std s

  unfoldable pub log_err_function : List Frame → Level → Option Str → Logger → S → S × Bool
  log_err_function stack level err std s = log_err_method (ours ∷ stack) level err std s
