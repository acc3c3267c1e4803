-- ===== src/Logger/Levels/Lines.antt =====
-- What a program that uses the functions of pkg/logger/logger.go hands to the package log.
use net_flux.Base.{
  ℕ, ◌≡◌, refl, Bool, true, false, not, ltb, Option, none, some, List, [], ◌∷◌, ◌++◌, if◌then◌else◌,
  Bool-cases, inl, inr, arith,
}
use net_flux.Base.Int.{ℤ, pos, negsuc}
use net_flux.Base.Text.{Str, codes}
use net_flux.Logger.Levels.{
  Level, debug, info, warning, error, fatal, alert, level_number, equals, LogLogger, Logger,
  mapping_level, level_depth, set_level, set_output, set_flags, set_prefix, at_most, Frame, theirs,
  Form, output, output_err, output_form, exits, log_method, log_err_method, log_function,
  log_err_function,
}

-- A call that a program makes.
pub data Call (Args : Type 0) : Type 0 where
  message : Level → Form → Args → Call Args
  err : Level → Option Str → Call Args
  set_to : ℤ → Call Args
  output_to flags_to : ℕ → Call Args
  prefix_to : Str → Call Args

-- The number, the tag and the end of the program that belong to a level.
unfoldable pub rank : Level → ℕ
rank debug = 100
rank info = 200
rank warning = 300
rank error = 400
rank fatal = 500
rank alert = 600

unfoldable pub tag : Level → Str
tag debug = codes "[DEBUG]"
tag info = codes "[INFO]"
tag warning = codes "[WARN]"
tag error = codes "[ERROR]"
tag fatal = codes "[FATAL]"
tag alert = codes " MB_FATAL "

unfoldable pub is_fatal : Level → Bool
is_fatal debug = false
is_fatal info = false
is_fatal warning = false
is_fatal error = false
is_fatal fatal = true
is_fatal alert = false

-- A level is reached unless its number is below.
unfoldable pub reaches : ℤ → Level → Bool
reaches (pos m) at = not (ltb (rank at) m)
reaches (negsuc m) at = true

at_most-reaches : (level : ℤ) (at : Level) → at_most level (level_number at) ≡ reaches level at
unfolding at_most reaches level_number rank
at_most-reaches (pos m) debug = ground arith
at_most-reaches (pos m) info = ground arith
at_most-reaches (pos m) warning = ground arith
at_most-reaches (pos m) error = ground arith
at_most-reaches (pos m) fatal = ground arith
at_most-reaches (pos m) alert = ground arith
at_most-reaches (negsuc m) debug = refl
at_most-reaches (negsuc m) info = refl
at_most-reaches (negsuc m) warning = refl
at_most-reaches (negsuc m) error = refl
at_most-reaches (negsuc m) fatal = refl
at_most-reaches (negsuc m) alert = refl

mapping_level-tag : (at : Level) → mapping_level (level_number at) ≡ tag at
unfolding mapping_level level_number tag equals
mapping_level-tag debug = refl
mapping_level-tag info = refl
mapping_level-tag warning = refl
mapping_level-tag error = refl
mapping_level-tag fatal = refl
mapping_level-tag alert = refl

exits-is_fatal : (at : Level) → exits at ≡ is_fatal at
unfolding exits is_fatal
exits-is_fatal debug = refl
exits-is_fatal info = refl
exits-is_fatal warning = refl
exits-is_fatal error = refl
exits-is_fatal fatal = refl
exits-is_fatal alert = refl

module _ {Args S : Type 0} (format : Form → Args → Str)
    (log_output : LogLogger → Option Frame → Str → S → S × Option ℕ) where
  -- A call by the function at the top of the stack, of the methods or, for `std`, of the functions.
  unfoldable pub make_call : List Frame → Call Args → Logger → S → (Logger × S) × Bool
  make_call stack (message level form args) l s =
      let (t, exit) =
        if l.is_std
        then log_function format log_output stack level form args l s
        else log_method format log_output stack level form args l s in
      ((l, t), exit)
  make_call stack (err level e) l s =
      let (t, exit) =
        if l.is_std
        then log_err_function format log_output stack level e l s
        else log_err_method format log_output stack level e l s in
      ((l, t), exit)
  make_call stack (set_to level) l s = ((set_level level l, s), false)
  make_call stack (output_to w) l s = ((set_output w l, s), false)
  make_call stack (flags_to flag) l s = ((set_flags flag l, s), false)
  make_call stack (prefix_to prefix) l s = ((set_prefix prefix l, s), false)

  -- The calls of a program, until it exits.
  unfoldable pub run_calls : List Frame → List (Call Args) → Logger → S → S × Bool
  run_calls stack [] l s = (s, false)
  run_calls stack (call ∷ calls) l s =
      let ((l', t), exit) = make_call stack call l s in
      let rest = run_calls stack calls l' t in if exit then (t, true) else rest

  -- The line of a call at a level, for the logger of the package log as it is then.
  unfoldable pub line_of : ℤ → LogLogger → Level → Str → List (LogLogger × Str)
  line_of level log at text = if reaches level at then (log, tag at ++ (32 ∷ text)) ∷ [] else []

  -- The lines of calls under a level, and whether one of them ends the program.
  unfoldable pub lines_of : ℤ → LogLogger → List (Call Args) → List (LogLogger × Str) × Bool
  lines_of level log [] = ([], false)
  lines_of level log (message at form args ∷ calls) =
      let (rest, exit) = lines_of level log calls in
      let logged = line_of level log at (format form args) in
      if is_fatal at then (logged, true) else (logged ++ rest, exit)
  lines_of level log (err at none ∷ calls) = lines_of level log calls
  lines_of level log (err at (some text) ∷ calls) =
      let (rest, exit) = lines_of level log calls in
      let logged = line_of level log at text in
      if is_fatal at then (logged, true) else (logged ++ rest, exit)
  lines_of level log (set_to new ∷ calls) = lines_of new log calls
  lines_of level log (output_to w ∷ calls) = lines_of level (record log { log_writer = w }) calls
  lines_of level log (flags_to flag ∷ calls) =
      lines_of level (record log { log_flags = flag }) calls
  lines_of level log (prefix_to prefix ∷ calls) =
      lines_of level (record log { log_prefix = prefix }) calls

  -- Lines handed to the library one after the other.
  unfoldable pub hand_all : Frame → List (LogLogger × Str) → S → S
  hand_all frame [] s = s
  hand_all frame ((log, line) ∷ lines) s =
      hand_all frame lines (log_output log (some frame) line s).0

  make_call-message :
      (caller : ℕ) (stack : List Frame) (at : Level) (form : Form) (args : Args) (l : Logger)
      (s : S)
      → make_call (theirs caller ∷ stack) (message at form args) l s ≡ (
        (l, hand_all (theirs caller) (line_of l.level l.logger at (format form args)) s),
        is_fatal at,
      )
  unfolding make_call hand_all log_method log_function output_form output level_depth line_of
  make_call-message caller stack at form args l s = elim (Bool-cases l.is_std) [
    | inl std ↦
        rw (make_call, std)
          (ground (arith, std, at_most-reaches l.level at, mapping_level-tag at, exits-is_fatal at))
    | inr other ↦
        rw (make_call, other)
          (ground
            (arith, other, at_most-reaches l.level at, mapping_level-tag at, exits-is_fatal at))
  ]

  make_call-err :
      (caller : ℕ) (stack : List Frame) (at : Level) (text : Str) (l : Logger) (s : S)
      → make_call (theirs caller ∷ stack) (err at (some text)) l s
        ≡ ((l, hand_all (theirs caller) (line_of l.level l.logger at text) s), is_fatal at)
  unfolding make_call hand_all log_err_method log_err_function output_err output level_depth line_of
  make_call-err caller stack at text l s = elim (Bool-cases l.is_std) [
    | inl std ↦
        rw (make_call, std)
          (ground (arith, std, at_most-reaches l.level at, mapping_level-tag at, exits-is_fatal at))
    | inr other ↦
        rw (make_call, other)
          (ground
            (arith, other, at_most-reaches l.level at, mapping_level-tag at, exits-is_fatal at))
  ]

  -- Whatever a function calls of a logger's methods from `Debug` to `Alertln` and from `ErrDebug` to
  -- `ErrAlert`, or of the package's functions of these names for `std`, with calls of `SetLevel`,
  -- `SetOutput`, `SetFlags` and `SetPrefix` between them: the package log is handed the tagged lines
  -- of those calls whose level's number is not below the level set at that moment, in order and up to
  -- the first fatal call, each with the writer, flags and prefix set at that moment and with the frame
  -- of that function as the place of the call. The program exits if there is a fatal call, for an
  -- error one that has an error, whether its line is left out or not.
  pub run_calls-lines :
      (caller : ℕ) (stack : List Frame) (calls : List (Call Args)) (l : Logger) (s : S)
      → run_calls (theirs caller ∷ stack) calls l s ≡ (
        hand_all (theirs caller) (lines_of l.level l.logger calls).0 s,
        (lines_of l.level l.logger calls).1,
      )
  unfolding run_calls make_call lines_of hand_all log_err_method log_err_function set_level
      set_output set_flags set_prefix line_of
  run_calls-lines caller stack [] l s = refl
  run_calls-lines caller stack (message at form args ∷ calls) l s =
      let one = make_call-message caller stack at form args l s in
      let t = hand_all (theirs caller) (line_of l.level l.logger at (format form args)) s in
      let rest = run_calls-lines caller stack calls l t in ground (arith, one, rest)
  run_calls-lines caller stack (err at none ∷ calls) l s =
      ground (arith, run_calls-lines caller stack calls l s)
  run_calls-lines caller stack (err at (some text) ∷ calls) l s =
      let one = make_call-err caller stack at text l s in
      let t = hand_all (theirs caller) (line_of l.level l.logger at text) s in
      let rest = run_calls-lines caller stack calls l t in ground (arith, one, rest)
  run_calls-lines caller stack (set_to level ∷ calls) l s =
      run_calls-lines caller stack calls (set_level level l) s
  run_calls-lines caller stack (output_to w ∷ calls) l s =
      run_calls-lines caller stack calls (set_output w l) s
  run_calls-lines caller stack (flags_to flag ∷ calls) l s =
      run_calls-lines caller stack calls (set_flags flag l) s
  run_calls-lines caller stack (prefix_to prefix ∷ calls) l s =
      run_calls-lines caller stack calls (set_prefix prefix l) s
