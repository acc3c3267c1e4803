-- ===== src/Base/Text.antt =====
-- Strings as lists of code points, and what the program uses of the packages strings, unicode and
-- strconv, with `IsEmptyStr` of pkg/util/string.go.
pub mod Decimal
pub mod Trim
use Prim.Native.Char.{code}
use Prim.Native.String.{String}
use Prim.Native.Nat.{ℕ, zero, suc, ◌+◌, ◌-◌, ◌*◌, ◌/◌, ◌%◌, ◌^◌}
use mathlib.Core.Bool.{Bool, true, false, ◌&&◌, ◌||◌}
use mathlib.Core.Option.{Option, none, some}
use mathlib.Core.List.{List, [], ◌∷◌, ◌++◌, reverse, List-discrete}
use native.Mathlib.Decide.{ℕ_discrete}
use net_flux.Base.Tests.{ltb, leb, ◌==◌, if◌then◌else◌}
use net_flux.Base.Int.{ℤ, pos, negsuc}

abbrev pub Str : Type 0
Str = List ℕ

abbrev pub str_discrete : Discrete Str
str_discrete = List-discrete ℕ_discrete

-- The code points of a literal.
abbrev pub codes : String → Str
codes String.[] = []
codes (String.◌∷◌ c s) = code c ∷ codes s

-- `unicode.IsSpace`
unfoldable pub is_space : ℕ → Bool
is_space c =
    (leb 9 c && leb c 13)
    || (c == 32)
    || (c == 133)
    || (c == 160)
    || (c == 5760)
    || (leb 8192 c && leb c 8202)
    || (c == 8232)
    || (c == 8233)
    || (c == 8239)
    || (c == 8287)
    || (c == 12288)

-- `len(strings.TrimSpace(val)) == 0`
unfoldable pub is_empty_str : Str → Bool
is_empty_str [] = true
is_empty_str (c ∷ s) = is_space c && is_empty_str s

unfoldable pub trim_left : Str → Str
trim_left [] = []
trim_left (c ∷ s) = let rest = trim_left s in if is_space c then rest else c ∷ s

-- `strings.TrimSpace`
unfoldable pub trim_space : Str → Str
trim_space s = reverse (trim_left (reverse (trim_left s)))

-- The decimal digits of a number in front of the others, on fuel; one more than the number is enough.
unfoldable pub digits : ℕ → ℕ → Str → Str
digits zero n more = more
digits (suc fuel) n more =
    let more' = (48 + n % 10) ∷ more in
    let rest = digits fuel (n / 10) more' in if n / 10 == 0 then more' else rest

-- `strconv.Itoa`
unfoldable pub itoa : ℤ → Str
itoa (pos n) = digits (n + 1) n []
itoa (negsuc n) = 45 ∷ digits (n + 2) (n + 1) []

-- The digits of a decimal number behind those read so far.
unfoldable pub parse_digits : ℕ → Str → Option ℕ
parse_digits n [] = some n
parse_digits n (c ∷ s) =
    let rest = parse_digits (n * 10 + (c - 48)) s in if leb 48 c && leb c 57 then rest else none

abbrev pub parse_number : Str → Option ℕ
parse_number [] = none
parse_number (c ∷ s) = parse_digits 0 (c ∷ s)

-- A number with its sign, if an `int` holds it.
abbrev pub positive : Option ℕ → Option ℤ
positive none = none
positive (some n) = if ltb n (2 ^ 63) then some (pos n) else none

abbrev pub negative : Option ℕ → Option ℤ
negative none = none
negative (some zero) = some (pos 0)
negative (some (suc n)) = if ltb n (2 ^ 63) then some (negsuc n) else none

-- `strconv.Atoi`, with `none` for its errors.
unfoldable pub atoi : Str → Option ℤ
atoi [] = none
atoi (c ∷ s) =
    if c == 43
    then positive (parse_number s)
    else if c == 45
    then negative (parse_number s)
    else positive (parse_number (c ∷ s))

unfoldable pub is_int : Str → Bool
is_int s = elim (atoi s) [ none ↦ false | some _ ↦ true ]
