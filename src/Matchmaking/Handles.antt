-- ===== src/Matchmaking/Handles.antt =====
-- packages/matchmaking/src/internal/textDefects.ts and handleValidation.ts: the names that players give.
-- A string is the list of its UTF-16 units.
use europa_neo.Prelude.{
  ℕ, ◌+◌, ◌-◌, ◌*◌, leb, ltb, ◌==◌, length, if◌then◌else◌, Bool, false, ◌&&◌, ◌||◌, Option, none,
  some, List, [], ◌∷◌,
}
use europa_neo.Matchmaking.Types.{Text}

pub data TextDefectReason : Type 0 where
  empty too_long control_character bidi_control lone_surrogate : TextDefectReason

abbrev between : ℕ → ℕ → ℕ → Bool
between low high c = leb low c && leb c high

-- The white space and line terminators that String.prototype.trim removes.
abbrev is_white_space : ℕ → Bool
is_white_space c =
    between 9 13 c
    || c == 32
    || c == 160
    || c == 5760
    || between 8192 8202 c
    || between 8232 8233 c
    || c == 8239
    || c == 8287
    || c == 12288
    || c == 65279

abbrev trim_start : Text → Text
trim_start [] = []
trim_start (c ∷ t) = let rest = trim_start t in if is_white_space c then rest else c ∷ t

-- A unit before the end of a text that is trimmed already.
abbrev before_end : ℕ → Text → Text
before_end c [] = if is_white_space c then [] else c ∷ []
before_end c (d ∷ t) = c ∷ d ∷ t

abbrev trim_end : Text → Text
trim_end [] = []
trim_end (c ∷ t) = before_end c (trim_end t)

abbrev pub trim : Text → Text
trim t = trim_end (trim_start t)

-- A unit before code points: a high and a low surrogate are one code point.
abbrev join_unit : ℕ → List ℕ → List ℕ
join_unit u [] = u ∷ []
join_unit u (c ∷ cs) =
    if between 55296 56319 u && between 56320 57343 c
    then ((u - 55296) * 1024 + (c - 56320) + 65536) ∷ cs
    else u ∷ c ∷ cs

-- Array.from of a string.
abbrev code_points : Text → List ℕ
code_points [] = []
code_points (u ∷ t) = join_unit u (code_points t)

abbrev any_of : (ℕ → Bool) → List ℕ → Bool
any_of test [] = false
any_of test (c ∷ cs) = test c || any_of test cs

abbrev is_control : ℕ → Bool
is_control c = leb c 31 || between 127 159 c

abbrev is_bidi_control : ℕ → Bool
is_bidi_control c = between 8234 8238 c || between 8294 8297 c

abbrev is_surrogate : ℕ → Bool
is_surrogate c = between 55296 57343 c

unfoldable pub classify_text_defect : Text → (min max : ℕ) → Option TextDefectReason
classify_text_defect raw min max =
    let points = code_points (trim raw) in
    if ltb (length points) min
    then some empty
    else if ltb max (length points)
    then some too_long
    else if any_of is_control points
    then some control_character
    else if any_of is_bidi_control points
    then some bidi_control
    else if any_of is_surrogate points
    then some lone_surrogate
    else none

abbrev handle_min_chars : ℕ
handle_min_chars = 1

abbrev handle_max_chars : ℕ
handle_max_chars = 24

pub data HandleCheck : Type 0 where
  valid : Text → HandleCheck
  invalid : TextDefectReason → HandleCheck

abbrev pub checked : Option TextDefectReason → Text → HandleCheck
checked none trimmed = valid trimmed
checked (some reason) trimmed = invalid reason

unfoldable pub validate_handle : Text → HandleCheck
unfolding classify_text_defect
validate_handle raw =
    checked (classify_text_defect raw handle_min_chars handle_max_chars) (trim raw)
