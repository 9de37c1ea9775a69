-- ===== src/Prelude/Text.antt =====
-- Functions of Go's package strings, on texts as lists of characters.
use Prim.Native.String.{String}
use Prim.Native.Char.{Char, code}
use mathlib.Core.Bool.{Bool, false, ◌||◌}
use mathlib.Core.Option.{Option, none, some}
use kaftar.Prelude.Tests.{◌==◌, if◌then◌else◌}

unfoldable pub has_char : String → Char → Bool
has_char String.[] c = false
has_char (String.◌∷◌ d s) c = code d == code c || has_char s c

-- strings.ContainsAny
unfoldable pub contains_any : String → String → Bool
unfolding has_char
contains_any String.[] chars = false
contains_any (String.◌∷◌ c s) chars = has_char chars c || contains_any s chars

-- What follows the prefix.
unfoldable pub after_prefix : String → String → Option String
after_prefix String.[] s = some s
after_prefix (String.◌∷◌ c p) String.[] = none
after_prefix (String.◌∷◌ c p) (String.◌∷◌ d s) =
    let rest = after_prefix p s in if code c == code d then rest else none

abbrev pub or_text : Option String → String → String
or_text none s = s
or_text (some t) s = t

-- strings.TrimPrefix(s, p)
unfoldable pub trim_prefix : String → String → String
unfolding after_prefix
trim_prefix s p = or_text (after_prefix p s) s
