-- ===== src/Prelude/Text.antt =====
-- Python's text methods, over ASCII letters and white space.
use Prim.Native.Nat.{ℕ}
use Prim.Native.Char.{Char, code}
use Prim.Native.String.{◌++◌, count, String}
use mathlib.Core.Path.{refl, ◌≡◌}
use mathlib.Core.Bool.{◌&&◌, Bool, false, true, ◌||◌}
use mathlib.Core.Option.{none, Option, some}
use mathlib.Core.List.{List}
use hire_os_be.Prelude.Tests.{eqb, if◌then◌else◌, leb}

infixr 65 ◌+s◌
abbrev pub ◌+s◌ : String → String → String
s +s t = s ++ t

-- `bool(s)`
abbrev pub truthy : String → Bool
truthy String.[] = false
truthy (String.◌∷◌ c s) = true

-- `bool(o)` for a text or None
abbrev pub is_set : Option String → Bool
is_set none = false
is_set (some s) = truthy s

-- `o or d`
abbrev pub or_else : Option String → String → String
or_else none d = d
or_else (some s) d = if truthy s then s else d

-- The white space of `str.strip`.
abbrev pub is_space : Char → Bool
is_space c = leb 9 (code c) && leb (code c) 13 || leb 28 (code c) && leb (code c) 32

unfoldable pub strip_left : String → String
strip_left String.[] = String.[]
strip_left (String.◌∷◌ c s) = let rest = strip_left s in if is_space c then rest else String.◌∷◌ c s

abbrev pub keep : Char → String → String
keep c rest =
    if is_space c && (if truthy rest then false else true) then String.[] else String.◌∷◌ c rest

unfoldable pub strip_right : String → String
strip_right String.[] = String.[]
strip_right (String.◌∷◌ c s) = keep c (strip_right s)

unfoldable pub strip : String → String
unfolding strip_left strip_right
strip s = strip_right (strip_left s)

-- The place of a letter in the first text, taken in the second.
abbrev pub letter : String → String → Char → Char
letter String.[] small c = c
letter (String.◌∷◌ u us) String.[] c = c
letter (String.◌∷◌ u us) (String.◌∷◌ l ls) c = if eqb (code u) (code c) then l else letter us ls c

unfoldable pub lower : String → String
lower String.[] = String.[]
lower (String.◌∷◌ c s) =
    String.◌∷◌ (letter "ABCDEFGHIJKLMNOPQRSTUVWXYZ" "abcdefghijklmnopqrstuvwxyz" c) (lower s)

-- `sep.join(parts)`
unfoldable pub join : String → List String → String
join sep List.[] = ""
join sep (List.◌∷◌ s List.[]) = s
join sep (List.◌∷◌ s (List.◌∷◌ t more)) = s +s sep +s join sep (List.◌∷◌ t more)

-- The characters up to the first comma, put before the parts that follow it.
abbrev pub onto : Char → List String → List String
onto c List.[] = List.◌∷◌ (String.◌∷◌ c String.[]) List.[]
onto c (List.◌∷◌ s parts) = List.◌∷◌ (String.◌∷◌ c s) parts

-- `s.split(",")`
unfoldable pub split_comma : String → List String
split_comma String.[] = List.◌∷◌ String.[] List.[]
split_comma (String.◌∷◌ c s) =
    let rest = split_comma s in if eqb (code c) b',' then List.◌∷◌ String.[] rest else onto c rest

-- `len(s)`
abbrev pub str_len : String → ℕ
str_len s = count s

strip-test : strip "  a b \n" ≡ "a b"
unfolding strip
strip-test = refl

lower-test : lower "TRUE z9" ≡ "true z9"
unfolding lower
lower-test = refl

split_comma-test : split_comma "a,,b c" ≡ List.◌∷◌ "a" (List.◌∷◌ "" (List.◌∷◌ "b c" List.[]))
unfolding split_comma
split_comma-test = refl

join-test : join ", " (List.◌∷◌ "a" (List.◌∷◌ "b" List.[])) ≡ "a, b"
unfolding join
join-test = refl
