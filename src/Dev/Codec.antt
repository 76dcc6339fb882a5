-- ===== src/Dev/Codec.antt =====
-- A text for every value, and its reader, in the place of `json.dumps` and `json.loads`: what the
-- development tools ask of the two is satisfiable. A value is written after its parts.
use Prim.Native.Char.{Char, code}
use hire_os_be.Prelude.{
  [], ap, Bool, eqb, false, if◌then◌else◌, List, none, Option, refl, some, String, suc, true, zero,
  ℕ, ◌∙◌, ◌∷◌, ◌≡◌,
}
use hire_os_be.Prelude.Json.{
  field, Fields, item, Items, Json, json_bool, json_dict, json_list, json_null, json_num, json_text,
  no_fields, no_items,
}

-- The values read so far, the last first; `letter_next` reads the next character as it is.
pub data Reader : Type 0 where
  ready letter_next : List Json → Reader

abbrev count_up : List Json → List Json
count_up (json_num n ∷ st) = json_num (suc n) ∷ st
count_up st = st

abbrev add_letter : Char → List Json → List Json
add_letter c (json_text s ∷ st) = json_text (String.◌∷◌ c s) ∷ st
add_letter c st = st

abbrev add_item : List Json → List Json
add_item (j ∷ json_list l ∷ st) = json_list (item j l) ∷ st
add_item st = st

abbrev add_field : List Json → List Json
add_field (v ∷ json_text k ∷ json_dict f ∷ st) = json_dict (field k v f) ∷ st
add_field st = st

abbrev act : Char → List Json → Reader
act c st =
    if eqb (code c) b'N'
    then ready (json_null ∷ st)
    else if eqb (code c) b'T'
    then ready (json_bool true ∷ st)
    else if eqb (code c) b'F'
    then ready (json_bool false ∷ st)
    else if eqb (code c) b'z'
    then ready (json_num 0 ∷ st)
    else if eqb (code c) b's'
    then ready (count_up st)
    else if eqb (code c) b't'
    then ready (json_text "" ∷ st)
    else if eqb (code c) b'c'
    then letter_next st
    else if eqb (code c) b'l'
    then ready (json_list no_items ∷ st)
    else if eqb (code c) b'i'
    then ready (add_item st)
    else if eqb (code c) b'd'
    then ready (json_dict no_fields ∷ st)
    else ready (add_field st)

abbrev read_char : Char → Reader → Reader
read_char c (ready st) = act c st
read_char c (letter_next st) = ready (add_letter c st)

unfoldable read : String → Reader → Reader
read String.[] r = r
read (String.◌∷◌ c s) r = read s (read_char c r)

abbrev result : Reader → Option Json
result (ready (j ∷ [])) = some j
result r = none

unfoldable pub loads : String → Option Json
unfolding read
loads s = result (read s (ready []))

unfoldable put_num : ℕ → String → String
put_num zero rest = String.◌∷◌ "z" rest
put_num (suc n) rest = put_num n (String.◌∷◌ "s" rest)

unfoldable put_text : String → String → String
put_text String.[] rest = String.◌∷◌ "t" rest
put_text (String.◌∷◌ c s) rest = put_text s (String.◌∷◌ "c" (String.◌∷◌ c rest))

abbrev truth : Bool → Char
truth true = "T"
truth false = "F"

unfoldable mutual
  unfolding put_num put_text

  put_json : Json → String → String
  put_json json_null rest = String.◌∷◌ "N" rest
  put_json (json_bool b) rest = String.◌∷◌ (truth b) rest
  put_json (json_num n) rest = put_num n rest
  put_json (json_text s) rest = put_text s rest
  put_json (json_list l) rest = put_items l rest
  put_json (json_dict f) rest = put_fields f rest

  put_items : Items → String → String
  put_items no_items rest = String.◌∷◌ "l" rest
  put_items (item j l) rest = put_items l (put_json j (String.◌∷◌ "i" rest))

  put_fields : Fields → String → String
  put_fields no_fields rest = String.◌∷◌ "d" rest
  put_fields (field k v f) rest = put_fields f (put_text k (put_json v (String.◌∷◌ "f" rest)))

unfoldable pub dumps : Json → String
unfolding put_json
dumps j = put_json j ""

read-put_num :
    (n : ℕ) (rest : String) (st : List Json)
    → read (put_num n rest) (ready st) ≡ read rest (ready (json_num n ∷ st))
unfolding read put_num
read-put_num zero rest st = refl
read-put_num (suc n) rest st = read-put_num n (String.◌∷◌ "s" rest) st

read-put_text :
    (s rest : String) (st : List Json)
    → read (put_text s rest) (ready st) ≡ read rest (ready (json_text s ∷ st))
unfolding read put_text
read-put_text String.[] rest st = refl
read-put_text (String.◌∷◌ c s) rest st = read-put_text s (String.◌∷◌ "c" (String.◌∷◌ c rest)) st

mutual
  unfolding read put_json

  read-put_json :
      (j : Json) (rest : String) (st : List Json)
      → read (put_json j rest) (ready st) ≡ read rest (ready (j ∷ st))
  read-put_json json_null rest st = refl
  read-put_json (json_bool true) rest st = refl
  read-put_json (json_bool false) rest st = refl
  read-put_json (json_num n) rest st = read-put_num n rest st
  read-put_json (json_text s) rest st = read-put_text s rest st
  read-put_json (json_list l) rest st = read-put_items l rest st
  read-put_json (json_dict f) rest st = read-put_fields f rest st

  read-put_items :
      (l : Items) (rest : String) (st : List Json)
      → read (put_items l rest) (ready st) ≡ read rest (ready (json_list l ∷ st))
  read-put_items no_items rest st = refl
  read-put_items (item j l) rest st =
      read-put_items l _ st ∙ read-put_json j (String.◌∷◌ "i" rest) (json_list l ∷ st)

  read-put_fields :
      (f : Fields) (rest : String) (st : List Json)
      → read (put_fields f rest) (ready st) ≡ read rest (ready (json_dict f ∷ st))
  read-put_fields no_fields rest st = refl
  read-put_fields (field k v f) rest st =
      read-put_fields f _ st
      ∙ read-put_text k _ (json_dict f ∷ st)
      ∙ read-put_json v (String.◌∷◌ "f" rest) (json_text k ∷ json_dict f ∷ st)

pub loads-dumps : (j : Json) → loads (dumps j) ≡ some j
unfolding loads dumps read
loads-dumps j = ap result (read-put_json j "" [])
