-- ===== src/Voice/Prompts.antt =====
-- The resume in the prompts of ai-service/app/voice_agent/prompts.py. `json.loads` is a parameter, and
-- `str` of a value that is no text.
pub mod Texts
pub mod DiscoveryTexts
pub mod Build
pub mod Closing
pub mod Laws
use hire_os_be.Prelude.{
  ◌&&◌, ◌*◌, ◌+◌, ◌++◌, ◌-◌, ◌/◌, ◌<◌, ◌==◌, [], All, ap, arith, Bool, Bool-cases, drop, eq_iff,
  eq_refl, eqb, false, get_elem?, if◌then◌else◌, inl, inr, is_empty, last_n, leb, length,
  length-append, length-drop, length-last_n-le, length-map, List, ltb, map, none, not, Option,
  Option-cases, refl, some, String, subst, suc, sym, take, take-append-drop, true, zero, ◌||◌, ℕ,
  ◌↔◌, ◌∙◌, ◌∷◌, ◌≡◌, ◌≢◌, ◌≤◌, ◌⊎◌,
}
use hire_os_be.Prelude.{◌+s◌, ◌>>=◌, is_set, join, ok, or_else, other, raise, Result, truthy}
use hire_os_be.Prelude.Dict
use hire_os_be.Prelude.Dict.{Dict}
use hire_os_be.Prelude.Json.{
  elements, entries, is_true, Json, json_bool, json_dict, json_list, json_null, json_num, json_text,
}

-- `s[:n]`
unfoldable pub first_chars : ℕ → String → String
first_chars zero s = ""
first_chars (suc n) String.[] = ""
first_chars (suc n) (String.◌∷◌ c s) = String.◌∷◌ c (first_chars n s)

abbrev pub max_raw_resume_chars : ℕ
max_raw_resume_chars = 1500

abbrev pub max_compact_resume_chars : ℕ
max_compact_resume_chars = 4000

-- `if value`, for `data.get(key)`
abbrev pub is_given : Option Json → Bool
is_given none = false
is_given (some v) = is_true v

-- The values that are given, as the comprehensions keep them.
unfoldable pub given_values : List (Option Json) → List Json
unfolding is_true
given_values [] = []
given_values (none ∷ l) = given_values l
given_values (some v ∷ l) = let rest = given_values l in if is_true v then v ∷ rest else rest

-- `sep.join(values)`, a TypeError unless all are texts
unfoldable pub texts_of : List Json → Result (List String)
texts_of [] = ok []
texts_of (json_text s ∷ l) = texts_of l >>= λ ss. ok (s ∷ ss)
texts_of (_ ∷ l) = raise (other "TypeError")

-- `value.get(key)` for the keys in turn
unfoldable pub fields_of : List String → Dict Json → List (Option Json)
unfolding Dict.get
fields_of [] d = []
fields_of (k ∷ ks) d = Dict.get k d ∷ fields_of ks d

-- A list that is no list counts as an empty one.
unfoldable pub elements_of : Option Json → List Json
unfolding elements
elements_of (some (json_list l)) = elements l
elements_of _ = []

module _ (show : Json → String) where
  -- `str(value)`
  abbrev pub str : Json → String
  str (json_text s) = s
  str j = show j

  -- The years, unless they are missing or null.
  abbrev pub years_suffix : Option Json → String
  years_suffix none = ""
  years_suffix (some json_null) = ""
  years_suffix (some y) = " (" +s str y +s " years experience)"

  unfoldable pub header_lines : Dict Json → Result (List String)
  unfolding given_values texts_of fields_of join
  header_lines d =
      let bits = given_values (fields_of ("name" ∷ "title" ∷ []) d) in
      if is_empty bits
      then ok []
      else (texts_of bits >>= λ texts.
          ok ((join " — " texts +s years_suffix (Dict.get "yearsOfExperience" d)) ∷ []))

  unfoldable pub summary_lines : Option Json → List String
  unfolding is_true
  summary_lines none = []
  summary_lines (some v) = if is_true v then ("Summary: " +s str v) ∷ [] else []

  unfoldable pub skills_lines : Option Json → List String
  unfolding elements_of join
  skills_lines o =
      if is_empty (elements_of o)
      then []
      else ("Skills: " +s join ", " (map str (elements_of o))) ∷ []

  unfoldable pub achievement_lines : List Json → List String
  unfolding is_true
  achievement_lines [] = []
  achievement_lines (a ∷ l) =
      let rest = achievement_lines l in if is_true a then ("    - " +s str a) ∷ rest else rest

  unfoldable pub role_lines : Json → List String
  unfolding given_values fields_of join achievement_lines elements_of
  role_lines (json_dict f) =
      let role_line =
        join ", " (
          map str (given_values (fields_of ("title" ∷ "company" ∷ "duration" ∷ []) (entries f)))) in
      (if truthy role_line then ("- " +s role_line) ∷ [] else [])
      ++ achievement_lines (elements_of (Dict.get "achievements" (entries f)))
  role_lines _ = []

  unfoldable pub experience_lines : List Json → List String
  unfolding role_lines
  experience_lines [] = []
  experience_lines (role ∷ l) = role_lines role ++ experience_lines l

  unfoldable pub edu_lines : List Json → List String
  unfolding given_values fields_of join
  edu_lines [] = []
  edu_lines (json_dict f ∷ l) =
      let bits = given_values (fields_of ("degree" ∷ "institution" ∷ "year" ∷ []) (entries f)) in
      let rest = edu_lines l in if is_empty bits then rest else join ", " (map str bits) ∷ rest
  edu_lines (_ ∷ l) = edu_lines l

  unfoldable pub education_lines : Option Json → List String
  unfolding edu_lines elements_of join
  education_lines o =
      if is_empty (edu_lines (elements_of o))
      then []
      else ("Education: " +s join "; " (edu_lines (elements_of o))) ∷ []

  unfoldable pub resume_lines : Dict Json → Result (List String)
  unfolding header_lines summary_lines skills_lines experience_lines education_lines
  resume_lines d = header_lines d >>= λ header. ok (
      header
      ++ summary_lines (Dict.get "summary" d)
      ++ skills_lines (Dict.get "skills" d)
      ++ experience_lines (elements_of (Dict.get "experience" d))
      ++ education_lines (Dict.get "education" d))

  unfoldable pub compact_dict : String → Dict Json → Result String
  unfolding resume_lines first_chars join
  compact_dict resume_context d =
      if Dict.has "skills" d
      then (resume_lines d >>= λ lines. ok (
          first_chars max_compact_resume_chars
            (or_else (some (join "\n" lines)) (first_chars max_raw_resume_chars resume_context))))
      else ok (first_chars max_raw_resume_chars resume_context)

  -- The parsed text, if it parses; what is no object with skills falls back to the text.
  unfoldable pub compact_value : String → Option Json → Result String
  unfolding compact_dict
  compact_value resume_context (some (json_dict f)) = compact_dict resume_context (entries f)
  compact_value resume_context _ = ok (first_chars max_raw_resume_chars resume_context)

  unfoldable pub compact_resume_context : (String → Option Json) → String → Result String
  unfolding compact_value
  compact_resume_context loads resume_context = compact_value resume_context (loads resume_context)
