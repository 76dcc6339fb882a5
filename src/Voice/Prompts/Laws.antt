-- ===== src/Voice/Prompts/Laws.antt =====
-- The resume and the prompts of ai-service/app/voice_agent/prompts.py.
use hire_os_be.Prelude.{
  ◌&&◌, [], ap, arith, Bool, Bool-cases, false, if◌then◌else◌, inl, inr, is_empty, List, none, not,
  Option, refl, some, String, subst, suc, sym, true, zero, ℕ, ◌∙◌, ◌∷◌, ◌≡◌, ◌≤◌,
}
use hire_os_be.Prelude.{
  ◌+s◌, ◌>>=◌, >>=-eq-ok, is_ok, join, nil_of_empty, ok, ok-inj, raise, Result, str_len, truthy,
}
use text.Mathlib.TextLemmas.{length-cons}
use hire_os_be.Prelude.Dict
use hire_os_be.Prelude.Dict.{Dict}
use hire_os_be.Prelude.Json.{
  entries, Fields, is_true, Json, json_bool, json_dict, json_list, json_null, json_num, json_text,
}
use hire_os_be.Voice.Prompts.{
  compact_dict, compact_resume_context, compact_value, fields_of, first_chars, given_values,
  header_lines, resume_lines, texts_of, years_suffix,
}

str_len-first_chars-le : (n : ℕ) (s : String) → str_len (first_chars n s) ≤ n
unfolding first_chars
str_len-first_chars-le zero s = omega arith
str_len-first_chars-le (suc n) String.[] = omega arith
str_len-first_chars-le (suc n) (String.◌∷◌ c s) =
    omega (arith, length-cons c (first_chars n s), str_len-first_chars-le n s)

-- A field that the header can join: missing, false in Python, or a text.
abbrev pub is_plain : Option Json → Bool
is_plain none = true
is_plain (some (json_text s)) = true
is_plain (some v) = not (is_true v)

abbrev pub all_plain : List (Option Json) → Bool
all_plain [] = true
all_plain (o ∷ l) = is_plain o && all_plain l

is_ok->>= {ℓ κ} :
    {A : Type ℓ} {B : Type κ} (r : Result A) (f : A → B) → is_ok (r >>= λ a. ok (f a)) ≡ is_ok r
is_ok->>= (ok a) f = refl
is_ok->>= (raise e) f = refl

refused :
    (b : Bool) (v : Json) (rest : List Json) (plain : Bool)
    → is_ok (texts_of (v ∷ rest)) ≡ false
    → is_ok (texts_of rest) ≡ plain
    → is_ok (texts_of (if b then v ∷ rest else rest)) ≡ (not b && plain)
refused true v rest plain no_text h = no_text
refused false v rest plain no_text h = h

kept_text :
    (b : Bool) (s : String) (rest : List Json)
    → is_ok (texts_of (if b then json_text s ∷ rest else rest)) ≡ is_ok (texts_of rest)
unfolding texts_of
kept_text true s rest = is_ok->>= (texts_of rest) (λ ss. s ∷ ss)
kept_text false s rest = refl

is_ok-texts_of : (l : List (Option Json)) → is_ok (texts_of (given_values l)) ≡ all_plain l
unfolding texts_of given_values is_true
is_ok-texts_of [] = refl
is_ok-texts_of (none ∷ l) = is_ok-texts_of l
is_ok-texts_of (some json_null ∷ l) = is_ok-texts_of l
is_ok-texts_of (some (json_bool true) ∷ l) = refl
is_ok-texts_of (some (json_bool false) ∷ l) = is_ok-texts_of l
is_ok-texts_of (some (json_num n) ∷ l) =
    refused (is_true (json_num n)) (json_num n) (given_values l) _ refl (is_ok-texts_of l)
is_ok-texts_of (some (json_text s) ∷ l) = kept_text (truthy s) s (given_values l) ∙ is_ok-texts_of l
is_ok-texts_of (some (json_list i) ∷ l) =
    refused (is_true (json_list i)) (json_list i) (given_values l) _ refl (is_ok-texts_of l)
is_ok-texts_of (some (json_dict f) ∷ l) =
    refused (is_true (json_dict f)) (json_dict f) (given_values l) _ refl (is_ok-texts_of l)

and_true : (b : Bool) → (b && true) ≡ b
and_true true = refl
and_true false = refl

plain_pair :
    (d : Dict Json)
    → is_ok (texts_of (given_values (fields_of ("name" ∷ "title" ∷ []) d)))
      ≡ (is_plain (Dict.get "name" d) && is_plain (Dict.get "title" d))
unfolding fields_of
plain_pair d =
    is_ok-texts_of (Dict.get "name" d ∷ Dict.get "title" d ∷ [])
    ∙ ap (λ b. is_plain (Dict.get "name" d) && b) (and_true (is_plain (Dict.get "title" d)))

raw_le : (ctx : String) → str_len (first_chars 1500 ctx) ≤ 4000
raw_le ctx = omega (arith, str_len-first_chars-le 1500 ctx)

module _ (show : Json → String) where
  is_ok-header_lines :
      (d : Dict Json)
      → is_ok (header_lines show d)
        ≡ (is_plain (Dict.get "name" d) && is_plain (Dict.get "title" d))
  unfolding header_lines fields_of
  is_ok-header_lines d =
      elim (Bool-cases (is_empty (given_values (fields_of ("name" ∷ "title" ∷ []) d)))) [
        | inl e ↦ rw e (sym (ap (λ bits. is_ok (texts_of bits)) (nil_of_empty _ e)) ∙ plain_pair d)
        | inr e ↦ rw e (
            is_ok->>= (texts_of (given_values (Dict.get "name" d ∷ Dict.get "title" d ∷ [])))
              (λ texts.
                (join " — " texts +s years_suffix show (Dict.get "yearsOfExperience" d)) ∷ [])
            ∙ plain_pair d)
      ]

  compact_dict-le :
      (ctx : String) (d : Dict Json) (t : String)
      → compact_dict show ctx d ≡ ok t
      → str_len t ≤ 4000
  unfolding compact_dict
  compact_dict-le ctx d t h = elim (Bool-cases (Dict.has "skills" d)) [
    | inl e ↦
        let (lines, made, out) = >>=-eq-ok (resume_lines show d) _ (rw e at h) in
        subst (λ u. str_len u ≤ 4000) (ok-inj out) (str_len-first_chars-le 4000 _)
    | inr e ↦ subst (λ u. str_len u ≤ 4000) (ok-inj (rw e at h)) (raw_le ctx)
  ]

  -- The compaction of a resume that parses to an object with skills succeeds when the name and the
  -- title are missing, false in Python or texts, and raises otherwise.
  pub is_ok-compact_resume_context :
      (loads : String → Option Json) (ctx : String) (f : Fields)
      → loads ctx ≡ some (json_dict f)
      → Dict.has "skills" (entries f) ≡ true
      → is_ok (compact_resume_context show loads ctx)
        ≡ (is_plain (Dict.get "name" (entries f)) && is_plain (Dict.get "title" (entries f)))
  unfolding compact_resume_context resume_lines
  is_ok-compact_resume_context loads ctx f parsed skills =
      ap (λ o. is_ok (compact_value show ctx o)) parsed
      ∙ rw (compact_value, compact_dict, skills)
          (is_ok->>= (resume_lines show (entries f)) _
            ∙ is_ok->>= (header_lines show (entries f)) _
            ∙ is_ok-header_lines (entries f))

  pub compact_resume_context-le :
      (loads : String → Option Json) (ctx t : String)
      → compact_resume_context show loads ctx ≡ ok t
      → str_len t ≤ 4000
  unfolding compact_resume_context compact_value
  compact_resume_context-le loads ctx t h = by_value (loads ctx) h
    where
      raw_ok : ok (first_chars 1500 ctx) ≡ ok t → str_len t ≤ 4000
      raw_ok h = subst (λ u. str_len u ≤ 4000) (ok-inj h) (raw_le ctx)

      by_value : (o : Option Json) → compact_value show ctx o ≡ ok t → str_len t ≤ 4000
      by_value (some (json_dict f)) h = compact_dict-le ctx (entries f) t h
      by_value none h = raw_ok h
      by_value (some json_null) h = raw_ok h
      by_value (some (json_bool b)) h = raw_ok h
      by_value (some (json_num n)) h = raw_ok h
      by_value (some (json_text s)) h = raw_ok h
      by_value (some (json_list i)) h = raw_ok h
