-- ===== src/Voice/Signing/Laws.antt =====
-- A signature stands for one tenant, session, session type and resume context.
use hire_os_be.Prelude.{
  ◌&&◌, ap, arith, Bool, Bool-cases, eq_iff, eqb, inl, inr, not, refl, String, sym, true, ◌∙◌, ◌≡◌,
}
use text.Mathlib.TextLemmas.{cons-append, nil-append}
use Prim.Native.Char.{Char, code}
use hire_os_be.Prelude.{◌+s◌, >>=-eq-ok, join, none, ok, ok-inj, Option, or_else, some}
use hire_os_be.Prelude.Json.{Json, json_bool, json_dict, json_list, json_null, json_num, json_text}
use hire_os_be.Voice.Signing.{
  canonical_string, compare_digest, complete, field_separator, is_ascii, Metadata, signed_text,
  text_of, verify_metadata_signature,
}

-- The text has no separator.
abbrev pub no_separator : String → Bool
no_separator String.[] = true
no_separator (String.◌∷◌ c s) = not (eqb (code c) 1) && no_separator s

abbrev pub tail : String → String
tail String.[] = String.[]
tail (String.◌∷◌ c s) = s

abbrev pub head_or : Char → String → Char
head_or e String.[] = e
head_or e (String.◌∷◌ c s) = c

-- The separator in front of a text is a character.
separator-cons : (s : String) → "" +s field_separator +s s ≡ String.◌∷◌ "\u{1}" s
separator-cons s =
    nil-append (field_separator +s s)
    ∙ cons-append "\u{1}" "" s
    ∙ ap (λ t. String.◌∷◌ "\u{1}" t) (nil-append s)

cons-inj : (c d : Char) (s t : String) → String.◌∷◌ c s ≡ String.◌∷◌ d t → (c ≡ d) × (s ≡ t)
cons-inj c d s t h = (ap (head_or c) h, ap tail h)

split_at :
    (a b s t : String)
    → no_separator a ≡ true
    → no_separator b ≡ true
    → a +s field_separator +s s ≡ b +s field_separator +s t
    → (a ≡ b) × (s ≡ t)
split_at String.[] String.[] s t ha hb h =
    (refl, (cons-inj "\u{1}" "\u{1}" s t (sym (separator-cons s) ∙ h ∙ separator-cons t)).1)
split_at String.[] (String.◌∷◌ d b) s t ha hb h =
    let eq =
      (cons-inj "\u{1}" d s (b +s field_separator +s t)
        (sym (separator-cons s) ∙ h ∙ cons-append d b (field_separator +s t))).0 in
    absurd (ground (arith, ap code eq))
split_at (String.◌∷◌ c a) String.[] s t ha hb h =
    let eq =
      (cons-inj c "\u{1}" (a +s field_separator +s s) t
        (sym (cons-append c a (field_separator +s s)) ∙ h ∙ separator-cons t)).0 in
    absurd (ground (arith, ap code eq))
split_at (String.◌∷◌ c a) (String.◌∷◌ d b) s t ha hb h =
    let (e, more) =
      cons-inj c d (a +s field_separator +s s) (b +s field_separator +s t) (
        sym (cons-append c a (field_separator +s s))
        ∙ h
        ∙ cons-append d b (field_separator +s t)) in
    let (f, rest) = split_at a b s t (ground arith) (ground arith) more in (rw (e, f) refl, rest)

-- The text of an entry, where a missing one reads as none.
abbrev pub value_of : Option Json → String
value_of (some (json_text s)) = s
value_of o = ""

abbrev pub separable : Metadata → Bool
separable m =
    no_separator (value_of m.tenant_id)
    && no_separator (value_of m.session_id)
    && no_separator (value_of m.session_type)

abbrev pub canonical : Metadata → String
canonical m =
    canonical_string (value_of m.tenant_id) (value_of m.session_id) (value_of m.session_type)
      (some (value_of m.resume_context))

or_else-empty : (s : String) → or_else (some s) "" ≡ s
or_else-empty String.[] = refl
or_else-empty (String.◌∷◌ c s) = refl

canonical-inj :
    (m n : Metadata)
    → separable m ≡ true
    → separable n ≡ true
    → canonical m ≡ canonical n
    → (value_of m.tenant_id ≡ value_of n.tenant_id)
      × (value_of m.session_id ≡ value_of n.session_id)
      × (value_of m.session_type ≡ value_of n.session_type)
      × (value_of m.resume_context ≡ value_of n.resume_context)
unfolding canonical_string join
canonical-inj m n hm hn h =
    let (a, r1) =
      split_at (value_of m.tenant_id) (value_of n.tenant_id) _ _ (ground arith) (ground arith) h in
    let (b, r2) =
      split_at (value_of m.session_id) (value_of n.session_id) _ _ (ground arith) (ground arith)
        r1 in
    let (c, r3) =
      split_at (value_of m.session_type) (value_of n.session_type) _ _ (ground arith) (ground arith)
        r2 in
    (
      a,
      b,
      c,
      sym (or_else-empty (value_of m.resume_context))
          ∙ r3
          ∙ or_else-empty (value_of n.resume_context),
    )

text_of-value_of : (o : Option Json) (s : String) → text_of o ≡ ok s → s ≡ value_of o
unfolding text_of
text_of-value_of none s h = ground arith
text_of-value_of (some (json_text t)) s h = ground arith
text_of-value_of (some json_null) s h = ground arith
text_of-value_of (some (json_bool b)) s h = ground arith
text_of-value_of (some (json_num n)) s h = ground arith
text_of-value_of (some (json_list l)) s h = ground arith
text_of-value_of (some (json_dict d)) s h = ground arith

signed_text-canonical : (m : Metadata) (s : String) → signed_text m ≡ ok s → s ≡ canonical m
unfolding signed_text
signed_text-canonical m s h =
    let (a, ea, h1) = >>=-eq-ok (text_of m.tenant_id) _ h in
    let (b, eb, h2) = >>=-eq-ok (text_of m.session_id) _ h1 in
    let (c, ec, h3) = >>=-eq-ok (text_of m.session_type) _ h2 in
    let (d, ed, h4) = >>=-eq-ok (text_of m.resume_context) _ h3 in
    let out : canonical_string a b c (some d) ≡ s = ok-inj h4 in
    sym out
    ∙ rw
        (
          text_of-value_of m.tenant_id a ea,
          text_of-value_of m.session_id b eb,
          text_of-value_of m.session_type c ec,
          text_of-value_of m.resume_context d ed,
        )
        refl

compare_digest-eq :
    (expected : String) (signature : Option Json)
    → compare_digest expected signature ≡ ok true
    → expected ≡ value_of signature
unfolding compare_digest
compare_digest-eq expected none h = cc
compare_digest-eq expected (some (json_text s)) h = elim (Bool-cases (is_ascii s)) [
  | inl a ↦ (eq_iff expected s).0 (ok-inj (rw a at h))
  | inr a ↦ absurd (ground (arith, rw a at h))
]
compare_digest-eq expected (some json_null) h = cc
compare_digest-eq expected (some (json_bool b)) h = cc
compare_digest-eq expected (some (json_num n)) h = cc
compare_digest-eq expected (some (json_list l)) h = cc
compare_digest-eq expected (some (json_dict d)) h = cc

verified :
    (hmac : String → String → String) (m : Metadata) (secret : String)
    → verify_metadata_signature hmac m secret ≡ ok true
    → hmac secret (canonical m) ≡ value_of m.metadata_signature
unfolding verify_metadata_signature
verified hmac m secret h = elim (Bool-cases (complete m)) [
  | inl all ↦
      let (s, made, compared) = >>=-eq-ok (signed_text m) _ (rw all at h) in
      ap (hmac secret) (sym (signed_text-canonical m s made))
      ∙ compare_digest-eq (hmac secret s) m.metadata_signature compared
  | inr lacks ↦ absurd (ground (arith, rw lacks at h))
]

-- One signature is accepted for one session only: if it verifies with two metadata whose identifiers
-- have no separator character, and the keyed hash gives their two canonical texts different digests
-- when they differ, then tenant, session, session type and resume context are the same.
pub verify_metadata_signature-binds :
    (hmac : String → String → String) (secret : String) (m n : Metadata)
    → (hmac secret (canonical m) ≡ hmac secret (canonical n) → canonical m ≡ canonical n)
    → separable m ≡ true
    → separable n ≡ true
    → value_of m.metadata_signature ≡ value_of n.metadata_signature
    → verify_metadata_signature hmac m secret ≡ ok true
    → verify_metadata_signature hmac n secret ≡ ok true
    → (value_of m.tenant_id ≡ value_of n.tenant_id)
      × (value_of m.session_id ≡ value_of n.session_id)
      × (value_of m.session_type ≡ value_of n.session_type)
      × (value_of m.resume_context ≡ value_of n.resume_context)
verify_metadata_signature-binds hmac secret m n collision_free hm hn same vm vn =
    canonical-inj m n hm hn
      (collision_free (verified hmac m secret vm ∙ same ∙ sym (verified hmac n secret vn)))
