-- ===== src/Gateway/Routing/Chains.antt =====
-- What a validated chain is converted to.
use hire_os_be.Prelude.{
  [], All, ap, arith, eq_iff, false, inl, inr, List, Option-cases, refl, some, String, subst, sym,
  ◌∙◌, ◌∷◌, ◌≡◌, ◌≢◌,
}
use hire_os_be.Prelude.{>>-eq-ok, ◌>>=◌, >>=-eq-ok, ok}
use hire_os_be.Prelude.Dict.{Dict}
use hire_os_be.Gateway.Provider.{of_value, Provider, value}
use hire_os_be.Gateway.Policy.{Policies, ProviderChoice, Timeout, UseCasePolicy}
use hire_os_be.Prelude.Int.{is_le_zero}
use hire_os_be.Gateway.Routing.{
  ChainEntry, check_entries, check_entry, check_policies, choice_of, choice_with, choices_of,
  non_empty_chain, policies_of, same_key, seen, unique_from, UseCasePolicyEntry,
}

-- A timeout, where there is one, is not zero or below.
abbrev pub HasTimeout : ProviderChoice → Type 0
HasTimeout c = (t : Timeout) → c.timeout ≡ some t → is_le_zero t.seconds ≡ false

abbrev pub Differ : ProviderChoice → ProviderChoice → Type 0
Differ c d = (c.provider ≡ d.provider) → c.model ≢ d.model

abbrev pub AllDiffer : List ProviderChoice → Type 0
AllDiffer [] = Unit
AllDiffer (c ∷ l) = All (Differ c) l × AllDiffer l

pub record IsUsable (p : UseCasePolicy) : Type 0 where
  pub non_empty : p.chain ≢ []
  pub timeouts : All HasTimeout p.chain
  pub distinct : AllDiffer p.chain

module _ (a : ChainEntry) where
  choice-total : check_entry a ≡ ok tt → (c : ProviderChoice) × (choice_of a ≡ ok c)
  unfolding check_entry choice_of
  choice-total h = elim (Option-cases (of_value a.provider)) [
    | inl e ↦ absurd (ground arith)
    | inr (p, e) ↦ (choice_with a p, rw (e, choice_of) refl)
  ]

  choice-eq :
      (c : ProviderChoice)
      → choice_of a ≡ ok c
      → (p : Provider) × (of_value a.provider ≡ some p) × (c ≡ choice_with a p)
  unfolding choice_of
  choice-eq c h = elim (Option-cases (of_value a.provider)) [
    | inl e ↦ absurd (ground arith)
    | inr (p, e) ↦ (p, e, ground arith)
  ]

  choice-HasTimeout :
      (c : ProviderChoice) → check_entry a ≡ ok tt → choice_of a ≡ ok c → HasTimeout c
  unfolding check_entry
  choice-HasTimeout c h e t et =
      let (p, found, same) = choice-eq c e in
      ground (arith, ap (λ (x : ProviderChoice). x.timeout) same)

choices-total :
    (l : List ChainEntry)
    → check_entries l ≡ ok tt
    → (cs : List ProviderChoice) × (choices_of l ≡ ok cs)
unfolding check_entries choices_of
choices-total [] h = ([], refl)
choices-total (a ∷ l) h =
    let (first, rest) = >>-eq-ok (check_entry a) (check_entries l) h in
    let (c, e) = choice-total a first in
    let (cs, es) = choices-total l rest in (c ∷ cs, rw (e, es) refl)

pub policies-total :
    (d : Dict UseCasePolicyEntry)
    → check_policies d ≡ ok tt
    → (p : Policies) × (policies_of d ≡ ok p)
unfolding check_policies policies_of
policies-total [] h = ([], refl)
policies-total ((k, e) ∷ d) h =
    let (entries, h1) = >>-eq-ok (check_entries e.chain) _ h in
    let (c, _, rest) = >>=-eq-ok (non_empty_chain e.chain) (λ _. check_policies d) h1 in
    let (cs, es) = choices-total e.chain entries in
    let (ps, eps) = policies-total d rest in
    ((k, record { chain = cs; rationale = e.rationale }) ∷ ps, rw (es, eps) refl)

module _ where
  value_of : (n : String) (p : Provider) → of_value n ≡ some p → n ≡ value p
  unfolding of_value
  value_of n p h = ground (
    arith,
    eq_iff n "openai",
    eq_iff n "anthropic",
    eq_iff n "gemini",
    eq_iff n "groq",
    eq_iff n "openrouter",
    eq_iff n "livekit_inference",
  )

  choices-Differ :
      (a b : ChainEntry) (c d : ProviderChoice)
      → choice_of a ≡ ok c
      → choice_of b ≡ ok d
      → same_key b a ≡ false
      → Differ c d
  choices-Differ a b c d ha hb k ep em =
      let (p, fa, sa) = choice-eq a c ha in
      let (q, fb, sb) = choice-eq b d hb in
      let pq : p ≡ q =
        cc (
          ap (λ (x : ProviderChoice). x.provider) sa,
          ap (λ (x : ProviderChoice). x.provider) sb,
        ) in
      let names : b.provider ≡ a.provider =
        value_of _ q fb ∙ ap value (sym pq) ∙ sym (value_of _ p fa) in
      let models : b.model ≡ a.model =
        ground (
          arith,
          ap (λ (x : ProviderChoice). x.model) sa,
          ap (λ (x : ProviderChoice). x.model) sb,
        ) in
      ground (arith, (eq_iff b.provider a.provider).1 names, (eq_iff b.model a.model).1 models)

abbrev Unseen : List ChainEntry → List ChainEntry → Type 0
Unseen passed l = All (λ b. seen b passed ≡ false) l

Unseen-tail :
    (a : ChainEntry) (passed l : List ChainEntry) → Unseen (a ∷ passed) l → Unseen passed l
unfolding seen
Unseen-tail a passed [] u = tt
Unseen-tail a passed (b ∷ l) u = (ground arith, Unseen-tail a passed l u.1)

unique-Unseen : (passed l : List ChainEntry) → unique_from passed l ≡ ok tt → Unseen passed l
unfolding unique_from
unique-Unseen passed [] h = tt
unique-Unseen passed (a ∷ l) h =
    (ground arith, Unseen-tail a passed l (unique-Unseen (a ∷ passed) l (ground arith)))

choices-All :
    (a : ChainEntry) (c : ProviderChoice) (passed l : List ChainEntry) (cs : List ProviderChoice)
    → choice_of a ≡ ok c
    → Unseen (a ∷ passed) l
    → choices_of l ≡ ok cs
    → All (Differ c) cs
unfolding choices_of seen
choices-All a c passed [] cs ha u h = let e : [] ≡ cs = ground arith in subst (All (Differ c)) e tt
choices-All a c passed (b ∷ l) cs ha u h =
    let (d, hb, rest) = >>=-eq-ok (choice_of b) (λ d. choices_of l >>= λ ds. ok (d ∷ ds)) h in
    let (ds, hl, same) = >>=-eq-ok (choices_of l) (λ ds. ok (d ∷ ds)) rest in
    let e : d ∷ ds ≡ cs = ground arith in
    subst (All (Differ c)) e
      (choices-Differ a b c d ha hb (ground arith), choices-All a c passed l ds ha u.1 hl)

pub choices-IsUsable :
    (passed l : List ChainEntry) (cs : List ProviderChoice)
    → check_entries l ≡ ok tt
    → unique_from passed l ≡ ok tt
    → choices_of l ≡ ok cs
    → All HasTimeout cs × AllDiffer cs
unfolding choices_of check_entries unique_from
choices-IsUsable passed [] cs c u h =
    let e : [] ≡ cs = ground arith in subst (λ l. All HasTimeout l × AllDiffer l) e (tt, tt)
choices-IsUsable passed (a ∷ l) cs c u h =
    let (first, others) = >>-eq-ok (check_entry a) (check_entries l) c in
    let (d, ha, rest) = >>=-eq-ok (choice_of a) (λ d. choices_of l >>= λ ds. ok (d ∷ ds)) h in
    let (ds, hl, same) = >>=-eq-ok (choices_of l) (λ ds. ok (d ∷ ds)) rest in
    let unique : unique_from (a ∷ passed) l ≡ ok tt = ground arith in
    let (ts, diff) = choices-IsUsable (a ∷ passed) l ds others unique hl in
    let e : d ∷ ds ≡ cs = ground arith in
    subst (λ l. All HasTimeout l × AllDiffer l) e
      (
        (choice-HasTimeout a d first ha, ts),
        (choices-All a d passed l ds ha (unique-Unseen (a ∷ passed) l unique) hl, diff),
      )
