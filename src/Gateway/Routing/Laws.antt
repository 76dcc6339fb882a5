-- ===== src/Gateway/Routing/Laws.antt =====
-- What a loaded routing configuration guarantees to the gateway.
use hire_os_be.Prelude.{
  ◌==◌, [], arith, Bool-cases, eq_iff, inl, inr, is_empty, List, refl, some, String, subst, true,
  ◌∷◌, ◌≡◌, ◌≢◌,
}
use hire_os_be.Prelude.{
  >>-eq-ok, ◌>>=◌, >>=-eq-ok, Exc, member, ok, raise, Result-cases, routing_config_error,
}
use hire_os_be.Prelude.Dict
use hire_os_be.Prelude.Dict.{Dict}
use hire_os_be.Gateway.Policy.{Policies, ProviderChoice, UseCasePolicy}
use hire_os_be.Gateway.Routing.{
  all_required_present, ChainEntry, check_entries, check_policies, choice_of, choices_of,
  load_routing_config, missing, non_empty_chain, parse, policies_of, required_use_cases, Source,
  unique_from, use_cases, UseCasePolicyEntry,
}
use hire_os_be.Gateway.Routing.Chains.{choices-IsUsable, IsUsable, policies-total}

-- Whatever a file of UTF-8 text holds, a failed load raises RoutingConfigError and nothing else.
pub load_routing_config-raises :
    (s : Source) (e : Exc)
    → s ≢ Source.not_utf8
    → load_routing_config s ≡ raise e
    → e ≡ routing_config_error
unfolding load_routing_config
load_routing_config-raises Source.unreadable e utf8 h = cc
load_routing_config-raises Source.not_yaml e utf8 h = cc
load_routing_config-raises Source.not_a_mapping e utf8 h = cc
load_routing_config-raises Source.malformed e utf8 h = cc
load_routing_config-raises Source.not_utf8 e utf8 h = absurd (utf8 refl)
load_routing_config-raises (use_cases d) e utf8 h = elim (Result-cases (parse d)) [
  | inr (x, p) ↦ ground arith
  | inl (tt, p) ↦
      let (checked, _) = >>-eq-ok (check_policies d) (all_required_present d) (unfold parse in p) in
      let (ps, q) = policies-total d checked in absurd (ground arith)
]

choices-ne-nil :
    (l : List ChainEntry) (cs : List ProviderChoice)
    → non_empty_chain l ≡ ok l
    → choices_of l ≡ ok cs
    → cs ≢ []
unfolding non_empty_chain choices_of
choices-ne-nil [] cs n h = cc
choices-ne-nil (a ∷ l) cs n h =
    let (d, ha, rest) = >>=-eq-ok (choice_of a) (λ d. choices_of l >>= λ ds. ok (d ∷ ds)) h in
    let (ds, hl, same) = >>=-eq-ok (choices_of l) (λ ds. ok (d ∷ ds)) rest in λ e. ground arith

non_empty_chain-eq :
    (l l' : List ChainEntry)
    → non_empty_chain l ≡ ok l'
    → (non_empty_chain l ≡ ok l) × (unique_from [] l ≡ ok tt)
unfolding non_empty_chain
non_empty_chain-eq [] l' h = cc
non_empty_chain-eq (a ∷ l) l' h =
    let (u, _) = >>-eq-ok (unique_from [] (a ∷ l)) (ok (a ∷ l)) h in (rw u refl, u)

policies-All :
    (d : Dict UseCasePolicyEntry) (ps : Policies)
    → check_policies d ≡ ok tt
    → policies_of d ≡ ok ps
    → (u : String) → Dict.has u d ≡ true
    → (p : UseCasePolicy) × (Dict.get u ps ≡ some p) × IsUsable p
unfolding check_policies policies_of Dict.has Dict.get
policies-All [] ps c h u hu = cc
policies-All ((k, e) ∷ d) ps c h u hu =
    let (entries, c1) =
      >>-eq-ok (check_entries e.chain) (non_empty_chain e.chain >>= λ _. check_policies d) c in
    let (l', n, others) = >>=-eq-ok (non_empty_chain e.chain) (λ _. check_policies d) c1 in
    let (kept, unique) = non_empty_chain-eq e.chain l' n in
    let (cs, hc, h1) =
      >>=-eq-ok (choices_of e.chain)
        (λ cs.
          policies_of d >>= λ rest. ok ((k, record { chain = cs; rationale = e.rationale }) ∷ rest))
        h in
    let (rest, hr, same) =
      >>=-eq-ok (policies_of d)
        (λ rest. ok ((k, record { chain = cs; rationale = e.rationale }) ∷ rest)) h1 in
    let (ts, diff) = choices-IsUsable [] e.chain cs entries unique hc in
    let policy : UseCasePolicy = record { chain = cs; rationale = e.rationale } in
    let usable : IsUsable policy = record {
      non_empty = choices-ne-nil e.chain cs kept hc;
      timeouts = ts;
      distinct = diff;
    } in
    let eq : (k, policy) ∷ rest ≡ ps = ground arith in
    subst (λ ps. (p : UseCasePolicy) × (Dict.get u ps ≡ some p) × IsUsable p) eq
      (elim (Bool-cases (k == u)) [
        | inl s ↦ (policy, rw (s, Dict.get) refl, usable)
        | inr s ↦
            let (p, g, i) = policies-All d rest others hr u (ground arith) in
            (p, rw (s, Dict.get) g, i)
      ])

missing-nil :
    (l : List String) (d : Dict UseCasePolicyEntry) (u : String)
    → is_empty (missing l d) ≡ true
    → member u l ≡ true
    → Dict.has u d ≡ true
unfolding missing
missing-nil [] d u h m = cc
missing-nil (v ∷ l) d u h m = ground (arith, missing-nil l d u, eq_iff v u)

-- After a successful load every required use case has a policy with a chain that is not empty, none of
-- whose timeouts is zero or below (NaN is neither), and whose (provider, model) pairs all differ.
pub load_routing_config-IsUsable :
    (s : Source) (policies : Policies) (u : String)
    → load_routing_config s ≡ ok policies
    → member u required_use_cases ≡ true
    → (p : UseCasePolicy) × (Dict.get u policies ≡ some p) × IsUsable p
unfolding load_routing_config parse all_required_present
load_routing_config-IsUsable Source.unreadable policies u h m = cc
load_routing_config-IsUsable Source.not_utf8 policies u h m = cc
load_routing_config-IsUsable Source.not_yaml policies u h m = cc
load_routing_config-IsUsable Source.not_a_mapping policies u h m = cc
load_routing_config-IsUsable Source.malformed policies u h m = cc
load_routing_config-IsUsable (use_cases d) policies u h m = elim (Result-cases (parse d)) [
  | inr (x, p) ↦ absurd (ground arith)
  | inl (tt, p) ↦
      let (checked, required) = >>-eq-ok (check_policies d) (all_required_present d) p in
      policies-All d policies checked (ground arith) u
        (missing-nil required_use_cases d u (ground arith) m)
]
