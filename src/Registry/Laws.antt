-- ===== src/Registry/Laws.antt =====
-- A version is approved only by an approval that follows its last registration.
use hire_os_be.Prelude.{
  ◌&&◌, ◌==◌, [], ap, arith, Bool, Bool-cases, eq_iff, false, if◌then◌else◌, inl, inr, List, none,
  Option, refl, some, String, subst, sym, true, ◌||◌, ◌∙◌, ◌∷◌, ◌≡◌,
}
use hire_os_be.Registry.{
  after, approval, approve, find, is_approved, is_for, Operation, PromptRegistry, register,
  registered, RegisteredVersion, store,
}

abbrev pub same : String → String → String → String → Bool
same name version n v = n == name && v == version

-- The version was registered at some time.
abbrev pub known : String → String → List Operation → Bool
known name version [] = false
known name version (registered n v ∷ older) = same name version n v || known name version older
known name version (approval n v ∷ older) = known name version older

-- The newest operation on the version, approvals of an unknown version aside, is an approval.
abbrev pub approved_by : String → String → List Operation → Bool
approved_by name version [] = false
approved_by name version (registered n v ∷ older) =
    if same name version n v then false else approved_by name version older
approved_by name version (approval n v ∷ older) =
    if same name version n v then known name version older else approved_by name version older

unknown-approved_by :
    (name version : String) (ops : List Operation)
    → known name version ops ≡ false
    → approved_by name version ops ≡ false
unknown-approved_by name version [] k = refl
unknown-approved_by name version (registered n v ∷ older) k =
    ground (arith, unknown-approved_by name version older)
unknown-approved_by name version (approval n v ∷ older) k =
    ground (arith, unknown-approved_by name version older)

find-store :
    (name version : String) (e : RegisteredVersion) (r : PromptRegistry)
    → find name version (store e r)
      ≡ (if is_for name version e then some e else find name version r)
unfolding find store
find-store name version e [] = refl
find-store name version e (f ∷ r) = ground (
  arith,
  eq_iff f.name e.name,
  eq_iff f.version e.version,
  eq_iff e.name name,
  eq_iff e.version version,
  eq_iff f.name name,
  eq_iff f.version version,
  find-store name version e r,
)

abbrev entry : String → String → List Operation → RegisteredVersion
entry name version ops = record {
  name = name;
  version = version;
  approved = approved_by name version ops;
}

same-eq : (name version n v : String) → same name version n v ≡ true → (n ≡ name) × (v ≡ version)
same-eq name version n v h = ground (arith, eq_iff n name, eq_iff v version)

abbrev pub if_known : Bool → RegisteredVersion → Option RegisteredVersion
if_known true e = some e
if_known false e = none

find-register :
    (name version n v : String) (r : PromptRegistry)
    → find name version (register n v r) ≡ (
        if same name version n v
        then some (record { name = n; version = v; approved = false })
        else find name version r)
unfolding register
find-register name version n v r =
    find-store name version (record { name = n; version = v; approved = false }) r

find-approve :
    (name version n v : String) (e : RegisteredVersion) (r : PromptRegistry)
    → find n v r ≡ some e
    → find name version (approve n v r).0
      ≡ (if is_for name version e then some (record e { approved = true }) else find name version r)
unfolding approve
find-approve name version n v e r h =
    rw (approve, h) (find-store name version (record e { approved = true }) r)

unknown-approve : (n v : String) (r : PromptRegistry) → find n v r ≡ none → (approve n v r).0 ≡ r
unfolding approve
unknown-approve n v r h = rw (approve, h) refl

find-after :
    (name version : String) (ops : List Operation)
    → find name version (after ops) ≡ if_known (known name version ops) (entry name version ops)
unfolding after find
find-after name version [] = refl
find-after name version (registered n v ∷ older) =
    find-register name version n v (after older) ∙ (elim (Bool-cases (same name version n v)) [
      | inr e ↦ rw e (find-after name version older)
      | inl e ↦
          let (p, q) = same-eq name version n v e in
          rw e (
            ap (λ m. some (record { name = m; version = v; approved = false })) p
            ∙ ap (λ w. some (record { name = name; version = w; approved = false })) q)
    ])
find-after name version (approval n v ∷ older) = elim (Bool-cases (known n v older)) [
  | inr k ↦
      rw (unknown-approve n v (after older) (find-after n v older ∙ rw k refl))
        (elim (Bool-cases (same name version n v)) [
          | inr e ↦ rw e (find-after name version older)
          | inl e ↦
              let (p, q) = same-eq name version n v e in
              let k' = subst (λ m. known m v older ≡ false) p k in
              let k'' = subst (λ w. known name w older ≡ false) q k' in
              find-after name version older ∙ rw k'' refl
        ])
  | inl k ↦
      find-approve name version n v (entry n v older) (after older)
        (find-after n v older ∙ rw k refl)
      ∙ (elim (Bool-cases (same name version n v)) [
        | inr e ↦ rw e (find-after name version older)
        | inl e ↦
            let (p, q) = same-eq name version n v e in
            let k' = subst (λ m. known m v older ≡ true) p k in
            let k'' = subst (λ w. known name w older ≡ true) q k' in
            rw (e, k'')
              (ap (λ m. some (record { name = m; version = v; approved = true })) p
                ∙ ap (λ w. some (record { name = name; version = w; approved = true })) q)
      ])
]

-- After any history a version counts as approved exactly if it was approved after it was registered
-- and not registered again since; approvals of a version that is not registered change nothing.
pub is_approved-after :
    (name version : String) (ops : List Operation)
    → is_approved name version (after ops) ≡ approved_by name version ops
unfolding is_approved
is_approved-after name version ops = elim (Bool-cases (known name version ops)) [
  | inl k ↦ rw (is_approved, find-after name version ops, k) refl
  | inr k ↦
      rw (is_approved, find-after name version ops, k)
        (sym (unknown-approved_by name version ops k))
]
