-- ===== src/Gateway/Policy/Priority.antt =====
-- The order of a provider priority, read from the priority itself, and that reordering follows it.
use hire_os_be.Prelude.{
  ◌+◌, ◌<◌, [], All, ap, arith, Bool-cases, false, get_elem?, inl, inr, length, List, ltb, map,
  none, Option-cases, refl, some, subst, suc, true, zero, ℕ, ◌∷◌, ◌≡◌, ◌≢◌, ◌≤◌,
}
use mathlib.Core.List.{Perm}
use hire_os_be.Gateway.Provider.{Provider, same, same-eq, same_refl}
use hire_os_be.Gateway.Policy.{
  enumerate, Indexed, priority, ProviderChoice, rank, reorder_chain, sort,
}
use hire_os_be.Gateway.Policy.Order.{Before, IsSorted, sort-IsSorted, sort-perm}

-- The last place of a provider in the priority, as a dictionary from the priority keeps it.
pub record IsLastPlace (order : List Provider) (p : Provider) (i : ℕ) : Type 0 where
  pub at : get_elem? order i ≡ some p
  pub last : (j : ℕ) → i < j → get_elem? order j ≢ some p

abbrev pub IsUnnamed : List Provider → Provider → Type 0
IsUnnamed order p = (j : ℕ) → get_elem? order j ≢ some p

-- When a tier, with its place in the given chain, comes before another.
pub data Precedes (order : List Provider) (a b : Indexed) : Type 0 where
  -- Both providers are named, the first one earlier.
  earlier :
      (i j : ℕ)
      → IsLastPlace order a.1.provider i
      → IsLastPlace order b.1.provider j
      → i < j
      → Precedes order a b
  -- They are one named provider, and the tiers keep their order.
  same_place :
      (i : ℕ)
      → IsLastPlace order a.1.provider i
      → IsLastPlace order b.1.provider i
      → a.0 ≤ b.0
      → Precedes order a b
  -- Only the first one is named.
  named :
      (i : ℕ) → IsLastPlace order a.1.provider i → IsUnnamed order b.1.provider → Precedes order a b
  -- Neither is named, and the tiers keep their order.
  unnamed :
      IsUnnamed order a.1.provider → IsUnnamed order b.1.provider → a.0 ≤ b.0 → Precedes order a b

abbrev pub InOrder : List Provider → List Indexed → Type 0
InOrder order [] = Unit
InOrder order (a ∷ xs) = All (Precedes order a) xs × InOrder order xs

-- The tiers of a chain, taken with their places in it, in the order of a priority.
pub record IsReordered (order : List Provider) (chain result : List ProviderChoice) : Type 0 where
  pub tiers : List Indexed
  pub shown : result ≡ map (λ (a : Indexed). a.1) tiers
  pub kept : Perm tiers (enumerate 0 chain)
  pub ordered : InOrder order tiers

priority_tail :
    (q : Provider) (order : List Provider) (n : ℕ) (p : Provider)
    → priority (q ∷ order) n p ≡ none
    → (priority order (n + 1) p ≡ none) × (same q p ≡ false)
unfolding priority
priority_tail q order n p h = elim (Option-cases (priority order (n + 1) p)) [
  | inl e ↦ (e, ground (arith, rw (e, priority) at h))
  | inr (j, e) ↦ absurd (ground (arith, rw (e, priority) at h))
]

priority-none :
    (order : List Provider) (n : ℕ) (p : Provider) → priority order n p ≡ none → IsUnnamed order p
priority-none [] n p h j e = cc
priority-none (q ∷ order) n p h zero e =
    let differ = (priority_tail q order n p h).1 in
    let equal : q ≡ p = ground arith in cc (differ, ap (λ r. same r p) equal, same_refl p)
priority-none (q ∷ order) n p h (suc j) e =
    priority-none order (n + 1) p (priority_tail q order n p h).0 j e

later_place :
    (q : Provider) (order : List Provider) (p : Provider) (k : ℕ)
    → IsLastPlace order p k
    → IsLastPlace (q ∷ order) p (suc k)
later_place q order p k l = record { at = l.at; last = after }
  where
    after : (j : ℕ) → suc k < j → get_elem? (q ∷ order) j ≢ some p
    after zero h = absurd (omega (arith, h))
    after (suc j) h = l.last j (omega (arith, h))

first_place :
    (q : Provider) (order : List Provider) (p : Provider)
    → q ≡ p
    → IsUnnamed order p
    → IsLastPlace (q ∷ order) p 0
first_place q order p e u = record { at = ap some e; last = after }
  where
    after : (j : ℕ) → 0 < j → get_elem? (q ∷ order) j ≢ some p
    after zero h = absurd (omega (arith, h))
    after (suc j) h = u j

priority-some :
    (order : List Provider) (n : ℕ) (p : Provider) (i : ℕ)
    → priority order n p ≡ some i
    → (k : ℕ) × (i ≡ n + k) × IsLastPlace order p k
unfolding priority
priority-some [] n p i h = cc
priority-some (q ∷ order) n p i h = elim (Option-cases (priority order (n + 1) p)) [
  | inr (j, e) ↦
      let same_place : j ≡ i = ground (arith, rw (e, priority) at h) in
      let (k, eq, l) = priority-some order (n + 1) p j e in
      (suc k, omega (arith, same_place, eq), later_place q order p k l)
  | inl e ↦ elim (Bool-cases (same q p)) [
    | inl s ↦ (
      0,
      omega (arith, found s e),
      first_place q order p (same-eq q p s) (priority-none order (n + 1) p e),
    )
    | inr d ↦ absurd (ground (arith, rw (e, d, priority) at h))
  ]
]
  where
    found : same q p ≡ true → priority order (n + 1) p ≡ none → n ≡ i
    found s e = ground (arith, rw (e, s, priority) at h)

get_elem?-lt :
    (order : List Provider) (p : Provider) (i : ℕ) → get_elem? order i ≡ some p → i < length order
get_elem?-lt [] p i h = cc
get_elem?-lt (q ∷ order) p zero h = omega arith
get_elem?-lt (q ∷ order) p (suc i) h = omega (arith, get_elem?-lt order p i h)

-- What the rank of a tier is.
rank-IsLastPlace :
    (order : List Provider) (a : Indexed) (i : ℕ)
    → priority order 0 a.1.provider ≡ some i
    → IsLastPlace order a.1.provider (rank order a) × (rank order a < length order)
unfolding rank
rank-IsLastPlace order (n, c) i e =
    let (k, eq, l) = priority-some order 0 c.provider i e in
    let here : k ≡ rank order (n, c) = rw (rank, e) (omega (arith, eq)) in
    let l' = subst (IsLastPlace order c.provider) here l in
    (l', get_elem?-lt order c.provider (rank order (n, c)) l'.at)

rank-IsUnnamed :
    (order : List Provider) (a : Indexed)
    → priority order 0 a.1.provider ≡ none
    → IsUnnamed order a.1.provider × (rank order a ≡ length order + a.0)
unfolding rank
rank-IsUnnamed order (n, c) e = (priority-none order 0 c.provider e, rw (rank, e) refl)

Before-Precedes : (order : List Provider) (a b : Indexed) → Before order a b → Precedes order a b
Before-Precedes order a b h = elim (Option-cases (priority order 0 a.1.provider)) [
  | inl ea ↦
      let (ua, ra) = rank-IsUnnamed order a ea in
      elim (Option-cases (priority order 0 b.1.provider)) [
        | inl eb ↦
            let (ub, rb) = rank-IsUnnamed order b eb in unnamed ua ub (ground (arith, ra, rb))
        | inr (j, eb) ↦
            let (lb, small) = rank-IsLastPlace order b j eb in absurd (ground (arith, ra, small))
      ]
  | inr (i, ea) ↦
      let (la, small) = rank-IsLastPlace order a i ea in
      elim (Option-cases (priority order 0 b.1.provider)) [
        | inl eb ↦ named (rank order a) la (rank-IsUnnamed order b eb).0
        | inr (j, eb) ↦
            let (lb, _) = rank-IsLastPlace order b j eb in
            elim (Bool-cases (ltb (rank order a) (rank order b))) [
              | inl less ↦ earlier (rank order a) (rank order b) la lb (ground arith)
              | inr more ↦
                  let equal : rank order b ≡ rank order a = ground arith in
                  same_place (rank order a) la (subst (IsLastPlace order b.1.provider) equal lb)
                    (ground arith)
            ]
      ]
]

All-Precedes :
    (order : List Provider) (a : Indexed) (xs : List Indexed)
    → All (Before order a) xs
    → All (Precedes order a) xs
All-Precedes order a [] h = tt
All-Precedes order a (x ∷ xs) h = (Before-Precedes order a x h.0, All-Precedes order a xs h.1)

IsSorted-InOrder :
    (order : List Provider) (xs : List Indexed) → IsSorted order xs → InOrder order xs
IsSorted-InOrder order [] s = tt
IsSorted-InOrder order (a ∷ xs) s = (All-Precedes order a xs s.0, IsSorted-InOrder order xs s.1)

-- The result has the tiers of the given chain, those of a named provider first, by the last place of
-- the provider in the priority; tiers of one place, and tiers of providers that are not named, keep
-- their order.
pub reorder_chain-IsReordered :
    (chain : List ProviderChoice) (order : List Provider)
    → IsReordered order chain (reorder_chain chain order)
unfolding reorder_chain
reorder_chain-IsReordered chain order = record {
  tiers = sort order (enumerate 0 chain);
  shown = refl;
  kept = sort-perm order (enumerate 0 chain);
  ordered = IsSorted-InOrder order _ (sort-IsSorted order (enumerate 0 chain));
}
