-- ===== src/Gateway/Policy/Order.antt =====
-- Reordering a chain: nothing is added or lost, and the keys decide.
use hire_os_be.Prelude.{
  ◌+◌, [], All, ap, arith, Bool-cases, false, inl, inr, List, map, refl, subst, true, ℕ, ◌∷◌, ◌≡◌,
}
use mathlib.Core.List.{Perm}
use mathlib.Core.List.Perm
use hire_os_be.Gateway.Provider.{Provider}
use hire_os_be.Gateway.Policy.{
  before, enumerate, Indexed, insert, ProviderChoice, reorder_chain, sort,
}

insert-perm :
    (order : List Provider) (a : Indexed) (xs : List Indexed) → Perm (insert order a xs) (a ∷ xs)
unfolding insert
insert-perm order a [] = Perm.refl _
insert-perm order a (b ∷ xs) = elim (Bool-cases (before order a b)) [
  | inl e ↦ rw e (Perm.refl _)
  | inr e ↦ rw e (Perm.trans (Perm.cons b (insert-perm order a xs)) (Perm.swap a b xs))
]

pub sort-perm : (order : List Provider) (xs : List Indexed) → Perm (sort order xs) xs
unfolding sort
sort-perm order [] = Perm.refl _
sort-perm order (a ∷ xs) =
    Perm.trans (insert-perm order a (sort order xs)) (Perm.cons a (sort-perm order xs))

map_snd-enumerate :
    (i : ℕ) (chain : List ProviderChoice) → map (λ (a : Indexed). a.1) (enumerate i chain) ≡ chain
unfolding enumerate
map_snd-enumerate i [] = refl
map_snd-enumerate i (c ∷ chain) = ap (λ l. c ∷ l) (map_snd-enumerate (i + 1) chain)

-- Reordering never adds, drops or changes a tier.
pub reorder_chain-perm :
    (chain : List ProviderChoice) (order : List Provider) → Perm (reorder_chain chain order) chain
unfolding reorder_chain
reorder_chain-perm chain order =
    subst (λ l. Perm (map (λ (a : Indexed). a.1) (sort order (enumerate 0 chain))) l)
      (map_snd-enumerate 0 chain)
      (Perm.map (λ (a : Indexed). a.1) (sort-perm order (enumerate 0 chain)))

abbrev pub Before : List Provider → Indexed → Indexed → Type 0
Before order a b = before order a b ≡ true

abbrev pub IsSorted : List Provider → List Indexed → Type 0
IsSorted order [] = Unit
IsSorted order (a ∷ xs) = All (Before order a) xs × IsSorted order xs

Before-trans :
    (order : List Provider) (a b c : Indexed)
    → Before order a b
    → Before order b c
    → Before order a c
Before-trans order a b c h k = ground arith

before_total : (order : List Provider) (a b : Indexed) → before order a b ≡ false → Before order b a
before_total order a b h = ground arith

All-trans :
    (order : List Provider) (a b : Indexed) (xs : List Indexed)
    → Before order a b
    → All (Before order b) xs
    → All (Before order a) xs
All-trans order a b [] h k = tt
All-trans order a b (x ∷ xs) h k = (Before-trans order a b x h k.0, All-trans order a b xs h k.1)

All-insert :
    (order : List Provider) (a b : Indexed) (xs : List Indexed)
    → Before order b a
    → All (Before order b) xs
    → All (Before order b) (insert order a xs)
unfolding insert
All-insert order a b [] h k = (h, tt)
All-insert order a b (x ∷ xs) h k = elim (Bool-cases (before order a x)) [
  | inl e ↦ rw e (h, (k.0, k.1))
  | inr e ↦ rw e (k.0, All-insert order a b xs h k.1)
]

insert-IsSorted :
    (order : List Provider) (a : Indexed) (xs : List Indexed)
    → IsSorted order xs
    → IsSorted order (insert order a xs)
unfolding insert
insert-IsSorted order a [] s = (tt, tt)
insert-IsSorted order a (x ∷ xs) s = elim (Bool-cases (before order a x)) [
  | inl e ↦ rw e ((e, All-trans order a x xs e s.0), (s.0, s.1))
  | inr e ↦
      rw e (All-insert order a x xs (before_total order a x e) s.0, insert-IsSorted order a xs s.1)
]

pub sort-IsSorted : (order : List Provider) (xs : List Indexed) → IsSorted order (sort order xs)
unfolding sort
sort-IsSorted order [] = tt
sort-IsSorted order (a ∷ xs) = insert-IsSorted order a (sort order xs) (sort-IsSorted order xs)
