-- ===== src/Dev/Watcher/Laws.antt =====
-- The broadcasts of ai-service/app/dev_tools/metrics_ws.py.
use hire_os_be.Prelude.{
  ◌&&◌, ◌++◌, [], All, ap, arith, Bool, Bool-cases, if◌then◌else◌, inl, inr, List, map, not, refl,
  suc, true, ℕ, ◌∙◌, ◌∷◌, ◌≡◌,
}
use hire_os_be.Prelude.{eqb_iff}
use hire_os_be.Dev.Watcher.{broadcast, contains, discard, discard_all, Message, send_all, Watcher}

-- The elements that pass a test.
unfoldable pub keep_if : (ℕ → Bool) → List ℕ → List ℕ
keep_if test [] = []
keep_if test (x ∷ l) = let rest = keep_if test l in if test x then x ∷ rest else rest

absent-discard :
    (ws : ℕ) (dead l : List ℕ)
    → keep_if (λ x. not (contains x dead)) (discard ws l)
      ≡ keep_if (λ x. not (contains x (ws ∷ dead))) l
unfolding keep_if discard
absent-discard ws dead [] = refl
absent-discard ws dead (x ∷ l) =
    ground (arith, absent-discard ws dead l, eqb_iff ws x, eqb_iff x ws)

discard_all-keep_if :
    (dead l : List ℕ) → discard_all dead l ≡ keep_if (λ x. not (contains x dead)) l
unfolding discard_all keep_if
discard_all-keep_if [] [] = refl
discard_all-keep_if [] (x ∷ l) = ap (λ r. x ∷ r) (discard_all-keep_if [] l)
discard_all-keep_if (ws ∷ dead) l =
    discard_all-keep_if dead (discard ws l) ∙ absent-discard ws dead l

pub keep_if-cong :
    (f g : ℕ → Bool) (l : List ℕ) → All (λ x. f x ≡ g x) l → keep_if f l ≡ keep_if g l
unfolding keep_if
keep_if-cong f g [] h = refl
keep_if-cong f g (x ∷ l) h = rw (h.0, keep_if-cong f g l h.1) refl

pub All-imp {ℓ κ} :
    {A : Type ℓ} (P Q : A → Type κ) → ((x : A) → P x → Q x) → (l : List A) → All P l → All Q l
All-imp P Q f [] h = tt
All-imp P Q f (x ∷ l) h = (f x h.0, All-imp P Q f l h.1)

contains_self : (l : List ℕ) → All (λ x. contains x l ≡ true) l
contains_self [] = tt
contains_self (x ∷ l) = (
  ground (arith, eqb_iff x x),
  All-imp (λ y. contains y l ≡ true) (λ y. contains y (x ∷ l) ≡ true) (λ y h. ground arith) l
      (contains_self l),
)

module _ (answers : ℕ → ℕ → Bool) (n : ℕ) (m : Message) where
  contains-dead :
      (x : ℕ) (l : List ℕ)
      → contains x (send_all answers n m l).0 ≡ (contains x l && not (answers x n))
  unfolding send_all
  contains-dead x [] = refl
  contains-dead x (ws ∷ l) = ground (arith, contains-dead x l, eqb_iff ws x)

  sent-send_all :
      (l : List ℕ)
      → (send_all answers n m l).1 ≡ map (λ ws. (ws, m)) (keep_if (λ ws. answers ws n) l)
  unfolding send_all keep_if
  sent-send_all [] = refl
  sent-send_all (ws ∷ l) = elim (Bool-cases (answers ws n)) [
    | inl e ↦ rw e (ap (λ r. (ws, m) ∷ r) (sent-send_all l))
    | inr e ↦ rw e (sent-send_all l)
  ]

  answering-keep_if :
      (x : ℕ) (l : List ℕ)
      → contains x l ≡ true
      → not (contains x (send_all answers n m l).0) ≡ answers x n
  answering-keep_if x l h = rw (contains-dead x l, h) (ground arith)

-- A broadcast is sent to the sockets that take it, in their order, and afterwards the sockets that
-- failed, and no others, are gone.
pub broadcast-keep_if :
    (answers : ℕ → ℕ → Bool) (m : Message) (w : Watcher)
    → broadcast answers m w ≡ record w {
      connections = keep_if (λ ws. answers ws w.broadcasts) w.connections;
      broadcasts = suc w.broadcasts;
      delivered =
          w.delivered
          ++ map (λ ws. (ws, m)) (keep_if (λ ws. answers ws w.broadcasts) w.connections);
    }
unfolding broadcast
broadcast-keep_if answers m w =
    rw
      (
        discard_all-keep_if (send_all answers w.broadcasts m w.connections).0 w.connections
            ∙ keep_if-cong _ (λ ws. answers ws w.broadcasts) w.connections
                (All-imp _ _ (λ x. answering-keep_if answers w.broadcasts m x w.connections)
                  w.connections (contains_self w.connections)),
        sent-send_all answers w.broadcasts m w.connections,
      )
      refl
