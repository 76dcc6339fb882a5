-- ===== src/Voice/Rolling/Laws.antt =====
-- The summary folds every line once and in order.
use hire_os_be.Prelude.{
  ◌++◌, ◌-◌, ◌<◌, [], All, ap, arith, Bool-cases, drop, false, inl, inr, is_empty, length,
  length-append, length-drop, List, ltb, none, Option, refl, some, String, subst, suc, sym, take,
  zero, ◌||◌, ℕ, ◌∙◌, ◌∷◌, ◌≡◌, ◌≤◌,
}
use mathlib.Core.List.{append-nil, append_assoc}
use hire_os_be.Voice.Rolling.{
  finish, finish_consolidation, folding, here, init, is_locked, next, Reach, Rolling,
  schedule_consolidation, segment, start, start_consolidation, Step, turn, unlocked, window_start,
}

-- A transcript that a task was scheduled for: it is a first part of the conversation, with more
-- lines than the window.
pub record IsSnapshot (all lines : List String) : Type 0 where
  pub rest : List String
  pub grown : lines ++ rest ≡ all
  pub long : 10 ≤ length lines

pub record IsFaithful (r : Rolling) : Type 0 where
  pub folded : r.folded ≡ take r.summarized r.lines
  pub within : r.summarized ≤ length r.lines - 10
  pub queued : All (IsSnapshot r.lines) r.waiting
  pub flying :
      (lines : List String)
      → r.flight ≡ folding lines
      → IsSnapshot r.lines lines × (r.summarized < length lines - 10)

take-append-le : (n : ℕ) (xs ys : List String) → n ≤ length xs → take n (xs ++ ys) ≡ take n xs
take-append-le zero xs ys h = refl
take-append-le (suc n) [] ys h = absurd (omega arith)
take-append-le (suc n) (x ∷ xs) ys h = ap (λ l. x ∷ l) (take-append-le n xs ys (omega arith))

pub take-append-drop-take :
    (n m : ℕ) (xs : List String) → n ≤ m → take n xs ++ drop n (take m xs) ≡ take m xs
take-append-drop-take zero m xs h = refl
take-append-drop-take (suc n) zero xs h = absurd (omega arith)
take-append-drop-take (suc n) (suc m) [] h = refl
take-append-drop-take (suc n) (suc m) (x ∷ xs) h =
    ap (λ l. x ∷ l) (take-append-drop-take n m xs (omega arith))

pub length-take-le : (n : ℕ) (xs : List String) → n ≤ length xs → length (take n xs) ≡ n
length-take-le zero xs h = refl
length-take-le (suc n) [] h = absurd (omega arith)
length-take-le (suc n) (x ∷ xs) h = ap suc (length-take-le n xs (omega arith))

is_empty-length : (xs : List String) → is_empty xs ≡ false → 0 < length xs
is_empty-length [] h = absurd (ground arith)
is_empty-length (x ∷ xs) h = omega arith

IsSnapshot-grow :
    (all more lines : List String) → IsSnapshot all lines → IsSnapshot (all ++ more) lines
IsSnapshot-grow all more lines s = record {
  rest = s.rest ++ more;
  grown = sym (append_assoc lines s.rest more) ∙ ap (λ l. l ++ more) s.grown;
  long = s.long;
}

All-grow :
    (all more : List String) (l : List (List String))
    → All (IsSnapshot all) l
    → All (IsSnapshot (all ++ more)) l
All-grow all more [] a = tt
All-grow all more (x ∷ l) a = (IsSnapshot-grow all more x a.0, All-grow all more l a.1)

All-snoc :
    (all : List String) (l : List (List String)) (x : List String)
    → All (IsSnapshot all) l
    → IsSnapshot all x
    → All (IsSnapshot all) (l ++ x ∷ [])
All-snoc all [] x a s = (s, tt)
All-snoc all (y ∷ l) x a s = (a.0, All-snoc all l x a.1 s)

pub grow-IsFaithful :
    (more : List String) (r : Rolling)
    → IsFaithful r
    → IsFaithful (record r { lines = r.lines ++ more })
grow-IsFaithful more r f = record {
  folded = f.folded ∙ sym (take-append-le r.summarized r.lines more (omega (arith, f.within)));
  within = omega (arith, f.within, length-append r.lines more);
  queued = All-grow r.lines more r.waiting f.queued;
  flying = λ lines e. let (s, l) = f.flying lines e in (IsSnapshot-grow r.lines more lines s, l);
}

schedule-IsFaithful : (r : Rolling) → IsFaithful r → IsFaithful (schedule_consolidation r.lines r)
unfolding schedule_consolidation
schedule-IsFaithful r f =
    elim (Bool-cases (ltb (length r.lines - r.summarized - 10) 6 || is_locked r.flight)) [
      | inl skip ↦ rw skip f
      | inr go ↦ rw go (record {
        folded = f.folded;
        within = f.within;
        queued =
            All-snoc r.lines r.waiting r.lines f.queued
              (record { rest = []; grown = append-nil r.lines; long = ground arith });
        flying = f.flying;
      })
    ]

window_start-lem : (n : ℕ) → 10 ≤ n → window_start n ≡ n - 10
unfolding window_start
window_start-lem n h = ground arith

IsSnapshot-length : (all lines : List String) → IsSnapshot all lines → length lines ≤ length all
IsSnapshot-length all lines s =
    omega (arith, length-append lines s.rest, ap (λ l. length l) s.grown)

-- A segment that is not empty lies beyond what is summarized.
segment-bound :
    (n : ℕ) (lines : List String)
    → 10 ≤ length lines
    → is_empty (segment n lines) ≡ false
    → n < length lines - 10
unfolding segment
segment-bound n lines long h =
    let w = window_start-lem (length lines) long in
    let some_left = is_empty-length (drop n (take (window_start (length lines)) lines)) h in
    omega (
      arith,
      some_left,
      length-drop n (take (window_start (length lines)) lines),
      length-take-le (window_start (length lines)) lines (omega (arith, w)),
      w,
    )

unlocked_not_folding : (l : List String) → unlocked ≡ folding l → ⊥
unlocked_not_folding l h = cc

folding-inj : (l m : List String) → folding l ≡ folding m → l ≡ m
folding-inj l m h = cc

start-IsFaithful :
    (lines : List String) (rest : List (List String)) (r : Rolling)
    → r.waiting ≡ lines ∷ rest
    → IsFaithful r
    → IsFaithful (start_consolidation lines rest r)
unfolding start_consolidation
start-IsFaithful lines rest r e f =
    let q : All (IsSnapshot r.lines) (lines ∷ rest) = subst (All (IsSnapshot r.lines)) e f.queued in
    let s = q.0 in
    record {
      folded = f.folded;
      within = f.within;
      queued = q.1;
      flying = λ l h. elim (Bool-cases (is_empty (segment r.summarized lines))) [
        | inl k ↦ absurd (unlocked_not_folding l (rw k at h))
        | inr k ↦
            subst (λ m. IsSnapshot r.lines m × (r.summarized < length m - 10))
              (folding-inj lines l (rw k at h)) (s, segment-bound r.summarized lines s.long k)
      ];
    }

folded-segment :
    (all lines : List String) (n : ℕ)
    → IsSnapshot all lines
    → n < length lines - 10
    → take n all ++ segment n lines ≡ take (length lines - 10) all
unfolding segment
folded-segment all lines n s h =
    let w = window_start-lem (length lines) s.long in
    let prefix = take-append-le n lines s.rest (omega (arith, h)) in
    let whole = take-append-le (length lines - 10) lines s.rest (omega arith) in
    ap (λ l. take n l ++ segment n lines) (sym s.grown)
    ∙ ap (λ l. l ++ segment n lines) prefix
    ∙ ap (λ m. take n lines ++ drop n (take m lines)) w
    ∙ take-append-drop-take n (length lines - 10) lines (omega (arith, h))
    ∙ sym whole
    ∙ ap (λ l. take (length lines - 10) l) s.grown

finish-IsFaithful :
    (lines : List String) (result : Option String) (r : Rolling)
    → r.flight ≡ folding lines
    → IsFaithful r
    → IsFaithful (finish_consolidation lines result r)
unfolding finish_consolidation
finish-IsFaithful lines none r e f = record {
  folded = f.folded;
  within = f.within;
  queued = f.queued;
  flying = λ l h. absurd (unlocked_not_folding l h);
}
finish-IsFaithful lines (some updated) r e f =
    let (s, bound) = f.flying lines e in
    record {
      folded =
          ap (λ l. l ++ segment r.summarized lines) f.folded
          ∙ folded-segment r.lines lines r.summarized s bound;
      within = omega (arith, IsSnapshot-length r.lines lines s);
      queued = f.queued;
      flying = λ l h. absurd (unlocked_not_folding l h);
    }

Step-IsFaithful : {r s : Rolling} → Step r s → IsFaithful r → IsFaithful s
Step-IsFaithful (turn more) f = schedule-IsFaithful _ (grow-IsFaithful more _ f)
Step-IsFaithful (start lines rest free e) f = start-IsFaithful lines rest _ e f
Step-IsFaithful (finish lines result e) f = finish-IsFaithful lines result _ e f

init-IsFaithful : IsFaithful init
init-IsFaithful = record {
  folded = refl;
  within = omega arith;
  queued = tt;
  flying = λ l h. absurd (unlocked_not_folding l h);
}

-- However turns, waiting consolidations and summary calls interleave, and whichever calls fail, the
-- texts that were folded into the summary are the first `summarized` lines of the conversation,
-- each once and in order, and never a line of the current window.
pub Reach-IsFaithful : {r : Rolling} → Reach r → IsFaithful r
Reach-IsFaithful here = init-IsFaithful
Reach-IsFaithful (next before step) = Step-IsFaithful step (Reach-IsFaithful before)
