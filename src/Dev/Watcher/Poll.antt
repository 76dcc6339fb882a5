-- ===== src/Dev/Watcher/Poll.antt =====
-- The rounds of the watcher of ai-service/app/dev_tools/metrics_ws.py over the files of
-- ai-service/app/model_gateway/metrics_log.py.
use hire_os_be.Prelude.{
  ◌+◌, ◌++◌, ◌<◌, [], All, ap, arith, Bool, false, length, length-append, List, map, refl, suc, sym,
  true, ℕ, ◌∙◌, ◌∷◌, ◌≡◌, ◌≤◌,
}
use hire_os_be.Prelude.{ok}
use mathlib.Core.List.{append-nil, append_assoc}
use hire_os_be.Prelude.Dict
use hire_os_be.Prelude.Dict.{Dict}
use hire_os_be.Prelude.Json.{dict, entries-fields, Json}
use hire_os_be.Dev.MetricsLog.{slim_llm_record, stamped}
use hire_os_be.Dev.MetricsLog.Laws.{record_of}
use hire_os_be.Dev.Watcher.{
  agent_message, announce_agent, announce_llm, broadcast, llm_message, Message, slim_value, using,
  Watcher,
}
use hire_os_be.Dev.Watcher.Laws.{broadcast-keep_if, keep_if}

-- What the sockets get of a list of messages, in order.
unfoldable pub spread : List Message → List ℕ → List (ℕ × Message)
spread [] conns = []
spread (m ∷ ms) conns = map (λ ws. (ws, m)) conns ++ spread ms conns

pub spread-append :
    (ms ns : List Message) (conns : List ℕ)
    → spread (ms ++ ns) conns ≡ spread ms conns ++ spread ns conns
unfolding spread
spread-append [] ns conns = refl
spread-append (m ∷ ms) ns conns =
    ap (λ l. map (λ ws. (ws, m)) conns ++ l) (spread-append ms ns conns)
    ∙ sym (append_assoc (map (λ ws. (ws, m)) conns) _ _)

abbrev pub Append : Type 0
Append = ℕ × Dict Json

-- The message for a record that the gateway appended.
abbrev pub llm_of : Append → Message
llm_of (now, r) = llm_message (dict (slim_llm_record (stamped now r)))

abbrev pub agent_of : Append → Message
agent_of (now, r) = agent_message (dict (stamped now r))

-- The time of the last append.
unfoldable pub newest : ℕ → List Append → ℕ
newest t [] = t
newest t ((now, r) ∷ more) = newest now more

-- Appends at increasing times after t, of records that name no time themselves.
abbrev pub IsIncreasing : ℕ → List Append → Type 0
IsIncreasing t [] = Unit
IsIncreasing t ((now, r) ∷ more) = (t < now) × (Dict.has "ts" r ≡ false) × IsIncreasing now more

pub newest-le : (t : ℕ) (rs : List Append) → IsIncreasing t rs → t ≤ newest t rs
unfolding newest
newest-le t [] h = omega arith
newest-le t ((now, r) ∷ more) h = omega (arith, newest-le now more h.2)

pub IsIncreasing-IsNew :
    (t u : ℕ) (rs : List Append)
    → u ≤ t
    → IsIncreasing t rs
    → All (λ a. (u < a.0) × (Dict.has "ts" a.1 ≡ false)) rs
IsIncreasing-IsNew t u [] h k = tt
IsIncreasing-IsNew t u ((now, r) ∷ more) h k =
    ((omega arith, k.1), IsIncreasing-IsNew now u more (omega arith) k.2)

pub IsIncreasing-newest :
    (t u : ℕ) (rs : List Append)
    → IsIncreasing t rs
    → newest t rs ≤ u
    → All (λ a. (a.0 ≤ u) × (Dict.has "ts" a.1 ≡ false)) rs
unfolding newest
IsIncreasing-newest t u [] h k = tt
IsIncreasing-newest t u ((now, r) ∷ more) h k =
    ((omega (arith, newest-le now more h.2), h.1), IsIncreasing-newest now u more h.2 k)

keep_if_all : (f : ℕ → Bool) (l : List ℕ) → ((x : ℕ) → f x ≡ true) → keep_if f l ≡ l
unfolding keep_if
keep_if_all f [] h = refl
keep_if_all f (x ∷ l) h = rw (h x, keep_if_all f l h) refl

-- The sockets after messages that all of them take.
abbrev pub heard : List Message → Watcher → Watcher
heard ms w = record w {
  broadcasts = w.broadcasts + length ms;
  delivered = w.delivered ++ spread ms w.connections;
}

heard_same :
    (w : Watcher) (a b : ℕ) (x y : List (ℕ × Message))
    → a ≡ b
    → x ≡ y
    → record w { broadcasts = a; delivered = x } ≡ record w { broadcasts = b; delivered = y }
heard_same w a b x y e f = rw (e, f) refl

suc_add : (n : ℕ) → suc n ≡ n + 1
suc_add n = omega arith

add_none : (n : ℕ) → n ≡ n + 0
add_none n = omega arith

add_length : (n a b c : ℕ) → c ≡ a + b → n + a + b ≡ n + c
add_length n a b c e = omega arith

pub heard-heard : (ms ns : List Message) (w : Watcher) → heard ns (heard ms w) ≡ heard (ms ++ ns) w
heard-heard ms ns w =
    heard_same w _ _ _ _ (add_length w.broadcasts (length ms) (length ns) _ (length-append ms ns)) (
      append_assoc w.delivered _ _
      ∙ ap (λ l. w.delivered ++ l) (sym (spread-append ms ns w.connections)))

pub slim_value-dict : (d : Dict Json) → slim_value (dict d) ≡ ok (dict (slim_llm_record d))
unfolding slim_value
slim_value-dict d = ap (λ e. ok (dict (slim_llm_record e))) (entries-fields d)

module _ (answers : ℕ → ℕ → Bool) (taken : (ws n : ℕ) → answers ws n ≡ true) where
  broadcast-heard : (m : Message) (w : Watcher) → broadcast answers m w ≡ heard (m ∷ []) w
  unfolding spread
  broadcast-heard m w =
      broadcast-keep_if answers m w
      ∙ rw (keep_if_all (λ ws. answers ws w.broadcasts) w.connections (λ ws. taken ws w.broadcasts))
          (heard_same w _ _ _ _ (suc_add w.broadcasts)
            (ap (λ l. w.delivered ++ l) (sym (append-nil (map (λ ws. (ws, m)) w.connections)))))

  pub announce_llm-heard :
      (rs : List Append) (w : Watcher)
      → announce_llm answers (map record_of rs) w ≡ (ok tt, heard (map llm_of rs) w)
  unfolding announce_llm spread
  announce_llm-heard [] w =
      ap (λ v. (ok tt, v))
        (heard_same w _ _ _ _ (add_none w.broadcasts) (sym (append-nil w.delivered)))
  announce_llm-heard ((now, r) ∷ more) w =
      ap
        (λ g. using g w λ slim.
          announce_llm answers (map record_of more) (broadcast answers (llm_message slim) w))
        (slim_value-dict (stamped now r))
      ∙ ap (announce_llm answers (map record_of more)) (broadcast-heard (llm_of (now, r)) w)
      ∙ announce_llm-heard more (heard (llm_of (now, r) ∷ []) w)
      ∙ ap (λ v. (ok tt, v)) (heard-heard (llm_of (now, r) ∷ []) (map llm_of more) w)

  pub announce_agent-heard :
      (rs : List Append) (w : Watcher)
      → announce_agent answers (map record_of rs) w ≡ (ok tt, heard (map agent_of rs) w)
  unfolding announce_agent spread
  announce_agent-heard [] w =
      ap (λ v. (ok tt, v))
        (heard_same w _ _ _ _ (add_none w.broadcasts) (sym (append-nil w.delivered)))
  announce_agent-heard ((now, r) ∷ more) w =
      ap (announce_agent answers (map record_of more)) (broadcast-heard (agent_of (now, r)) w)
      ∙ announce_agent-heard more (heard (agent_of (now, r) ∷ []) w)
      ∙ ap (λ v. (ok tt, v)) (heard-heard (agent_of (now, r) ∷ []) (map agent_of more) w)
