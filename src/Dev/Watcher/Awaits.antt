-- ===== src/Dev/Watcher/Awaits.antt =====
-- `ConnectionManager.broadcast` of ai-service/app/dev_tools/metrics_ws.py with what other coroutines do
-- to the set of sockets while a send is awaited: at most one of them connects or disconnects during one
-- send. The iterator of a set raises if the size of the set is not the size that it started with.
use hire_os_be.Prelude.{
  ◌+◌, ◌++◌, ◌<◌, [], ap, arith, Bool, Bool-cases, eqb, false, if◌then◌else◌, inl, inr, length,
  length-append, List, none, Option, refl, some, suc, sym, true, zero, ℕ, ◌∙◌, ◌∷◌, ◌≡◌,
}
use mathlib.Core.List.{append-nil, append_assoc}
use hire_os_be.Prelude.{eqb_iff, ok, raise, Result, runtime_error}
use hire_os_be.Dev.Watcher.{
  broadcast, contains, discard, discard_all, finished, Message, Outcome, send_all, settle, Watcher,
}

pub data Change : Type 0 where
  joins leaves : ℕ → Change

unfoldable pub changed : Option Change → List ℕ → List ℕ
unfolding discard
changed none l = l
changed (some (joins ws)) l = if contains ws l then l else l ++ ws ∷ []
changed (some (leaves ws)) l = discard ws l

-- The set, the sockets that failed, and what was sent.
pub record Sending : Type 0 where
  pub connections : List ℕ
  pub dead : List ℕ
  pub sent : List (ℕ × Message)

abbrev pub size_changed : Result (Unit {0})
size_changed = raise (runtime_error "Set changed size during iteration")

module _ (answers : ℕ → ℕ → Bool) (changes : ℕ → Option Change) where
  -- The k-th send of the n-th broadcast.
  unfoldable pub send : ℕ → Message → ℕ → ℕ → Sending → Sending
  unfolding changed
  send n m k ws s = record {
    connections = changed (changes k) s.connections;
    dead = if answers ws n then s.dead else s.dead ++ ws ∷ [];
    sent = if answers ws n then s.sent ++ (ws, m) ∷ [] else s.sent;
  }

  unfoldable pub send_loop : ℕ → Message → ℕ → ℕ → List ℕ → Sending → Result (Unit {0}) × Sending
  unfolding send
  send_loop n m started k [] s =
      if eqb (length s.connections) started then (ok tt, s) else (size_changed, s)
  send_loop n m started k (ws ∷ todo) s =
      let rest = send_loop n m started (suc k) todo (send n m k ws s) in
      if eqb (length s.connections) started then rest else (size_changed, s)

  -- The statements after the loop, unless it raised.
  abbrev pub discard_dead : Watcher → Result (Unit {0}) × Sending → Result (Unit {0}) × Watcher
  discard_dead w (raise e, s) = (
    raise e,
    record w {
      connections = s.connections;
      broadcasts = suc w.broadcasts;
      delivered = w.delivered ++ s.sent;
    },
  )
  discard_dead w (ok u, s) = (
    ok tt,
    record w {
      connections = discard_all s.dead s.connections;
      broadcasts = suc w.broadcasts;
      delivered = w.delivered ++ s.sent;
    },
  )

  unfoldable pub broadcast_awaiting : Message → Watcher → Result (Unit {0}) × Watcher
  unfolding send_loop discard_all
  broadcast_awaiting m w = discard_dead w (
      send_loop w.broadcasts m (length w.connections) 0 w.connections
        (record { connections = w.connections; dead = []; sent = [] }))

  same_size :
      (s : Sending) (started : ℕ)
      → length s.connections ≡ started
      → eqb (length s.connections) started ≡ true
  same_size s started e = ground (arith, eqb_iff (length s.connections) started)

  raises_changed :
      (n : ℕ) (m : Message) (started k : ℕ) (todo : List ℕ) (s : Sending)
      → eqb (length s.connections) started ≡ false
      → (send_loop n m started k todo s).0 ≡ size_changed
  unfolding send_loop
  raises_changed n m started k [] s h = rw h refl
  raises_changed n m started k (ws ∷ todo) s h = rw h refl

  send_loop-raises :
      (n : ℕ) (m : Message) (started k after place new : ℕ) (todo : List ℕ) (s : Sending)
      → length s.connections ≡ started
      → place ≡ k + after
      → after < length todo
      → ((j : ℕ) → j < place → changes j ≡ none)
      → changes place ≡ some (joins new)
      → contains new s.connections ≡ false
      → (send_loop n m started k todo s).0 ≡ size_changed
  unfolding send_loop send changed
  send_loop-raises n m started k after place new [] s e p h before now fresh = absurd (omega arith)
  send_loop-raises n m started k zero place new (ws ∷ todo) s e p h before now fresh =
      let here : place ≡ k = omega (arith, p) in
      let joined : changes k ≡ some (joins new) = ap changes (sym here) ∙ now in
      let longer : length (changed (changes k) s.connections) ≡ suc started =
        rw (joined, changed, fresh, length-append, e) (omega arith) in
      rw (same_size s started e) (
        raises_changed n m started (suc k) todo (send n m k ws s)
          (rw longer (ground (arith, eqb_iff (suc started) started))))
  send_loop-raises n m started k (suc after) place new (ws ∷ todo) s e p h before now fresh =
      let quiet : changed (changes k) s.connections ≡ s.connections =
        ap (λ c. changed c s.connections) (before k (omega (arith, p))) in
      rw (same_size s started e) (
        send_loop-raises n m started (suc k) after place new todo (send n m k ws s)
          (ap length quiet ∙ e) (omega (arith, p)) (omega (arith, h)) before now
          (ap (contains new) quiet ∙ fresh))

  raised :
      (w : Watcher) (r : Result (Unit {0}) × Sending)
      → r.0 ≡ size_changed
      → (discard_dead w r).0 ≡ size_changed
  raised w (raise e, s) h = h
  raised w (ok u, s) h = cc

  settled : (o : Outcome) → o.0 ≡ size_changed → (settle o).task ≡ finished
  settled (raise e, w) h = refl
  settled (ok u, w) h = cc

  -- If a socket that is not connected connects during a send of a broadcast, as the first change to the
  -- set during it, then the broadcast raises RuntimeError, and the exception ends the watcher's task.
  pub broadcast_awaiting-raises :
      (m : Message) (w : Watcher) (k new : ℕ)
      → k < length w.connections
      → ((j : ℕ) → j < k → changes j ≡ none)
      → changes k ≡ some (joins new)
      → contains new w.connections ≡ false
      → ((broadcast_awaiting m w).0 ≡ size_changed)
        × ((settle (broadcast_awaiting m w)).task ≡ finished)
  unfolding broadcast_awaiting
  broadcast_awaiting-raises m w k new h before now fresh =
      let sending =
        send_loop w.broadcasts m (length w.connections) 0 w.connections
          (record { connections = w.connections; dead = []; sent = [] }) in
      let bad = raised w sending (
        send_loop-raises w.broadcasts m (length w.connections) 0 k k new w.connections
          (record { connections = w.connections; dead = []; sent = [] }) refl (omega arith) h before
          now fresh) in
      (bad, settled (discard_dead w sending) bad)

  send_loop-ok :
      (n : ℕ) (m : Message) (started k : ℕ) (todo : List ℕ) (s : Sending)
      → length s.connections ≡ started
      → ((j : ℕ) → changes j ≡ none)
      → send_loop n m started k todo s ≡ (
        ok tt,
        record {
          connections = s.connections;
          dead = s.dead ++ (send_all answers n m todo).0;
          sent = s.sent ++ (send_all answers n m todo).1;
        },
      )
  unfolding send_loop send changed send_all
  send_loop-ok n m started k [] s e h =
      rw (same_size s started e) (rw (append-nil s.dead, append-nil s.sent) refl)
  send_loop-ok n m started k (ws ∷ todo) s e h =
      let quiet : changed (changes k) s.connections ≡ s.connections =
        ap (λ c. changed c s.connections) (h k) in
      let rest = send_loop-ok n m started (suc k) todo (send n m k ws s) (ap length quiet ∙ e) h in
      rw (same_size s started e) (
        rest ∙ elim (Bool-cases (answers ws n)) [
          | inl b ↦ rw (b, h k, append_assoc s.sent) refl
          | inr b ↦ rw (b, h k, append_assoc s.dead) refl
        ])

  -- If nobody connects or disconnects meanwhile, a broadcast is one step.
  pub broadcast_awaiting-broadcast :
      (m : Message) (w : Watcher)
      → ((j : ℕ) → changes j ≡ none)
      → broadcast_awaiting m w ≡ (ok tt, broadcast answers m w)
  unfolding broadcast_awaiting broadcast
  broadcast_awaiting-broadcast m w h = ap (discard_dead w) (
      send_loop-ok w.broadcasts m (length w.connections) 0 w.connections
        (record { connections = w.connections; dead = []; sent = [] }) refl h)
