-- ===== src/Voice/Worker/Vad.antt =====
-- `_prewarm` of ai-service/app/voice_agent/worker.py and the bounded wait of `entrypoint` for it. Times
-- are whole milliseconds; the loading thread sets `vad_ready` in its `finally`, whatever happened.
use hire_os_be.Prelude.{
  ◌&&◌, ◌+◌, arith, Bool, false, if◌then◌else◌, leb, none, Option, some, true, ℕ, ◌≡◌, ◌≤◌,
}

-- How the loading ends: the plugin is not installed, loading raises, or the model is there.
pub data Load : Type 0 where
  not_installed load_failed loaded : Load

-- The thread that `_prewarm` starts: its outcome, and when it sets `vad_ready`.
pub record Prewarm : Type 0 where
  pub load : Load
  pub ready_at : ℕ

abbrev pub is_loaded : Load → Bool
is_loaded loaded = true
is_loaded _ = false

-- `proc.userdata.get("vad") is not None`
unfoldable pub has_vad_at : Prewarm → ℕ → Bool
has_vad_at p now = is_loaded p.load && leb p.ready_at now

abbrev pub grace_period : ℕ
grace_period = 10_000

-- `vad_ready.wait(10.0)`, if `vad_ready` is there and not set: the time at which it returns.
unfoldable pub wait_ready : Option Prewarm → ℕ → ℕ
wait_ready none now = now
wait_ready (some p) now =
    if leb p.ready_at now
    then now
    else if leb p.ready_at (now + grace_period)
    then p.ready_at
    else now + grace_period

-- Whether the session that a job starts has a VAD, and when it goes on.
unfoldable pub await_vad : Option Prewarm → ℕ → Bool × ℕ
unfolding wait_ready has_vad_at
await_vad none now = (false, now)
await_vad (some p) now = (has_vad_at p (wait_ready (some p) now), wait_ready (some p) now)

-- A job goes on at most ten seconds after it came, and has the VAD exactly if it was loaded by then.
pub await_vad-bounded :
    (p : Prewarm) (now : ℕ)
    → (now ≤ (await_vad (some p) now).1)
      × ((await_vad (some p) now).1 ≤ now + 10_000)
      × ((await_vad (some p) now).0 ≡ (is_loaded p.load && leb p.ready_at (now + 10_000)))
unfolding await_vad wait_ready has_vad_at
await_vad-bounded p now = ground arith
