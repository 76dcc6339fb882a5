-- ===== src/Voice/Rolling.antt =====
-- `GatewayLLM` of ai-service/app/voice_agent/gateway_llm.py: the rolling summary and its background
-- consolidation, as a step relation. A step runs from one `await` to the next.
pub mod Laws
pub mod Window
pub mod Turn
pub mod Consolidation
use hire_os_be.Prelude.{
  ◌+◌, ◌++◌, ◌-◌, [], Bool, drop, false, if◌then◌else◌, is_empty, last_n, leb, length, List, ltb,
  none, Option, some, String, take, true, ◌||◌, ℕ, ◌∷◌, ◌≡◌,
}
use hire_os_be.Prelude.{◌+s◌, join, or_else, truthy}
use hire_os_be.Voice.Transcript.{
  extract_pending_instructions, extract_transcript_lines, Message, with_instructions,
}

abbrev pub window_lines : ℕ
window_lines = 10

abbrev pub consolidation_buffer_lines : ℕ
consolidation_buffer_lines = 6

-- `len(lines) - WINDOW_LINES` as the end of a slice: a negative end counts from the list's end.
unfoldable pub window_start : ℕ → ℕ
window_start n = if leb window_lines n then n - window_lines else (n + n) - window_lines

-- `lines[start : len(lines) - WINDOW_LINES]`
unfoldable pub segment : ℕ → List String → List String
unfolding window_start
segment start lines = drop start (take (window_start (length lines)) lines)

-- `build_user_prompt`
unfoldable pub build_user_prompt : String → List String → String
build_user_prompt summary lines =
    let recent = join "\n" (last_n window_lines lines) in
    if truthy summary
    then "Summary of earlier conversation:\n" +s summary +s "\n\nMost recent exchange:\n" +s recent
    else recent

-- The prompt of the summary call.
unfoldable pub consolidation_prompt : String → List String → String
consolidation_prompt summary new =
    "Existing summary:\n"
    +s or_else (some summary) "(none yet)"
    +s "\n\nNew transcript chunk to fold in:\n"
    +s join "\n" new

-- The prompt of one turn of the interview.
unfoldable pub turn_prompt : Option String → String → List Message → String
unfolding build_user_prompt
turn_prompt system_prompt summary messages =
    with_instructions (extract_pending_instructions messages system_prompt)
      (build_user_prompt summary (extract_transcript_lines "Candidate" "Interviewer" messages))

-- A consolidation that holds the lock, with the transcript that it was scheduled for.
pub data Flight : Type 0 where
  unlocked : Flight
  folding : List String → Flight

-- `waiting` are the tasks that have not got the lock. `lines` is the conversation so far, and
-- `folded` the segments whose summary call succeeded, in order: both are kept for the statements.
pub record Rolling : Type 0 where
  pub summary : String
  pub summarized : ℕ
  pub flight : Flight
  pub waiting : List (List String)
  pub lines : List String
  pub folded : List String

-- `__init__`
abbrev pub init : Rolling
init = record {
  summary = "";
  summarized = 0;
  flight = unlocked;
  waiting = [];
  lines = [];
  folded = [];
}

abbrev pub is_locked : Flight → Bool
is_locked unlocked = false
is_locked (folding l) = true

-- `pending < CONSOLIDATION_BUFFER_LINES`: a difference below zero is below the bound, too.
unfoldable pub schedule_consolidation : List String → Rolling → Rolling
schedule_consolidation lines r =
    if ltb (length lines - r.summarized - window_lines) consolidation_buffer_lines
      || is_locked r.flight
    then r
    else record r { waiting = r.waiting ++ lines ∷ [] }

-- The task for `lines` takes the lock, and keeps it while its call runs unless nothing is new.
unfoldable pub start_consolidation : List String → List (List String) → Rolling → Rolling
unfolding segment
start_consolidation lines rest r = record r {
  waiting = rest;
  flight = if is_empty (segment r.summarized lines) then unlocked else folding lines;
}

-- The summary call returns, or raises and is logged; the lock is released.
unfoldable pub finish_consolidation : List String → Option String → Rolling → Rolling
unfolding segment
finish_consolidation lines none r = record r { flight = unlocked }
finish_consolidation lines (some updated) r = record r {
  summary = updated;
  summarized = length lines - window_lines;
  flight = unlocked;
  folded = r.folded ++ segment r.summarized lines;
}

pub data Step (r : Rolling) : Rolling → Type 0 where
  -- A turn ends: the conversation has grown, and a consolidation may be scheduled.
  turn :
      (more : List String)
      → Step r (schedule_consolidation (r.lines ++ more) (record r { lines = r.lines ++ more }))
  start :
      (lines : List String) (rest : List (List String))
      → r.flight ≡ unlocked
      → r.waiting ≡ lines ∷ rest
      → Step r (start_consolidation lines rest r)
  finish :
      (lines : List String) (result : Option String)
      → r.flight ≡ folding lines
      → Step r (finish_consolidation lines result r)

pub data Reach : Rolling → Type 0 where
  here : Reach init
  next : {r s : Rolling} → Reach r → Step r s → Reach s
