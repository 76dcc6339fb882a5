-- ===== src/Voice/Discovery.antt =====
-- `DiscoveryLLM` of ai-service/app/voice_agent/discovery_llm.py: the background extraction as a step
-- relation. A step runs from one `await` to the next, so nothing runs inside it.
pub mod Laws
pub mod Prompt
pub mod Turn
pub mod Extraction
pub mod Call
use hire_os_be.Prelude.{
  ◌&&◌, ◌==◌, [], Bool, false, if◌then◌else◌, is_empty, List, none, Option, some, String, suc, true,
  ◌||◌, ℕ, ◌∷◌, ◌≡◌,
}
use hire_os_be.Voice.Fields.{DiscoveryFields, empty, merge}

unfoldable pub same_lines : List String → List String → Bool
same_lines [] [] = true
same_lines [] (y ∷ ys) = false
same_lines (x ∷ xs) [] = false
same_lines (x ∷ xs) (y ∷ ys) = x == y && same_lines xs ys

abbrev pub same_option : List String → Option (List String) → Bool
same_option xs none = false
same_option xs (some ys) = same_lines xs ys

-- The extraction lock is held while the transcript is being extracted.
pub data Phase : Type 0 where
  unlocked : Phase
  extracting : List String → Phase

-- `tasks` counts the drain tasks that were created and wait for the lock or for their first turn.
pub record Discovery : Type 0 where
  pub fields : DiscoveryFields
  pub pending_lines : Option (List String)
  pub last_processed_lines : Option (List String)
  pub phase : Phase
  pub tasks : ℕ

-- `__init__`
abbrev pub init : Discovery
init = record {
  fields = empty;
  pending_lines = none;
  last_processed_lines = none;
  phase = unlocked;
  tasks = 0;
}

abbrev pub new_tasks : Phase → ℕ → ℕ
new_tasks unlocked n = suc n
new_tasks (extracting l) n = n

unfoldable pub schedule_extraction : List String → Discovery → Discovery
unfolding same_lines
schedule_extraction lines d =
    if is_empty lines || same_option lines d.last_processed_lines
    then d
    else record d { pending_lines = some lines; tasks = new_tasks d.phase d.tasks }

-- The test of the drain loop, and the start of its body or the release of the lock.
unfoldable pub loop : Discovery → Discovery
unfolding same_lines
loop d = elim d.pending_lines [
  | none ↦ record d { phase = unlocked }
  | some l ↦
      if same_option l d.last_processed_lines
      then record d { phase = unlocked }
      else record d { phase = extracting l }
]

-- A waiting task takes the lock, which is free.
unfoldable pub acquire : ℕ → Discovery → Discovery
unfolding loop
acquire left d = loop (record d { tasks = left })

-- The extraction ends, with the extracted fields or with an exception that is logged.
unfoldable pub extracted : List String → Option DiscoveryFields → Discovery → Discovery
unfolding loop
extracted lines result d = loop (record d {
  fields = elim result [ none ↦ d.fields | some new ↦ merge d.fields new ];
  last_processed_lines = some lines;
})

pub data Step (d : Discovery) : Discovery → Type 0 where
  schedule : (lines : List String) → Step d (schedule_extraction lines d)
  start : (left : ℕ) → d.phase ≡ unlocked → d.tasks ≡ suc left → Step d (acquire left d)
  finish :
      (lines : List String) (result : Option DiscoveryFields)
      → d.phase ≡ extracting lines
      → Step d (extracted lines result d)

pub data Reach : Discovery → Type 0 where
  here : Reach init
  next : {d e : Discovery} → Reach d → Step d e → Reach e
