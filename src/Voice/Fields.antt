-- ===== src/Voice/Fields.antt =====
-- ai-service/app/voice_agent/discovery_fields.py. The attributes of `DiscoveryFields` are the
-- members of `Field`, and a value of the class is a function from them.
pub mod Laws
use hire_os_be.Prelude.{
  ◌+◌, ◌-◌, ◌/◌, [], ap, Bool, eqb, if◌then◌else◌, is_empty, List, map, none, not, Option, some,
  String, suc, ℕ, ◌∷◌,
}
use hire_os_be.Prelude.{◌+s◌, join, or_else}

pub data Field : Type 0 where
  hiring_reason business_problem success_definition responsibilities required_skills : Field
  preferred_skills team_structure collaboration decision_authority day_30_60_90 : Field
  success_metrics failure_modes interview_process evaluation_criteria : Field
  compensation_constraints hiring_timeline : Field

-- `FIELD_NAMES`
abbrev pub field_names : List Field
field_names =
    hiring_reason ∷ business_problem ∷ success_definition ∷ responsibilities ∷ required_skills
    ∷ preferred_skills ∷ team_structure ∷ collaboration ∷ decision_authority ∷ day_30_60_90
    ∷ success_metrics ∷ failure_modes ∷ interview_process ∷ evaluation_criteria
    ∷ compensation_constraints ∷ hiring_timeline ∷ []

-- `FIELD_LABELS`
abbrev pub label : Field → String
label hiring_reason = "Why hiring now"
label business_problem = "Business problem"
label success_definition = "Success definition"
label responsibilities = "Responsibilities"
label required_skills = "Required skills"
label preferred_skills = "Preferred skills"
label team_structure = "Team structure"
label collaboration = "Collaboration"
label decision_authority = "Decision authority"
label day_30_60_90 = "30/60/90-day expectations"
label success_metrics = "Success metrics"
label failure_modes = "Failure modes"
label interview_process = "Interview process"
label evaluation_criteria = "Evaluation criteria"
label compensation_constraints = "Compensation constraints"
label hiring_timeline = "Hiring timeline"

abbrev pub place : Field → ℕ
place hiring_reason = 0
place business_problem = 1
place success_definition = 2
place responsibilities = 3
place required_skills = 4
place preferred_skills = 5
place team_structure = 6
place collaboration = 7
place decision_authority = 8
place day_30_60_90 = 9
place success_metrics = 10
place failure_modes = 11
place interview_process = 12
place evaluation_criteria = 13
place compensation_constraints = 14
place hiring_timeline = 15

abbrev pub same_field : Field → Field → Bool
same_field f g = eqb (place f) (place g)

abbrev pub DiscoveryFields : Type 0
DiscoveryFields = Field → Option String

-- `DiscoveryFields()`
abbrev pub empty : DiscoveryFields
empty f = none

abbrev pub set_field : Field → Option String → DiscoveryFields → DiscoveryFields
set_field f v state g = if same_field f g then v else state g

unfoldable pub missing_labels_of : List Field → DiscoveryFields → List String
missing_labels_of [] state = []
missing_labels_of (f ∷ names) state =
    let rest = missing_labels_of names state in
    elim (state f) [ none ↦ label f ∷ rest | some v ↦ rest ]

unfoldable pub missing_field_labels : DiscoveryFields → List String
unfolding missing_labels_of
missing_field_labels = missing_labels_of field_names

-- The loop of `merge`.
unfoldable pub merge_from : List Field → DiscoveryFields → DiscoveryFields → DiscoveryFields
merge_from [] merged new = merged
merge_from (f ∷ names) merged new =
    merge_from names (elim (new f) [ none ↦ merged | some v ↦ set_field f (some v) merged ]) new

unfoldable pub merge : DiscoveryFields → DiscoveryFields → DiscoveryFields
unfolding merge_from
merge old new = merge_from field_names old new

unfoldable pub filled_lines : List Field → DiscoveryFields → List String
filled_lines [] state = []
filled_lines (f ∷ names) state =
    let rest = filled_lines names state in
    elim (state f) [ none ↦ rest | some v ↦ ("- " +s label f +s ": " +s v) ∷ rest ]

unfoldable pub format_state_for_prompt : DiscoveryFields → String
unfolding filled_lines missing_field_labels
format_state_for_prompt state =
    let filled = filled_lines field_names state in
    let missing = missing_field_labels state in
    join "\n\n" (
      (if is_empty filled
        then "Nothing captured yet — this is the start of the conversation."
        else "Captured so far:\n" +s join "\n" filled)
      ∷ (if is_empty missing
          then "Every field has at least a preliminary answer — consider closing the call."
          else "Still missing: " +s join ", " missing)
      ∷ [])

unfoldable pub format_summary_for_readback : DiscoveryFields → String
format_summary_for_readback state =
    join "\n"
      (map (λ f. label f +s ": " +s or_else (state f) "(not yet provided — TBD)") field_names)
