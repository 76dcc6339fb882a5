-- ===== src/Registry/Tests.antt =====
-- A version that is registered again after its approval is no longer approved.
use hire_os_be.Prelude.{[], List, ◌∷◌, ◌≡◌}
use hire_os_be.Registry.{after, approval, is_approved, Operation, registered}
use hire_os_be.Registry.Laws.{approved_by, is_approved-after}

abbrev history : List Operation
history = registered "turn" "2" ∷ approval "turn" "2" ∷ registered "turn" "2" ∷ []

is_approved-after_example : is_approved "turn" "2" (after history) ≡ approved_by "turn" "2" history
is_approved-after_example = is_approved-after "turn" "2" history
