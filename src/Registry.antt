-- ===== src/Registry.antt =====
-- ai-service/app/registry/prompt_registry.py. The creation time of an entry, which nothing reads, is
-- left out.
pub mod Laws
mod Tests
use hire_os_be.Prelude.{
  ◌&&◌, ◌==◌, [], Bool, false, if◌then◌else◌, key_error, List, none, ok, Option, raise, Result,
  some, String, true, ◌∷◌,
}

-- `RegisteredVersion`, under its key in `_versions`.
pub record RegisteredVersion : Type 0 where
  pub name : String
  pub version : String
  pub approved : Bool

abbrev pub PromptRegistry : Type 0
PromptRegistry = List RegisteredVersion

abbrev pub is_for : String → String → RegisteredVersion → Bool
is_for name version e = e.name == name && e.version == version

-- `_versions.get((name, version))`
unfoldable pub find : String → String → PromptRegistry → Option RegisteredVersion
find name version [] = none
find name version (e ∷ more) = if is_for name version e then some e else find name version more

unfoldable pub store : RegisteredVersion → PromptRegistry → PromptRegistry
store e [] = e ∷ []
store e (f ∷ more) = if is_for e.name e.version f then e ∷ more else f ∷ store e more

unfoldable pub register : String → String → PromptRegistry → PromptRegistry
unfolding store
register name version r = store (record { name = name; version = version; approved = false }) r

unfoldable pub approve :
    String → String → PromptRegistry → PromptRegistry × Result RegisteredVersion
unfolding find store
approve name version r = elim (find name version r) [
  | none ↦ (r, raise (key_error name))
  | some e ↦
      let entry : RegisteredVersion = record e { approved = true } in (store entry r, ok entry)
]

unfoldable pub is_approved : String → String → PromptRegistry → Bool
unfolding find
is_approved name version r = elim (find name version r) [ none ↦ false | some e ↦ e.approved ]

-- A history of operations, newest first, and the registry after it. An approval that raises leaves
-- the registry as it is.
pub data Operation : Type 0 where
  registered approval : String → String → Operation

unfoldable pub after : List Operation → PromptRegistry
unfolding register approve
after [] = []
after (registered name version ∷ older) = register name version (after older)
after (approval name version ∷ older) = (approve name version (after older)).0
