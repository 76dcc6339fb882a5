-- ===== src/Prelude/Json.antt =====
-- The values that `json.loads` makes and `json.dumps` takes. A number is a count or a time, so it is
-- not negative, and a time is counted in the ticks of `time.time()`.
use Prim.Native.Nat.{ℕ}
use Prim.Native.String.{String}
use mathlib.Core.Path.{ap, refl, ◌≡◌}
use mathlib.Core.Bool.{Bool, false, not}
use mathlib.Core.Option.{Option}
use mathlib.Core.List.{[], List, ◌∷◌}
use hire_os_be.Prelude.Tests.{eqb}
use hire_os_be.Prelude.Lists.{is_empty}
use hire_os_be.Prelude.Text.{truthy}
use hire_os_be.Prelude.Dict.{Dict, get}
use hire_os_be.Prelude.Results.{ok, other, raise, Result}

mutual
  pub data Json : Type 0 where
    json_null : Json
    json_bool : Bool → Json
    json_num : ℕ → Json
    json_text : String → Json
    json_list : Items → Json
    json_dict : Fields → Json

  pub data Items : Type 0 where
    no_items : Items
    item : Json → Items → Items

  pub data Fields : Type 0 where
    no_fields : Fields
    field : String → Json → Fields → Fields

unfoldable pub elements : Items → List Json
elements no_items = []
elements (item j rest) = j ∷ elements rest

unfoldable pub items : List Json → Items
items [] = no_items
items (j ∷ rest) = item j (items rest)

unfoldable pub entries : Fields → Dict Json
entries no_fields = []
entries (field k j rest) = (k, j) ∷ entries rest

unfoldable pub fields : Dict Json → Fields
fields [] = no_fields
fields ((k, j) ∷ rest) = field k j (fields rest)

pub elements-items : (l : List Json) → elements (items l) ≡ l
unfolding elements items
elements-items [] = refl
elements-items (j ∷ l) = ap (λ r. j ∷ r) (elements-items l)

pub entries-fields : (d : Dict Json) → entries (fields d) ≡ d
unfolding entries fields
entries-fields [] = refl
entries-fields ((k, j) ∷ d) = ap (λ r. (k, j) ∷ r) (entries-fields d)

-- A dictionary as a value.
abbrev pub dict : Dict Json → Json
dict d = json_dict (fields d)

-- `bool(value)`
unfoldable pub is_true : Json → Bool
unfolding elements entries
is_true json_null = false
is_true (json_bool b) = b
is_true (json_num n) = not (eqb n 0)
is_true (json_text s) = truthy s
is_true (json_list l) = not (is_empty (elements l))
is_true (json_dict d) = not (is_empty (entries d))

-- `value.get(key)`, which only a dictionary has.
unfoldable pub get_field : String → Json → Result (Option Json)
unfolding entries get
get_field k (json_dict d) = ok (get k (entries d))
get_field k j = raise (other "AttributeError")

pub get_field-dict : (k : String) (d : Dict Json) → get_field k (dict d) ≡ ok (get k d)
unfolding get_field
get_field-dict k d = ap (λ e. ok (get k e)) (entries-fields d)
