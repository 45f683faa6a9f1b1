-- ===== src/Patch.antt =====
-- `model_dump(exclude_unset=True)` and the loop that sets the fields: a field of a PATCH request is
-- `none` where it is not set. Where null may be sent, its value is itself an `Option`.
use aurapro.Prelude.{Bool, true, false, Option, none, some}

module _ {A : Type 0} where
  -- A column that takes null, or a field that cannot be null.
  abbrev pub set_field : Option A → A → A
  set_field none old = old
  set_field (some new) old = new

  -- A column that takes no null: `sets_null` makes its commit fail.
  abbrev pub set_value : Option (Option A) → A → A
  set_value none old = old
  set_value (some none) old = old
  set_value (some (some new)) old = new

  abbrev pub sets_null : Option (Option A) → Bool
  sets_null none = false
  sets_null (some none) = true
  sets_null (some (some new)) = false
