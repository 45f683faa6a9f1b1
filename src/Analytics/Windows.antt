-- ===== src/Analytics/Windows.antt =====
-- The metrics count each event once, however often it is delivered.
use aurapro.Prelude.{List, [], ◌∷◌, ◌++◌, if◌then◌else◌, String}
use aurapro.Prelude.Joining.{IsColonFree}
use aurapro.Analytics.{SalesEvent, Decoded, Redis, process}
use aurapro.Analytics.Effects.{is_seen}

-- The valid messages before the first one at which the run ends.
unfoldable pub valid_before : {R : Type 0} → (R → Decoded) → List R → List SalesEvent
valid_before decode [] = []
valid_before decode (r ∷ rest) =
    let others = valid_before decode rest in
    elim (decode r) [
      | Decoded.valid e ↦ e ∷ others
      | Decoded.invalid ↦ others
      | Decoded.failing ↦ []
    ]

-- Those of all runs, in order.
unfoldable pub valid_in : {R : Type 0} → (R → Decoded) → List (List R) → List SalesEvent
valid_in decode [] = []
valid_in decode (messages ∷ later) = valid_before decode messages ++ valid_in decode later

-- The events without those whose identifier came before.
pub distinct : List String → List SalesEvent → List SalesEvent
distinct seen [] = []
distinct seen (e ∷ rest) =
    let others = distinct seen rest in
    let later = distinct (e.event_id ∷ seen) rest in
    if is_seen e.event_id seen then others else e ∷ later

-- An event whose tenant is a text without a colon, as a UUID's is.
abbrev pub IsPlain : SalesEvent → Type 0
IsPlain e = IsColonFree e.tenant_id

module _ {S : Type 0} (redis : Redis S) where
  -- The events one after another.
  abbrev process_all : List SalesEvent → S → S
  process_all [] s = s
  process_all (e ∷ rest) s = process_all rest (process redis e s)
