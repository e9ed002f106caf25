-- ===== src/Lookups.antt =====
-- `LookupCache` of src/fx_deal_manager/repositories/deal_repository.py, with the enumerations' codes of
-- domain/enums.py and the lookup rows that alembic/versions/001_initial_schema.py,
-- 002_add_executed_deal_state.py and 003_add_cancelled_deal_state.py insert.
pub mod Codes
use fx_deal_manager.Prelude.{
  ℕ, String, Bool, true, false, ◌||◌, Option, none, some, List, [], ◌∷◌, ◌++◌, ◌==◌, same, Dict,
  get, insert, if◌then◌else◌,
}
use fx_deal_manager.Domain.{
  DealState, draft, waiting_for_positioner, approved, rejected, executed, cancelled, DealType, tod,
  tom, spot, forward, ValidationStatus, not_validated, valid, invalid, PaymentDirection, incoming,
  outgoing,
}

-- `.value` of a member.
abbrev pub state_value : DealState → String
state_value draft = "DRAFT"
state_value waiting_for_positioner = "WAITING_FOR_POSITIONER"
state_value approved = "APPROVED"
state_value rejected = "REJECTED"
state_value executed = "EXECUTED"
state_value cancelled = "CANCELLED"

abbrev pub type_value : DealType → String
type_value tod = "TOD"
type_value tom = "TOM"
type_value spot = "SPOT"
type_value forward = "FORWARD"

abbrev pub validation_value : ValidationStatus → String
validation_value not_validated = "NOT_VALIDATED"
validation_value valid = "VALID"
validation_value invalid = "INVALID"

abbrev pub direction_value : PaymentDirection → String
direction_value incoming = "IN"
direction_value outgoing = "OUT"

-- `DealState(code)` and so on: the member with the value, or a `ValueError`.
abbrev pub member : {A : Type 0} → (A → String) → List A → String → Option A
member value [] code = none
member value (a ∷ members) code =
    let rest = member value members code in if same (value a) code then some a else rest

abbrev pub states : List DealState
states = draft ∷ waiting_for_positioner ∷ approved ∷ rejected ∷ executed ∷ cancelled ∷ []

abbrev pub types : List DealType
types = tod ∷ tom ∷ spot ∷ forward ∷ []

abbrev pub validation_statuses : List ValidationStatus
validation_statuses = not_validated ∷ valid ∷ invalid ∷ []

abbrev pub directions : List PaymentDirection
directions = incoming ∷ outgoing ∷ []

-- A row of a lookup table.
pub record LookupRow : Type 0 where
  pub id : ℕ
  pub code : String

abbrev row : ℕ → String → LookupRow
row id code = record { id = id; code = code }

-- The rows after the migrations.
abbrev initial_deal_states : List LookupRow
initial_deal_states =
    row 1 "DRAFT" ∷ row 2 "WAITING_FOR_POSITIONER" ∷ row 3 "APPROVED" ∷ row 4 "REJECTED" ∷ []

abbrev has_code : String → List LookupRow → Bool
has_code code [] = false
has_code code (r ∷ rows) = same r.code code || has_code code rows

-- `INSERT INTO deal_state ... WHERE NOT EXISTS ...`
abbrev add_executed : List LookupRow → List LookupRow
add_executed rows = if has_code "EXECUTED" rows then rows else rows ++ (row 5 "EXECUTED" ∷ [])

abbrev add_cancelled : List LookupRow → List LookupRow
add_cancelled rows = if has_code "CANCELLED" rows then rows else rows ++ (row 6 "CANCELLED" ∷ [])

abbrev pub deal_state_rows : List LookupRow
deal_state_rows = add_cancelled (add_executed initial_deal_states)

abbrev pub deal_type_rows : List LookupRow
deal_type_rows = row 1 "TOD" ∷ row 2 "TOM" ∷ row 3 "SPOT" ∷ row 4 "FORWARD" ∷ []

abbrev pub payment_direction_rows : List LookupRow
payment_direction_rows = row 1 "IN" ∷ row 2 "OUT" ∷ []

abbrev pub validation_status_rows : List LookupRow
validation_status_rows = row 1 "NOT_VALIDATED" ∷ row 2 "VALID" ∷ row 3 "INVALID" ∷ []

-- `{row.code: row.id for row in rows}`
abbrev pub ids_by_code : List LookupRow → Dict ℕ → Dict ℕ
ids_by_code [] d = d
ids_by_code (r ∷ rows) d = ids_by_code rows (insert r.code r.id d)

-- One of the four dictionaries of the class, filled on the first call.
abbrev pub Cached : Type 0
Cached = Option (Dict ℕ)

-- `deal_state_id` and its three kin: the identifier of the code, or a `KeyError`, and the dictionary
-- that later calls use.
unfoldable pub lookup_id : List LookupRow → String → Cached → Option ℕ × Cached
lookup_id rows code none = let d = ids_by_code rows [] in (get code d, some d)
lookup_id rows code (some d) = (get code d, some d)

-- `clear`
abbrev pub clear : Cached → Cached
clear cached = none

-- The row of a foreign key, which the relationship loads.
abbrev pub row_of : ℕ → List LookupRow → Option LookupRow
row_of id [] = none
row_of id (r ∷ rows) = let rest = row_of id rows in if r.id == id then some r else rest
