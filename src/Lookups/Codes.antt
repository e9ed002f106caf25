-- ===== src/Lookups/Codes.antt =====
-- A member that is written to a row and read back.
use fx_deal_manager.Prelude.{ℕ, String, ◌≡◌, refl, ◌∙◌, ap, none, some, List, [], get, string_dec}
use fx_deal_manager.Domain.{
  DealState, draft, waiting_for_positioner, approved, rejected, executed, cancelled, DealType, tod,
  tom, spot, forward, ValidationStatus, not_validated, valid, invalid, PaymentDirection, incoming,
  outgoing,
}
use fx_deal_manager.Lookups.{
  state_value, type_value, validation_value, direction_value, member, states, types,
  validation_statuses, directions, LookupRow, deal_state_rows, deal_type_rows,
  payment_direction_rows, validation_status_rows, ids_by_code, Cached, lookup_id, row_of,
}

-- A member's code is looked up, its identifier is written to a foreign key, the row with that
-- identifier is loaded, and its code is read as a member.
abbrev pub IsKept : {A : Type 0} → List LookupRow → (A → String) → List A → Cached → A → Type 0
IsKept rows value members cached a =
    (id : ℕ) × (r : LookupRow) × ((lookup_id rows (value a) cached).0 ≡ some id)
    × (row_of id rows ≡ some r)
    × (member value members r.code ≡ some a)

-- The dictionary is empty yet, or was filled from the rows.
abbrev pub IsFilled : List LookupRow → Cached → Type 0
IsFilled rows none = Unit
IsFilled rows (some d) = d ≡ ids_by_code rows []

state-IsKept : (s : DealState) → IsKept deal_state_rows state_value states none s
unfolding lookup_id string_dec
state-IsKept draft = (_, _, refl, refl, refl)
state-IsKept waiting_for_positioner = (_, _, refl, refl, refl)
state-IsKept approved = (_, _, refl, refl, refl)
state-IsKept rejected = (_, _, refl, refl, refl)
state-IsKept executed = (_, _, refl, refl, refl)
state-IsKept cancelled = (_, _, refl, refl, refl)

type-IsKept : (m : DealType) → IsKept deal_type_rows type_value types none m
unfolding lookup_id string_dec
type-IsKept tod = (_, _, refl, refl, refl)
type-IsKept tom = (_, _, refl, refl, refl)
type-IsKept spot = (_, _, refl, refl, refl)
type-IsKept forward = (_, _, refl, refl, refl)

validation_status-IsKept :
    (m : ValidationStatus)
    → IsKept validation_status_rows validation_value validation_statuses none m
unfolding lookup_id string_dec
validation_status-IsKept not_validated = (_, _, refl, refl, refl)
validation_status-IsKept valid = (_, _, refl, refl, refl)
validation_status-IsKept invalid = (_, _, refl, refl, refl)

direction-IsKept :
    (m : PaymentDirection) → IsKept payment_direction_rows direction_value directions none m
unfolding lookup_id string_dec
direction-IsKept incoming = (_, _, refl, refl, refl)
direction-IsKept outgoing = (_, _, refl, refl, refl)

-- A dictionary that is filled already answers as an empty one does, and either stays or becomes filled.
lookup_id-filled :
    (rows : List LookupRow) (code : String) (cached : Cached)
    → IsFilled rows cached
    → lookup_id rows code cached ≡ lookup_id rows code none
unfolding lookup_id
lookup_id-filled rows code none h = refl
lookup_id-filled rows code (some d) h = ap (λ e. (get code e, some e)) h

IsKept-filled :
    {A : Type 0} (rows : List LookupRow) (value : A → String) (members : List A) (cached : Cached)
    (a : A)
    → IsFilled rows cached
    → IsKept rows value members none a
    → IsKept rows value members cached a
IsKept-filled rows value members cached a h (id, r, e, f, g) =
    (id, r, ap (λ answer. answer.0) (lookup_id-filled rows (value a) cached h) ∙ e, f, g)

-- Whether the dictionaries of the cache are still empty or were filled from the rows that the
-- migrations insert, every state, type, validation status and payment direction that is written to a
-- deal or a payment by its identifier is the one that is read back.
pub lookup_id-IsKept :
    (cached_states cached_types cached_statuses cached_directions : Cached)
    → IsFilled deal_state_rows cached_states
    → IsFilled deal_type_rows cached_types
    → IsFilled validation_status_rows cached_statuses
    → IsFilled payment_direction_rows cached_directions
    → ((m : DealState) → IsKept deal_state_rows state_value states cached_states m)
      × ((m : DealType) → IsKept deal_type_rows type_value types cached_types m)
      × ((m : ValidationStatus)
          → IsKept validation_status_rows validation_value validation_statuses cached_statuses m)
      × ((m : PaymentDirection)
          → IsKept payment_direction_rows direction_value directions cached_directions m)
lookup_id-IsKept cs ct cv cd hs ht hv hd = (
  λ m. IsKept-filled deal_state_rows state_value states cs m hs (state-IsKept m),
  λ m. IsKept-filled deal_type_rows type_value types ct m ht (type-IsKept m),
  λ m.
      IsKept-filled validation_status_rows validation_value validation_statuses cv m hv
        (validation_status-IsKept m),
  λ m. IsKept-filled payment_direction_rows direction_value directions cd m hd (direction-IsKept m),
)
