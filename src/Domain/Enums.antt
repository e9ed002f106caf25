-- ===== src/Domain/Enums.antt =====
-- src/fx_deal_manager/domain/enums.py. A lookup row of a deal (`deal_state`, `deal_type`,
-- `validation_status`, `payment_direction`) is the member with that code.
use fx_deal_manager.Prelude.{Bool, true, false}

pub data DealState : Type 0 where
  draft waiting_for_positioner approved rejected executed cancelled : DealState

pub data DealType : Type 0 where
  tod tom spot forward : DealType

pub data ValidationStatus : Type 0 where
  not_validated valid invalid : ValidationStatus

pub data OperationDirection : Type 0 where
  buy sell : OperationDirection

pub data PaymentDirection : Type 0 where
  incoming outgoing : PaymentDirection

pub data ApprovalDecision : Type 0 where
  approve return_for_edit reject : ApprovalDecision

-- Comparisons of a member with a fixed one.
abbrev pub is_draft : DealState → Bool
is_draft draft = true
is_draft _ = false

abbrev pub is_waiting : DealState → Bool
is_waiting waiting_for_positioner = true
is_waiting _ = false

abbrev pub is_rejected : DealState → Bool
is_rejected rejected = true
is_rejected _ = false

abbrev pub is_cancelled : DealState → Bool
is_cancelled cancelled = true
is_cancelled _ = false

abbrev pub is_valid : ValidationStatus → Bool
is_valid valid = true
is_valid _ = false

abbrev pub is_forward : DealType → Bool
is_forward forward = true
is_forward _ = false

abbrev pub is_return : ApprovalDecision → Bool
is_return return_for_edit = true
is_return _ = false
