-- ===== src/Domain/Models.antt =====
-- src/fx_deal_manager/domain/models.py: the rows that the services read and write. A UUID is a
-- number, a date is its proleptic ordinal (`date.toordinal()`). Not held: the identifiers that the
-- database gives to payments and audit entries, and the times that its clock sets.
use fx_deal_manager.Prelude.{ℕ, String, Bool, Option, List}
use fx_deal_manager.Decimal.{Decimal}
use fx_deal_manager.Domain.Enums.{
  DealState, DealType, ValidationStatus, OperationDirection, PaymentDirection, ApprovalDecision,
}

pub record Currency : Type 0 where
  pub code : String
  pub name : String
  pub decimal_places : ℕ

pub record Counterparty : Type 0 where
  pub id : String
  pub name : String
  pub bic : Option String
  pub country : Option String
  pub is_active : Bool

pub record DealLimit : Type 0 where
  pub id : ℕ
  pub counterparty_id : Option String
  pub currency_code : Option String
  pub max_amount : Decimal
  pub is_active : Bool

pub record NostroAccount : Type 0 where
  pub id : String
  pub currency_code : String
  pub bank_name : String
  pub account_number : String
  pub is_active : Bool

pub record BusinessCalendar : Type 0 where
  pub calendar_date : ℕ
  pub is_business_day : Bool

pub record Payment : Type 0 where
  pub deal_id : ℕ
  pub amount : Decimal
  pub currency_code : String
  pub account_code : Option String
  pub payment_direction : PaymentDirection
  pub value_date : Option ℕ

pub record PositionerSolution : Type 0 where
  pub decision : ApprovalDecision
  pub comment : Option String
  pub positioner_id : String

pub record FxDeal : Type 0 where
  pub id : ℕ
  pub trade_date : ℕ
  pub value_date : Option ℕ
  pub amount : Decimal
  pub rate : Decimal
  pub buy_currency : String
  pub sell_currency : String
  pub operation_direction : OperationDirection
  pub counterparty_id : String
  pub deal_type : DealType
  pub deal_state : DealState
  pub validation_status : ValidationStatus
  pub trader_id : String
  pub trader_email : String
  pub positioner_id : Option String
  pub comment : Option String
  pub payments : List Payment
  pub positioner_solution : Option PositionerSolution
