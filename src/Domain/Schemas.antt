-- ===== src/Domain/Schemas.antt =====
-- src/fx_deal_manager/domain/schemas.py: the requests that change deals, after pydantic has read
-- them, and the answer that describes a deal.
use fx_deal_manager.Prelude.{ℕ, String, Option, List}
use fx_deal_manager.Decimal.{Decimal}
use fx_deal_manager.Domain.Enums.{
  DealState, DealType, ValidationStatus, OperationDirection, PaymentDirection,
}

pub record UserClaims : Type 0 where
  pub user_id : String
  pub email : String
  pub first_name : String
  pub last_name : String
  pub role : String
  pub expires_at : ℕ

pub record DealCreateRequest : Type 0 where
  pub trade_date : ℕ
  pub deal_type : DealType
  pub operation_direction : OperationDirection
  pub buy_currency : String
  pub sell_currency : String
  pub amount : Decimal
  pub rate : Decimal
  pub counterparty_id : String
  pub value_date : Option ℕ
  pub comment : Option String

-- A field of a PATCH body under `model_dump(exclude_unset=True)`: absent, an explicit null, or a
-- value.
pub data Patch (A : Type 0) : Type 0 where
  unset null : Patch A
  value : A → Patch A

pub record DealUpdateRequest : Type 0 where
  pub trade_date : Patch ℕ
  pub deal_type : Patch DealType
  pub operation_direction : Patch OperationDirection
  pub buy_currency : Patch String
  pub sell_currency : Patch String
  pub amount : Patch Decimal
  pub rate : Patch Decimal
  pub counterparty_id : Patch String
  pub value_date : Patch ℕ
  pub comment : Patch String

pub record PaymentResponse : Type 0 where
  pub amount : Decimal
  pub currency_code : String
  pub account_code : Option String
  pub payment_direction : PaymentDirection
  pub value_date : Option ℕ

pub record DealResponse : Type 0 where
  pub id : ℕ
  pub trade_date : ℕ
  pub value_date : Option ℕ
  pub deal_type : DealType
  pub operation_direction : OperationDirection
  pub buy_currency : String
  pub sell_currency : String
  pub amount : Decimal
  pub rate : Decimal
  pub counterparty_id : String
  pub counterparty_name : Option String
  pub status : DealState
  pub validation_status : ValidationStatus
  pub trader_id : String
  pub trader_email : String
  pub positioner_id : Option String
  pub comment : Option String
  pub payments : List PaymentResponse
