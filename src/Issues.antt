-- ===== src/Issues.antt =====
-- `ValidationIssue` of src/fx_deal_manager/services/validation.py and `RegulatoryNsiError` of
-- services/regulatory_report.py. A message is held as the values that its f-string puts in.
use fx_deal_manager.Prelude.{ℕ, String}
use fx_deal_manager.Decimal.{Decimal}

pub data Message : Type 0 where
  only_draft_deals currencies_must_differ amount_must_be_positive rate_must_be_positive : Message
  currency_not_in_nsi : String → Message
  amount_precision_exceeds : ℕ → String → Message
  counterparty_not_in_nsi counterparty_inactive : String → Message
  value_date_required : Message
  amount_exceeds_limit counter_amount_exceeds_limit : Decimal → String → Decimal → String → Message
  forward_needs_value_date : Message
  not_a_business_day no_business_day_from : ℕ → Message
  could_not_add_business_days : ℕ → ℕ → Message
  no_nostro_account : String → Message

pub record ValidationIssue : Type 0 where
  pub field : String
  pub message : Message

abbrev pub issue : String → Message → ValidationIssue
issue f m = record { field = f; message = m }

pub data NsiMessage : Type 0 where
  counterparty_missing id_required name_required bic_required : NsiMessage
  currency_missing : String → NsiMessage
  account_code_required : NsiMessage
  nostro_missing nostro_inactive : String → NsiMessage

pub record RegulatoryNsiError : Type 0 where
  pub deal_id : ℕ
  pub field : String
  pub message : NsiMessage
