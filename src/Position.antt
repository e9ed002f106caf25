-- ===== src/Position.antt =====
-- src/fx_deal_manager/integrations/position_client.py: `PositionSystemAdapter.send_deal`. The
-- settings, the identity provider and the position system are the parameter `Gateway`.
pub mod Sending
pub mod Posted
pub mod Serving
pub mod Token
use fx_deal_manager.Prelude.{
  ℕ, zero, suc, ◌+◌, ◌-◌, ◌^◌, String, Bool, true, false, not, ◌&&◌, Option, none, some, List, [],
  ◌∷◌, ◌++◌, ltb, leb, is_blank, if◌then◌else◌,
}
use fx_deal_manager.Decimal.{Decimal}
use fx_deal_manager.Domain.{PaymentDirection, Payment, FxDeal}

-- The body of a POST, `_payment_payload`.
pub record Payload : Type 0 where
  pub deal_id : ℕ
  pub currency_code : String
  pub amount : Decimal
  pub value_date : ℕ
  pub direction : PaymentDirection
  pub account_number : Option String
  pub correlation_id : String

-- What one POST comes to: a 2xx answer with its `payment_id` or `id` where that is not empty, an
-- `HTTPStatusError`, or any other exception with its text.
pub data Reply : Type 0 where
  accepted : Option String → Reply
  status : ℕ → String → Reply
  failed : String → Reply

pub record Gateway : Type 0 where
  pub position_system_url : String
  pub position_send_retries : ℕ
  -- `_auth_headers`: `none` stands for the headers, a text for the exception raised
  pub auth_error : Option String
  -- the answer to the POST of a payload as attempt number so and so
  pub post : Payload → ℕ → Reply

-- `error` is held as what the f-strings put in.
pub data SendError : Type 0 where
  not_configured : SendError
  token_error : String → SendError
  status_text : ℕ → String → SendError
  text : String → SendError

pub record PositionSendResult : Type 0 where
  pub success : Bool
  pub correlation_id : String
  pub external_refs : List String
  pub error : Option SendError

-- What the adapter does to the outside, in order: POSTs, and pauses in units of the backoff.
pub data Effect : Type 0 where
  posted : Payload → ℕ → Effect
  slept : ℕ → Effect

-- `payment.value_date or deal.value_date or deal.trade_date`
abbrev or_else : Option ℕ → ℕ → ℕ
or_else none d = d
or_else (some v) d = v

unfoldable pub payment_payload : FxDeal → Payment → String → Payload
payment_payload deal payment correlation_id = record {
  deal_id = deal.id;
  currency_code = payment.currency_code;
  amount = payment.amount;
  value_date = or_else payment.value_date (or_else deal.value_date deal.trade_date);
  direction = payment.payment_direction;
  account_number = payment.account_code;
  correlation_id = correlation_id;
}

-- How the loop over the attempts at one payment ends: by `break`, or by a `return`.
pub data Attempts : Type 0 where
  delivered : Option String → Attempts
  gave_up : SendError → Attempts

-- `last_error or "exhausted retries"`
abbrev exhausted : Option SendError → SendError
exhausted none = text "exhausted retries"
exhausted (some (text t)) = if is_blank (some t) then text "exhausted retries" else text t
exhausted (some e) = e

-- `400 <= code < 500`
abbrev pub is_client_error : ℕ → Bool
is_client_error code = leb 400 code && ltb code 500

-- `if attempt < retries: await asyncio.sleep(...)`
unfoldable pub pause : ℕ → ℕ → List Effect
pause retries attempt = if ltb attempt retries then slept (2 ^ (attempt - 1)) ∷ [] else []

-- `for attempt in range(1, retries + 1)`: the first number counts the attempts that are left.
unfoldable pub attempts : Gateway → ℕ → ℕ → Payload → Option SendError → Attempts × List Effect
unfolding pause
attempts g zero attempt payload last_error = (gave_up (exhausted last_error), [])
attempts g (suc left) attempt payload last_error = elim (g.post payload attempt) [
  | accepted ref ↦ (delivered ref, posted payload attempt ∷ [])
  | status code body ↦
      let (end, effects) = attempts g left (attempt + 1) payload (some (status_text code body)) in
      if is_client_error code
      then (gave_up (status_text code body), posted payload attempt ∷ [])
      else (end, posted payload attempt ∷ (pause g.position_send_retries attempt ++ effects))
  | failed body ↦
      let (end, effects) = attempts g left (attempt + 1) payload (some (text body)) in
      (end, posted payload attempt ∷ (pause g.position_send_retries attempt ++ effects))
]

abbrev add_ref : Option String → List String → List String
add_ref none refs = refs
add_ref (some ref) refs = refs ++ (ref ∷ [])

abbrev pub refusal : String → SendError → PositionSendResult
refusal correlation_id e = record {
  success = false;
  correlation_id = correlation_id;
  external_refs = [];
  error = some e;
}

abbrev pub acceptance : String → List String → PositionSendResult
acceptance correlation_id refs = record {
  success = true;
  correlation_id = correlation_id;
  external_refs = refs;
  error = none;
}

-- `for payment in deal.payments`
unfoldable pub send_payments :
    Gateway → FxDeal → String → List Payment → List String → PositionSendResult × List Effect
unfolding attempts
send_payments g deal correlation_id [] refs = (acceptance correlation_id refs, [])
send_payments g deal correlation_id (payment ∷ payments) refs =
    let (end, effects) =
      attempts g g.position_send_retries 1 (payment_payload deal payment correlation_id) none in
    elim end [
      | gave_up e ↦ (refusal correlation_id e, effects)
      | delivered ref ↦
          let (result, more) = send_payments g deal correlation_id payments (add_ref ref refs) in
          (result, effects ++ more)
    ]

-- `send_deal`, whose `correlation_id` is a fresh UUID.
unfoldable pub send_deal : Gateway → String → FxDeal → PositionSendResult × List Effect
unfolding send_payments payment_payload
send_deal g correlation_id deal =
    if is_blank (some g.position_system_url)
    then (refusal correlation_id not_configured, [])
    else elim deal.payments [
      | [] ↦ (acceptance correlation_id [], [])
      | payment ∷ payments ↦ elim g.auth_error [
        | some e ↦ (refusal correlation_id (token_error e), [])
        | none ↦ send_payments g deal correlation_id (payment ∷ payments) []
      ]
    ]
