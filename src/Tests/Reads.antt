-- ===== src/Tests/Reads.antt =====
-- Reports, events, notifications and profiles on the desk.
use fx_deal_manager.Prelude.{ℕ, ◌+◌, ◌≡◌, refl, true, none, some, List, [], ◌∷◌, map, arith, All}
use fx_deal_manager.Domain.{
  DealState, DealType, ValidationStatus, PaymentDirection, executed, tod, buy, valid, incoming,
  DealResponse,
}
use fx_deal_manager.Store.{AuditLogEntry}
use fx_deal_manager.Settlement.{add_business_days}
use fx_deal_manager.Settlement.Loops.{while_days, while_days-add_business_days}
use fx_deal_manager.Lookups.{
  state_value, type_value, validation_value, direction_value, states, types, validation_statuses,
  directions, deal_state_rows, deal_type_rows, validation_status_rows, payment_direction_rows,
  ids_by_code,
}
use fx_deal_manager.Lookups.Codes.{IsKept, lookup_id-IsKept}
use fx_deal_manager.Regulatory.{DealLine, PaymentLine}
use fx_deal_manager.Reports.{csv_columns, regulatory_csv_columns, deal_rows, regulatory_rows}
use fx_deal_manager.Reports.Rows.{Fits, report_rows-Fits, said, all_facts, said-regulatory_rows}
use fx_deal_manager.Me.{UserPreference, MeProfileUpdateRequest, get_me, update_me, overridden}
use fx_deal_manager.Me.Profile.{shown, get_me-update_me}
use fx_deal_manager.Audit.{AuditRow}
use fx_deal_manager.Notifications.{list_notifications, read_all}
use fx_deal_manager.Notifications.ReadAll.{IsPast, read_all-unread}
use fx_deal_manager.Deals.{to_response}
use fx_deal_manager.Tests.{trader, positioner, whole, bank, dollar, rouble}
use fx_deal_manager.Tests.Histories.{waiting, log_4, differ}

while_days-add_business_days_example :
    while_days 367 738000 2 ((738001, true) ∷ (738003, true) ∷ [])
    ≡ some (add_business_days 738000 2 ((738001, true) ∷ (738003, true) ∷ []))
while_days-add_business_days_example =
    while_days-add_business_days 738000 2 ((738001, true) ∷ (738003, true) ∷ [])

lookup_id-IsKept_example :
    ((m : DealState)
      → IsKept deal_state_rows state_value states (some (ids_by_code deal_state_rows [])) m)
    × ((m : DealType) → IsKept deal_type_rows type_value types none m)
    × ((m : ValidationStatus)
        → IsKept validation_status_rows validation_value validation_statuses none m)
    × ((m : PaymentDirection) → IsKept payment_direction_rows direction_value directions none m)
lookup_id-IsKept_example =
    lookup_id-IsKept (some (ids_by_code deal_state_rows [])) none none none refl tt tt tt

abbrev payment_line : PaymentLine
payment_line = record {
  direction = incoming;
  amount = whole 100;
  currency = "USD";
  value_date = none;
  account_code = some "U1";
  account_number = some "U1";
  bank_name = some "Bank";
}

abbrev deal_line : DealLine
deal_line = record {
  deal_id = 1;
  trade_date = 738000;
  value_date = some 738000;
  deal_type = tod;
  operation_direction = buy;
  buy_currency = dollar;
  sell_currency = rouble;
  amount = whole 100;
  rate = whole 90;
  status = executed;
  validation_status = valid;
  trader_id = "ann";
  trader_email = "ann";
  positioner_id = some "bob";
  counterparty_id = "BANK";
  counterparty = some bank;
  payments = payment_line ∷ payment_line ∷ [];
}

abbrev answered : DealResponse
answered = to_response tod (some bank) waiting

report_rows-Fits_example :
    All (Fits csv_columns) (deal_rows (λ deal. (1, 2)) (answered ∷ []))
    × All (Fits regulatory_csv_columns) (regulatory_rows (deal_line ∷ []))
report_rows-Fits_example = report_rows-Fits (λ deal. (1, 2)) (answered ∷ []) (deal_line ∷ [])

said-regulatory_rows_example :
    map said (regulatory_rows (deal_line ∷ deal_line ∷ [])) ≡ all_facts (deal_line ∷ deal_line ∷ [])
said-regulatory_rows_example = said-regulatory_rows (deal_line ∷ deal_line ∷ [])

abbrev call : MeProfileUpdateRequest
call = record { phone = some "123"; department = none }

abbrev kept : UserPreference
kept = record { user_id = "ann"; email = "old"; phone = none; department = some "Desk" }

get_me-update_me_example :
    (let before = get_me (kept ∷ []) trader in
      let after = record before {
        phone = overridden call.phone before.phone;
        department = shown trader.role call.department before.department;
      } in
      let (answer, rows') = update_me call trader (kept ∷ []) in
      (answer ≡ after)
      × (get_me rows' trader ≡ after)
      × (get_me rows' positioner ≡ get_me (kept ∷ []) positioner))
get_me-update_me_example = get_me-update_me call trader positioner (kept ∷ []) differ

abbrev row_at : ℕ → AuditLogEntry → AuditRow
row_at n e = record { id = n; created_at = n; logged = e }

abbrev stamped : ℕ → List AuditLogEntry → List AuditRow
stamped n [] = []
stamped n (e ∷ es) = row_at n e ∷ stamped (n + 1) es

past : All (IsPast 20) (stamped 7 log_4)
past = (omega arith, (omega arith, (omega arith, (omega arith, (omega arith, tt)))))

read_all-unread_example :
    ((list_notifications (read_all 20 trader []) (stamped 7 log_4) trader 50).unread_count ≡ 0)
    × (list_notifications (read_all 20 trader []) (stamped 7 log_4) positioner 50
        ≡ list_notifications [] (stamped 7 log_4) positioner 50)
read_all-unread_example = read_all-unread 20 trader [] (stamped 7 log_4) positioner 50 past differ

-- The entries of the approval have one time.
abbrev timed : List ℕ → List AuditLogEntry → List AuditRow
timed [] es = []
timed (t ∷ ts) [] = []
timed (t ∷ ts) (e ∷ es) = row_at t e ∷ timed ts es

abbrev kept_log : List AuditRow
kept_log = timed (7 ∷ 8 ∷ 9 ∷ 10 ∷ 10 ∷ []) log_4

abbrev in_order : List AuditRow → List AuditRow
in_order (a ∷ b ∷ c ∷ d ∷ e ∷ rows) = d ∷ e ∷ c ∷ b ∷ a ∷ rows
in_order rows = rows
