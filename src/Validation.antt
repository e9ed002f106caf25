-- ===== src/Validation.antt =====
-- src/fx_deal_manager/services/validation.py: `ValidationService.validate`.
pub mod Issueless
use fx_deal_manager.Prelude.{
  ℕ, String, Bool, true, false, not, ◌&&◌, Option, none, some, List, [], ◌∷◌, ◌++◌, leb, same,
  is_some, Dict, get, if◌then◌else◌,
}
use fx_deal_manager.Decimal.{Decimal, is_non_positive, normalized_places}
use fx_deal_manager.Domain.{FxDeal, Currency, Counterparty, is_draft, is_forward}
use fx_deal_manager.Issues.{
  Message, only_draft_deals, currencies_must_differ, amount_must_be_positive, rate_must_be_positive,
  currency_not_in_nsi, amount_precision_exceeds, counterparty_not_in_nsi, counterparty_inactive,
  value_date_required, ValidationIssue, issue,
}

-- `_decimals_valid`
unfoldable pub decimals_valid : Decimal → ℕ → Bool
decimals_valid amount max_places = leb (normalized_places amount) max_places

-- `if failed: issues.append(...)`
pub report_if : Bool → String → Message → List ValidationIssue
report_if true field message = issue field message ∷ []
report_if false field message = []

buy_currency_issues : FxDeal → Option Currency → List ValidationIssue
buy_currency_issues deal none = issue "buy_currency" (currency_not_in_nsi deal.buy_currency) ∷ []
buy_currency_issues deal (some currency) =
    report_if (not (decimals_valid deal.amount currency.decimal_places)) "amount"
      (amount_precision_exceeds currency.decimal_places deal.buy_currency)

sell_currency_issues : FxDeal → Option Currency → List ValidationIssue
sell_currency_issues deal none = issue "sell_currency" (currency_not_in_nsi deal.sell_currency) ∷ []
sell_currency_issues deal (some currency) = []

counterparty_issues : FxDeal → Option Counterparty → List ValidationIssue
counterparty_issues deal none =
    issue "counterparty_id" (counterparty_not_in_nsi deal.counterparty_id) ∷ []
counterparty_issues deal (some counterparty) =
    report_if (not counterparty.is_active) "counterparty_id"
      (counterparty_inactive deal.counterparty_id)

unfoldable pub validate : FxDeal → Option Counterparty → Dict Currency → List ValidationIssue
unfolding report_if buy_currency_issues sell_currency_issues counterparty_issues
validate deal counterparty currencies =
    report_if (not (is_draft deal.deal_state)) "status" only_draft_deals
    ++ (report_if (same deal.buy_currency deal.sell_currency) "buy_currency" currencies_must_differ
        ++ (report_if (is_non_positive deal.amount) "amount" amount_must_be_positive
            ++ (report_if (is_non_positive deal.rate) "rate" rate_must_be_positive
                ++ (buy_currency_issues deal (get deal.buy_currency currencies)
                    ++ (sell_currency_issues deal (get deal.sell_currency currencies)
                        ++ (counterparty_issues deal counterparty
                            ++ report_if
                                (is_forward deal.deal_type && not (is_some deal.value_date))
                                "value_date" value_date_required))))))
