-- ===== src/Payments/Rounding.antt =====
-- The rounding of the counter amount.
use fx_deal_manager.Prelude.{◌+◌, ◌*◌, ◌/◌, ◌^◌, ◌≡◌, false, some}
use fx_deal_manager.Decimal.{Decimal}
use fx_deal_manager.Decimal.Rounding.{IsNear, times-cents}
use fx_deal_manager.Domain.{FxDeal}
use fx_deal_manager.Payments.{counter_amount}

-- The counter amount of a deal whose amount and rate are not negative is a number of whole cents, not
-- negative either, and it is off from the exact product of amount and rate by at most half a cent and
-- half of the 10^27th part of that product, rounded down, which is 0 unless the product has more than 27
-- digits. (All values are written at two places more than the exact product has, and distances doubled.)
pub counter_amount-IsNear :
    (deal : FxDeal) (counter : Decimal)
    → deal.amount.negative ≡ false
    → deal.rate.negative ≡ false
    → counter_amount deal ≡ some counter
    → (counter.negative ≡ false)
      × (counter.places ≡ 2)
      × (let exact = deal.amount.coefficient * deal.rate.coefficient in
          let unit = 10 ^ (deal.amount.places + deal.rate.places) in
          IsNear (counter.coefficient * unit) (exact * 100) (unit + exact / 10 ^ 27 * 100))
unfolding counter_amount
counter_amount-IsNear deal = times-cents deal.amount deal.rate
