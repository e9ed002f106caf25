-- ===== src/Listings.antt =====
-- `list_deals` of src/fx_deal_manager/repositories/deal_repository.py and services/deal_service.py, and
-- `get_queue` of services/approval_service.py: the deals a page at a time, newest first.
pub mod Pages
use fx_deal_manager.Prelude.{
  ℕ, zero, suc, ◌-◌, ◌*◌, String, Bool, true, false, ◌&&◌, Option, none, some, List, [], ◌∷◌, ◌++◌,
  map, leb, ◌==◌, length, select, same, is_empty, if◌then◌else◌,
}
use fx_deal_manager.Domain.{
  DealState, draft, waiting_for_positioner, approved, rejected, executed, cancelled, DealType, tod,
  tom, spot, forward, FxDeal, DealResponse,
}
use fx_deal_manager.Nsi.{get_counterparty}
use fx_deal_manager.Deals.{to_response}
use fx_deal_manager.Store.{Database}

-- The query parameters.
pub record DealFilter : Type 0 where
  pub status : Option DealState
  pub deal_type : Option DealType
  pub counterparty_id : Option String
  pub trade_date_from : Option ℕ
  pub trade_date_to : Option ℕ
  pub search : Option String

-- The primary keys of the lookup rows, of which only that they differ is used.
abbrev pub deal_state_id : DealState → ℕ
deal_state_id draft = 1
deal_state_id waiting_for_positioner = 2
deal_state_id approved = 3
deal_state_id rejected = 4
deal_state_id executed = 5
deal_state_id cancelled = 6

abbrev pub deal_type_id : DealType → ℕ
deal_type_id tod = 1
deal_type_id tom = 2
deal_type_id spot = 3
deal_type_id forward = 4

abbrev has_status : Option DealState → FxDeal → Bool
has_status none deal = true
has_status (some status) deal = deal_state_id deal.deal_state == deal_state_id status

abbrev has_type : Option DealType → FxDeal → Bool
has_type none deal = true
has_type (some deal_type) deal = deal_type_id deal.deal_type == deal_type_id deal_type

abbrev is_with : Option String → FxDeal → Bool
is_with none deal = true
is_with (some key) deal = same deal.counterparty_id key

abbrev is_from : Option ℕ → FxDeal → Bool
is_from none deal = true
is_from (some day) deal = leb day deal.trade_date

abbrev is_to : Option ℕ → FxDeal → Bool
is_to none deal = true
is_to (some day) deal = leb deal.trade_date day

-- Rows in the order of creation, turned round: `ORDER BY created_at DESC`.
abbrev pub newest_first {ℓ} : {A : Type ℓ} → List A → List A
newest_first [] = []
newest_first (x ∷ xs) = newest_first xs ++ (x ∷ [])

-- `OFFSET n` and `LIMIT n`
abbrev pub skip {ℓ} : {A : Type ℓ} → ℕ → List A → List A
skip zero xs = xs
skip (suc n) [] = []
skip (suc n) (x ∷ xs) = skip n xs

abbrev pub take {ℓ} : {A : Type ℓ} → ℕ → List A → List A
take zero xs = []
take (suc n) [] = []
take (suc n) (x ∷ xs) = x ∷ take n xs

-- `DealListResponse`
pub record DealListResponse : Type 0 where
  pub items : List DealResponse
  pub total : ℕ
  pub page : ℕ
  pub page_size : ℕ

abbrev pub responses : Database → List FxDeal → List DealResponse
responses db deals =
    map
      (λ deal.
        to_response deal.deal_type (get_counterparty db.counterparties deal.counterparty_id) deal)
      deals

-- The filter of the queue.
abbrev pub in_queue : DealFilter
in_queue = record {
  status = some waiting_for_positioner;
  deal_type = none;
  counterparty_id = none;
  trade_date_from = none;
  trade_date_to = none;
  search = none;
}

-- The search by `ILIKE` is PostgreSQL's: a test of a term that is not empty on a deal.
module _ (ilike : String → FxDeal → Bool) where
  abbrev is_hit : Option String → FxDeal → Bool
  is_hit none deal = true
  is_hit (some term) deal = if is_empty term then true else ilike term deal

  -- The conditions that the statement and the count share.
  unfoldable pub selected : List FxDeal → DealFilter → List FxDeal
  selected rows filter =
      select
        (λ deal.
          has_status filter.status deal
          && (has_type filter.deal_type deal
              && (is_with filter.counterparty_id deal
                  && (is_from filter.trade_date_from deal
                      && (is_to filter.trade_date_to deal && is_hit filter.search deal)))))
        rows

  -- `DealRepository.list_deals`; the route lets no page below 1 through.
  unfoldable pub list_deals : List FxDeal → DealFilter → ℕ → ℕ → List FxDeal × ℕ
  list_deals rows filter page page_size =
      let chosen = selected rows filter in
      (take page_size (skip ((page - 1) * page_size) (newest_first chosen)), length chosen)

  -- `DealService.list_deals`
  unfoldable pub deal_page : Database → DealFilter → ℕ → ℕ → DealListResponse
  deal_page db filter page page_size =
      let (deals, total) = list_deals db.deals filter page page_size in
      record { items = responses db deals; total = total; page = page; page_size = page_size }

  -- `ApprovalService.get_queue`
  unfoldable pub get_queue : Database → ℕ → ℕ → List DealResponse
  get_queue db page page_size = responses db (list_deals db.deals in_queue page page_size).0
