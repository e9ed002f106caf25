-- ===== src/Schema.antt =====
-- The keys that src/alembic/versions/001_initial_schema.py and 005_deal_limits_regulatory.py declare: foreign
-- keys, and the primary key of the deals, which is the one that requests add to. The keys of a deal into the
-- lookup tables are in Lookups.
pub mod Seed
use fx_deal_manager.Prelude.{ℕ, String, ◌≡◌, Option, none, some, List, [], ◌∷◌, All, Has}
use fx_deal_manager.Domain.{Currency, Counterparty, DealLimit, NostroAccount, Payment, FxDeal}
use fx_deal_manager.Store.{Database, find}

-- `ForeignKey("counterparty.id")`
abbrev pub HasCounterparty : List Counterparty → String → Type 0
HasCounterparty counterparties key = (row : Counterparty) × Has row counterparties × (row.id ≡ key)

-- `ForeignKey("currency.code")`
abbrev pub HasCurrency : List Currency → String → Type 0
HasCurrency currencies code = (row : Currency) × Has row currencies × (row.code ≡ code)

-- A key that may be null.
abbrev pub OrNull : (String → Type 0) → Option String → Type 0
OrNull P none = Unit
OrNull P (some key) = P key

-- The keys of a row of `payment` of the deal.
pub record PaymentKeys (currencies : List Currency) (deal_id : ℕ) (p : Payment) : Type 0 where
  pub currency_code : HasCurrency currencies p.currency_code
  pub deal_key : p.deal_id ≡ deal_id

-- The keys of a row of `fx_deal`, with those of its payments.
pub record DealKeys (counterparties : List Counterparty) (currencies : List Currency) (d : FxDeal)
    : Type 0 where
  pub counterparty_id : HasCounterparty counterparties d.counterparty_id
  pub payments : All (PaymentKeys currencies d.id) d.payments

-- The keys of a row of `deal_limit`.
pub record LimitKeys (counterparties : List Counterparty) (currencies : List Currency)
    (limit : DealLimit) : Type 0 where
  pub counterparty_id : OrNull (HasCounterparty counterparties) limit.counterparty_id
  pub currency_code : OrNull (HasCurrency currencies) limit.currency_code

-- No two deals have the same identifier.
abbrev pub IsDistinct : List FxDeal → Type 0
IsDistinct [] = Unit
IsDistinct (d ∷ ds) = (find d.id ds ≡ none) × IsDistinct ds

-- The tables hold no key twice, and none that points nowhere.
pub record IsConsistent (db : Database) : Type 0 where
  pub deal_ids : IsDistinct db.deals
  pub deals : All (DealKeys db.counterparties db.currencies) db.deals
  pub nostro_accounts :
      All (λ account. HasCurrency db.currencies account.currency_code) db.nostro_accounts
  pub deal_limits : All (LimitKeys db.counterparties db.currencies) db.deal_limits
