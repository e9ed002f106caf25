-- ===== src/History/Keys.antt =====
-- The keys of the tables after any requests.
use mathlib.Core.Path.{subst}
use fx_deal_manager.Prelude.{
  ℕ, String, ◌≡◌, refl, sym, ◌∙◌, ap, inl, inr, false, Option, none, some, List, [], ◌∷◌, ◌++◌,
  arith, All, All-append, get, Bool-cases, ◌==◌, ==_iff, is_some,
}
use fx_deal_manager.Domain.{Currency, Counterparty, Payment, FxDeal, UserClaims, DealUpdateRequest}
use fx_deal_manager.Nsi.{get_counterparty, currencies_by_code}
use fx_deal_manager.Nsi.Rows.{get_counterparty-Has, currencies_by_code-Has}
use fx_deal_manager.Store.{
  Database, AuditLogEntry, Environment, find, put, at_rest, at_rest_payments,
}
use fx_deal_manager.Store.Rows.{find-append, is_some-find-put}
use fx_deal_manager.Deals.{new_deal, apply_updates}
use fx_deal_manager.Deals.Updates.{apply_updates-counterparty}
use fx_deal_manager.Validation.Issueless.{validate_empty}
use fx_deal_manager.Lifecycle.{
  Move, edited, invalidated, validated, submitted, approved_executed, approved_unsent, sent_back,
  taken_back, called_off, Commit, nothing, opened, moved, IsKnown,
}
use fx_deal_manager.Requests.{handle}
use fx_deal_manager.Requests.Refinement.{handle-Commit}
use fx_deal_manager.Schema.{
  HasCounterparty, HasCurrency, PaymentKeys, DealKeys, IsDistinct, IsConsistent,
}
use fx_deal_manager.History.{Requests, run}
use fx_deal_manager.History.Induction.{All-put, All-find}
use fx_deal_manager.History.Paid.{IsPaid, validated-IsPaid}

module _ (db : Database) where
  known_counterparty :
      (key : String) (row : Counterparty)
      → get_counterparty db.counterparties key ≡ some row
      → HasCounterparty db.counterparties key
  known_counterparty key row h =
      let (there, e) = get_counterparty-Has db.counterparties key row h in (row, there, e)

  known_currency :
      (code : String) (c : Currency)
      → get code (currencies_by_code db.currencies) ≡ some c
      → HasCurrency db.currencies code
  known_currency code c h =
      let (there, e) = currencies_by_code-Has db.currencies code c h in (c, there, e)

  -- The keys of a deal are those of its row.
  at_rest-keys :
      (env : Environment) (id : ℕ) (ps : List Payment)
      → All (PaymentKeys db.currencies id) ps
      → All (PaymentKeys db.currencies id) (at_rest_payments env ps)
  at_rest-keys env id [] h = tt
  at_rest-keys env id (p ∷ ps) h = (
    record { currency_code = h.0.currency_code; deal_key = h.0.deal_key },
    at_rest-keys env id ps h.1,
  )

  edited-counterparty :
      (payload : DealUpdateRequest) (d c : FxDeal)
      → apply_updates payload d ≡ some c
      → IsKnown db payload.counterparty_id
      → HasCounterparty db.counterparties d.counterparty_id
      → HasCounterparty db.counterparties c.counterparty_id
  edited-counterparty payload d c applied known old =
      elim (apply_updates-counterparty payload d c applied) [
        | inl (unchanged, e) ↦ subst (HasCounterparty db.counterparties) (sym e) old
        | inr e ↦
            let (row, there, active) = subst (IsKnown db) e known in
            known_counterparty c.counterparty_id row there
      ]

  paid-keys :
      (d : FxDeal)
      → IsPaid d
      → HasCurrency db.currencies d.buy_currency
      → HasCurrency db.currencies d.sell_currency
      → All (PaymentKeys db.currencies d.id) d.payments
  paid-keys d paid bought sold = subst (All (PaymentKeys db.currencies d.id)) (sym paid.payments) (
    record {
      currency_code = subst (HasCurrency db.currencies) (sym paid.buying.currency_code) bought;
      deal_key = paid.buying.deal_id;
    },
    (
      record {
        currency_code = subst (HasCurrency db.currencies) (sym paid.selling.currency_code) sold;
        deal_key = paid.selling.deal_id;
      },
      tt,
    ),
  )

module _ (env : Environment) (user : UserClaims) (db : Database) where
  restated-DealKeys :
      (d d' : FxDeal)
      → d'.id ≡ d.id
      → d'.counterparty_id ≡ d.counterparty_id
      → d'.payments ≡ d.payments
      → DealKeys db.counterparties db.currencies d
      → DealKeys db.counterparties db.currencies (at_rest env d')
  restated-DealKeys d d' same_id same_counterparty same_payments keys = record {
    counterparty_id =
        subst (HasCounterparty db.counterparties) (sym same_counterparty) keys.counterparty_id;
    payments =
        subst (λ i. All (PaymentKeys db.currencies i) (at_rest_payments env d'.payments))
          (sym same_id)
          (at_rest-keys db env d.id d'.payments
            (subst (All (PaymentKeys db.currencies d.id)) (sym same_payments) keys.payments));
  }

  Move-DealKeys :
      (d d' : FxDeal) (es : List AuditLogEntry)
      → Move env user db d d' es
      → DealKeys db.counterparties db.currencies d
      → DealKeys db.counterparties db.currencies (at_rest env d')
  Move-DealKeys d d' es (edited payload c s t a active e f) keys = rw e (record {
    counterparty_id = edited-counterparty db payload d c a active keys.counterparty_id;
    payments = tt;
  })
  Move-DealKeys d d' es (validated day rows t c e f) keys =
      let sound = (validate_empty d _ _).0 c.clean in
      let (bought, is_bought, places) = sound.buy_known in
      let (sold, is_sold) = sound.sell_known in
      rw e (record {
        counterparty_id = keys.counterparty_id;
        payments =
            paid-keys db _ (validated-IsPaid env db d day rows c)
              (known_currency db d.buy_currency bought is_bought)
              (known_currency db d.sell_currency sold is_sold);
      })
  Move-DealKeys d d' es (invalidated found t n e f) keys =
      rw e (restated-DealKeys d _ refl refl refl keys)
  Move-DealKeys d d' es (submitted t s v c e f) keys =
      rw e (restated-DealKeys d _ refl refl refl keys)
  Move-DealKeys d d' es (approved_executed c p s o a e f) keys =
      rw e (restated-DealKeys d _ refl refl refl keys)
  Move-DealKeys d d' es (approved_unsent c p s o a e f) keys =
      rw e (restated-DealKeys d _ refl refl refl keys)
  Move-DealKeys d d' es (sent_back k c w p s e f) keys =
      rw e (restated-DealKeys d _ refl refl refl keys)
  Move-DealKeys d d' es (taken_back t s e f) keys = rw e (restated-DealKeys d _ refl refl refl keys)
  Move-DealKeys d d' es (called_off c t s e f) keys =
      rw e (restated-DealKeys d _ refl refl refl keys)

is_none : (o o' : Option FxDeal) → is_some o ≡ is_some o' → o' ≡ none → o ≡ none
is_none none o' h e = refl
is_none (some d) o' h e = let wrong = rw e at h in cc

IsDistinct-put : (d : FxDeal) (rows : List FxDeal) → IsDistinct rows → IsDistinct (put d rows)
unfolding put
IsDistinct-put d [] h = tt
IsDistinct-put d (row ∷ rows) (fresh, rest) = elim (Bool-cases (row.id == d.id)) [
  | inl e ↦ rw e (ap (λ i. find i rows) (sym ((==_iff row.id d.id).0 e)) ∙ fresh, rest)
  | inr e ↦ rw e (is_none _ _ (is_some-find-put row.id d rows) fresh, IsDistinct-put d rows rest)
]

other_way : (i j : ℕ) → (i == j) ≡ false → (j == i) ≡ false
other_way i j h = ground arith

IsDistinct-append :
    (d : FxDeal) (rows : List FxDeal)
    → IsDistinct rows
    → find d.id rows ≡ none
    → IsDistinct (rows ++ (d ∷ []))
unfolding find
IsDistinct-append d [] h unused = (refl, tt)
IsDistinct-append d (row ∷ rows) (fresh, rest) unused = elim (Bool-cases (row.id == d.id)) [
  | inl e ↦ let taken = rw e at unused in cc
  | inr e ↦
      let free = rw e at unused in
      (
        find-append row.id d rows free ∙ rw (other_way row.id d.id e) fresh,
        IsDistinct-append d rows rest free,
      )
]

module _ (env : Environment) (user : UserClaims) where
  Commit-IsConsistent :
      (db db' : Database) → Commit env user db db' → IsConsistent db → IsConsistent db'
  unfolding new_deal
  Commit-IsConsistent db db' (nothing e) h = rw e h
  Commit-IsConsistent db db' (opened id payload unused (row, there, active) e) h = rw e (record {
    deal_ids = IsDistinct-append _ db.deals h.deal_ids unused;
    deals = All-append (DealKeys db.counterparties db.currencies) db.deals _ h.deals (
      record {
        counterparty_id = known_counterparty db payload.counterparty_id row there;
        payments = tt;
      },
      tt,
    );
    nostro_accounts = h.nostro_accounts;
    deal_limits = h.deal_limits;
  })
  Commit-IsConsistent db db' (moved id d d' es found m e) h = rw e (record {
    deal_ids = IsDistinct-put _ db.deals h.deal_ids;
    deals = All-put (DealKeys db.counterparties db.currencies) _ db.deals h.deals (
        Move-DealKeys env user db d d' es m
          (All-find (DealKeys db.counterparties db.currencies) id d db.deals h.deals found));
    nostro_accounts = h.nostro_accounts;
    deal_limits = h.deal_limits;
  })

-- The tables stay consistent: where no two deals have one identifier and every foreign key of deals,
-- payments, nostro accounts and limits points to a row, that is so after any requests, by any users, with
-- whatever the database would refuse itself.
pub run-IsConsistent :
    (env : Environment) (requests : Requests) (db : Database)
    → IsConsistent db
    → IsConsistent (run env requests db)
unfolding run
run-IsConsistent env [] db h = h
run-IsConsistent env ((user, request) ∷ rest) db h =
    run-IsConsistent env rest (handle env user request db).1.stored
      (Commit-IsConsistent env user db _ (handle-Commit env user db request) h)
