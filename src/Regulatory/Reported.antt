-- ===== src/Regulatory/Reported.antt =====
-- What a regulatory report comes to.
use mathlib.Core.Option.{some-injective}
use fx_deal_manager.Prelude.{
  inl, inr, ℕ, String, ◌≡◌, refl, sym, ◌∙◌, ap, ◌⊎◌, true, Option, none, some, Option-cases, List,
  [], ◌∷◌, ◌++◌, map, All, get,
}
use fx_deal_manager.Domain.{FxDeal, Counterparty, is_valid}
use fx_deal_manager.Issues.{RegulatoryNsiError}
use fx_deal_manager.Store.{
  Database, Environment, Session, Error, report_incomplete, internal, key_error, or_raise, Result,
  ok, err, Action, ◌>>=◌,
}
use fx_deal_manager.Store.Steps.{
  Ends, Ends-gets, Ends-part, Ends-pure, Ends-raise, Ends-log, Ends-commit, After,
}
use fx_deal_manager.Requests.{open_session}
use fx_deal_manager.Regulatory.{
  Lookups, DealLine, list_deals_for_regulatory_report, validate_nsi, serialize_deal,
  serialize_deals, failure_entry, lookups_of, report_failure, generate,
}
use fx_deal_manager.Regulatory.Described.{IsReportable, validate_nsi_empty}
use fx_deal_manager.Regulatory.Completeness.{
  serialize_deal-some, serialize_deals_next, serialize_deals_complete,
}

abbrev pub line_ids : List DealLine → List ℕ
line_ids lines = map (λ (line : DealLine). line.deal_id) lines

abbrev pub deal_ids : List FxDeal → List ℕ
deal_ids deals = map (λ (d : FxDeal). d.id) deals

-- The reference data have all that a report says of the VALID ones among the deals.
abbrev pub AllReportable : Database → List FxDeal → Type 0
AllReportable db deals = All (IsReportable (lookups_of db) db.counterparties) deals

-- A report over some of the deals of `db` ends with `r`, and leaves `db'`.
pub data Reported (db : Database) (deals : List FxDeal) (created_by : String)
    (r : Result (List DealLine)) (db' : Database) : Type 0 where
  reported :
      (lines : List DealLine)
      → r ≡ ok lines
      → AllReportable db deals
      → line_ids lines ≡ deal_ids deals
      → db' ≡ db
      → Reported db deals created_by r db'
  incomplete :
      (let found = validate_nsi (lookups_of db) db.counterparties deals in
        ¬ (AllReportable db deals)
        × (r ≡ err (report_incomplete found))
        × (db' ≡ record db {
          audit_log = db.audit_log ++ (failure_entry deals created_by found ∷ []);
        }))
      → Reported db deals created_by r db'
  broken_off :
      (x : Error)
      → r ≡ err x
      → db' ≡ db
      → ¬ (AllReportable db deals)
        ⊎ ((x ≡ internal key_error) × ¬ (All (λ d. is_valid d.validation_status ≡ true) deals))
      → Reported db deals created_by r db'

module _ (look : Lookups) (counterparties : List Counterparty) where
  serialize_deal_id :
      (d : FxDeal) (line : DealLine)
      → serialize_deal look counterparties d ≡ some line
      → line.deal_id ≡ d.id
  unfolding serialize_deal
  serialize_deal_id d line h = elim (Option-cases (get d.buy_currency look.currencies)) [
    | inl e ↦ let raised = rw (e, serialize_deal) at h in cc
    | inr (b, e) ↦ elim (Option-cases (get d.sell_currency look.currencies)) [
      | inl f ↦ let raised = rw (f, serialize_deal) at (rw (e, serialize_deal) at h) in cc
      | inr (c, f) ↦
          let (made, g, same) = serialize_deal-some look counterparties d b c e f in
          ap (λ l. l.deal_id) (some-injective _ _ (sym h ∙ g)) ∙ same
    ]
  ]

  serialize_deals_ids :
      (deals : List FxDeal) (lines : List DealLine)
      → serialize_deals look counterparties deals ≡ some lines
      → line_ids lines ≡ deal_ids deals
  unfolding serialize_deals
  serialize_deals_ids [] lines h = ap line_ids (sym (some-injective _ _ h))
  serialize_deals_ids (d ∷ deals) lines h =
      elim (Option-cases (serialize_deal look counterparties d)) [
        | inl e ↦ let raised = rw (e, serialize_deals) at h in cc
        | inr (line, e) ↦ elim (Option-cases (serialize_deals look counterparties deals)) [
          | inl f ↦ let raised = rw (f, serialize_deals) at (rw (e, serialize_deals) at h) in cc
          | inr (rest, f) ↦
              let next = serialize_deals_next look counterparties d deals line rest e f in
              ap line_ids (some-injective _ _ (sym h ∙ next))
              ∙ ap (λ n. n ∷ line_ids rest) (serialize_deal_id d line e)
              ∙ ap (λ ns. d.id ∷ ns) (serialize_deals_ids deals rest f)
        ]
      ]

-- The deals that a report is over.
abbrev pub chosen : Database → Option ℕ → Option ℕ → Option String → List FxDeal
chosen db date_from date_to counterparty_id =
    list_deals_for_regulatory_report db.deals date_from date_to counterparty_id

module _ (env : Environment) (db : Database) (date_from date_to : Option ℕ)
    (counterparty_id : Option String) (created_by : String) where
  abbrev IsReported : Result (List DealLine) → Session → Type 0
  IsReported r t = Reported db (chosen db date_from date_to counterparty_id) created_by r t.stored

  -- The rest of the report, once its errors are there.
  failure_then :
      (k : Unit {0} → Action (List DealLine)) (found : List RegulatoryNsiError)
      → found
        ≡ validate_nsi
            (lookups_of db)
            db.counterparties
            (chosen db date_from date_to counterparty_id)
      → (found ≡ [] → Ends IsReported (k tt (open_session db)))
      → Ends IsReported (
          (report_failure env (chosen db date_from date_to counterparty_id) created_by found >>= k)
            (open_session db))
  unfolding report_failure
  failure_then k [] same done =
      Ends-part IsReported _ k _ (Ends-pure (After IsReported k) tt _ (done refl))
  failure_then k (error ∷ errors) same done =
      let bad : ¬ (AllReportable db (chosen db date_from date_to counterparty_id)) = λ all.
        let both = same ∙ (validate_nsi_empty (lookups_of db) db.counterparties _).1 all in cc in
      let quiet =
        λ (x : Error) (u : Session) (kept : u.stored ≡ db). broken_off x refl kept (inl bad) in
      Ends-part IsReported _ k _ (
        Ends-log (After IsReported k) db quiet env _ _ _ refl (
          Ends-commit (After IsReported k) db quiet env _ _ refl (
            Ends-raise (After IsReported k) _ _ (
              incomplete (
                bad,
                ap (λ found. err (report_incomplete found)) same,
                ap
                    (λ found. record db {
                      audit_log =
                          db.audit_log
                          ++ (failure_entry (chosen db date_from date_to counterparty_id) created_by
                                found
                              ∷ []);
                    })
                    same,
              )))))

  -- The end of a report without errors.
  serialize_then :
      (lines : Option (List DealLine))
      → serialize_deals
          (lookups_of db)
          db.counterparties
          (chosen db date_from date_to counterparty_id)
        ≡ lines
      → validate_nsi (lookups_of db) db.counterparties (chosen db date_from date_to counterparty_id)
        ≡ []
      → Ends IsReported (or_raise lines (internal key_error) (open_session db))
  unfolding or_raise
  serialize_then (some lines) h clean = record {
    holds =
        reported lines refl ((validate_nsi_empty (lookups_of db) db.counterparties _).0 clean)
          (serialize_deals_ids (lookups_of db) db.counterparties
            (chosen db date_from date_to counterparty_id) lines h)
          refl;
  }
  serialize_then none h clean = record {
    holds = broken_off (internal key_error) refl refl (
        inr (
          refl,
          λ all_valid.
              let (lines, e, same) =
                serialize_deals_complete (lookups_of db) db.counterparties
                  (chosen db date_from date_to counterparty_id) all_valid clean in
              let both = sym h ∙ e in cc,
        ));
  }

  -- A report has a line for each of the chosen deals, in their order, and writes nothing, and then the
  -- reference data have what it says of the VALID ones: the counterparty with an identifier, a name and a
  -- BIC, both currencies, and an active account for each payment; it fails with the errors found, where
  -- they have not, and leaves one entry with the errors in the audit log; or it breaks off and writes
  -- nothing, and then they have not, or it is a KeyError and some chosen deal is not VALID.
  pub generate-Reported :
      (let end = generate env date_from date_to counterparty_id created_by (open_session db) in
        Reported db (chosen db date_from date_to counterparty_id) created_by end.0 end.1.stored)
  unfolding generate
  generate-Reported =
      (Ends-gets IsReported _ _ _ (
        Ends-gets IsReported _ _ _ (
          Ends-gets IsReported _ _ _
            (failure_then _ _ refl λ clean. serialize_then _ refl clean)))).holds
