-- ===== src/History/States.antt =====
-- The states of a deal: the diagram that they follow, what is fixed outside DRAFT, and the states
-- that are final.
use mathlib.Core.Path.{subst}
use mathlib.Core.Option.{some-injective}
use fx_deal_manager.Prelude.{
  ℕ, ◌≡◌, refl, sym, ◌∙◌, ap, ◌≢◌, ◌⊎◌, inl, inr, Bool, true, false, none, some, List, [], ◌∷◌,
  arith, ◌==◌, Bool-cases, ==_iff,
}
use fx_deal_manager.Domain.{
  DealState, draft, waiting_for_positioner, approved, rejected, executed, cancelled, FxDeal,
  UserClaims,
}
use fx_deal_manager.Store.{Database, AuditLogEntry, Environment, find, put, at_rest}
use fx_deal_manager.Store.Rows.{find-id, find-put, find-append}
use fx_deal_manager.Validation.Issueless.{validate_empty}
use fx_deal_manager.Deals.{new_deal}
use fx_deal_manager.Deals.Updates.{apply_updates-SameDeal}
use fx_deal_manager.Lifecycle.{
  Move, edited, invalidated, validated, submitted, approved_executed, approved_unsent, sent_back,
  taken_back, called_off, Commit, nothing, opened, moved,
}
use fx_deal_manager.Requests.{Request, handle}
use fx_deal_manager.Requests.Refinement.{handle-Commit}
use fx_deal_manager.History.{Requests, run}
use fx_deal_manager.History.Trail.{Move-id}
use fx_deal_manager.History.Terms.{SameTerms, SameDeal, same_terms, restated, SameTerms-trans}

-- The arrows of the diagram, and staying where one is.
pub data Step : DealState → DealState → Type 0 where
  stays : (s : DealState) → Step s s
  submits : Step draft waiting_for_positioner
  cancels : Step draft cancelled
  executes : Step waiting_for_positioner executed
  approves : Step waiting_for_positioner approved
  rejects : Step waiting_for_positioner rejected
  takes_back : Step rejected draft

module _ (env : Environment) (user : UserClaims) (db : Database) (d d' : FxDeal) where
  Move-Step : (es : List AuditLogEntry) → Move env user db d d' es → Step d.deal_state d'.deal_state
  Move-Step es (edited payload c s t a active e _) =
      subst (Step d.deal_state)
        (sym (ap (λ x. x.deal_state) e ∙ (apply_updates-SameDeal payload d c a).deal_state))
        (stays d.deal_state)
  Move-Step es (invalidated found t n e _) = rw e (stays d.deal_state)
  Move-Step es (validated day rows t c e _) = rw e (stays d.deal_state)
  Move-Step es (submitted t s v c e _) = rw e (rw s submits)
  Move-Step es (approved_executed c p s o a e _) = rw e (rw s executes)
  Move-Step es (approved_unsent c p s o a e _) = rw e (rw s approves)
  Move-Step es (sent_back k c w p s e _) = rw e (rw s rejects)
  Move-Step es (taken_back t s e _) = rw e (rw s takes_back)
  Move-Step es (called_off c t s e _) = rw e (rw s cancels)

  move-SameTerms :
      (es : List AuditLogEntry)
      → Move env user db d d' es
      → d.deal_state ≢ draft
      → SameTerms env d (at_rest env d')
  move-SameTerms es (edited payload c s t a active e _) h = elim (h s) [ ]
  move-SameTerms es (invalidated found t n e _) h = rw e (restated env d _ _ _ _)
  move-SameTerms es (validated day rows t c e _) h =
      elim (h ((validate_empty d _ _).0 c.clean).state) [ ]
  move-SameTerms es (submitted t s v c e _) h = elim (h s) [ ]
  move-SameTerms es (approved_executed c p s o a e _) h = rw e (restated env d _ _ _ _)
  move-SameTerms es (approved_unsent c p s o a e _) h = rw e (restated env d _ _ _ _)
  move-SameTerms es (sent_back k c w p s e _) h = rw e (restated env d _ _ _ _)
  move-SameTerms es (taken_back t s e _) h = rw e (restated env d _ _ _ _)
  move-SameTerms es (called_off c t s e _) h = elim (h s) [ ]

abbrev pub is_final : DealState → Bool
is_final approved = true
is_final executed = true
is_final cancelled = true
is_final draft = false
is_final waiting_for_positioner = false
is_final rejected = false

final_not : (s t : DealState) → is_final s ≡ true → is_final t ≡ false → s ≢ t
final_not s t h k p = ground arith

module _ (env : Environment) (user : UserClaims) (db : Database) (d d' : FxDeal) where
  Move-SameDeal :
      (es : List AuditLogEntry)
      → Move env user db d d' es
      → is_final d.deal_state ≡ true
      → SameDeal env d (at_rest env d')
  Move-SameDeal es (edited payload c s t a active e _) h = elim (final_not _ _ h refl s) [ ]
  Move-SameDeal es (invalidated found t n e _) h = rw e (record {
    terms = restated env d _ _ _ _;
    deal_state = refl;
    positioner_id = refl;
    positioner_solution = refl;
  })
  Move-SameDeal es (validated day rows t c e _) h =
      elim (final_not _ _ h refl ((validate_empty d _ _).0 c.clean).state) [ ]
  Move-SameDeal es (submitted t s v c e _) h = elim (final_not _ _ h refl s) [ ]
  Move-SameDeal es (approved_executed c p s o a e _) h = elim (final_not _ _ h refl s) [ ]
  Move-SameDeal es (approved_unsent c p s o a e _) h = elim (final_not _ _ h refl s) [ ]
  Move-SameDeal es (sent_back k c w p s e _) h = elim (final_not _ _ h refl s) [ ]
  Move-SameDeal es (taken_back t s e _) h = elim (final_not _ _ h refl s) [ ]
  Move-SameDeal es (called_off c t s e _) h = elim (final_not _ _ h refl s) [ ]

-- What a request does to a deal that is there: nothing, or one move.
abbrev Fate : Environment → UserClaims → Database → ℕ → FxDeal → Database → Type 0
Fate env user db id d db' =
    (find id db'.deals ≡ some d)
    ⊎ ((d' : FxDeal) × (es : List AuditLogEntry) × Move env user db d d' es
        × (find id db'.deals ≡ some (at_rest env d')))

taken :
    (id fresh : ℕ) (d : FxDeal) (rows : List FxDeal)
    → find id rows ≡ some d
    → find fresh rows ≡ none
    → (fresh == id) ≡ false
taken id fresh d rows h unused = ground (arith, ap (λ (k : ℕ). find k rows))

moved-Fate :
    (env : Environment) (user : UserClaims) (db : Database) (id : ℕ) (d old d' : FxDeal)
    (es : List AuditLogEntry)
    → find old.id db.deals ≡ some old
    → Move env user db old d' es
    → find id db.deals ≡ some d
    → Fate env user db id d (record db { deals = put (at_rest env d') db.deals })
moved-Fate env user db id d old d' es found m h =
    let same_id = Move-id env user db old d' es m in
    let written =
      find-put id (at_rest env d') old db.deals (ap (λ k. find k db.deals) same_id ∙ found) in
    elim (Bool-cases (d'.id == id)) [
      | inl e ↦
          let key = sym same_id ∙ (==_iff d'.id id).0 e in
          let old_d = some-injective old d (sym found ∙ ap (λ k. find k db.deals) key ∙ h) in
          inr (d', es, subst (λ x. Move env user db x d' es) old_d m, written ∙ rw e refl)
      | inr e ↦ inl (written ∙ rw e h)
    ]

Commit-Fate :
    (env : Environment) (user : UserClaims) (db db' : Database) (id : ℕ) (d : FxDeal)
    → Commit env user db db'
    → find id db.deals ≡ some d
    → Fate env user db id d db'
unfolding new_deal
Commit-Fate env user db db' id d (nothing e) h = inl (rw e h)
Commit-Fate env user db db' id d (opened fresh payload unused active e) h = inl (
    rw e (
      find-append id (at_rest env (new_deal fresh payload user)) db.deals unused
      ∙ (rw (taken id fresh d db.deals h unused) h)))
Commit-Fate env user db db' id d (moved key old d' es found m e) h = rw e (
    moved-Fate env user db id d old d' es
      (ap (λ k. find k db.deals) (find-id key old db.deals found) ∙ found) m h)

-- One request, by any user, moves every deal that is there along the diagram DRAFT →
-- WAITING_FOR_POSITIONER | CANCELLED, WAITING_FOR_POSITIONER → APPROVED | EXECUTED | REJECTED,
-- REJECTED → DRAFT, or leaves its state; and it never removes a deal.
pub handle-Step :
    (env : Environment) (user : UserClaims) (request : Request) (db : Database) (id : ℕ)
    (d : FxDeal)
    → find id db.deals ≡ some d
    → (d' : FxDeal) × (find id (handle env user request db).1.stored.deals ≡ some d')
      × Step d.deal_state d'.deal_state
handle-Step env user request db id d h =
    elim (Commit-Fate env user db _ id d (handle-Commit env user db request) h) [
      | inl same ↦ (d, same, stays d.deal_state)
      | inr (d', es, m, found) ↦ (at_rest env d', found, Move-Step env user db d d' es m)
    ]

-- One request, by any user, on a deal that is there and not in DRAFT leaves its dates, currencies,
-- direction, counterparty, type and trader alone, and its amount, rate and payments as the columns of the
-- database hold them when they are stored again.
pub handle-SameTerms :
    (env : Environment) (user : UserClaims) (request : Request) (db : Database) (id : ℕ)
    (d : FxDeal)
    → find id db.deals ≡ some d
    → d.deal_state ≢ draft
    → (d' : FxDeal) × (find id (handle env user request db).1.stored.deals ≡ some d')
      × SameTerms env d d'
handle-SameTerms env user request db id d h not_draft =
    elim (Commit-Fate env user db _ id d (handle-Commit env user db request) h) [
      | inl same ↦ (d, same, same_terms env d)
      | inr (d', es, m, found) ↦
          (at_rest env d', found, move-SameTerms env user db d d' es m not_draft)
    ]

handle-SameDeal :
    (env : Environment) (user : UserClaims) (request : Request) (db : Database) (id : ℕ)
    (d : FxDeal)
    → find id db.deals ≡ some d
    → is_final d.deal_state ≡ true
    → (d' : FxDeal) × (find id (handle env user request db).1.stored.deals ≡ some d')
      × SameDeal env d d'
handle-SameDeal env user request db id d h final =
    elim (Commit-Fate env user db _ id d (handle-Commit env user db request) h) [
      | inl same ↦ (
        d,
        same,
        record {
          terms = same_terms env d;
          deal_state = refl;
          positioner_id = refl;
          positioner_solution = refl;
        },
      )
      | inr (d', es, m, found) ↦ (at_rest env d', found, Move-SameDeal env user db d d' es m final)
    ]

-- A deal that is APPROVED, EXECUTED or CANCELLED stays so: after any requests, by any users, it is
-- still there, in that state, with the same dates, currencies, direction, counterparty, type, trader
-- and decision, and with the amount, rate and payments that the columns of the database hold
-- when these are stored again.
pub run_final :
    (env : Environment) (requests : Requests) (db : Database) (id : ℕ) (d : FxDeal)
    → find id db.deals ≡ some d
    → is_final d.deal_state ≡ true
    → (d' : FxDeal) × (find id (run env requests db).deals ≡ some d') × SameDeal env d d'
unfolding run
run_final env [] db id d h final = (
  d,
  h,
  record {
    terms = same_terms env d;
    deal_state = refl;
    positioner_id = refl;
    positioner_solution = refl;
  },
)
run_final env ((user, request) ∷ rest) db id d h final =
    let (b, found, s) = handle-SameDeal env user request db id d h final in
    let (c, found_c, t) = run_final env rest _ id b found (ap is_final s.deal_state ∙ final) in
    (
      c,
      found_c,
      record {
        terms = SameTerms-trans env d b c s.terms t.terms;
        deal_state = t.deal_state ∙ s.deal_state;
        positioner_id = t.positioner_id ∙ s.positioner_id;
        positioner_solution = t.positioner_solution ∙ s.positioner_solution;
      },
    )
