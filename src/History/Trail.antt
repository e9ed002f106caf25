-- ===== src/History/Trail.antt =====
-- The audit trail: what the entries about a deal say of its state, replayed in their order.
use fx_deal_manager.Prelude.{
  ℕ, ◌≡◌, refl, sym, ◌∙◌, ap, Bool, true, false, Option, none, some, List, [], ◌∷◌, ◌++◌, arith,
  ◌==◌, if◌then◌else◌,
}
use fx_deal_manager.Domain.{DealState, draft, approved, FxDeal, UserClaims, DealCreateRequest}
use fx_deal_manager.Store.{
  Database, AuditLogEntry, AuditValue, AuditAction, Environment, find, put, at_rest,
}
use fx_deal_manager.Store.Rows.{find-id, find-put, find-append}
use fx_deal_manager.Deals.{entry, new_deal}
use fx_deal_manager.Deals.Updates.{apply_updates-SameDeal}
use fx_deal_manager.Lifecycle.{
  Move, edited, invalidated, validated, submitted, approved_executed, approved_unsent, sent_back,
  taken_back, called_off, Commit, nothing, opened, moved,
}
use fx_deal_manager.Requests.Refinement.{handle-Commit}
use fx_deal_manager.History.{Requests, run, without_deals}

-- The state that an entry's new value tells; a failed send tells APPROVED, since the deal stays there.
abbrev pub told : Option DealState → Option AuditValue → Option DealState
told old (some (AuditValue.status new)) = some new
told old (some (AuditValue.cancellation new comment)) = some new
told old (some (AuditValue.verdict new decision comment)) = some new
told old (some (AuditValue.execution new correlation_id refs)) = some new
told old (some (AuditValue.sent result)) = if result.success then old else some approved
told old (some (AuditValue.updates payload)) = old
told old (some (AuditValue.issues found)) = old
told old (some (AuditValue.validated day count)) = old
told old (some (AuditValue.nsi_errors errors)) = old
told old none = old

-- The state of a deal that the entries about it leave, from a state before them.
unfoldable pub replay : ℕ → List AuditLogEntry → Option DealState → Option DealState
replay id [] old = old
replay id (e ∷ es) old = replay id es (if e.entity_id == id then told old e.new_value else old)

abbrev pub state_of : Option FxDeal → Option DealState
state_of none = none
state_of (some d) = some d.deal_state

replay-append :
    (id : ℕ) (es fs : List AuditLogEntry) (old : Option DealState)
    → replay id (es ++ fs) old ≡ replay id fs (replay id es old)
unfolding replay
replay-append id [] fs old = refl
replay-append id (e ∷ es) fs old = replay-append id es fs _

module _ (env : Environment) (user : UserClaims) (db : Database) where
  pub Move-id : (d d' : FxDeal) (es : List AuditLogEntry) → Move env user db d d' es → d'.id ≡ d.id
  Move-id d d' es (edited payload c s t a active e _) =
      rw e (apply_updates-SameDeal payload d c a).id
  Move-id d d' es (invalidated found t n e _) = rw e
  Move-id d d' es (validated day rows t c e _) = rw e
  Move-id d d' es (submitted t s v c e _) = rw e
  Move-id d d' es (approved_executed c p s o a e _) = rw e
  Move-id d d' es (approved_unsent c p s o a e _) = rw e
  Move-id d d' es (sent_back k c w p s e _) = rw e
  Move-id d d' es (taken_back t s e _) = rw e
  Move-id d d' es (called_off c t s e _) = rw e

  -- The entries of a move tell the state that it leads to, of its deal and of no other.
  Move-replay :
      (d d' : FxDeal) (es : List AuditLogEntry) (id : ℕ) (old : Option DealState)
      → Move env user db d d' es
      → (d.id ≡ id → old ≡ some d.deal_state)
      → replay id es old ≡ (if d.id == id then some d'.deal_state else old)
  unfolding replay
  Move-replay d d' es id old (edited payload c s t a active e f) h =
      let same_deal = apply_updates-SameDeal payload d c a in
      rw e (rw f (rw same_deal.id (rw same_deal.deal_state (ground (arith)))))
  Move-replay d d' es id old (invalidated found t n e f) h = rw e (rw f (ground arith))
  Move-replay d d' es id old (validated day rows t c e f) h = rw e (rw f (ground arith))
  Move-replay d d' es id old (submitted t s v c e f) h = rw e (rw f (ground arith))
  Move-replay d d' es id old (approved_executed c p s o a e f) h = rw e (rw f (ground arith))
  Move-replay d d' es id old (approved_unsent c p s o a e f) h = rw e (rw f (rw a (ground arith)))
  Move-replay d d' es id old (sent_back k c w p s e f) h = rw e (rw f (ground arith))
  Move-replay d d' es id old (taken_back t s e f) h = rw e (rw f (ground arith))
  Move-replay d d' es id old (called_off c t s e f) h = rw e (rw f (ground arith))

-- The entries of each deal tell the state that it is in, and there are no entries of other deals.
abbrev pub IsTold : Database → Type 0
IsTold db = (id : ℕ) → state_of (find id db.deals) ≡ replay id db.audit_log none

new-replay :
    (id fresh : ℕ) (payload : DealCreateRequest) (user : UserClaims) (old : Option DealState)
    → replay id
        (entry (new_deal fresh payload user) user AuditAction.create none (AuditValue.status draft)
          ∷ [])
        old
      ≡ (if fresh == id then some draft else old)
unfolding replay new_deal
new-replay id fresh payload user old = refl

state_of-if :
    (b : Bool) (d : FxDeal) (o : Option FxDeal)
    → state_of (if b then some d else o) ≡ (if b then some d.deal_state else state_of o)
state_of-if true d o = refl
state_of-if false d o = refl

state_of-append :
    (id : ℕ) (d : FxDeal) (rows : List FxDeal)
    → find d.id rows ≡ none
    → state_of (find id (rows ++ (d ∷ [])))
      ≡ (if d.id == id then some d.deal_state else state_of (find id rows))
state_of-append id d rows h =
    rw (find-append id d rows h) (state_of-if (d.id == id) d (find id rows))

state_of-put :
    (id : ℕ) (d old : FxDeal) (rows : List FxDeal)
    → find d.id rows ≡ some old
    → state_of (find id (put d rows))
      ≡ (if d.id == id then some d.deal_state else state_of (find id rows))
state_of-put id d old rows h =
    rw (find-put id d old rows h) (state_of-if (d.id == id) d (find id rows))

opened-IsTold :
    (env : Environment) (user : UserClaims) (db : Database) (fresh : ℕ)
    (payload : DealCreateRequest)
    → find fresh db.deals ≡ none
    → IsTold db
    → (id : ℕ)
    → state_of (find id (db.deals ++ (at_rest env (new_deal fresh payload user) ∷ [])))
      ≡ replay id
          (db.audit_log
            ++ (entry
                  (new_deal fresh payload user)
                  user
                  AuditAction.create
                  none
                  (AuditValue.status draft)
                ∷ []))
          none
unfolding new_deal
opened-IsTold env user db fresh payload unused h id =
    state_of-append id (at_rest env (new_deal fresh payload user)) db.deals unused
    ∙ ap (λ o. if fresh == id then some draft else o) (h id)
    ∙ sym (
        replay-append id db.audit_log _ none
        ∙ new-replay id fresh payload user (replay id db.audit_log none))

moved-IsTold :
    (env : Environment) (user : UserClaims) (db : Database) (key : ℕ) (d d' : FxDeal)
    (es : List AuditLogEntry)
    → find key db.deals ≡ some d
    → Move env user db d d' es
    → IsTold db
    → (id : ℕ)
    → state_of (find id (put (at_rest env d') db.deals)) ≡ replay id (db.audit_log ++ es) none
moved-IsTold env user db key d d' es found m h id =
    let same_id = Move-id env user db d d' es m in
    let found_d = ap (λ k. find k db.deals) (find-id key d db.deals found) ∙ found in
    let known = λ (p : d.id ≡ id).
      sym (h id) ∙ ap (λ k. state_of (find k db.deals)) (sym p) ∙ ap state_of found_d in
    state_of-put id (at_rest env d') d db.deals (ap (λ k. find k db.deals) same_id ∙ found_d)
    ∙ ap (λ k. if k == id then some d'.deal_state else state_of (find id db.deals)) same_id
    ∙ ap (λ o. if d.id == id then some d'.deal_state else o) (h id)
    ∙ sym (
        replay-append id db.audit_log es none
        ∙ Move-replay env user db d d' es id (replay id db.audit_log none) m known)

Commit-IsTold :
    (env : Environment) (user : UserClaims) (db db' : Database)
    → Commit env user db db'
    → IsTold db
    → IsTold db'
Commit-IsTold env user db db' (nothing e) h = rw e h
Commit-IsTold env user db db' (opened fresh payload unused active e) h =
    rw e (opened-IsTold env user db fresh payload unused h)
Commit-IsTold env user db db' (moved key d d' es found m e) h =
    rw e (moved-IsTold env user db key d d' es found m h)

run-IsTold :
    (env : Environment) (requests : Requests) (db : Database)
    → IsTold db
    → IsTold (run env requests db)
unfolding run
run-IsTold env [] db h = h
run-IsTold env ((user, request) ∷ rest) db h =
    run-IsTold env rest _ (Commit-IsTold env user db _ (handle-Commit env user db request) h)

nothing-IsTold : (db : Database) → IsTold (without_deals db)
unfolding find replay
nothing-IsTold db id = refl

-- After any requests, by any users, on a database without deals, the audit log alone tells which
-- deals there are and the state that each is in: replaying the entries about an identifier gives
-- the state of its deal, and gives none exactly where there is no such deal.
pub replay-run :
    (env : Environment) (requests : Requests) (db : Database) (id : ℕ)
    → (let db' = run env requests (without_deals db) in
        state_of (find id db'.deals) ≡ replay id db'.audit_log none)
replay-run env requests db = run-IsTold env requests (without_deals db) (nothing-IsTold db)
