-- ===== src/History/Executed.antt =====
-- Executed deals against what was sent to the position system.
use mathlib.Core.Path.{subst}
use mathlib.Core.Option.{some-injective}
use fx_deal_manager.Prelude.{
  ==_iff, ℕ, String, ◌≡◌, ◌≢◌, refl, sym, ◌∙◌, ap, ◌⊎◌, inl, inr, true, none, some, List, [], ◌∷◌,
  ◌++◌, ◌==◌, arith, Bool-cases,
}
use fx_deal_manager.Domain.{
  DealState, draft, approved, executed, ApprovalDecision, FxDeal, UserClaims, DealResponse,
}
use fx_deal_manager.Position.{Effect, send_deal}
use fx_deal_manager.Position.Posted.{
  AllPosted, AllPosted-left, AllPosted-right, send_deal-AllPosted,
}
use fx_deal_manager.Store.{Database, AuditLogEntry, Environment, Result, ok, find, at_rest}
use fx_deal_manager.Store.Rows.{find-id, find-put, find-append}
use fx_deal_manager.Deals.{new_deal}
use fx_deal_manager.Deals.Updates.{apply_updates-SameDeal}
use fx_deal_manager.Validation.Issueless.{validate_empty}
use fx_deal_manager.Lifecycle.{
  Move, edited, invalidated, validated, submitted, approved_executed, approved_unsent, sent_back,
  taken_back, called_off, decided, answer,
}
use fx_deal_manager.Lifecycle.Outcome.{
  Kind, executing, kind, Moved, Outcome, done, failed, marked, unsent, served, created,
}
use fx_deal_manager.Requests.{
  Request, create, update, validate, submit, take_back, approve, return, reject, cancel, handle,
}
use fx_deal_manager.Requests.Refinement.{aim, target, handle-Outcome}
use fx_deal_manager.Requests.Taken.{handle-IsSent}
use fx_deal_manager.History.{Requests, run, traffic, without_deals}
use fx_deal_manager.History.Trail.{Move-id}
use fx_deal_manager.History.Terms.{SameTerms, same_terms, restated, SameTerms-trans}

-- Among the effects every payment of the deal, on the terms of its sending, was posted and taken.
abbrev pub IsPaidFor : Environment → List Effect → FxDeal → Type 0
IsPaidFor env effects d =
    (sent : FxDeal) × (c : String) × SameTerms env sent d
    × AllPosted env.gateway sent c effects sent.payments

-- The deal was executed before, on the same terms.
abbrev WasExecuted : Environment → Database → ℕ → FxDeal → Type 0
WasExecuted env db id d' =
    (d : FxDeal) × (find id db.deals ≡ some d) × (d.deal_state ≡ executed) × SameTerms env d d'

-- The approval of the deal has found it sent.
abbrev IsExecution : Environment → UserClaims → Kind → FxDeal → FxDeal → Type 0
IsExecution env user k d d' =
    (c : String) × (k ≡ executing c)
    × ((answer env c d user).success ≡ true)
    × (d' ≡ decided d user executed ApprovalDecision.approve none)

pub draft_not : (s : DealState) → s ≡ draft → s ≢ executed
draft_not s h e = ground arith

module _ (env : Environment) (user : UserClaims) (db : Database) where
  Move-executed :
      (d d' : FxDeal) (es : List AuditLogEntry) (m : Move env user db d d' es)
      → d'.deal_state ≡ executed
      → ((d.deal_state ≡ executed) × SameTerms env d (at_rest env d'))
        ⊎ IsExecution env user (kind env user db d d' es m) d d'
  Move-executed d d' es (edited payload c s t a active e f) h =
      let kept = ap (λ x. x.deal_state) e ∙ (apply_updates-SameDeal payload d c a).deal_state ∙ s in
      elim (draft_not _ kept h) [ ]
  Move-executed d d' es (invalidated found t n e f) h =
      inl (sym (ap (λ x. x.deal_state) e) ∙ h, rw e (restated env d _ _ _ _))
  Move-executed d d' es (validated day rows t c e f) h =
      elim (draft_not _ (ap (λ x. x.deal_state) e ∙ ((validate_empty d _ _).0 c.clean).state) h) [ ]
  Move-executed d d' es (submitted t s v c e f) h = ground (arith, ap (λ x. x.deal_state) e)
  Move-executed d d' es (approved_executed c p s o a e f) h = inr (c, refl, a, e)
  Move-executed d d' es (approved_unsent c p s o a e f) h = ground (arith, ap (λ x. x.deal_state) e)
  Move-executed d d' es (sent_back k c w p s e f) h = ground (arith, ap (λ x. x.deal_state) e)
  Move-executed d d' es (taken_back t s e f) h = ground (arith, ap (λ x. x.deal_state) e)
  Move-executed d d' es (called_off c t s e f) h = ground (arith, ap (λ x. x.deal_state) e)

  Moved-executed :
      (k : Kind) (key id : ℕ) (d' x : FxDeal) (db' : Database) (m : Moved env user db k key d' db')
      → find id db'.deals ≡ some x
      → x.deal_state ≡ executed
      → WasExecuted env db id x ⊎ (IsExecution env user k m.d d' × (at_rest env d' ≡ x))
  Moved-executed k key id d' x db' m h state =
      let same_id = Move-id env user db m.d d' m.es m.move in
      let there =
        ap (λ j. find j db.deals) (same_id ∙ find-id key m.d db.deals m.found) ∙ m.found in
      let written =
        sym (find-put id (at_rest env d') m.d db.deals there)
        ∙ sym (ap (λ t. find id t.deals) m.stored)
        ∙ h in
      elim (Bool-cases (d'.id == id)) [
        | inl e ↦
            let new = some-injective _ _ (rw e at written) in
            let old = ap (λ j. find j db.deals) (sym ((==_iff d'.id id).0 e)) ∙ there in
            elim (Move-executed m.d d' m.es m.move (ap (λ y. y.deal_state) new ∙ state)) [
              | inl (before, terms) ↦ inl (m.d, old, before, subst (SameTerms env m.d) new terms)
              | inr (c, is_kind, taken, e') ↦ inr ((c, sym m.kind_is ∙ is_kind, taken, e'), new)
            ]
        | inr e ↦ inl (x, rw e at written, state, same_terms env x)
      ]

  Outcome-executed :
      (k : Kind) (key id : ℕ) (x : FxDeal) (r : Result DealResponse) (db' : Database)
      → Outcome env user db k key r db'
      → find id db'.deals ≡ some x
      → x.deal_state ≡ executed
      → WasExecuted env db id x
        ⊎ ((d : FxDeal) × (d' : FxDeal) × (a : DealResponse) × (find key db.deals ≡ some d)
            × IsExecution env user k d d'
            × (at_rest env d' ≡ x)
            × (r ≡ ok a))
  unfolding new_deal
  Outcome-executed k key id x r db' (failed e f kept) h state =
      inl (x, ap (λ t. find id t.deals) (sym kept) ∙ h, state, same_terms env x)
  Outcome-executed k key id x r db' (done (served d' a m e ans)) h state =
      elim (Moved-executed k key id d' x db' m h state) [
        | inl before ↦ inl before
        | inr (execution, new) ↦ inr (m.d, d', a, m.found, execution, new, e)
      ]
  Outcome-executed k key id x r db' (marked d' found m c e) h state =
      elim (Moved-executed _ key id d' x db' m h state) [
        | inl before ↦ inl before
        | inr ((c', wrong, taken, e'), new) ↦ cc
      ]
  Outcome-executed k key id x r db' (unsent d d' c f m e e') h state =
      elim (Moved-executed _ key id d' x db' m h state) [
        | inl before ↦ inl before
        | inr ((c', wrong, taken, e''), new) ↦ cc
      ]
  Outcome-executed k key id x r db' (done (created payload a e unused active kept f s)) h state =
      let written =
        sym (find-append id (at_rest env (new_deal key payload user)) db.deals unused)
        ∙ sym (ap (λ t. find id t.deals) kept)
        ∙ h in
      elim (Bool-cases (key == id)) [
        | inl e' ↦
            let new = some-injective _ _ (rw e' at written) in
            elim (draft_not x.deal_state (sym (ap (λ y. y.deal_state) new)) state) [ ]
        | inr e' ↦ inl (x, rw e' at written, state, same_terms env x)
      ]

-- Only an approval is for an execution.
aim-executing :
    (request : Request) (c : String)
    → aim request ≡ executing c
    → request ≡ approve (target request) c
aim-executing (approve id b) c h = cc
aim-executing (create id payload) c h = cc
aim-executing (update id payload) c h = cc
aim-executing (validate id) c h = cc
aim-executing (submit id) c h = cc
aim-executing (take_back id) c h = cc
aim-executing (return id comment) c h = cc
aim-executing (reject id comment) c h = cc
aim-executing (cancel id comment) c h = cc

module _ (env : Environment) (user : UserClaims) (db : Database) where
  -- An execution that is answered with a deal has sent it.
  execution-IsPaidFor :
      (id : ℕ) (c : String) (d d' x : FxDeal) (a : DealResponse)
      → find id db.deals ≡ some d
      → (answer env c d user).success ≡ true
      → d' ≡ decided d user executed ApprovalDecision.approve none
      → at_rest env d' ≡ x
      → (handle env user (approve id c) db).0 ≡ ok a
      → IsPaidFor env (handle env user (approve id c) db).1.effects x
  execution-IsPaidFor id c d d' x a found taken e new answered =
      let (d₂, found₂, effects) = handle-IsSent env user db id c a answered in
      let same_deal = some-injective _ _ (sym found₂ ∙ found) in
      let sent = decided d user approved ApprovalDecision.approve none in
      let sending =
        effects
        ∙ ap
            (λ y.
              (send_deal env.gateway c (decided y user approved ApprovalDecision.approve none)).1)
            same_deal in
      (
        sent,
        c,
        subst (SameTerms env sent) (ap (at_rest env) (sym e) ∙ new) (restated env sent _ _ _ _),
        subst (λ es. AllPosted env.gateway sent c es sent.payments) (sym sending)
            (send_deal-AllPosted env.gateway c sent taken),
      )

  handle-executed :
      (request : Request) (id : ℕ) (x : FxDeal)
      → find id (handle env user request db).1.stored.deals ≡ some x
      → x.deal_state ≡ executed
      → WasExecuted env db id x ⊎ IsPaidFor env (handle env user request db).1.effects x
  handle-executed request id x h state =
      elim (Outcome-executed env user db _ _ id x _ _ (handle-Outcome env user db request) h
        state) [
          | inl before ↦ inl before
          | inr (d, d', a, found, (c, is_aim, taken, e), new, answered) ↦
              let approval = aim-executing request c is_aim in
              inr (
                subst (λ r. IsPaidFor env (handle env user r db).1.effects x) (sym approval)
                  (execution-IsPaidFor (target request) c d d' x a found taken e new
                    (ap (λ r. (handle env user r db).0) (sym approval) ∙ answered)))
        ]

IsPaidFor-left :
    (env : Environment) (xs ys : List Effect) (d d' : FxDeal)
    → SameTerms env d d'
    → IsPaidFor env xs d
    → IsPaidFor env (xs ++ ys) d'
IsPaidFor-left env xs ys d d' same_ (sent, c, terms, all_posted) = (
  sent,
  c,
  SameTerms-trans env sent d d' terms same_,
  AllPosted-left env.gateway sent c xs ys sent.payments all_posted,
)

pub run-executed :
    (env : Environment) (requests : Requests) (db : Database) (id : ℕ) (x : FxDeal)
    → find id (run env requests db).deals ≡ some x
    → x.deal_state ≡ executed
    → WasExecuted env db id x ⊎ IsPaidFor env (traffic env requests db) x
unfolding run traffic
run-executed env [] db id x h state = inl (x, h, state, same_terms env x)
run-executed env ((user, request) ∷ rest) db id x h state =
    let (end, session) = handle env user request db in
    elim (run-executed env rest session.stored id x h state) [
      | inr (sent, c, terms, all_posted) ↦ inr (
        sent,
        c,
        terms,
        AllPosted-right env.gateway sent c session.effects (traffic env rest session.stored)
            sent.payments all_posted,
      )
      | inl (y, found, executed_y, terms) ↦
          elim (handle-executed env user db request id y found executed_y) [
            | inl (z, found_z, executed_z, terms_z) ↦
                inl (z, found_z, executed_z, SameTerms-trans env z y x terms_z terms)
            | inr paid ↦ inr (
                IsPaidFor-left env session.effects (traffic env rest session.stored) y x terms paid)
          ]
    ]

-- Every EXECUTED deal is paid for: after any requests, by any users, on a database without deals, what
-- was sent to the position system has, for each EXECUTED deal, a POST of each payment of that deal
-- which the position system took, with the payments as they were when the deal was sent; and since
-- then its terms are the same and its numbers those that the columns of the database hold.
pub run-IsPaidFor :
    (env : Environment) (requests : Requests) (db : Database) (id : ℕ) (d : FxDeal)
    → find id (run env requests (without_deals db)).deals ≡ some d
    → d.deal_state ≡ executed
    → IsPaidFor env (traffic env requests (without_deals db)) d
unfolding find
run-IsPaidFor env requests db id d h state =
    elim (run-executed env requests (without_deals db) id d h state) [
      | inl (x, found, executed_x, terms) ↦ cc
      | inr paid ↦ paid
    ]
