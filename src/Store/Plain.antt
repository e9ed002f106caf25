-- ===== src/Store/Plain.antt =====
-- Actions that send nothing and raise errors only: one rule for each way to build an action.
use fx_deal_manager.Prelude.{
  ℕ, String, ◌≡◌, refl, ◌∙◌, inl, inr, Bool, true, false, Option, none, some, List, [], ◌∷◌,
  Bool-cases, Option-cases, leb,
}
use fx_deal_manager.Domain.{FxDeal, Payment, DealState, ValidationStatus}
use fx_deal_manager.Store.{
  Database, AuditLogEntry, Environment, Session, Error, http, deal_not_found, validation_failed,
  report_incomplete, internal, Result, ok, err, Action, pure, raise, raise_if, gets, or_raise,
  catch, recover, modify, continue, ◌>>=◌, flush, commit, rollback, write, get_by_id,
  set_validation_status, set_deal_state, save_new, save_existing, check_payment_save_fault,
  append_payments, replace_payments, log, counterparty_exists, find,
}
use fx_deal_manager.Nsi.{get_counterparty}

-- What a client is told of an exception is an error: an `HTTPException` has a status from 400 on.
abbrev pub is_refusal : Error → Bool
is_refusal (http code detail) = leb 400 code
is_refusal deal_not_found = true
is_refusal (validation_failed found) = true
is_refusal (report_incomplete errors) = true
is_refusal (internal fault) = true

abbrev pub Refuses : {A : Type 0} → Result A → Type 0
Refuses (ok a) = Unit
Refuses (err x) = is_refusal x ≡ true

-- Whether it returns or raises, the action leaves what was sent as it was, and what it raises is an
-- error.
pub record IsPlain {A : Type 0} (m : Action A) : Type 0 where
  pub at : (s : Session) → (m s).1.effects ≡ s.effects
  pub refuses : (s : Session) → Refuses (m s).0

module _ {A : Type 0} where
  pub IsPlain-pure : (a : A) → IsPlain (pure a)
  unfolding pure
  IsPlain-pure a = record { at = λ s. refl; refuses = λ s. tt }

  pub IsPlain-raise : (e : Error) → is_refusal e ≡ true → IsPlain (raise {A = A} e)
  unfolding raise
  IsPlain-raise e h = record { at = λ s. refl; refuses = λ s. h }

  pub IsPlain-gets : (f : Database → A) → IsPlain (gets f)
  unfolding gets
  IsPlain-gets f = record { at = λ s. refl; refuses = λ s. tt }

  pub IsPlain-or_raise : (o : Option A) (e : Error) → is_refusal e ≡ true → IsPlain (or_raise o e)
  unfolding or_raise
  IsPlain-or_raise none e h = record { at = λ s. refl; refuses = λ s. h }
  IsPlain-or_raise (some a) e h = record { at = λ s. refl; refuses = λ s. tt }

  recover-plain :
      (end : Result A × Session) (h : Error → Action A)
      → Refuses end.0
      → ((e : Error) → is_refusal e ≡ true → IsPlain (h e))
      → ((recover end h).1.effects ≡ end.1.effects) × Refuses (recover end h).0
  recover-plain (ok a, t) h r k = (refl, tt)
  recover-plain (err e, t) h r k = ((k e r).at t, (k e r).refuses t)

  pub IsPlain-catch :
      (m : Action A) (h : Error → Action A)
      → IsPlain m
      → ((e : Error) → is_refusal e ≡ true → IsPlain (h e))
      → IsPlain (catch m h)
  unfolding catch
  IsPlain-catch m h i k = record {
    at = λ s. (recover-plain (m s) h (i.refuses s) k).0 ∙ i.at s;
    refuses = λ s. (recover-plain (m s) h (i.refuses s) k).1;
  }

module _ {A B : Type 0} where
  continue-plain :
      (end : Result A × Session) (k : A → Action B)
      → Refuses end.0
      → ((a : A) → IsPlain (k a))
      → ((continue end k).1.effects ≡ end.1.effects) × Refuses (continue end k).0
  continue-plain (ok a, t) k r h = ((h a).at t, (h a).refuses t)
  continue-plain (err e, t) k r h = (refl, r)

  pub IsPlain-bind :
      (m : Action A) (k : A → Action B) → IsPlain m → ((a : A) → IsPlain (k a)) → IsPlain (m >>= k)
  unfolding ◌>>=◌
  IsPlain-bind m k i h = record {
    at = λ s. (continue-plain (m s) k (i.refuses s) h).0 ∙ i.at s;
    refuses = λ s. (continue-plain (m s) k (i.refuses s) h).1;
  }

pub IsPlain-raise_if : (b : Bool) (e : Error) → is_refusal e ≡ true → IsPlain (raise_if b e)
unfolding raise_if
IsPlain-raise_if true e h = record { at = λ s. refl; refuses = λ s. h }
IsPlain-raise_if false e h = record { at = λ s. refl; refuses = λ s. tt }

pub IsPlain-modify : (f : Database → Database) → IsPlain (modify f)
unfolding modify
IsPlain-modify f = record { at = λ s. refl; refuses = λ s. tt }

module _ (env : Environment) where
  pub IsPlain-flush : IsPlain (flush env)
  unfolding flush
  IsPlain-flush = record {
    at = λ s. elim (Bool-cases (env.accepts s.current)) [ inl e ↦ rw e refl | inr e ↦ rw e refl ];
    refuses =
        λ s. elim (Bool-cases (env.accepts s.current)) [ inl e ↦ rw e tt | inr e ↦ rw e refl ];
  }

  pub IsPlain-commit : IsPlain (commit env)
  unfolding commit
  IsPlain-commit =
      IsPlain-bind (flush env) _ IsPlain-flush λ _. record { at = λ s. refl; refuses = λ s. tt }

  pub IsPlain-rollback : IsPlain (rollback env)
  unfolding rollback
  IsPlain-rollback = record { at = λ s. refl; refuses = λ s. tt }

  pub IsPlain-write : (d : FxDeal) → IsPlain (write env d)
  unfolding write
  IsPlain-write d = record { at = λ s. refl; refuses = λ s. tt }

  pub IsPlain-get_by_id : (id : ℕ) → IsPlain (get_by_id env id)
  unfolding get_by_id
  IsPlain-get_by_id id = record {
    at = λ s. elim (Option-cases (find id s.current.deals)) [
      | inl e ↦ rw (e, get_by_id) refl
      | inr (d, e) ↦ rw (e, get_by_id) refl
    ];
    refuses = λ s. elim (Option-cases (find id s.current.deals)) [
      | inl e ↦ rw (e, get_by_id) refl
      | inr (d, e) ↦ rw (e, get_by_id) tt
    ];
  }

  pub IsPlain-log : (entry : AuditLogEntry) → IsPlain (log env entry)
  unfolding log
  IsPlain-log entry = IsPlain-bind _ _ (IsPlain-modify _) λ _. IsPlain-flush

  pub IsPlain-save_existing : (d : FxDeal) → IsPlain (save_existing env d)
  unfolding save_existing
  IsPlain-save_existing d =
      IsPlain-bind _ _ IsPlain-flush
        λ _. IsPlain-bind _ _ (IsPlain-get_by_id d.id) λ _. IsPlain-pure d

  pub IsPlain-set_deal_state :
      (d : FxDeal) (state : DealState) → IsPlain (set_deal_state env d state)
  unfolding set_deal_state
  IsPlain-set_deal_state d state = IsPlain-write _

  pub IsPlain-set_validation_status :
      (d : FxDeal) (verdict : ValidationStatus) → IsPlain (set_validation_status env d verdict)
  unfolding set_validation_status
  IsPlain-set_validation_status d verdict = IsPlain-write _

  pub IsPlain-save_new : (d : FxDeal) → IsPlain (save_new env d)
  unfolding save_new
  IsPlain-save_new d = record {
    at = λ s. elim (Option-cases (find d.id s.current.deals)) [
      | inl e ↦
          rw (e, save_new) ((IsPlain-bind (flush env) _ IsPlain-flush λ _. IsPlain-pure d).at _)
      | inr (old, e) ↦ rw (e, save_new) refl
    ];
    refuses = λ s. elim (Option-cases (find d.id s.current.deals)) [
      | inl e ↦
          rw (e, save_new)
            ((IsPlain-bind (flush env) _ IsPlain-flush λ _. IsPlain-pure d).refuses _)
      | inr (old, e) ↦ rw (e, save_new) refl
    ];
  }

  IsPlain-fault : (index : ℕ) → IsPlain (check_payment_save_fault env index)
  unfolding check_payment_save_fault
  IsPlain-fault index = elim (Option-cases env.payment_save_fault_after) [
    | inl e ↦ rw (e, check_payment_save_fault) (IsPlain-pure tt)
    | inr (n, e) ↦ rw (e, check_payment_save_fault) (IsPlain-raise_if _ _ refl)
  ]

  IsPlain-append_payments :
      (d : FxDeal) (index : ℕ) (ps : List Payment) → IsPlain (append_payments env d index ps)
  unfolding append_payments
  IsPlain-append_payments d index [] = IsPlain-pure d
  IsPlain-append_payments d index (p ∷ ps) =
      IsPlain-bind _ _ (IsPlain-fault index)
        λ _. IsPlain-bind _ _ (IsPlain-write _) λ d'. IsPlain-append_payments d' _ ps

  pub IsPlain-replace_payments :
      (d : FxDeal) (ps : List Payment) → IsPlain (replace_payments env d ps)
  unfolding replace_payments
  IsPlain-replace_payments d ps = IsPlain-bind _ _ (IsPlain-write _) λ d'.
      IsPlain-bind _ _ (IsPlain-append_payments d' 1 ps)
        λ d''. IsPlain-bind _ _ IsPlain-flush λ _. IsPlain-pure d''

  pub IsPlain-counterparty_exists : (key : String) → IsPlain (counterparty_exists env key)
  unfolding counterparty_exists
  IsPlain-counterparty_exists key = record {
    at = λ s. elim (Option-cases (get_counterparty s.current.counterparties key)) [
      | inl e ↦ rw (e, counterparty_exists) refl
      | inr (row, e) ↦ rw (e, counterparty_exists) refl
    ];
    refuses = λ s. elim (Option-cases (get_counterparty s.current.counterparties key)) [
      | inl e ↦ rw (e, counterparty_exists) tt
      | inr (row, e) ↦ rw (e, counterparty_exists) tt
    ];
  }

pub ruleset plain = (
  IsPlain-pure, IsPlain-raise, IsPlain-gets, IsPlain-or_raise, IsPlain-catch, IsPlain-bind,
  IsPlain-raise_if, IsPlain-modify, IsPlain-flush, IsPlain-commit, IsPlain-rollback, IsPlain-write,
  IsPlain-get_by_id, IsPlain-log, IsPlain-save_existing, IsPlain-set_deal_state,
  IsPlain-set_validation_status, IsPlain-save_new, IsPlain-replace_payments,
  IsPlain-counterparty_exists, refl,
)
