-- ===== src/Store/Calm.antt =====
-- The steps of a service where the database refuses nothing.
use fx_deal_manager.Prelude.{
  ℕ, ◌+◌, ◌≡◌, refl, ◌∙◌, inl, inr, Bool, true, false, Option, none, some, Option-cases, List, [],
  ◌∷◌, ◌++◌, is_some,
}
use fx_deal_manager.Domain.{FxDeal, Payment}
use fx_deal_manager.Store.{
  Database, AuditLogEntry, Environment, Session, Error, Result, ok, Action, raise_if, or_raise,
  ◌>>=◌, flush, commit, write, get_by_id, save_new, save_existing, check_payment_save_fault,
  append_payments, replace_payments, log, find,
}
use fx_deal_manager.Store.Rows.{is_some-find-put}
use fx_deal_manager.Store.Steps.{Ends, written, logged, committed, added}

module _ {B : Type 0} (Q : Result B → Session → Type 0) where
  -- A guard that is met, and a value that is there.
  pub Ends-pass :
      (b : Bool) (e : Error) (k : Unit {0} → Action B) (s : Session)
      → b ≡ false
      → Ends Q (k tt s)
      → Ends Q ((raise_if b e >>= k) s)
  unfolding ◌>>=◌
  Ends-pass b e k s h done = rw (h, ◌>>=◌) done

  pub Ends-given :
      {A : Type 0} (o : Option A) (e : Error) (k : A → Action B) (s : Session) (a : A)
      → o ≡ some a
      → Ends Q (k a s)
      → Ends Q ((or_raise o e >>= k) s)
  unfolding ◌>>=◌
  Ends-given o e k s a h done = rw (h, ◌>>=◌) done

module _ (env : Environment) (accepting : (db : Database) → env.accepts db ≡ true) where
  pub flush_ok : (s : Session) → flush env s ≡ (ok tt, s)
  unfolding flush
  flush_ok s = rw (accepting s.current)

  pub log_ok : (entry : AuditLogEntry) (s : Session) → log env entry s ≡ (ok tt, logged entry s)
  unfolding log ◌>>=◌
  log_ok entry s = flush_ok (logged entry s)

  pub commit_ok : (s : Session) → commit env s ≡ (ok tt, committed s)
  unfolding commit ◌>>=◌
  commit_ok s = rw (flush_ok s)

  pub get_by_id_ok :
      (id : ℕ) (s : Session) (d : FxDeal)
      → find id s.current.deals ≡ some d
      → get_by_id env id s ≡ (ok d, s)
  unfolding get_by_id
  get_by_id_ok id s d h = rw (h, get_by_id)

  pub save_existing_ok :
      (d : FxDeal) (s : Session)
      → is_some (find d.id s.current.deals) ≡ true
      → save_existing env d s ≡ (ok d, s)
  unfolding save_existing ◌>>=◌
  save_existing_ok d s h = elim (Option-cases (find d.id s.current.deals)) [
    | inl e ↦ cc
    | inr (old, e) ↦ rw (flush_ok s, get_by_id_ok d.id s old e)
  ]

  pub save_new_ok :
      (d : FxDeal) (s : Session)
      → find d.id s.current.deals ≡ none
      → save_new env d s ≡ (ok d, added env d s)
  unfolding save_new ◌>>=◌
  save_new_ok d s h = rw (h, save_new) (rw (flush_ok (added env d s)))

  abbrev SameRows : Session → Session → Type 0
  SameRows s t = (id : ℕ) → is_some (find id t.current.deals) ≡ is_some (find id s.current.deals)

  pub clear_payments_ok :
      (d : FxDeal) (s : Session)
      → (let cleared = record d { payments = [] } in
          replace_payments env d [] s ≡ (ok cleared, written env cleared s))
  unfolding replace_payments append_payments ◌>>=◌ write
  clear_payments_ok d s = rw (flush_ok (written env (record d { payments = [] }) s))

  -- Payments are replaced where no fault is injected.
  module _ (no_fault : env.payment_save_fault_after ≡ none) where
    check_ok : (index : ℕ) (s : Session) → check_payment_save_fault env index s ≡ (ok tt, s)
    unfolding check_payment_save_fault ◌>>=◌
    check_ok index s = rw (no_fault, check_payment_save_fault)

    append_payments_ok :
        (ps : List Payment) (d : FxDeal) (index : ℕ) (s : Session)
        → (d' : FxDeal) × (t : Session) × (append_payments env d index ps s ≡ (ok d', t))
          × (d'.id ≡ d.id)
          × SameRows s t
    unfolding append_payments ◌>>=◌ write
    append_payments_ok [] d index s = (d, s, refl, refl, λ id. refl)
    append_payments_ok (p ∷ ps) d index s =
        let next = record d { payments = d.payments ++ (p ∷ []) } in
        let (d', t, e, f, g) = append_payments_ok ps next (index + 1) (written env next s) in
        (d', t, rw (check_ok index s) e, f, λ id. g id ∙ is_some-find-put id _ _)

    pub replace_payments_ok :
        (ps : List Payment) (d : FxDeal) (s : Session)
        → (d' : FxDeal) × (t : Session) × (replace_payments env d ps s ≡ (ok d', t))
          × (d'.id ≡ d.id)
          × SameRows s t
    unfolding replace_payments ◌>>=◌ write
    replace_payments_ok ps d s =
        let cleared = record d { payments = [] } in
        let (d', t, e, f, g) = append_payments_ok ps cleared 1 (written env cleared s) in
        (d', t, rw e (rw (flush_ok t)), f, λ id. g id ∙ is_some-find-put id _ _)
