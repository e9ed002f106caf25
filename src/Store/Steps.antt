-- ===== src/Store/Steps.antt =====
-- How a coroutine ends, step by step: one rule for each action that a service begins with. `Q` is
-- what is claimed of the result and of the session at the end; every exception that leaves the
-- committed database at `db` satisfies it.
use fx_deal_manager.Prelude.{
  ℕ, ◌≡◌, refl, ◌∙◌, ◌⊎◌, inl, inr, Bool-cases, Option-cases, Bool, true, false, Option, none, some,
  List, [], ◌∷◌, ◌++◌,
}
use fx_deal_manager.Domain.{FxDeal, DealState, ValidationStatus}
use fx_deal_manager.Position.{Effect}
use fx_deal_manager.Store.{
  Database, AuditLogEntry, Environment, Session, Error, internal, database_error, deal_not_found,
  Result, ok, err, Action, continue, recover, catch, pure, raise, raise_if, gets, or_raise, emit,
  ◌>>=◌, flush, commit, write, get_by_id, set_validation_status, set_deal_state, save_new,
  save_existing, log, at_rest, find, put,
}

pub record Ends {B : Type 0} (Q : Result B → Session → Type 0) (end : Result B × Session)
    : Type 0 where
  pub holds : Q end.0 end.1

-- The session after a deal is written, after an entry is logged, and after a commit.
abbrev pub written : Environment → FxDeal → Session → Session
written env deal s = record s {
  current = record (s.current) { deals = put (at_rest env deal) s.current.deals };
}

abbrev pub logged : AuditLogEntry → Session → Session
logged entry s = record s {
  current = record (s.current) { audit_log = s.current.audit_log ++ (entry ∷ []) };
}

abbrev pub added : Environment → FxDeal → Session → Session
added env deal s = record s {
  current = record (s.current) { deals = s.current.deals ++ (at_rest env deal ∷ []) };
}

abbrev pub committed : Session → Session
committed s = record s { stored = s.current }

module _ {B : Type 0} (Q : Result B → Session → Type 0) where
  pub Ends-pure : (b : B) (s : Session) → Q (ok b) s → Ends Q (pure b s)
  unfolding pure
  Ends-pure b s h = record { holds = h }

  pub Ends-raise : (e : Error) (s : Session) → Q (err e) s → Ends Q (raise e s)
  unfolding raise
  Ends-raise e s h = record { holds = h }

  -- A step with a known outcome.
  pub Ends-ok :
      {A : Type 0} (m : Action A) (k : A → Action B) (s t : Session) (a : A)
      → m s ≡ (ok a, t)
      → Ends Q (k a t)
      → Ends Q ((m >>= k) s)
  unfolding ◌>>=◌
  Ends-ok m k s t a e h = rw (e, ◌>>=◌) h

  pub Ends-err :
      {A : Type 0} (m : Action A) (k : A → Action B) (s t : Session) (x : Error)
      → m s ≡ (err x, t)
      → Q (err x) t
      → Ends Q ((m >>= k) s)
  unfolding ◌>>=◌
  Ends-err m k s t x e h = rw (e, ◌>>=◌) (record { holds = h })

  pub Ends-raise_if :
      (b : Bool) (e : Error) (k : Unit {0} → Action B) (s : Session)
      → (b ≡ true → Q (err e) s)
      → (b ≡ false → Ends Q (k tt s))
      → Ends Q ((raise_if b e >>= k) s)
  unfolding ◌>>=◌
  Ends-raise_if true e k s hx h = record { holds = hx refl }
  Ends-raise_if false e k s hx h = h refl

  pub Ends-gets :
      {A : Type 0} (f : Database → A) (k : A → Action B) (s : Session)
      → Ends Q (k (f s.current) s)
      → Ends Q ((gets f >>= k) s)
  unfolding ◌>>=◌
  Ends-gets f k s h = h

  pub Ends-or_raise :
      {A : Type 0} (o : Option A) (e : Error) (k : A → Action B) (s : Session)
      → (o ≡ none → Q (err e) s)
      → ((a : A) → o ≡ some a → Ends Q (k a s))
      → Ends Q ((or_raise o e >>= k) s)
  unfolding ◌>>=◌
  Ends-or_raise none e k s hx h = record { holds = hx refl }
  Ends-or_raise (some a) e k s hx h = h a refl

  pub Ends-emit :
      (effects : List Effect) (k : Unit {0} → Action B) (s : Session)
      → Ends Q (k tt (record s { effects = s.effects ++ effects }))
      → Ends Q ((emit effects >>= k) s)
  unfolding ◌>>=◌
  Ends-emit effects k s h = h

  module _ (env : Environment) where
    pub Ends-write :
        (deal : FxDeal) (k : FxDeal → Action B) (s : Session)
        → Ends Q (k deal (written env deal s))
        → Ends Q ((write env deal >>= k) s)
    unfolding ◌>>=◌ write
    Ends-write deal k s h = h

    pub Ends-set_deal_state :
        (deal : FxDeal) (state : DealState) (k : FxDeal → Action B) (s : Session)
        → (let moved = record deal { deal_state = state } in Ends Q (k moved (written env moved s)))
        → Ends Q ((set_deal_state env deal state >>= k) s)
    unfolding ◌>>=◌ set_deal_state write
    Ends-set_deal_state deal state k s h = h

    pub Ends-set_validation_status :
        (deal : FxDeal) (verdict : ValidationStatus) (k : FxDeal → Action B) (s : Session)
        → (let marked = record deal { validation_status = verdict } in
            Ends Q (k marked (written env marked s)))
        → Ends Q ((set_validation_status env deal verdict >>= k) s)
    unfolding ◌>>=◌ set_validation_status write
    Ends-set_validation_status deal verdict k s h = h

-- An action that returns `a` in session `t`, or raises with nothing more committed than before.
pub data Tries {A : Type 0} (m : Action A) (s : Session) (a : A) (t : Session) : Type 0 where
  returns : m s ≡ (ok a, t) → Tries m s a t
  raises : (x : Error) (u : Session) → m s ≡ (err x, u) → u.stored ≡ s.stored → Tries m s a t

-- What is claimed of a part of a block, when `Q` is claimed of the block and `k` is the rest of it.
abbrev pub After :
    {A B : Type 0} (Q : Result B → Session → Type 0) (k : A → Action B)
    → Result A
    → Session
    → Type 0
After Q k (ok a) t = Ends Q (k a t)
After Q k (err x) t = Q (err x) t

-- The same of the body of a `try`, whose handler is `h`.
abbrev pub Handled :
    {A : Type 0} (Q : Result A → Session → Type 0) (h : Error → Action A)
    → Result A
    → Session
    → Type 0
Handled Q h (ok a) t = Q (ok a) t
Handled Q h (err x) t = Ends Q (h x t)

module _ {A B : Type 0} (Q : Result B → Session → Type 0) where
  Ends-After :
      (k : A → Action B) (end : Result A × Session)
      → After Q k end.0 end.1
      → Ends Q (continue end k)
  Ends-After k (ok a, t) h = h
  Ends-After k (err x, t) h = record { holds = h }

  pub Ends-part :
      (m : Action A) (k : A → Action B) (s : Session)
      → Ends (After Q k) (m s)
      → Ends Q ((m >>= k) s)
  unfolding ◌>>=◌
  Ends-part m k s h = Ends-After k (m s) h.holds

module _ {A : Type 0} (Q : Result A → Session → Type 0) where
  Ends-Handled :
      (h : Error → Action A) (end : Result A × Session)
      → Handled Q h end.0 end.1
      → Ends Q (recover end h)
  Ends-Handled h (ok a, t) e = record { holds = e }
  Ends-Handled h (err x, t) e = e

  pub Ends-catch :
      (m : Action A) (h : Error → Action A) (s : Session)
      → Ends (Handled Q h) (m s)
      → Ends Q (catch m h s)
  unfolding catch
  Ends-catch m h s e = Ends-Handled h (m s) e.holds

module _ (env : Environment) where
  pub flush-Tries : (s : Session) → Tries (flush env) s tt s
  unfolding flush
  flush-Tries s = elim (Bool-cases (env.accepts s.current)) [
    | inl yes' ↦ returns (rw yes')
    | inr no' ↦ raises (internal database_error) s (rw no') refl
  ]

  pub log-Tries :
      (entry : AuditLogEntry) (s : Session) → Tries (log env entry) s tt (logged entry s)
  unfolding log ◌>>=◌
  log-Tries entry s = elim (flush-Tries (logged entry s)) [
    | returns e ↦ returns e
    | raises x u e kept ↦ raises x u e kept
  ]

  pub commit-Tries : (s : Session) → Tries (commit env) s tt (committed s)
  unfolding commit ◌>>=◌
  commit-Tries s = elim (flush-Tries s) [
    | returns e ↦ returns (rw e)
    | raises x u e kept ↦ raises x u (rw e) kept
  ]

  pub get_tries :
      (id : ℕ) (s : Session)
      → (get_by_id env id s ≡ (err deal_not_found, s))
        ⊎ ((d : FxDeal) × (get_by_id env id s ≡ (ok d, s)) × (find id s.current.deals ≡ some d))
  unfolding get_by_id
  get_tries id s = elim (Option-cases (find id s.current.deals)) [
    | inl e ↦ inl (rw (e, get_by_id))
    | inr (d, e) ↦ inr (d, rw (e, get_by_id), e)
  ]

  pub save-Tries : (deal : FxDeal) (s : Session) → Tries (save_existing env deal) s deal s
  unfolding save_existing ◌>>=◌
  save-Tries deal s = elim (flush-Tries s) [
    | raises x u e kept ↦ raises x u (rw e) kept
    | returns e ↦ elim (get_tries deal.id s) [
      | inl g ↦ raises deal_not_found s (rw (e, g)) refl
      | inr (d, g, found) ↦ returns (rw (e, g))
    ]
  ]

-- The rules for actions that may raise, where an exception with the committed database at `db`
-- meets the claim.
module _ {B : Type 0} (Q : Result B → Session → Type 0) (db : Database)
    (quiet : (x : Error) (u : Session) → u.stored ≡ db → Q (err x) u) where
  pub Ends-Tries :
      {A : Type 0} (m : Action A) (k : A → Action B) {s t : Session} {a : A}
      → Tries m s a t
      → s.stored ≡ db
      → Ends Q (k a t)
      → Ends Q ((m >>= k) s)
  Ends-Tries m k {s} {t} {a} (returns e) h done = Ends-ok Q m k s t a e done
  Ends-Tries m k {s} {t} {a} (raises x u e kept) h done =
      Ends-err Q m k s u x e (quiet x u (kept ∙ h))

  module _ (env : Environment) where
    pub Ends-log :
        (entry : AuditLogEntry) (k : Unit {0} → Action B) (s : Session)
        → s.stored ≡ db
        → Ends Q (k tt (logged entry s))
        → Ends Q ((log env entry >>= k) s)
    Ends-log entry k s = Ends-Tries (log env entry) k (log-Tries env entry s)

    pub Ends-commit :
        (k : Unit {0} → Action B) (s : Session)
        → s.stored ≡ db
        → Ends Q (k tt (committed s))
        → Ends Q ((commit env >>= k) s)
    Ends-commit k s = Ends-Tries (commit env) k (commit-Tries env s)

    pub Ends-save_existing :
        (deal : FxDeal) (k : FxDeal → Action B) (s : Session)
        → s.stored ≡ db
        → Ends Q (k deal s)
        → Ends Q ((save_existing env deal >>= k) s)
    Ends-save_existing deal k s = Ends-Tries (save_existing env deal) k (save-Tries env deal s)

    -- A new row is there after `save_new`; an identifier that is taken is refused.
    pub Ends-save_new :
        (d : FxDeal) (k : FxDeal → Action B) (s : Session)
        → s.stored ≡ db
        → (find d.id s.current.deals ≡ none → Ends Q (k d (added env d s)))
        → Ends Q ((save_new env d >>= k) s)
    unfolding save_new ◌>>=◌
    Ends-save_new d k s kept done = elim (Option-cases (find d.id s.current.deals)) [
      | inr (old, e) ↦
          Ends-err Q (save_new env d) k s s (internal database_error) (rw (e, save_new))
            (quiet _ s kept)
      | inl e ↦ elim (flush-Tries env (added env d s)) [
        | returns f ↦
            Ends-ok Q (save_new env d) k s (added env d s) d (rw (e, save_new) (rw f)) (done e)
        | raises x u f g ↦
            Ends-err Q (save_new env d) k s u x (rw (e, save_new) (rw f)) (quiet x u (g ∙ kept))
      ]
    ]
