-- ===== src/Store/Monad.antt =====
-- A coroutine of a service: it reads and changes the session, and returns or raises. What a raise
-- leaves in the session stays there until the session is closed or rolled back.
use fx_deal_manager.Prelude.{Bool, true, false, Option, none, some, List, ◌++◌}
use fx_deal_manager.Position.{Effect}
use fx_deal_manager.Store.Tables.{Session, Database, Error}

pub data Result (A : Type 0) : Type 0 where
  ok : A → Result A
  err : Error → Result A

abbrev pub Action : Type 0 → Type 0
Action A = Session → Result A × Session

module _ {A : Type 0} where
  unfoldable pub pure : A → Action A
  pure a s = (ok a, s)

  unfoldable pub raise : Error → Action A
  raise e s = (err e, s)

  unfoldable pub gets : (Database → A) → Action A
  gets f s = (ok (f s.current), s)

  unfoldable pub or_raise : Option A → Error → Action A
  or_raise none e s = (err e, s)
  or_raise (some a) _ s = (ok a, s)

  -- `try: ... except ...`, with a handler for every exception.
  abbrev pub recover : Result A × Session → (Error → Action A) → Result A × Session
  recover (ok a, s) handler = (ok a, s)
  recover (err e, s) handler = handler e s

  unfoldable pub catch : Action A → (Error → Action A) → Action A
  catch m handler s = recover (m s) handler

-- `if condition: raise ...`
unfoldable pub raise_if : Bool → Error → Action (Unit {0})
raise_if true e s = (err e, s)
raise_if false e s = (ok tt, s)

unfoldable pub modify : (Database → Database) → Action (Unit {0})
modify f s = (ok tt, record s { current = f s.current })

-- Traffic with the position system, which no rollback takes back.
unfoldable pub emit : List Effect → Action (Unit {0})
emit effects s = (ok tt, record s { effects = s.effects ++ effects })

abbrev pub continue : {A B : Type 0} → Result A × Session → (A → Action B) → Result B × Session
continue (ok a, s) f = f a s
continue (err e, s) f = (err e, s)

-- Its `unfolding` line opens the actions above with it.
infixl 5 ◌>>=◌ ◌>>◌
unfoldable pub ◌>>=◌ : {A B : Type 0} → Action A → (A → Action B) → Action B
unfolding pure raise gets or_raise catch raise_if modify emit
◌>>=◌ m f s = continue (m s) f

abbrev pub ◌>>◌ : {A B : Type 0} → Action A → Action B → Action B
m >> k = m >>= λ _. k
