-- ===== src/Audit/Telling.antt =====
-- What the entries on a deal tell of its state, in the order of their times.
use mathlib.Core.Path.{subst}
use mathlib.Core.Option.{some-injective}
use fx_deal_manager.Prelude.{
  ℕ, ◌≤◌, ◌<◌, ◌≡◌, ◌≢◌, ◌⊎◌, refl, sym, ◌∙◌, ap, Option, none, some, List, [], ◌∷◌, map, ◌==◌,
  if◌then◌else◌, Bool-cases, Option-cases, inl, inr, All, All-map, All-Has, Has, arith,
}
use fx_deal_manager.Domain.{DealState}
use fx_deal_manager.Store.{AuditValue}
use fx_deal_manager.History.Trail.{replay, told}
use fx_deal_manager.Audit.{AuditRow, AuditEventResponse, event}

-- The state that events tell, from a state before them; the oldest is the last of the list.
pub state_told : ℕ → List AuditEventResponse → Option DealState → Option DealState
state_told id [] old = old
state_told id (e ∷ es) old =
    let before = state_told id es old in
    if e.entity_id == id then told before e.new_value else before

-- What an entry tells of the state of the deal, if it does.
abbrev pub tells : ℕ → AuditRow → Option DealState
tells id row = if row.logged.entity_id == id then told none row.logged.new_value else none

-- The rows are in the order of their times, the newest first.
abbrev pub Falling : List AuditRow → Type 0
Falling [] = Unit
Falling (row ∷ rows) = All (λ x. x.created_at ≤ row.created_at) rows × Falling rows

-- Of the entries that tell the state of the deal each has a later time than those before.
abbrev pub Rising : ℕ → List AuditRow → Type 0
Rising id [] = Unit
Rising id (row ∷ rows) =
    ((tells id row ≡ none) ⊎ All (λ x. (tells id x ≡ none) ⊎ (row.created_at < x.created_at)) rows)
    × Rising id rows

-- The last of the entries that tell the state, and the state.
abbrev pub IsLatest : ℕ → List AuditRow → DealState → Type 0
IsLatest id rows s =
    (row : AuditRow) × Has row rows
    × (tells id row ≡ some s)
    × All (λ x. (tells id x ≡ none) ⊎ (x.created_at ≤ row.created_at)) rows

-- What is told, and by which entry.
abbrev pub IsTelling : ℕ → List AuditRow → Option DealState → Type 0
IsTelling id rows none = All (λ x. tells id x ≡ none) rows
IsTelling id rows (some s) = IsLatest id rows s

or_before : Option DealState → Option DealState → Option DealState
or_before none old = old
or_before (some s) old = some s

told-or_before :
    (old : Option DealState) (v : Option AuditValue) → told old v ≡ or_before (told none v) old
unfolding or_before
told-or_before old none = refl
told-or_before old (some (AuditValue.status new)) = refl
told-or_before old (some (AuditValue.cancellation new comment)) = refl
told-or_before old (some (AuditValue.verdict new decision comment)) = refl
told-or_before old (some (AuditValue.execution new c refs)) = refl
told-or_before old (some (AuditValue.sent result)) = elim (Bool-cases result.success) [
  | inl e ↦ rw e refl
  | inr e ↦ rw e refl
]
told-or_before old (some (AuditValue.updates payload)) = refl
told-or_before old (some (AuditValue.issues found)) = refl
told-or_before old (some (AuditValue.validated day count)) = refl
told-or_before old (some (AuditValue.nsi_errors errors)) = refl

module _ (id : ℕ) where
  after-tells :
      (row : AuditRow) (old : Option DealState)
      → (if row.logged.entity_id == id then told old row.logged.new_value else old)
        ≡ or_before (tells id row) old
  unfolding or_before
  after-tells row old = elim (Bool-cases (row.logged.entity_id == id)) [
    | inl e ↦ rw e (told-or_before old row.logged.new_value)
    | inr e ↦ rw e refl
  ]

  weaker :
      (row : AuditRow) (rows : List AuditRow)
      → All (λ x. x.created_at ≤ row.created_at) rows
      → All (λ x. (tells id x ≡ none) ⊎ (x.created_at ≤ row.created_at)) rows
  weaker row rows = All-map _ _ rows (λ x h. inr h)

  older_row :
      (row : AuditRow) (rows : List AuditRow) (o : Option DealState)
      → tells id row ≡ none
      → IsTelling id rows o
      → IsTelling id (row ∷ rows) o
  older_row row rows none e h = (e, h)
  older_row row rows (some s) e (last, there, tell, all) = (last, inr there, tell, (inl e, all))

  newest_row :
      (row : AuditRow) (rows : List AuditRow) (o : Option DealState)
      → All (λ x. x.created_at ≤ row.created_at) rows
      → IsTelling id rows o
      → IsTelling id (row ∷ rows) (or_before (tells id row) o)
  unfolding or_before
  newest_row row rows o newest h = elim (Option-cases (tells id row)) [
    | inl e ↦
        subst (λ t. IsTelling id (row ∷ rows) (or_before t o)) (sym e) (older_row row rows o e h)
    | inr (s, e) ↦
        subst (λ t. IsTelling id (row ∷ rows) (or_before t o)) (sym e)
          (row, inl refl, e, (inr (omega arith), weaker row rows newest))
  ]

  -- Read from the newest to the oldest.
  pub state_told-IsTelling :
      (rows : List AuditRow)
      → Falling rows
      → IsTelling id rows (state_told id (map event rows) none)
  unfolding state_told
  state_told-IsTelling [] h = tt
  state_told-IsTelling (row ∷ rows) (newest, rest) =
      subst (IsTelling id (row ∷ rows)) (sym (after-tells row _))
        (newest_row row rows _ newest (state_told-IsTelling rows rest))

  told_not_none : (row : AuditRow) (s : DealState) → tells id row ≡ some s → tells id row ≢ none
  told_not_none row s e h = let both = sym e ∙ h in cc

  before_last :
      (row : AuditRow) (rows : List AuditRow) (last : AuditRow) (s : DealState)
      → (tells id row ≡ none)
        ⊎ All (λ x. (tells id x ≡ none) ⊎ (row.created_at < x.created_at)) rows
      → Has last rows
      → tells id last ≡ some s
      → (tells id row ≡ none) ⊎ (row.created_at ≤ last.created_at)
  before_last row rows last s (inl e) there tell = inl e
  before_last row rows last s (inr later) there tell = elim (All-Has _ last rows later there) [
    | inl e ↦ elim (told_not_none last s tell e) [ ]
    | inr h ↦ inr (omega (arith, h))
  ]

  -- Read from the oldest to the newest, from a state before.
  replay-tells :
      (rows : List AuditRow) (old : Option DealState)
      → Rising id rows
      → (All (λ x. tells id x ≡ none) rows × (replay id (map (λ row. row.logged) rows) old ≡ old))
        ⊎ ((s : DealState) × (replay id (map (λ row. row.logged) rows) old ≡ some s)
            × IsLatest id rows s)
  unfolding replay or_before
  replay-tells [] old h = inl (tt, refl)
  replay-tells (row ∷ rows) old (first, rest) =
      let next = if row.logged.entity_id == id then told old row.logged.new_value else old in
      elim (replay-tells rows next rest) [
        | inr (s, e, (last, there, tell, all)) ↦
            inr (s, e, (last, inr there, tell, (before_last row rows last s first there tell, all)))
        | inl (silent, e) ↦
            let so_far = e ∙ after-tells row old in
            elim (Option-cases (tells id row)) [
              | inl f ↦ inl ((f, silent), so_far ∙ ap (λ t. or_before t old) f)
              | inr (s, f) ↦ inr (
                s,
                so_far ∙ ap (λ t. or_before t old) f,
                (row, inl refl, f, (inr (omega arith), All-map _ _ rows (λ x h. inl h) silent)),
              )
            ]
      ]

  pub replay-IsTelling :
      (rows : List AuditRow)
      → Rising id rows
      → IsTelling id rows (replay id (map (λ row. row.logged) rows) none)
  replay-IsTelling rows h = elim (replay-tells rows none h) [
    | inl (silent, e) ↦ subst (IsTelling id rows) (sym e) silent
    | inr (s, e, last) ↦ subst (IsTelling id rows) (sym e) last
  ]

  too_late :
      (row : AuditRow) (rows : List AuditRow) (x y : AuditRow) (s t : DealState)
      → (tells id row ≡ none)
        ⊎ All (λ x. (tells id x ≡ none) ⊎ (row.created_at < x.created_at)) rows
      → x ≡ row
      → Has y rows
      → tells id x ≡ some s
      → tells id y ≡ some t
      → x.created_at ≢ y.created_at
  too_late row rows x y s t (inl silent) a b e f same_time =
      told_not_none x s e (ap (tells id) a ∙ silent)
  too_late row rows x y s t (inr later) a b e f same_time = elim (All-Has _ y rows later b) [
    | inl silent ↦ told_not_none y t f silent
    | inr h ↦ let time = ap (λ r. r.created_at) a in omega (arith, h, time, same_time)
  ]

  -- Two entries that tell the state at one time are one.
  told_once :
      (rows : List AuditRow) (x y : AuditRow) (s t : DealState)
      → Rising id rows
      → Has x rows
      → Has y rows
      → tells id x ≡ some s
      → tells id y ≡ some t
      → x.created_at ≡ y.created_at
      → s ≡ t
  told_once [] x y s t h there there' e f same_time = elim there [ ]
  told_once (row ∷ rows) x y s t (first, rest) (inl a) (inl b) e f same_time =
      some-injective _ _ (sym e ∙ ap (tells id) (a ∙ sym b) ∙ f)
  told_once (row ∷ rows) x y s t (first, rest) (inl a) (inr b) e f same_time =
      elim (too_late row rows x y s t first a b e f same_time) [ ]
  told_once (row ∷ rows) x y s t (first, rest) (inr a) (inl b) e f same_time =
      elim (too_late row rows y x t s first b a f e (sym same_time)) [ ]
  told_once (row ∷ rows) x y s t (first, rest) (inr a) (inr b) e f same_time =
      told_once rows x y s t rest a b e f same_time

  at_most :
      (rows : List AuditRow) (x last : AuditRow) (s : DealState)
      → All (λ x. (tells id x ≡ none) ⊎ (x.created_at ≤ last.created_at)) rows
      → Has x rows
      → tells id x ≡ some s
      → x.created_at ≤ last.created_at
  at_most rows x last s all there tell = elim (All-Has _ x rows all there) [
    | inl e ↦ elim (told_not_none x s tell e) [ ]
    | inr h ↦ h
  ]

  -- The same entries, in another order, tell the same.
  pub same_told :
      (rows ordered : List AuditRow) (o o' : Option DealState)
      → Rising id rows
      → ((x : AuditRow) → Has x ordered → Has x rows)
      → ((x : AuditRow) (s : DealState) → Has x rows → tells id x ≡ some s → Has x ordered)
      → IsTelling id ordered o
      → IsTelling id rows o'
      → o ≡ o'
  same_told rows ordered none none h into back a b = refl
  same_told rows ordered none (some s) h into back a (x, there, tell, all) =
      elim (told_not_none x s tell (All-Has _ x ordered a (back x s there tell))) [ ]
  same_told rows ordered (some s) none h into back (x, there, tell, all) b =
      elim (told_not_none x s tell (All-Has _ x rows b (into x there))) [ ]
  same_told rows ordered (some s) (some t) h into back (x, there, tell, all)
        (y, there', tell', all') =
      let up = at_most rows x y s all' (into x there) tell in
      let down = at_most ordered y x t all (back y t there' tell') tell' in
      ap some (told_once rows x y s t h (into x there) there' tell tell' (omega (arith, up, down)))
