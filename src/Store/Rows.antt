-- ===== src/Store/Rows.antt =====
-- The rows of `fx_deal` under `find` and `put`.
use fx_deal_manager.Prelude.{
  ℕ, ◌≡◌, refl, ◌∙◌, none, some, List, [], ◌∷◌, ◌++◌, arith, ◌==◌, if◌then◌else◌, is_some,
}
use fx_deal_manager.Domain.{FxDeal}
use fx_deal_manager.Store.{find, put}

-- A row that is found has the identifier looked for.
pub find-id : (id : ℕ) (d : FxDeal) (rows : List FxDeal) → find id rows ≡ some d → d.id ≡ id
unfolding find
find-id id d [] h = cc
find-id id d (row ∷ rows) h = ground (arith, find-id id d rows)

-- Of two writes to a row the second counts.
pub put-put : (a b : FxDeal) (rows : List FxDeal) → b.id ≡ a.id → put b (put a rows) ≡ put b rows
unfolding put
put-put a b [] e = refl
put-put a b (row ∷ rows) e = ground (arith, put-put a b rows e)

-- Three writes to one row, of which the last counts.
pub third_put :
    (a b c : FxDeal) (rows : List FxDeal)
    → b.id ≡ a.id
    → c.id ≡ b.id
    → put c (put b (put a rows)) ≡ put c rows
third_put a b c rows e f = put-put b c (put a rows) f ∙ put-put a c rows (f ∙ e)

-- A lookup after a write.
pub find-put :
    (id : ℕ) (d old : FxDeal) (rows : List FxDeal)
    → find d.id rows ≡ some old
    → find id (put d rows) ≡ (if d.id == id then some d else find id rows)
unfolding find put
find-put id d old [] h = cc
find-put id d old (row ∷ rows) h = ground (arith, find-put id d old rows)

pub find-append :
    (id : ℕ) (d : FxDeal) (rows : List FxDeal)
    → find d.id rows ≡ none
    → find id (rows ++ (d ∷ [])) ≡ (if d.id == id then some d else find id rows)
unfolding find
find-append id d [] h = refl
find-append id d (row ∷ rows) h = ground (arith, find-append id d rows)

-- A write to a row leaves the same rows.
pub is_some-find-put :
    (id : ℕ) (d : FxDeal) (rows : List FxDeal)
    → is_some (find id (put d rows)) ≡ is_some (find id rows)
unfolding find put
is_some-find-put id d [] = refl
is_some-find-put id d (row ∷ rows) = ground (arith, is_some-find-put id d rows)
