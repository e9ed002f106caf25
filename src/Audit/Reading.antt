-- ===== src/Audit/Reading.antt =====
-- What a reader of the audit log learns from its pages.
use fx_deal_manager.Prelude.{
  ℕ, zero, suc, ◌-◌, ◌*◌, ◌≤◌, String, ◌≡◌, ◌↔◌, refl, sym, ◌∙◌, ap, Bool, none, some, List, [],
  ◌∷◌, ◌++◌, map, length, Has,
}
use fx_deal_manager.Listings.{skip, take}
use fx_deal_manager.Listings.Pages.{joined, joined-take, take-all}
use fx_deal_manager.Audit.{
  AuditRow, EventFilter, AuditEventResponse, event, events_selected, list_events, event_page,
}
use fx_deal_manager.Audit.Telling.{Falling}

-- The filter for the events of one entity.
abbrev pub about : ℕ → EventFilter
about id = record { entity_id = some id; user_id = none; date_from = none; date_to = none }

map-append : {A B : Type 0} (f : A → B) (xs ys : List A) → map f (xs ++ ys) ≡ map f xs ++ map f ys
map-append f [] ys = refl
map-append f (x ∷ xs) ys = ap (λ zs. f x ∷ zs) (map-append f xs ys)

module _ (ilike : String → String → Bool) (arrange : ℕ → List AuditRow → List AuditRow)
    (rows : List AuditRow) (id page_size : ℕ) where
  -- The events of so many pages on an entity, one after the other. `arrange n` is how the database orders
  -- the rows of the statement for page `n`.
  pub first_events : ℕ → List AuditEventResponse
  first_events zero = []
  first_events (suc n) =
      first_events n ++ (event_page ilike (arrange (suc n)) rows (about id) (suc n) page_size).items

  -- Where the statements for all pages are answered in one order, they are pages of one list.
  first_events-joined :
      (ordered : List AuditRow)
      → ((n : ℕ) → arrange n (events_selected ilike rows (about id)) ≡ ordered)
      → (n : ℕ) → first_events n ≡ map event (joined ordered page_size n)
  unfolding first_events event_page list_events joined
  first_events-joined ordered alike zero = refl
  first_events-joined ordered alike (suc n) =
      (λ i.
        first_events-joined ordered alike n i
        ++ map event (take page_size (skip ((suc n - 1) * page_size) (alike (suc n) i))))
      ∙ sym (map-append event (joined ordered page_size n) _)

  pub first_events_all :
      (ordered : List AuditRow)
      → ((n : ℕ) → arrange n (events_selected ilike rows (about id)) ≡ ordered)
      → (n : ℕ) → length ordered ≤ n * page_size
      → first_events n ≡ map event ordered
  first_events_all ordered alike n h =
      first_events-joined ordered alike n
      ∙ ap (map event) (joined-take ordered page_size n ∙ take-all (n * page_size) ordered h)

-- What `ORDER BY created_at DESC` promises: the same rows, as many, in falling order of their times.
pub record IsOrder (chosen ordered : List AuditRow) : Type 0 where
  pub as_many : length ordered ≡ length chosen
  pub members : (x : AuditRow) → Has x ordered ↔ Has x chosen
  pub falling : Falling ordered
