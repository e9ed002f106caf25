-- ===== src/Prelude/Dicts.antt =====
-- Dictionaries under writes, and in the order of their keys.
use Prim.Native.String.{String}
use mathlib.Core.Path.{◌≡◌, refl, ap, ◌∙◌}
use mathlib.Core.Logic.{inl, inr}
use mathlib.Core.Bool.{Bool, true}
use mathlib.Core.Option.{Option, none, some}
use mathlib.Core.List.{[], ◌∷◌}
use native.Mathlib.Omega.{arith}
use fx_deal_manager.Prelude.Tests.{if◌then◌else◌, Bool-cases}
use fx_deal_manager.Prelude.Texts.{same}
use fx_deal_manager.Prelude.Lists.{Dict, get, insert, set_default}

module _ {V : Type 0} where
  -- A value, or else another one.
  abbrev pub or_else : Option V → Option V → Option V
  or_else none other = other
  or_else (some a) other = some a

  pub get-insert :
      (k j : String) (v : V) (d : Dict V)
      → get k (insert j v d) ≡ (if same j k then some v else get k d)
  get-insert k j v [] = refl
  get-insert k j v ((i, w) ∷ d) = ground (arith, get-insert k j v d)

  pub get-set_default :
      (k j : String) (v : V) (d : Dict V)
      → get k (set_default j v d) ≡ or_else (get k d) (if same j k then some v else none)
  get-set_default k j v [] = refl
  get-set_default k j v ((i, w) ∷ d) = ground (arith, get-set_default k j v d)

  pub get-same : (j k : String) (d : Dict V) → same j k ≡ true → get j d ≡ get k d
  get-same j k d h = let e : j ≡ k = ground arith in ap (λ x. get x d) e

  -- No key twice.
  abbrev pub Unique : Dict V → Type 0
  Unique [] = Unit
  Unique ((k, v) ∷ d) = (get k d ≡ none) × Unique d

  pub Unique-insert : (k : String) (v : V) (d : Dict V) → Unique d → Unique (insert k v d)
  Unique-insert k v [] h = (refl, tt)
  Unique-insert k v ((i, w) ∷ d) h = elim (Bool-cases (same i k)) [
    | inl e ↦ rw e h
    | inr e ↦ rw e (get-insert i k v d ∙ ground (arith, h.0), Unique-insert k v d h.1)
  ]

  pub Unique-set_default : (k : String) (v : V) (d : Dict V) → Unique d → Unique (set_default k v d)
  Unique-set_default k v [] h = (refl, tt)
  Unique-set_default k v ((i, w) ∷ d) h = elim (Bool-cases (same i k)) [
    | inl e ↦ rw e h
    | inr e ↦ rw e (get-set_default i k v d ∙ ground (arith, h.0), Unique-set_default k v d h.1)
  ]

  -- `sorted(d.items())` for a dictionary, whose keys all differ; the order of texts is a parameter.
  module _ (before : String → String → Bool) where
    unfoldable pub insert_sorted : String → V → Dict V → Dict V
    insert_sorted code a [] = (code, a) ∷ []
    insert_sorted code a ((next, b) ∷ rest) =
        let further = insert_sorted code a rest in
        if before code next then (code, a) ∷ (next, b) ∷ rest else (next, b) ∷ further

    unfoldable pub sorted : Dict V → Dict V
    sorted [] = []
    sorted ((code, a) ∷ d) = insert_sorted code a (sorted d)

    get-insert_sorted :
        (k code : String) (a : V) (d : Dict V)
        → get code d ≡ none
        → get k (insert_sorted code a d) ≡ (if same code k then some a else get k d)
    unfolding insert_sorted
    get-insert_sorted k code a [] h = refl
    get-insert_sorted k code a ((next, b) ∷ rest) h = elim (Bool-cases (before code next)) [
      | inl e ↦ rw e refl
      | inr e ↦ rw e (ground (arith, h, get-insert_sorted k code a rest))
    ]

    pub get-sorted : (k : String) (d : Dict V) → Unique d → get k (sorted d) ≡ get k d
    unfolding sorted
    get-sorted k [] h = refl
    get-sorted k ((code, a) ∷ d) h =
        get-insert_sorted k code a (sorted d) (get-sorted code d h.1 ∙ h.0)
        ∙ ap (λ o. if same code k then some a else o) (get-sorted k d h.1)
