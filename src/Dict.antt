-- ===== src/Dict.antt =====
-- A Go `map[string]V`, as the list of its entries, each key once.
pub mod Laws
use toomanyhours_api.Prelude.{◌≡◌, Bool, Option, none, some, List, [], ◌∷◌, if◌then◌else◌}
use toomanyhours_api.Text.{Text, same}

abbrev pub Dict {ℓ} : Type ℓ → Type ℓ
Dict V = List (Text × V)

module _ {ℓ} {V : Type ℓ} where
  -- `value, ok := entries[key]`
  unfoldable pub lookup : Text → Dict V → Option V
  lookup key [] = none
  lookup key ((name, value) ∷ entries) =
      let rest = lookup key entries in if same name key then some value else rest

  -- `entries[key] = value`
  unfoldable pub insert : Text → V → Dict V → Dict V
  insert key value [] = (key, value) ∷ []
  insert key value ((name, old) ∷ entries) =
      let rest = insert key value entries in
      if same name key then (name, value) ∷ entries else (name, old) ∷ rest

  -- `delete(entries, key)`
  unfoldable pub erase : Text → Dict V → Dict V
  erase key [] = []
  erase key ((name, old) ∷ entries) =
      let rest = erase key entries in if same name key then rest else (name, old) ∷ rest

  -- No key stands twice.
  abbrev pub Distinct : Dict V → Type ℓ
  Distinct [] = Unit
  Distinct ((name, value) ∷ entries) = (lookup name entries ≡ none) × Distinct entries
