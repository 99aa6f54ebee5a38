-- ===== src/Dict/Laws.antt =====
-- The laws of a map, in the form that tactics use.
use toomanyhours_api.Prelude.{true, ◌≡◌, refl, none, some, [], ◌∷◌, if◌then◌else◌, arith}
use toomanyhours_api.Text.{Text, same, same_iff, same_refl, same→eq}
use toomanyhours_api.Dict.{Dict, lookup, insert, erase, Distinct}

pub same_sym : (a b : Text) → same a b ≡ same b a
same_sym a b = ground (arith, same_iff a b, same_iff b a, same_refl a)

-- Two keys that are one compare alike with a third.
pub same_left : (a b c : Text) → same a b ≡ true → same a c ≡ same b c
same_left a b c h = ground (arith, same→eq a b)

module _ {ℓ} {V : Type ℓ} where
  pub lookup-insert :
      (key asked : Text) (value : V) (entries : Dict V)
      → lookup asked (insert key value entries)
        ≡ (if same key asked then some value else lookup asked entries)
  unfolding lookup insert
  lookup-insert key asked value [] = refl
  lookup-insert key asked value ((name, old) ∷ entries) = ground (
    arith,
    lookup-insert key asked value entries,
    same_refl key,
    same_iff name asked,
    same_iff name key,
    same_iff key asked,
  )

  pub lookup-erase :
      (key asked : Text) (entries : Dict V)
      → lookup asked (erase key entries) ≡ (if same key asked then none else lookup asked entries)
  unfolding lookup erase
  lookup-erase key asked [] = ground arith
  lookup-erase key asked ((name, old) ∷ entries) = ground (
    arith,
    lookup-erase key asked entries,
    same_refl key,
    same_iff name asked,
    same_iff name key,
    same_iff key asked,
  )

  pub insert-Distinct : (k : Text) (v : V) (m : Dict V) → Distinct m → Distinct (insert k v m)
  unfolding insert lookup
  insert-Distinct k v [] d = (refl, tt)
  insert-Distinct k v ((i, w) ∷ m) d =
      ground (arith, insert-Distinct k v m d.1, lookup-insert k i v m, same_sym k i)

  pub erase-Distinct : (k : Text) (m : Dict V) → Distinct m → Distinct (erase k m)
  unfolding erase
  erase-Distinct k [] d = tt
  erase-Distinct k ((i, w) ∷ m) d = ground (arith, erase-Distinct k m d.1, lookup-erase k i m)

  module _ {κ} (P : V → Type κ) where
    -- A property of every value.
    abbrev pub Values : Dict V → Type κ
    Values [] = Unit
    Values ((k, v) ∷ m) = P v × Values m

    pub lookup-Values : (k : Text) (m : Dict V) (v : V) → Values m → lookup k m ≡ some v → P v
    unfolding lookup
    lookup-Values k [] v h e = absurd (ground arith)
    lookup-Values k ((i, w) ∷ m) v h e = ground (arith, lookup-Values k m v h.1)

    pub insert-Values : (k : Text) (v : V) (m : Dict V) → P v → Values m → Values (insert k v m)
    unfolding insert
    insert-Values k v [] p h = (p, tt)
    insert-Values k v ((i, w) ∷ m) p h = ground (arith, insert-Values k v m p h.1)

    pub erase-Values : (k : Text) (m : Dict V) → Values m → Values (erase k m)
    unfolding erase
    erase-Values k [] h = tt
    erase-Values k ((i, w) ∷ m) h = ground (arith, erase-Values k m h.1)
