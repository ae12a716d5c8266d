-- ===== src/Base/Objects.antt =====
-- A JavaScript object used as a map: an association list in the order of insertion, as
-- `Object.keys` and `for in` give it (no key of the program is spelled like an array index).
use mathlib.Core.Option
use mathlib.Core.Path.{◌≡◌, refl, ap, ◌∙◌}
use mathlib.Core.List.{List, [], ◌∷◌, map}
use mathlib.Core.Option.{Option, none, some}
use native.Mathlib.Omega.{arith}
use manatee.Base.Tests.{if◌then◌else◌}
use manatee.Base.Texts.{Text, text_eq}

abbrev pub Object {ℓ} : Type ℓ → Type ℓ
Object V = List (Text × V)

module _ {ℓ} {V : Type ℓ} where
  -- `o[k]`
  unfoldable pub lookup : Text → List (Text × V) → Option V
  lookup k [] = none
  lookup k ((j, v) ∷ o) = if text_eq j k then some v else lookup k o

  -- `o[k] = v`
  unfoldable pub insert : Text → V → List (Text × V) → List (Text × V)
  insert k v [] = (k, v) ∷ []
  insert k v ((j, w) ∷ o) = if text_eq j k then (j, v) ∷ o else (j, w) ∷ insert k v o

  -- `Object.keys(o)`
  abbrev pub keys : List (Text × V) → List Text
  keys = map (λ e. e.0)

  -- No key stands twice.
  abbrev pub IsMap : List (Text × V) → Type ℓ
  IsMap [] = Unit
  IsMap ((k, v) ∷ o) = (lookup k o ≡ none) × IsMap o

  pub lookup-insert :
      (k q : Text) (v : V) (o : List (Text × V))
      → lookup q (insert k v o) ≡ (if text_eq k q then some v else lookup q o)
  unfolding lookup insert
  lookup-insert k q v [] = refl
  lookup-insert k q v ((j, w) ∷ o) = ground (arith, lookup-insert k q v o)

  pub insert-IsMap : (k : Text) (v : V) (o : List (Text × V)) → IsMap o → IsMap (insert k v o)
  unfolding insert lookup
  insert-IsMap k v [] h = (refl, tt)
  insert-IsMap k v ((j, w) ∷ o) (n, h) =
      ground (arith, n, h, lookup-insert k j v o, insert-IsMap k v o h)

module _ {ℓ κ} {V : Type ℓ} {W : Type κ} (f : V → W) where
  pub lookup-map :
      (q : Text) (o : List (Text × V))
      → lookup q (map (λ e. (e.0, f e.1)) o) ≡ Option.map f (lookup q o)
  unfolding lookup
  lookup-map q [] = refl
  lookup-map q ((j, v) ∷ o) = ground (arith, lookup-map q o)

  pub map-IsMap : (o : List (Text × V)) → IsMap o → IsMap (map (λ e. (e.0, f e.1)) o)
  map-IsMap [] h = tt
  map-IsMap ((j, v) ∷ o) (n, h) = (lookup-map j o ∙ ap (Option.map f) n, map-IsMap o h)
