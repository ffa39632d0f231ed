-- ===== src/Base/Dict.antt =====
-- A JavaScript `Map`: setting a key that is there keeps its place, a new key goes to the end.
use onsheet_backend.Base.Equality.{Eq, ◌==◌}
use onsheet_backend.Base.Tests.{if◌then◌else◌}
use mathlib.Core.Path.{◌≡◌, refl}
use mathlib.Core.Option.{Option, none, some}
use mathlib.Core.List.{List, [], ◌∷◌, map}
use native.Mathlib.Omega.{arith}

abbrev pub Dict : Type 0 → Type 0 → Type 0
Dict K V = List (K × V)

module _ {K V : Type 0} ⦃e : Eq K⦄ where
  abbrev pub lookup : K → Dict K V → Option V
  lookup k [] = none
  lookup k ((j, v) ∷ d) = if j == k then some v else lookup k d

  abbrev pub insert : K → V → Dict K V → Dict K V
  insert k v [] = (k, v) ∷ []
  insert k v ((j, w) ∷ d) = let rest = insert k v d in if j == k then (j, v) ∷ d else (j, w) ∷ rest

  abbrev pub erase : K → Dict K V → Dict K V
  erase k [] = []
  erase k ((j, v) ∷ d) = let rest = erase k d in if j == k then rest else (j, v) ∷ rest

  abbrev pub values : Dict K V → List V
  values = map (λ x. x.1)

  pub lookup-insert :
      (k j : K) (v : V) (d : Dict K V)
      → lookup j (insert k v d) ≡ (if k == j then some v else lookup j d)
  lookup-insert k j v [] = refl
  lookup-insert k j v ((i, w) ∷ d) =
      ground (arith, lookup-insert k j v d, e.same_iff i k, e.same_iff i j, e.same_iff k j)

  pub lookup-erase :
      (k j : K) (d : Dict K V) → lookup j (erase k d) ≡ (if k == j then none else lookup j d)
  lookup-erase k j [] = ground arith
  lookup-erase k j ((i, w) ∷ d) =
      ground (arith, lookup-erase k j d, e.same_iff i k, e.same_iff i j, e.same_iff k j)

  -- No key stands twice.
  abbrev pub IsUnique : Dict K V → Type 0
  IsUnique [] = Unit
  IsUnique ((j, v) ∷ d) = (lookup j d ≡ none) × IsUnique d

  pub IsUnique-insert : (k : K) (w : V) (d : Dict K V) → IsUnique d → IsUnique (insert k w d)
  IsUnique-insert k w [] u = (refl, tt)
  IsUnique-insert k w ((j, v) ∷ d) u =
      ground
        (arith, IsUnique-insert k w d u.1, lookup-insert k j w d, e.same_iff j k, e.same_iff k j)
