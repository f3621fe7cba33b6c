-- ===== src/Common/Dict.antt =====
-- Go's maps with text keys, as association lists: an absent key reads as `none`.
use Prim.Native.String.{String}
use mathlib.Core.Path.{◌≡◌, refl}
use mathlib.Core.Option.{Option, none, some}
use mathlib.Core.List.{List, [], ◌∷◌}
use native.Mathlib.Omega.{arith}
use text.Mathlib.Text.{◌==◌}
use text.Mathlib.TextEquality.{eq_iff}
use text.Mathlib.TextPositions.{eq_refl}
use ssh_moonminer.Common.Tests.{if◌then◌else◌}

abbrev pub Dict {ℓ} : Type ℓ → Type ℓ
Dict V = List (String × V)

module _ {ℓ} {V : Type ℓ} where
  unfoldable pub lookup : String → Dict V → Option V
  lookup key [] = none
  lookup key ((first, x) ∷ others) = if first == key then some x else lookup key others

  -- delete(m, key)
  unfoldable pub delete : String → Dict V → Dict V
  delete key [] = []
  delete key ((first, x) ∷ others) =
      let kept = delete key others in if first == key then kept else (first, x) ∷ kept

  -- m[key] = x: in place, or after all the others.
  unfoldable pub insert : String → V → Dict V → Dict V
  insert key x [] = (key, x) ∷ []
  insert key x ((first, y) ∷ others) =
      if first == key then (key, x) ∷ others else (first, y) ∷ insert key x others

  pub lookup-delete :
      (key j : String) (m : Dict V)
      → lookup j (delete key m) ≡ (if key == j then none else lookup j m)
  unfolding lookup delete
  lookup-delete key j [] = ground arith
  lookup-delete key j ((i, y) ∷ m) =
      ground (arith, lookup-delete key j m, eq_iff i j, eq_iff i key, eq_iff key j)

  pub lookup-insert :
      (key j : String) (x : V) (m : Dict V)
      → lookup j (insert key x m) ≡ (if key == j then some x else lookup j m)
  unfolding insert lookup
  lookup-insert key j x [] = refl
  lookup-insert key j x ((i, y) ∷ m) =
      ground (arith, lookup-insert key j x m, eq_iff i j, eq_iff i key, eq_iff key j)

  pub lookup-insert_self :
      (key : String) (x : V) (m : Dict V) → lookup key (insert key x m) ≡ some x
  lookup-insert_self key x m = simp (eq_refl, lookup-insert)

  pub insert-insert :
      (key : String) (x y : V) (m : Dict V) → insert key y (insert key x m) ≡ insert key y m
  unfolding insert
  insert-insert key x y [] = rw eq_refl
  insert-insert key x y ((i, u) ∷ m) =
      ground (arith, insert-insert key x y m, eq_refl key, eq_iff i key)

  -- Writing back the value that a key has changes nothing.
  pub insert-lookup :
      (key : String) (x : V) (m : Dict V) → lookup key m ≡ some x → insert key x m ≡ m
  unfolding insert lookup
  insert-lookup key x [] h = ground arith
  insert-lookup key x ((i, u) ∷ m) h = ground (arith, insert-lookup key x m, eq_iff i key)
