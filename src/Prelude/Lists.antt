-- ===== src/Prelude/Lists.antt =====
-- Lists measured by native numbers, predicates on all members, and Go's maps as association lists.
use Prim.Native.Nat.{ℕ, suc, ◌+◌}
use Prim.Native.String.{String}
use text.Mathlib.Text.{◌==◌ as str_eq}
use text.Mathlib.TextEquality.{eq_iff}
use mathlib.Core.Path.{◌≡◌, refl}
use mathlib.Core.Bool.{Bool, false, ◌||◌}
use mathlib.Core.List.{List, [], ◌∷◌, ◌++◌}
use mathlib.Core.Option.{Option, none, some}
use native.Mathlib.Omega.{arith}
use agenda_distribuida.Prelude.Tests.{if◌then◌else◌}

module _ {ℓ} {A : Type ℓ} where
  abbrev pub length : List A → ℕ
  length [] = 0
  length (x ∷ xs) = suc (length xs)

  -- Go's `filter by a test` loops: the members for which the test is true, in order.
  abbrev pub keep : (A → Bool) → List A → List A
  keep p [] = []
  keep p (x ∷ xs) = if p x then x ∷ keep p xs else keep p xs

  abbrev pub All {κ} : (A → Type κ) → List A → Type κ
  All P [] = Unit
  All P (x ∷ xs) = P x × All P xs

  -- The first row that a query selects.
  unfoldable pub find : (A → Bool) → List A → Option A
  find p [] = none
  find p (x ∷ xs) = if p x then some x else find p xs

  unfoldable pub any : (A → Bool) → List A → Bool
  any p [] = false
  any p (x ∷ xs) = p x || any p xs

  pub length-append : (xs ys : List A) → length (xs ++ ys) ≡ length xs + length ys
  length-append [] ys = omega arith
  length-append (x ∷ xs) ys = omega (arith, length-append xs ys)

-- Go's `map[string]V`: a later write hides an earlier one.
abbrev pub Table {ℓ} : Type ℓ → Type ℓ
Table V = List (String × V)

module _ {ℓ} {V : Type ℓ} where
  unfoldable pub lookup : String → Table V → Option V
  lookup key [] = none
  lookup key (row ∷ rows) = if str_eq row.0 key then some row.1 else lookup key rows

  unfoldable pub insert : String → V → Table V → Table V
  insert key value [] = (key, value) ∷ []
  insert key value (row ∷ rows) =
      if str_eq row.0 key then (key, value) ∷ rows else row ∷ insert key value rows

  unfoldable pub delete : String → Table V → Table V
  delete key [] = []
  delete key (row ∷ rows) = if str_eq row.0 key then delete key rows else row ∷ delete key rows

  pub lookup-insert :
      (key other : String) (value : V) (rows : Table V)
      → lookup other (insert key value rows)
        ≡ (if str_eq key other then some value else lookup other rows)
  unfolding lookup insert
  lookup-insert key other value [] = refl
  lookup-insert key other value (row ∷ rows) = ground (
    lookup-insert key other value rows,
    eq_iff row.0 key,
    eq_iff row.0 other,
    eq_iff key other,
    arith,
  )

  pub lookup-delete :
      (key other : String) (rows : Table V)
      → lookup other (delete key rows) ≡ (if str_eq key other then none else lookup other rows)
  unfolding lookup delete
  lookup-delete key other [] = ground arith
  lookup-delete key other (row ∷ rows) =
      ground (
        lookup-delete key other rows,
        eq_iff row.0 key,
        eq_iff row.0 other,
        eq_iff key other,
        arith,
      )
