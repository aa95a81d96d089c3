-- ===== src/Prelude/Queries.antt =====
-- Laws of the queries on a table's rows: the first row, the rows that stay, and an update of each.
use mathlib.Core.Path.{◌≡◌, refl}
use mathlib.Core.Logic.{inl, inr}
use mathlib.Core.Bool.{Bool, true, false, not}
use mathlib.Core.List.{List, [], ◌∷◌, ◌++◌, map}
use mathlib.Core.Option.{none, some}
use native.Mathlib.Omega.{arith}
use agenda_distribuida.Prelude.Tests.{if◌then◌else◌, Bool-cases}
use agenda_distribuida.Prelude.Lists.{keep, find, any, All}

module _ {ℓ} {A : Type ℓ} (p : A → Bool) where
  pub find-append :
      (xs : List A) (y : A)
      → find p xs ≡ none
      → find p (xs ++ (y ∷ [])) ≡ (if p y then some y else none)
  unfolding find
  find-append [] y h = refl
  find-append (x ∷ xs) y h = ground (arith, find-append xs y)

  pub find_holds : (xs : List A) (x : A) → find p xs ≡ some x → p x ≡ true
  unfolding find
  find_holds [] x h = cc
  find_holds (y ∷ xs) x h = ground (arith, find_holds xs x, find_head y x)
    where
      find_head : (y x : A) → p y ≡ true → some y ≡ some x → p x ≡ true
      find_head y x h e = cc

  pub find-none : (xs : List A) → any p xs ≡ false → find p xs ≡ none
  unfolding find any
  find-none [] h = refl
  find-none (x ∷ xs) h = ground (arith, find-none xs)

  pub any-none : (xs : List A) → find p xs ≡ none → any p xs ≡ false
  unfolding find any
  any-none [] h = refl
  any-none (x ∷ xs) h = ground (arith, any-none xs)

  -- A row at the end that the test holds for.
  pub any-append : (xs : List A) (y : A) → p y ≡ true → any p (xs ++ (y ∷ [])) ≡ true
  unfolding any
  any-append [] y h = ground (arith, h)
  any-append (x ∷ xs) y h = ground (arith, any-append xs y h)

  pub any-keep-not : (xs : List A) → any p (keep (λ x. not (p x)) xs) ≡ false
  unfolding any
  any-keep-not [] = refl
  any-keep-not (x ∷ xs) = ground (arith, any-keep-not xs)

  pub keep_again : (xs : List A) → keep p (keep p xs) ≡ keep p xs
  keep_again [] = refl
  keep_again (x ∷ xs) = ground (arith, keep_again xs)

  pub keep-append : (xs ys : List A) → keep p (xs ++ ys) ≡ keep p xs ++ keep p ys
  keep-append [] ys = refl
  keep-append (x ∷ xs) ys = ground (arith, keep-append xs ys)

  pub keep_all : (xs : List A) → any p xs ≡ false → keep (λ x. not (p x)) xs ≡ xs
  unfolding any
  keep_all [] h = refl
  keep_all (x ∷ xs) h = ground (arith, keep_all xs)

  -- A row that a narrower test finds does not depend on rows that fail a wider one.
  pub find-keep :
      (q : A → Bool) (xs : List A)
      → ((x : A) → p x ≡ true → q x ≡ true)
      → find p (keep q xs) ≡ find p xs
  unfolding find
  find-keep q [] wider = refl
  find-keep q (x ∷ xs) wider = ground (arith, find-keep q xs wider, wider x)

module _ {ℓ} {A : Type ℓ} (f : A → A) where
  pub map_again : (xs : List A) → ((x : A) → f (f x) ≡ f x) → map f (map f xs) ≡ map f xs
  map_again [] idem = refl
  map_again (x ∷ xs) idem = cc (idem x, map_again xs idem)

  -- An update that the test does not see.
  pub find-map :
      (p : A → Bool) (xs : List A)
      → ((x : A) → p (f x) ≡ p x)
      → find p (map f xs) ≡ elim (find p xs) [ none ↦ none | some x ↦ some (f x) ]
  unfolding find
  find-map p [] same = refl
  find-map p (x ∷ xs) same = ground (arith, find-map p xs same, same x)

-- Predicates on all members.
module _ {ℓ κ} {A : Type ℓ} where
  pub All-map : {P Q : A → Type κ} (xs : List A) → ((x : A) → P x → Q x) → All P xs → All Q xs
  All-map [] f all = tt
  All-map (x ∷ xs) f (p, rest) = (f x p, All-map xs f rest)

  pub every : {P : A → Type κ} (xs : List A) → ((x : A) → P x) → All P xs
  every [] f = tt
  every (x ∷ xs) f = (f x, every xs f)

  pub All-both :
      {P Q R : A → Type κ} (xs : List A)
      → ((x : A) → P x → Q x → R x)
      → All P xs
      → All Q xs
      → All R xs
  All-both [] f ps qs = tt
  All-both (x ∷ xs) f (p, ps) (q, qs) = (f x p q, All-both xs f ps qs)

  pub All-kept : (P : A → Type κ) (test : A → Bool) (xs : List A) → All P xs → All P (keep test xs)
  All-kept P test [] all = tt
  All-kept P test (x ∷ xs) (p, all) =
      either-All (test x) (x ∷ keep test xs) (keep test xs) (p, All-kept P test xs all)
        (All-kept P test xs all)
    where
      either-All : (b : Bool) (ys zs : List A) → All P ys → All P zs → All P (if b then ys else zs)
      either-All true ys zs py pz = py
      either-All false ys zs py pz = pz

  pub All-append : (P : A → Type κ) (xs : List A) (y : A) → All P xs → P y → All P (xs ++ (y ∷ []))
  All-append P [] y all p = (p, tt)
  All-append P (x ∷ xs) y (q, all) p = (q, All-append P xs y all p)

  -- A member for which the test holds has what every member with it has.
  pub any-All :
      {P : A → Type κ} {Q : Type κ} (test : A → Bool) (xs : List A)
      → ((x : A) → test x ≡ true → P x → Q)
      → any test xs ≡ true
      → All P xs
      → Q
  unfolding any
  any-All test [] f h all = ground (arith, h)
  any-All test (x ∷ xs) f h (p, all) = elim (Bool-cases (test x)) [
    | inl here ↦ f x here p
    | inr elsewhere ↦ any-All test xs f (ground (arith, h, elsewhere)) all
  ]

-- What a filter keeps passes its test.
module _ {ℓ} {A : Type ℓ} where
  pub All-keep : (test : A → Bool) (xs : List A) → All (λ x. test x ≡ true) (keep test xs)
  All-keep test [] = tt
  All-keep test (x ∷ xs) = elim (Bool-cases (test x)) [
    | inl holds ↦ ground (arith, holds, All-keep test xs)
    | inr fails ↦ ground (arith, fails, All-keep test xs)
  ]
