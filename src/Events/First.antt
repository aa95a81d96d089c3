-- ===== src/Events/First.antt =====
-- Ordered rows of which those that pass a test come first.
use agenda_distribuida.Prelude.{
  ℕ, zero, suc, ◌≤◌, ◌≡◌, refl, sym, subst, ◌⊎◌, inl, inr, Bool, true, false, ◌||◌, Bool-cases,
  List, [], ◌∷◌, All, any, keep, length, arith, if◌then◌else◌,
}
use agenda_distribuida.Events.{insert_in_order, put_in_order, take}

module _ {A : Type 0} (p : A → Bool) where
  abbrev pub First : List A → Type 0
  First [] = Unit
  First (x ∷ xs) = ((p x ≡ true) × First xs) ⊎ (any p (x ∷ xs) ≡ false)

  none_kept : (xs : List A) → any p xs ≡ false → length (keep p xs) ≡ 0
  unfolding any
  none_kept [] h = refl
  none_kept (x ∷ xs) h = ground (arith, h, none_kept xs)

  -- As many first rows as there are that pass, pass.
  pub take-First :
      (n : ℕ) (xs : List A) → First xs → n ≤ length (keep p xs) → All (λ x. p x ≡ true) (take n xs)
  unfolding take
  take-First zero xs first le = tt
  take-First (suc n) [] first le = tt
  take-First (suc n) (x ∷ xs) (inl (here, first)) le =
      (here, take-First n xs first (ground (arith, here, le)))
  take-First (suc n) (x ∷ xs) (inr out) le = absurd (omega (arith, none_kept (x ∷ xs) out, le))

  module _ (precedes : A → A → Bool)
      (up : (x y : A) → precedes y x ≡ true → p x ≡ true → p y ≡ true)
      (down : (x y : A) → precedes y x ≡ false → p y ≡ true → p x ≡ true) where
    any-insert : (x : A) (xs : List A) → any p (insert_in_order precedes x xs) ≡ (p x || any p xs)
    unfolding insert_in_order any
    any-insert x [] = refl
    any-insert x (y ∷ ys) = ground (arith, any-insert x ys)

    insert-First : (x : A) (xs : List A) → First xs → First (insert_in_order precedes x xs)
    unfolding insert_in_order any
    insert-First x [] first = elim (Bool-cases (p x)) [
      | inl holds ↦ inl (holds, tt)
      | inr fails ↦ inr (ground (arith, fails))
    ]
    insert-First x (y ∷ ys) first = elim (Bool-cases (precedes y x)) [
      | inl later ↦
          subst (λ b. First (if b then y ∷ insert_in_order precedes x ys else x ∷ y ∷ ys))
            (sym later)
            (elim first [
              | inl (holds, rest) ↦ inl (holds, insert-First x ys rest)
              | inr out ↦ inr (ground (arith, out, any-insert x ys, up x y later))
            ])
      | inr earlier ↦
          subst (λ b. First (if b then y ∷ insert_in_order precedes x ys else x ∷ y ∷ ys))
            (sym earlier)
            (elim (Bool-cases (p x)) [
              | inl holds ↦ inl (holds, first)
              | inr fails ↦ elim first [
                | inl (holds, rest) ↦ ground (arith, fails, holds, down x y earlier)
                | inr out ↦ inr (ground (arith, fails, out))
              ]
            ])
    ]

    pub put_in_order-First : (xs : List A) → First (put_in_order precedes xs)
    unfolding put_in_order
    put_in_order-First [] = tt
    put_in_order-First (x ∷ xs) = insert-First x (put_in_order precedes xs) (put_in_order-First xs)
