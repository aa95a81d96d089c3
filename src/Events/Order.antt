-- ===== src/Events/Order.antt =====
-- What LIMIT leaves of ordered rows.
use agenda_distribuida.Prelude.{
  length, ℕ, zero, suc, ◌≤◌, ◌≡◌, refl, ◌⊎◌, inl, inr, Bool, true, false, List, [], ◌∷◌, All,
  All-map, All-both, every, any, keep, arith, if◌then◌else◌,
}
use agenda_distribuida.Events.{insert_in_order, put_in_order, take}

module _ {A : Type 0} where
  pub All-take : (P : A → Type 0) (n : ℕ) (xs : List A) → All P xs → All P (take n xs)
  unfolding take
  All-take P zero xs all = tt
  All-take P (suc n) [] all = tt
  All-take P (suc n) (x ∷ xs) (p, rest) = (p, All-take P n xs rest)

module _ {A : Type 0} (precedes : A → A → Bool) (P : A → Type 0) where
  either-All : (b : Bool) (xs ys : List A) → All P xs → All P ys → All P (if b then xs else ys)
  either-All true xs ys px py = px
  either-All false xs ys px py = py

  insert-All : (x : A) (xs : List A) → P x → All P xs → All P (insert_in_order precedes x xs)
  unfolding insert_in_order
  insert-All x [] p ps = (p, tt)
  insert-All x (y ∷ ys) p (q, qs) =
      either-All (precedes y x) (y ∷ insert_in_order precedes x ys) (x ∷ y ∷ ys)
        (q, insert-All x ys p qs) (p, (q, qs))

  inserted_back :
      (b : Bool) (x y : A) (ys zs : List A)
      → (All P zs → P x × All P ys)
      → All P (if b then y ∷ zs else x ∷ y ∷ ys)
      → P x × All P (y ∷ ys)
  inserted_back true x y ys zs back (q, all) = let (p, qs) = back all in (p, (q, qs))
  inserted_back false x y ys zs back all = all

  insert-All_back : (x : A) (xs : List A) → All P (insert_in_order precedes x xs) → P x × All P xs
  unfolding insert_in_order
  insert-All_back x [] all = all
  insert-All_back x (y ∷ ys) all =
      inserted_back (precedes y x) x y ys (insert_in_order precedes x ys) (insert-All_back x ys) all

  -- Ordering keeps the rows.
  pub All-put_in_order : (xs : List A) → All P xs → All P (put_in_order precedes xs)
  unfolding put_in_order
  All-put_in_order [] all = tt
  All-put_in_order (x ∷ xs) (p, ps) =
      insert-All x (put_in_order precedes xs) p (All-put_in_order xs ps)

  pub put_in_order-All : (xs : List A) → All P (put_in_order precedes xs) → All P xs
  unfolding put_in_order
  put_in_order-All [] all = tt
  put_in_order-All (x ∷ xs) all =
      let (p, rest) = insert-All_back x (put_in_order precedes xs) all in
      (p, put_in_order-All xs rest)

module _ {A : Type 0} (key : A → ℕ) where
  -- Rows whose key never falls.
  abbrev pub Rising : List A → Type 0
  Rising [] = Unit
  Rising (x ∷ xs) = All (λ y. key x ≤ key y) xs × Rising xs

  inserted-Rising :
      (b : Bool) (x y : A) (ys zs : List A)
      → (b ≡ false → key x ≤ key y)
      → (b ≡ true → All (λ z. key y ≤ key z) zs)
      → Rising zs
      → Rising (y ∷ ys)
      → Rising (if b then y ∷ zs else x ∷ y ∷ ys)
  inserted-Rising true x y ys zs before above rising rest = (above refl, rising)
  inserted-Rising false x y ys zs before above rising (all, rest) =
      ((before refl, All-map ys (λ z h. omega (arith, h, before refl)) all), (all, rest))

  module _ (precedes : A → A → Bool) (sound : (a b : A) → precedes a b ≡ true → key a ≤ key b)
      (total : (a b : A) → precedes a b ≡ false → key b ≤ key a) where
    insert-Rising : (x : A) (xs : List A) → Rising xs → Rising (insert_in_order precedes x xs)
    unfolding insert_in_order
    insert-Rising x [] rising = (tt, tt)
    insert-Rising x (y ∷ ys) (all, rest) =
        inserted-Rising (precedes y x) x y ys (insert_in_order precedes x ys) (total y x)
          (λ h. insert-All precedes (λ z. key y ≤ key z) x ys (sound y x h) all)
          (insert-Rising x ys rest) (all, rest)

    pub put_in_order-Rising : (xs : List A) → Rising (put_in_order precedes xs)
    unfolding put_in_order
    put_in_order-Rising [] = tt
    put_in_order-Rising (x ∷ xs) =
        insert-Rising x (put_in_order precedes xs) (put_in_order-Rising xs)

  -- A row of an ordered list is among the first ones, or no earlier than any of them.
  pub take_or_later :
      (same : A → A → Bool) (itself : (x : A) → same x x ≡ true) (n : ℕ) (xs : List A)
      → Rising xs
      → All (λ x. (any (same x) (take n xs) ≡ true) ⊎ All (λ y. key y ≤ key x) (take n xs)) xs
  unfolding take any
  take_or_later same itself zero xs rising = every xs (λ x. inr tt)
  take_or_later same itself (suc n) [] rising = tt
  take_or_later same itself (suc n) (x ∷ xs) (all, rest) = (
    inl (ground (arith, itself x)),
    All-both xs
        (λ e before either. elim either [
          | inl found ↦ inl (ground (arith, found))
          | inr newer ↦ inr (before, newer)
        ])
        all (take_or_later same itself n xs rest),
  )

-- How many rows pass a test, ordered or not.
module _ {A : Type 0} (precedes : A → A → Bool) (p : A → Bool) where
  count-insert :
      (x : A) (xs : List A)
      → length (keep p (insert_in_order precedes x xs)) ≡ length (keep p (x ∷ xs))
  unfolding insert_in_order
  count-insert x [] = refl
  count-insert x (y ∷ ys) = ground (arith, count-insert x ys)

  pub count-put_in_order :
      (xs : List A) → length (keep p (put_in_order precedes xs)) ≡ length (keep p xs)
  unfolding put_in_order
  count-put_in_order [] = refl
  count-put_in_order (x ∷ xs) =
      ground (arith, count-insert x (put_in_order precedes xs), count-put_in_order xs)
