-- ===== src/Commit/Sorting.antt =====
-- The k-th smallest of a list, by how many members lie at or above a value.
use agenda_distribuida.Prelude.{
  ℕ, zero, suc, ◌+◌, ◌≤◌, ◌<◌, ◌≡◌, refl, some, List, [], ◌∷◌, All, length, leb, arith,
  if◌then◌else◌, ◌∙◌,
}
use agenda_distribuida.Commit.{insert_sorted, sort, nth}

-- How many members are at least `v`.
abbrev pub at_least : ℕ → List ℕ → ℕ
at_least v [] = 0
at_least v (x ∷ xs) = if leb v x then suc (at_least v xs) else at_least v xs

abbrev pub Sorted : List ℕ → Type 0
Sorted [] = Unit {0}
Sorted (x ∷ xs) = All (λ y. x ≤ y) xs × Sorted xs

All-mono : (a b : ℕ) (xs : List ℕ) → a ≤ b → All (λ y. b ≤ y) xs → All (λ y. a ≤ y) xs
All-mono a b [] h u = tt
All-mono a b (x ∷ xs) h u = (omega arith, All-mono a b xs h u.1)

insert_sorted-All :
    (a x : ℕ) (xs : List ℕ) → a ≤ x → All (λ y. a ≤ y) xs → All (λ y. a ≤ y) (insert_sorted x xs)
unfolding insert_sorted
insert_sorted-All a x [] h u = (h, tt)
insert_sorted-All a x (y ∷ ys) h u = ground (arith, insert_sorted-All a x ys h u.1)

insert_sorted-Sorted : (x : ℕ) (xs : List ℕ) → Sorted xs → Sorted (insert_sorted x xs)
unfolding insert_sorted
insert_sorted-Sorted x [] s = (tt, tt)
insert_sorted-Sorted x (y ∷ ys) s =
    ground (arith, insert_sorted-Sorted x ys s.1, insert_sorted-All y x ys, All-mono x y ys, s.0)

pub sort-Sorted : (xs : List ℕ) → Sorted (sort xs)
unfolding sort
sort-Sorted [] = tt
sort-Sorted (x ∷ xs) = insert_sorted-Sorted x (sort xs) (sort-Sorted xs)

at_least-insert_sorted :
    (v x : ℕ) (xs : List ℕ) → at_least v (insert_sorted x xs) ≡ at_least v (x ∷ xs)
unfolding insert_sorted
at_least-insert_sorted v x [] = refl
at_least-insert_sorted v x (y ∷ ys) = ground (arith, at_least-insert_sorted v x ys)

pub at_least-sort : (v : ℕ) (xs : List ℕ) → at_least v (sort xs) ≡ at_least v xs
unfolding sort
at_least-sort v [] = refl
at_least-sort v (x ∷ xs) = at_least-insert_sorted v x (sort xs) ∙ ground (arith, at_least-sort v xs)

length-insert_sorted : (x : ℕ) (xs : List ℕ) → length (insert_sorted x xs) ≡ suc (length xs)
unfolding insert_sorted
length-insert_sorted x [] = refl
length-insert_sorted x (y ∷ ys) = ground (arith, length-insert_sorted x ys)

pub length-sort : (xs : List ℕ) → length (sort xs) ≡ length xs
unfolding sort
length-sort [] = refl
length-sort (x ∷ xs) = omega (arith, length-insert_sorted x (sort xs), length-sort xs)

at_least-All : (v : ℕ) (xs : List ℕ) → All (λ y. v ≤ y) xs → at_least v xs ≡ length xs
at_least-All v [] u = refl
at_least-All v (x ∷ xs) u = ground (arith, at_least-All v xs u.1)

at_least-le-length : (v : ℕ) (xs : List ℕ) → at_least v xs ≤ length xs
at_least-le-length v [] = omega arith
at_least-le-length v (x ∷ xs) = ground (arith, at_least-le-length v xs)

nth-All : (a c i : ℕ) (xs : List ℕ) → All (λ y. a ≤ y) xs → nth xs i ≡ some c → a ≤ c
unfolding nth
nth-All a c i [] u h = cc
nth-All a c zero (x ∷ xs) u h = ground arith
nth-All a c (suc i) (x ∷ xs) u h = nth-All a c i xs u.1 h

-- All members from place `i` on are at least the one there.
pub nth_enough :
    (c i : ℕ) (xs : List ℕ) → Sorted xs → nth xs i ≡ some c → length xs ≤ i + at_least c xs
unfolding nth
nth_enough c i [] s h = cc
nth_enough c zero (x ∷ xs) s h = ground (arith, at_least-All x xs s.0)
nth_enough c (suc i) (x ∷ xs) s h = ground (arith, nth_enough c i xs s.1 h)

-- Those up to place `i` are below any greater value.
pub nth_most :
    (c v i : ℕ) (xs : List ℕ)
    → Sorted xs
    → nth xs i ≡ some c
    → c < v
    → at_least v xs + suc i ≤ length xs
unfolding nth
nth_most c v i [] s h lt = cc
nth_most c v zero (x ∷ xs) s h lt = ground (arith, at_least-le-length v xs)
nth_most c v (suc i) (x ∷ xs) s h lt =
    ground (arith, nth_most c v i xs s.1 h lt, nth-All x c i xs s.0 h)

pub nth_inside : (i : ℕ) (xs : List ℕ) → i < length xs → (c : ℕ) × (nth xs i ≡ some c)
unfolding nth
nth_inside i [] h = elim h [ ]
nth_inside zero (x ∷ xs) h = (x, refl)
nth_inside (suc i) (x ∷ xs) h = nth_inside i xs (omega arith)
