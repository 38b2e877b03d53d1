-- ===== src/Runs/Sorting.antt =====
-- A sort, to run `vec_diff` of upf/upf_pfcp.c with.
use upg_vpp_tr.Base.{
  ℕ, ◌<◌, ◌≤◌, ◌≡◌, refl, ◌∙◌, ap, true, false, ltb, ◌==◌, List, [], ◌∷◌, Option, none, some,
  if◌then◌else◌, arith, Bool-cases, inl, inr,
}
use upg_vpp_tr.Session.Diff

module _ {ℓ κ} {A : Type ℓ} {V : Type κ} (key : A → ℕ) (value : A → V) where
  unfoldable pub insert : A → List A → List A
  insert x [] = x ∷ []
  insert x (y ∷ ys) = let rest = insert x ys in if ltb (key x) (key y) then x ∷ y ∷ ys else y ∷ rest

  unfoldable pub insertion_sort : List A → List A
  unfolding insert
  insertion_sort [] = []
  insertion_sort (x ∷ xs) = insert x (insertion_sort xs)

  above_less :
      (m n : ℕ) (xs : List A)
      → m ≤ n
      → Diff.above key value n xs ≡ true
      → Diff.above key value m xs ≡ true
  unfolding Diff.above
  above_less m n [] le a = refl
  above_less m n (x ∷ xs) le a = ground (arith, above_less m n xs le (ground arith))

  above-insert :
      (n : ℕ) (x : A) (xs : List A)
      → Diff.above key value n xs ≡ true
      → n < key x
      → Diff.above key value n (insert x xs) ≡ true
  unfolding Diff.above insert
  above-insert n x [] a lt = ground arith
  above-insert n x (y ∷ ys) a lt = ground (arith, above-insert n x ys (ground arith) lt)

  -- An entry at a place of its own.
  fresh_head :
      (q : ℕ) (y : A) (ys : List A) → Diff.entry key value q (y ∷ ys) ≡ none → (q == key y) ≡ false
  unfolding Diff.entry
  fresh_head q y ys e = ground (arith, e)

  fresh_tail :
      (q : ℕ) (y : A) (ys : List A)
      → Diff.entry key value q (y ∷ ys) ≡ none
      → Diff.entry key value q ys ≡ none
  unfolding Diff.entry
  fresh_tail q y ys e = ground (arith, e)

  sorted-insert :
      (x : A) (xs : List A)
      → Diff.sorted key value xs ≡ true
      → Diff.entry key value (key x) xs ≡ none
      → Diff.sorted key value (insert x xs) ≡ true
  unfolding Diff.sorted insert Diff.above
  sorted-insert x [] s e = ground arith
  sorted-insert x (y ∷ ys) s e = elim (Bool-cases (ltb (key x) (key y))) [
    | inl b ↦ rw b (ground (arith, above_less (key x) (key y) ys (ground arith) (ground arith)))
    | inr b ↦ rw b (
        ground (
          arith,
          sorted-insert x ys (ground arith) (fresh_tail (key x) y ys e),
          above-insert (key y) x ys (ground arith) (ground (arith, fresh_head (key x) y ys e)),
        ))
  ]

  entry-insert :
      (q : ℕ) (x : A) (xs : List A)
      → Diff.entry key value (key x) xs ≡ none
      → Diff.entry key value q (insert x xs) ≡ Diff.entry key value q (x ∷ xs)
  unfolding Diff.entry insert
  entry-insert q x [] e = refl
  entry-insert q x (y ∷ ys) e = elim (Bool-cases (ltb (key x) (key y))) [
    | inl b ↦ rw b refl
    | inr b ↦
        rw b (
          ground
            (arith, entry-insert q x ys (fresh_tail (key x) y ys e), fresh_head (key x) y ys e))
  ]

  absent-none : (o : Option A) → Diff.absent key value o ≡ true → o ≡ none
  unfolding Diff.absent
  absent-none none a = refl
  absent-none (some x) a = ground arith

  pub entry-sort :
      (q : ℕ) (xs : List A)
      → Diff.apart key value xs ≡ true
      → Diff.entry key value q (insertion_sort xs) ≡ Diff.entry key value q xs
  unfolding insertion_sort Diff.apart Diff.entry
  entry-sort q [] a = refl
  entry-sort q (x ∷ xs) a =
      let fresh : Diff.entry key value (key x) xs ≡ none = absent-none _ (ground arith) in
      entry-insert q x (insertion_sort xs) (entry-sort (key x) xs (ground arith) ∙ fresh)
      ∙ ap (λ o. if q == key x then some x else o) (entry-sort q xs (ground arith))

  pub sort-sorted :
      (xs : List A)
      → Diff.apart key value xs ≡ true
      → Diff.sorted key value (insertion_sort xs) ≡ true
  unfolding insertion_sort Diff.apart Diff.sorted
  sort-sorted [] a = refl
  sort-sorted (x ∷ xs) a =
      let fresh : Diff.entry key value (key x) xs ≡ none = absent-none _ (ground arith) in
      sorted-insert x (insertion_sort xs) (sort-sorted xs (ground arith))
        (entry-sort (key x) xs (ground arith) ∙ fresh)

  abbrev pub sorter : Diff.Sorter key value
  sorter = record { sort = insertion_sort; sort-sorted = sort-sorted; sort-entry = entry-sort }
