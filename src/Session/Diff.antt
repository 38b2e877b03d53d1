-- ===== src/Session/Diff.antt =====
-- The macro `vec_diff` of upf/upf_pfcp.c, with the calls that it makes of a function `add_del` on a
-- hash table.
--
-- An entry has a place in the order of the comparison, `key`, and what the table is to hold for it,
-- `value`. The vectors are given as `vec_sort_with_function` of VPP leaves them.
pub mod Laws
use upg_vpp_tr.Base.{
  ℕ, ◌<◌, ◌≡◌, Bool, true, false, ◌&&◌, ◌||◌, ltb, ◌==◌, List, [], ◌∷◌, Option, none, some,
  if◌then◌else◌,
}

module _ {ℓ κ} {A : Type ℓ} {V : Type κ} (key : A → ℕ) (value : A → V) where
  -- The calls `add_del (e, user, is_add)`.
  abbrev pub Calls : Type ℓ
  Calls = List (A × Bool)

  unfoldable pub removes : List A → Calls
  removes [] = []
  removes (y ∷ ys) = (y, false) ∷ removes ys

  -- The turns of the loops up to the one that takes `x`, which is first of `new`; `rest` is what
  -- follows then.
  unfoldable pub against : A → (List A → Calls) → List A → Calls
  against x rest [] = (x, true) ∷ rest []
  against x rest (y ∷ ys) =
      let later = against x rest ys in
      if key x == key y
      then rest ys
      else if ltb (key x) (key y)
      then (x, true) ∷ rest (y ∷ ys)
      else (y, false) ∷ later

  unfoldable pub vec_diff : List A → List A → Calls
  unfolding removes against
  vec_diff [] old = removes old
  vec_diff (x ∷ new) old = against x (λ ys. vec_diff new ys) old

  -- The hash table after the calls, each an addition or a deletion of a key.
  unfoldable pub add_del : A × Bool → (ℕ → Option V) → ℕ → Option V
  add_del (x, true) table q = if q == key x then some (value x) else table q
  add_del (x, false) table q = if q == key x then none else table q

  unfoldable pub run : Calls → (ℕ → Option V) → ℕ → Option V
  unfolding add_del
  run [] table = table
  run (c ∷ cs) table = run cs (add_del c table)

  -- The entry at a place.
  unfoldable pub entry : ℕ → List A → Option A
  entry q [] = none
  entry q (x ∷ xs) = if q == key x then some x else entry q xs

  -- The order in which a sort without equal places leaves a vector.
  unfoldable pub above : ℕ → List A → Bool
  above n [] = true
  above n (x ∷ xs) = ltb n (key x) && above n xs

  unfoldable pub sorted : List A → Bool
  unfolding above
  sorted [] = true
  sorted (x ∷ xs) = above (key x) xs && sorted xs

  -- What the table is to hold: a place of `old` alone is emptied, one of `new` alone is filled, and all
  -- else is left.
  unfoldable pub filled : Option V → Option A → Option V
  filled v none = v
  filled v (some x) = some (value x)

  unfoldable pub kept : Option V → Option A → Option V
  kept v none = none
  kept v (some x) = v

  unfoldable pub diffed : Option V → Option A → Option A → Option V
  unfolding filled kept
  diffed v new none = filled v new
  diffed v new (some y) = kept v new

  -- No place twice.
  unfoldable pub absent : Option A → Bool
  absent none = true
  absent (some x) = false

  unfoldable pub apart : List A → Bool
  unfolding absent entry
  apart [] = true
  apart (x ∷ xs) = absent (entry (key x) xs) && apart xs

  -- `vec_sort_with_function`, of which only what it does to a vector without equal places is used.
  pub record Sorter : Type ℓ where
    pub sort : List A → List A
    pub sort-sorted : (xs : List A) → apart xs ≡ true → sorted (sort xs) ≡ true
    pub sort-entry : (q : ℕ) (xs : List A) → apart xs ≡ true → entry q (sort xs) ≡ entry q xs

  -- The whole macro.
  unfoldable pub diff : Sorter → List A → List A → Calls
  unfolding vec_diff
  diff s new old = vec_diff (s.sort new) (s.sort old)
