-- ===== src/Flow/Table/Lists.antt =====
-- Membership in the lists of the flow table of upf/flowtable.c: its slots, its cache and its pool.
use upg_vpp_tr.Base.{
  ℕ, zero, suc, ◌≡◌, refl, Bool, true, false, not, ◌&&◌, ◌||◌, ◌==◌, List, [], ◌∷◌, ◌++◌, take,
  drop, arith,
}
use upg_vpp_tr.Flow.Tcp
use upg_vpp_tr.Flow.Tcp.Laws.{contains-without}
use upg_vpp_tr.Flow.Table

-- No index twice.
unfoldable pub distinct : List ℕ → Bool
unfolding Tcp.contains
distinct [] = true
distinct (x ∷ xs) = not (Tcp.contains x xs) && distinct xs

pub contains-append :
    (x : ℕ) (xs ys : List ℕ) → Tcp.contains x (xs ++ ys) ≡ (Tcp.contains x xs || Tcp.contains x ys)
unfolding Tcp.contains
contains-append x [] ys = refl
contains-append x (y ∷ xs) ys = ground (arith, contains-append x xs ys)

pub distinct-without :
    (x : ℕ) (xs : List ℕ) → distinct xs ≡ true → distinct (Tcp.without x xs) ≡ true
unfolding distinct Tcp.without
distinct-without x [] d = refl
distinct-without x (y ∷ xs) d =
    ground (arith, distinct-without x xs (ground arith), contains-without y x xs)

pub distinct_addtail :
    (x : ℕ) (xs : List ℕ)
    → distinct xs ≡ true
    → Tcp.contains x xs ≡ false
    → distinct (xs ++ (x ∷ [])) ≡ true
unfolding distinct Tcp.contains
distinct_addtail x [] d e = refl
distinct_addtail x (y ∷ xs) d e =
    ground
      (arith, distinct_addtail x xs (ground arith) (ground arith), contains-append y xs (x ∷ []))

-- The wheel after a flow was linked to the end of a slot, unlinked where it was.
pub contains_relinked :
    (k : Table.Keys) (wheel : ℕ → List ℕ) (f g head s : ℕ)
    → Tcp.contains g (Table.addtail k (Table.unlink k wheel f) head f s)
      ≡ ((s == head && (g == f)) || (not (g == f) && Tcp.contains g (wheel s)))
unfolding Table.addtail Table.unlink Tcp.contains
contains_relinked k wheel f g head s =
    ground
      (arith, contains-without g f (wheel s), contains-append g (Tcp.without f (wheel s)) (f ∷ []))

pub distinct_relinked :
    (k : Table.Keys) (wheel : ℕ → List ℕ) (f head s : ℕ)
    → distinct (wheel s) ≡ true
    → distinct (Table.addtail k (Table.unlink k wheel f) head f s) ≡ true
unfolding Table.addtail Table.unlink
distinct_relinked k wheel f head s d = ground (
  arith,
  distinct-without f (wheel s) d,
  distinct_addtail f (Tcp.without f (wheel s)) (distinct-without f (wheel s) d)
      (ground (arith, contains-without f f (wheel s))),
)

pub contains_split :
    (n x : ℕ) (xs : List ℕ)
    → Tcp.contains x xs ≡ (Tcp.contains x (take n xs) || Tcp.contains x (drop n xs))
unfolding Tcp.contains
contains_split zero x xs = refl
contains_split (suc n) x [] = refl
contains_split (suc n) x (y ∷ xs) = ground (arith, contains_split n x xs)

pub distinct-drop : (n : ℕ) (xs : List ℕ) → distinct xs ≡ true → distinct (drop n xs) ≡ true
unfolding distinct
distinct-drop zero xs d = d
distinct-drop (suc n) [] d = refl
distinct-drop (suc n) (y ∷ xs) d = distinct-drop n xs (ground arith)

pub distinct_apart :
    (n x : ℕ) (xs : List ℕ)
    → distinct xs ≡ true
    → Tcp.contains x (drop n xs) ≡ true
    → Tcp.contains x (take n xs) ≡ false
unfolding distinct Tcp.contains
distinct_apart zero x xs d i = refl
distinct_apart (suc n) x [] d i = refl
distinct_apart (suc n) x (y ∷ xs) d i =
    ground (arith, distinct_apart n x xs (ground arith) i, contains_split n x xs)

pub contains-without_all :
    (k : Table.Keys) (x : ℕ) (xs pool : List ℕ)
    → Tcp.contains x (Table.without_all k xs pool)
      ≡ (not (Tcp.contains x xs) && Tcp.contains x pool)
unfolding Table.without_all Tcp.contains
contains-without_all k x [] pool = refl
contains-without_all k x (y ∷ xs) pool =
    ground (arith, contains-without_all k x xs (Tcp.without y pool), contains-without x y pool)
