-- ===== src/Session/Assoc/Shape.antt =====
-- What the list of the sessions of a node stands for in upf/upf_pfcp.c: the links of a list of
-- indices.
use upg_vpp_tr.Base.{
  ℕ, ◌≡◌, sym, ◌∙◌, ap, true, ◌==◌, List, [], ◌∷◌, Option, none, some, arith, Bool-cases, inl, inr,
  ==_iff, ◌⊎◌,
}
use upg_vpp_tr.Flow.Tcp.{contains}
use upg_vpp_tr.Session.Assoc

unfoldable pub first : List ℕ → Option ℕ
first [] = none
first (x ∷ xs) = some x

abbrev pub link : ℕ → Option ℕ → Option ℕ → Assoc.Link
link n prev next = record { node = some n; prev = prev; next = next }

-- The sessions are those of node `n`, each linked to its neighbours; `prev` comes before them.
unfoldable pub Seg : (ℕ → Assoc.Link) → ℕ → Option ℕ → List ℕ → Type 0
unfolding first
Seg links n prev [] = Unit
Seg links n prev (x ∷ xs) = (links x ≡ link n prev (first xs)) × Seg links n (some x) xs

pub Seg-frame :
    (links links' : ℕ → Assoc.Link) (n : ℕ) (prev : Option ℕ) (xs : List ℕ)
    → ((x : ℕ) → contains x xs ≡ true → links' x ≡ links x)
    → Seg links n prev xs
    → Seg links' n prev xs
unfolding Seg contains
Seg-frame links links' n prev [] h v = tt
Seg-frame links links' n prev (x ∷ xs) h v =
    (h x (ground arith) ∙ v.0, Seg-frame links links' n (some x) xs (λ y c. h y (ground arith)) v.1)

-- Each session of the list names its node.
pub Seg-node :
    (links : ℕ → Assoc.Link) (n : ℕ) (prev : Option ℕ) (xs : List ℕ) (x : ℕ)
    → Seg links n prev xs
    → contains x xs ≡ true
    → (links x).node ≡ some n
unfolding Seg contains
Seg-node links n prev (y ∷ xs) x v c = elim (Bool-cases (x == y)) [
  | inl e ↦ ap (λ z. (links z).node) ((==_iff x y).0 e) ∙ ap (λ l. l.node) v.0
  | inr e ↦ Seg-node links n (some y) xs x v.1 (ground arith)
]
Seg-node links n prev [] x v c = ground arith

-- What comes after a session of the list is in it.
pub Seg-next :
    (links : ℕ → Assoc.Link) (n : ℕ) (prev : Option ℕ) (xs : List ℕ) (x j : ℕ)
    → Seg links n prev xs
    → contains x xs ≡ true
    → (links x).next ≡ some j
    → contains j xs ≡ true
unfolding Seg contains first
Seg-next links n prev [] x j v c e = ground arith
Seg-next links n prev (y ∷ []) x j v c e =
    ground (arith, v.0, ap links ((==_iff x y).0 (ground arith)), e)
Seg-next links n prev (y ∷ z ∷ xs) x j v c e = elim (Bool-cases (x == y)) [
  | inl b ↦ ground (arith, v.0, ap links ((==_iff x y).0 b), e)
  | inr b ↦ ground (arith, Seg-next links n (some y) (z ∷ xs) x j v.1 (ground arith) e)
]

-- What comes before one is in it too, or before them all.
pub Seg-prev :
    (links : ℕ → Assoc.Link) (n : ℕ) (prev : Option ℕ) (xs : List ℕ) (x j : ℕ)
    → Seg links n prev xs
    → contains x xs ≡ true
    → (links x).prev ≡ some j
    → (prev ≡ some j) ⊎ (contains j xs ≡ true)
unfolding Seg contains
Seg-prev links n prev [] x j v c e = ground arith
Seg-prev links n prev (y ∷ xs) x j v c e = elim (Bool-cases (x == y)) [
  | inl b ↦ inl (sym (ap (λ l. l.prev) v.0) ∙ ap (λ z. (links z).prev) (sym ((==_iff x y).0 b)) ∙ e)
  | inr b ↦ elim (Seg-prev links n (some y) xs x j v.1 (ground arith) e) [
    | inl f ↦ inr (ground (arith, f))
    | inr f ↦ inr (ground (arith, f))
  ]
]
