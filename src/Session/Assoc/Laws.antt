-- ===== src/Session/Assoc/Laws.antt =====
-- The linked sessions of upf/upf_pfcp.c refine one list of sessions for each node.
use upg_vpp_tr.Base.{
  ℕ, ◌≡◌, refl, sym, ◌∙◌, ap, Bool, true, false, ◌==◌, List, [], ◌∷◌, Option, none, some,
  if◌then◌else◌, arith, Bool-cases, inl, inr, ==_iff,
}
use upg_vpp_tr.Flow.Tcp.{contains}
use upg_vpp_tr.Flow.Table.Lists.{distinct}
use upg_vpp_tr.Session.Assoc
use upg_vpp_tr.Session.Assoc.Shape.{first, link, Seg, Seg-frame, Seg-node}

-- The store has, for each node, the list of its sessions.
pub record Refines (s : Assoc.Store) (a : ℕ → List ℕ) : Type 0 where
  pub head : (n : ℕ) → s.heads n ≡ first (a n)
  pub seg : (n : ℕ) → Seg s.links n none (a n)
  pub once : (n : ℕ) → distinct (a n) ≡ true

-- The first of a list is in it.
contains-first : (xs : List ℕ) (x : ℕ) → first xs ≡ some x → contains x xs ≡ true
unfolding first contains
contains-first [] x e = ground arith
contains-first (y ∷ xs) x e = ground arith

-- Sessions of two nodes differ.
pub two_nodes :
    (s : Assoc.Store) (a : ℕ → List ℕ) (m n x : ℕ)
    → Refines s a
    → (m == n) ≡ false
    → contains x (a m) ≡ true
    → contains x (a n) ≡ false
two_nodes s a m n x r ne c = elim (Bool-cases (contains x (a n))) [
  | inl d ↦ ground (
    arith,
    Seg-node s.links m none (a m) x (r.seg m) c,
    Seg-node s.links n none (a n) x (r.seg n) d,
  )
  | inr d ↦ d
]

pub differ :
    (x y : ℕ) (xs : List ℕ) → contains x xs ≡ false → contains y xs ≡ true → (y == x) ≡ false
differ x y xs c d = elim (Bool-cases (y == x)) [
  | inl e ↦ ground (arith, ap (λ z. contains z xs) ((==_iff y x).0 e))
  | inr e ↦ e
]

pub contains_head : (y : ℕ) (xs : List ℕ) → contains y (y ∷ xs) ≡ true
unfolding contains
contains_head y xs = ground arith

pub contains_tail : (x y : ℕ) (xs : List ℕ) → contains x (y ∷ xs) ≡ false → contains x xs ≡ false
unfolding contains
contains_tail x y xs c = ground arith

pub distinct_head : (y : ℕ) (xs : List ℕ) → distinct (y ∷ xs) ≡ true → contains y xs ≡ false
unfolding distinct
distinct_head y xs d = ground arith

pub distinct_tail : (y : ℕ) (xs : List ℕ) → distinct (y ∷ xs) ≡ true → distinct xs ≡ true
unfolding distinct
distinct_tail y xs d = ground arith

-- An optional index is this one.
unfoldable pub points : Option ℕ → ℕ → Bool
points none j = false
points (some i) j = j == i

pub set_prev_at :
    (links : ℕ → Assoc.Link) (o v : Option ℕ) (j : ℕ)
    → Assoc.set_prev links o v j ≡ (if points o j then record (links j) { prev = v } else links j)
unfolding Assoc.set_prev Assoc.set points
set_prev_at links none v j = refl
set_prev_at links (some i) v j = elim (Bool-cases (j == i)) [
  | inl e ↦ rw e (ap (λ z. record (links z) { prev = v }) (sym ((==_iff j i).0 e)))
  | inr e ↦ rw e refl
]

pub set_next_at :
    (links : ℕ → Assoc.Link) (o v : Option ℕ) (j : ℕ)
    → Assoc.set_next links o v j ≡ (if points o j then record (links j) { next = v } else links j)
unfolding Assoc.set_next Assoc.set points
set_next_at links none v j = refl
set_next_at links (some i) v j = elim (Bool-cases (j == i)) [
  | inl e ↦ rw e (ap (λ z. record (links z) { next = v }) (sym ((==_iff j i).0 e)))
  | inr e ↦ rw e refl
]

pub set_same : {A : Type 0} (f : ℕ → A) (i : ℕ) (v : A) → Assoc.set f i v i ≡ v
unfolding Assoc.set
set_same f i v = ground arith

pub set_other :
    {A : Type 0} (f : ℕ → A) (i j : ℕ) (v : A) → (j == i) ≡ false → Assoc.set f i v j ≡ f j
unfolding Assoc.set
set_other f i j v e = rw e refl

pub points_same : (j : ℕ) → points (some j) j ≡ true
unfolding points
points_same j = ground arith

pub points-first : (xs : List ℕ) (j : ℕ) → contains j xs ≡ false → points (first xs) j ≡ false
unfolding points first contains
points-first [] j c = refl
points-first (x ∷ xs) j c = ground arith

attach_self :
    (s : Assoc.Store) (n x : ℕ)
    → points (s.heads n) x ≡ false
    → (Assoc.node_assoc_attach_session n x s).links x ≡ link n none (s.heads n)
unfolding Assoc.node_assoc_attach_session
attach_self s n x p =
    let links = Assoc.set s.links x (record (s.links x) { node = some n; prev = none }) in
    let links' = Assoc.set_prev links (s.heads n) (some x) in
    let own : links' x ≡ record (s.links x) { node = some n; prev = none } =
      set_prev_at links (s.heads n) (some x) x
      ∙ rw p (set_same s.links x (record (s.links x) { node = some n; prev = none })) in
    set_same links' x (record (links' x) { next = s.heads n })
    ∙ ap {A = Assoc.Link} {B = Assoc.Link} (λ l. record l { next = s.heads n }) own

attach_other :
    (s : Assoc.Store) (n x j : ℕ)
    → (j == x) ≡ false
    → (Assoc.node_assoc_attach_session n x s).links j
      ≡ (if points (s.heads n) j then record (s.links j) { prev = some x } else s.links j)
unfolding Assoc.node_assoc_attach_session
attach_other s n x j e =
    let links = Assoc.set s.links x (record (s.links x) { node = some n; prev = none }) in
    let links' = Assoc.set_prev links (s.heads n) (some x) in
    set_other links' x j (record (links' x) { next = s.heads n }) e
    ∙ set_prev_at links (s.heads n) (some x) j
    ∙ rw (set_other s.links x j (record (s.links x) { node = some n; prev = none }) e) refl

attach_heads :
    (s : Assoc.Store) (n x m : ℕ)
    → (Assoc.node_assoc_attach_session n x s).heads m ≡ Assoc.set s.heads n (some x) m
unfolding Assoc.node_assoc_attach_session
attach_heads s n x m = refl

-- The session that was first points back.
attach_first :
    (s : Assoc.Store) (n x y : ℕ) (next : Option ℕ)
    → s.heads n ≡ some y
    → (y == x) ≡ false
    → s.links y ≡ link n none next
    → (Assoc.node_assoc_attach_session n x s).links y ≡ link n (some x) next
attach_first s n x y next h e v =
    let p : points (s.heads n) y ≡ true = ap (λ o. points o y) h ∙ points_same y in
    attach_other s n x y e ∙ rw (p, v) refl

-- The list behind the new session.
attach_rest :
    (s : Assoc.Store) (n x : ℕ) (xs : List ℕ)
    → s.heads n ≡ first xs
    → contains x xs ≡ false
    → distinct xs ≡ true
    → Seg s.links n none xs
    → Seg (Assoc.node_assoc_attach_session n x s).links n (some x) xs
unfolding Seg contains distinct first points
attach_rest s n x [] h c d v = tt
attach_rest s n x (y ∷ xs) h c d v = (
  attach_first s n x y (first xs) h (differ x y (y ∷ xs) c (contains_head y xs)) v.0,
  Seg-frame s.links (Assoc.node_assoc_attach_session n x s).links n (some y) xs
      (λ z i.
        attach_other s n x z (differ x z xs (contains_tail x y xs c) i)
        ∙ rw (h, differ y z xs (distinct_head y xs d) i) refl)
      v.1,
)

-- A store that differs at one node.
pub at_node :
    (s s' : Assoc.Store) (a : ℕ → List ℕ) (n : ℕ) (xs : List ℕ)
    → Refines s a
    → s'.heads n ≡ first xs
    → Seg s'.links n none xs
    → distinct xs ≡ true
    → ((m : ℕ) → (m == n) ≡ false → s'.heads m ≡ s.heads m)
    → ((m : ℕ) → (m == n) ≡ false → Seg s'.links m none (a m))
    → Refines s' (Assoc.set a n xs)
at_node s s' a n xs r h v d hs vs = record {
  head = λ m. elim (Bool-cases (m == n)) [
    | inl e ↦ rw ((==_iff m n).0 e, set_same a n xs) h
    | inr e ↦ hs m e ∙ rw (set_other a n m xs e) (r.head m)
  ];
  seg = λ m. elim (Bool-cases (m == n)) [
    | inl e ↦ rw ((==_iff m n).0 e, set_same a n xs) v
    | inr e ↦ rw (set_other a n m xs e) (vs m e)
  ];
  once = λ m. elim (Bool-cases (m == n)) [
    | inl e ↦ rw ((==_iff m n).0 e, set_same a n xs) d
    | inr e ↦ rw (set_other a n m xs e) (r.once m)
  ];
}

-- A session that no node has is put before those of its node, and the other nodes keep theirs.
pub node_assoc_attach_session-Refines :
    (s : Assoc.Store) (a : ℕ → List ℕ) (n x : ℕ)
    → Refines s a
    → ((m : ℕ) → contains x (a m) ≡ false)
    → Refines (Assoc.node_assoc_attach_session n x s) (Assoc.set a n (x ∷ a n))
unfolding Seg distinct first
node_assoc_attach_session-Refines s a n x r new =
    let p : points (s.heads n) x ≡ false =
      ap (λ o. points o x) (r.head n) ∙ points-first (a n) x (new n) in
    at_node s _ a n (x ∷ a n) r (attach_heads s n x n ∙ set_same s.heads n (some x))
      (
        attach_self s n x p ∙ ap (link n none) (r.head n),
        attach_rest s n x (a n) (r.head n) (new n) (r.once n) (r.seg n),
      )
      (ground (arith, new n, r.once n))
      (λ m e. attach_heads s n x m ∙ set_other s.heads n m (some x) e)
      (λ m e.
        Seg-frame s.links _ m none (a m)
          (λ y c.
            attach_other s n x y (differ x y (a m) (new m) c)
            ∙ rw (r.head n, points-first (a n) y (two_nodes s a m n y r e c)) refl)
          (r.seg m))
