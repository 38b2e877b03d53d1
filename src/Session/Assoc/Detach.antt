-- ===== src/Session/Assoc/Detach.antt =====
-- `node_assoc_detach_session` of upf/upf_pfcp.c takes a session out of the list of its node.
use upg_vpp_tr.Base.{
  ℕ, ◌≡◌, refl, sym, ◌∙◌, ap, true, false, ◌==◌, List, [], ◌∷◌, Option, none, some, if◌then◌else◌,
  arith, Bool-cases, inl, inr, ==_iff,
}
use upg_vpp_tr.Flow.Tcp.{contains, without}
use upg_vpp_tr.Flow.Table.Lists.{distinct}
use upg_vpp_tr.Session.Assoc
use upg_vpp_tr.Session.Assoc.Shape.{first, link, Seg, Seg-frame, Seg-next, Seg-prev}
use upg_vpp_tr.Session.Assoc.Laws.{
  differ, contains_head, contains_tail, distinct_head, distinct_tail, points, set_prev_at,
  set_next_at, set_other, points_same, points-first,
}

-- What the session's links `l` make of those of session `j`.
unfoldable pub moved : Assoc.Link → ℕ → Assoc.Link → Assoc.Link
unfolding points
moved l j k =
    let k' = if points l.prev j then record k { next = l.next } else k in
    if points l.next j then record k' { prev = l.prev } else k'

pub detach_other :
    (s : Assoc.Store) (x j : ℕ)
    → points (s.links x).prev x ≡ false
    → (j == x) ≡ false
    → (Assoc.node_assoc_detach_session x s).links j ≡ moved (s.links x) j (s.links j)
unfolding Assoc.node_assoc_detach_session moved
detach_other s x j p e =
    let l = s.links x in
    let links = Assoc.set_next s.links l.prev l.next in
    let own : links x ≡ l = set_next_at s.links l.prev l.next x ∙ rw p refl in
    set_other (Assoc.set_prev links (links x).next (links x).prev) x j Assoc.unlinked e
    ∙ rw own (
        set_prev_at links l.next l.prev j
        ∙ ap {A = Assoc.Link} {B = Assoc.Link}
            (λ k. if points l.next j then record k { prev = l.prev } else k)
            (set_next_at s.links l.prev l.next j))

points_iff : (o : Option ℕ) (j : ℕ) → points o j ≡ true → o ≡ some j
unfolding points
points_iff none j p = ground arith
points_iff (some i) j p = ap some (sym ((==_iff j i).0 p))

-- Nothing of the list points to a session that is outside.
pub prev_out :
    (links : ℕ → Assoc.Link) (n : ℕ) (prev : Option ℕ) (xs : List ℕ) (x y : ℕ)
    → Seg links n prev xs
    → contains x xs ≡ true
    → contains y xs ≡ false
    → points prev y ≡ false
    → points (links x).prev y ≡ false
prev_out links n prev xs x y v c out f = elim (Bool-cases (points (links x).prev y)) [
  | inl p ↦ elim (Seg-prev links n prev xs x y v c (points_iff (links x).prev y p)) [
    | inl e ↦ ground (arith, ap (λ o. points o y) e, points_same y)
    | inr i ↦ ground arith
  ]
  | inr p ↦ p
]

pub next_out :
    (links : ℕ → Assoc.Link) (n : ℕ) (prev : Option ℕ) (xs : List ℕ) (x y : ℕ)
    → Seg links n prev xs
    → contains x xs ≡ true
    → contains y xs ≡ false
    → points (links x).next y ≡ false
next_out links n prev xs x y v c out = elim (Bool-cases (points (links x).next y)) [
  | inl p ↦ ground (arith, Seg-next links n prev xs x y v c (points_iff (links x).next y p))
  | inr p ↦ p
]

without_absent : (x : ℕ) (xs : List ℕ) → contains x xs ≡ false → without x xs ≡ xs
unfolding contains without
without_absent x [] c = refl
without_absent x (y ∷ xs) c = elim (Bool-cases (x == y)) [
  | inl e ↦ ground arith
  | inr e ↦ rw e (ap (◌∷◌ y) (without_absent x xs (ground arith)))
]

pub without_first : (x : ℕ) (xs : List ℕ) → contains x xs ≡ false → without x (x ∷ xs) ≡ xs
unfolding without
without_first x xs c = ground (arith, without_absent x xs c)

pub without_later :
    (x y : ℕ) (xs : List ℕ) → (y == x) ≡ false → without x (y ∷ xs) ≡ y ∷ without x xs
unfolding without
without_later x y xs e = ground arith

-- A link that neither neighbour of the session is.
pub moved_out :
    (l k : Assoc.Link) (j : ℕ) → points l.prev j ≡ false → points l.next j ≡ false → moved l j k ≡ k
unfolding moved
moved_out l k j p q = rw (p, q) refl

pub contains_later :
    (x y : ℕ) (xs : List ℕ) → contains x (y ∷ xs) ≡ true → (y == x) ≡ false → contains x xs ≡ true
unfolding contains
contains_later x y xs c e = ground arith

moved_next :
    (n x z : ℕ) (prev next : Option ℕ)
    → points prev z ≡ false
    → moved (link n prev (some z)) z (link n (some x) next) ≡ link n prev next
unfolding moved
moved_next n x z prev next p = rw (p, points_same z) refl

moved_prev :
    (n x y : ℕ) (prev next : Option ℕ)
    → points next y ≡ false
    → moved (link n (some y) next) y (link n prev (some x)) ≡ link n prev next
unfolding moved
moved_prev n x y prev next p = rw (p, points_same y) refl

pub points_other : (j i : ℕ) → (j == i) ≡ false → points (some i) j ≡ false
unfolding points
points_other j i e = e

pub turned : (i j : ℕ) → (i == j) ≡ false → (j == i) ≡ false
turned i j e = ground arith

pub contains-nil : (x : ℕ) → contains x [] ≡ false
unfolding contains
contains-nil x = refl

contains_more : (x y : ℕ) (xs : List ℕ) → contains x xs ≡ true → contains x (y ∷ xs) ≡ true
unfolding contains
contains_more x y xs c = ground arith

module _ (links links' : ℕ → Assoc.Link) (n x : ℕ) where
  -- The links after the session `x` is taken out.
  unfoldable pub Out : Type 0
  Out = (j : ℕ) → (j == x) ≡ false → links' j ≡ moved (links x) j (links j)

  -- The session is first.
  out_first :
      (prev : Option ℕ) (xs : List ℕ)
      → Out
      → links x ≡ link n prev (first xs)
      → contains x xs ≡ false
      → distinct xs ≡ true
      → ((j : ℕ) → contains j xs ≡ true → points prev j ≡ false)
      → Seg links n (some x) xs
      → Seg links' n prev xs
  unfolding Seg first Out
  out_first prev [] o own c d f v = tt
  out_first prev (z ∷ zs) o own c d f v = (
    o z (differ x z (z ∷ zs) c (contains_head z zs))
        ∙ ap (λ l. moved l z (links z)) own
        ∙ ap (λ k. moved (link n prev (some z)) z k) v.0
        ∙ moved_next n x z prev (first zs) (f z (contains_head z zs)),
    Seg-frame links links' n (some z) zs
        (λ w i.
          o w (differ x w zs (contains_tail x z zs c) i)
          ∙ moved_out (links x) (links w) w
              (ap (λ l. points l.prev w) own ∙ f w (contains_more w z zs i))
              (ap (λ l. points l.next w) own
                ∙ points_other w z (differ z w zs (distinct_head z zs d) i)))
        v.1,
  )

  -- The session comes later: the one that is first keeps its place.
  out_head :
      (prev : Option ℕ) (y : ℕ) (ys : List ℕ)
      → Out
      → (y == x) ≡ false
      → contains x ys ≡ true
      → distinct (y ∷ ys) ≡ true
      → Seg links n prev (y ∷ ys)
      → links' y ≡ link n prev (first (without x ys))
  unfolding Seg first Out
  out_head prev y [] o e c d v = ground (arith, contains-nil x)
  out_head prev y (z ∷ zs) o e c d v =
      let away : contains y (z ∷ zs) ≡ false = distinct_head y (z ∷ zs) d in
      let d' : distinct (z ∷ zs) ≡ true = distinct_tail y (z ∷ zs) d in
      elim (Bool-cases (z == x)) [
        | inl b ↦
            let q : z ≡ x = (==_iff z x).0 b in
            let own : links x ≡ link n (some y) (first zs) = ap links (sym q) ∙ v.1.0 in
            let rest : without x (z ∷ zs) ≡ zs =
              rw q (without_first x zs (ap (λ w. contains w zs) (sym q) ∙ distinct_head z zs d')) in
            o y e
            ∙ ap (λ l. moved l y (links y)) own
            ∙ ap (λ k. moved (link n (some y) (first zs)) y k)
                (v.0 ∙ ap (λ w. link n prev (some w)) q)
            ∙ moved_prev n x y prev (first zs) (points-first zs y (contains_tail y z zs away))
            ∙ ap (λ l. link n prev (first l)) (sym rest)
        | inr b ↦
            let in_rest : contains x zs ≡ true = contains_later x z zs c b in
            o y e
            ∙ moved_out (links x) (links y) y
                (prev_out links n (some z) zs x y v.1.1 in_rest (contains_tail y z zs away)
                  (points_other y z (turned z y (differ y z (z ∷ zs) away (contains_head z zs)))))
                (next_out links n (some z) zs x y v.1.1 in_rest (contains_tail y z zs away))
            ∙ v.0
            ∙ ap (λ l. link n prev (first l)) (sym (without_later x z zs b))
      ]

  pub out_list :
      (prev : Option ℕ) (xs : List ℕ)
      → Out
      → contains x xs ≡ true
      → distinct xs ≡ true
      → ((j : ℕ) → contains j xs ≡ true → points prev j ≡ false)
      → Seg links n prev xs
      → Seg links' n prev (without x xs)
  unfolding Seg
  out_list prev [] o c d f v = ground (arith, contains-nil x)
  out_list prev (y ∷ ys) o c d f v = elim (Bool-cases (y == x)) [
    | inl b ↦
        let q : y ≡ x = (==_iff y x).0 b in
        let away : contains x ys ≡ false = ap (λ w. contains w ys) (sym q) ∙ distinct_head y ys d in
        rw (q, without_first x ys away)
          (out_first prev ys o (ap links (sym q) ∙ v.0) away (distinct_tail y ys d)
            (λ j i. f j (contains_more j y ys i)) (rw (sym q) v.1))
    | inr b ↦
        let c' : contains x ys ≡ true = contains_later x y ys c b in
        rw (without_later x y ys b) (
          out_head prev y ys o b c' d v,
          out_list (some y) ys o c' (distinct_tail y ys d)
              (λ j i. points_other j y (differ y j ys (distinct_head y ys d) i)) v.1,
        )
  ]
