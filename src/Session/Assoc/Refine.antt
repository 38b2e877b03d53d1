-- ===== src/Session/Assoc/Refine.antt =====
-- Sessions taken out of the lists of upf/upf_pfcp.c, and the release of an association.
use upg_vpp_tr.Base.{
  ℕ, zero, suc, ◌≤◌, ◌≡◌, refl, sym, ◌∙◌, ap, true, false, not, ◌&&◌, ◌==◌, List, [], ◌∷◌, Option,
  none, some, arith, Bool-cases, inl, inr, ==_iff, length,
}
use upg_vpp_tr.Flow.Tcp.{contains, without}
use upg_vpp_tr.Flow.Tcp.Laws.{contains-without}
use upg_vpp_tr.Flow.Table.Lists.{distinct, distinct-without}
use upg_vpp_tr.Session.Assoc
use upg_vpp_tr.Session.Assoc.Shape.{first, link, Seg, Seg-frame, Seg-node}
use upg_vpp_tr.Session.Assoc.Laws.{
  Refines, two_nodes, differ, contains_head, distinct_head, distinct_tail, points, set_same,
  set_other, at_node,
}
use upg_vpp_tr.Session.Assoc.Detach.{
  detach_other, moved_out, prev_out, next_out, out_list, without_first, without_later,
  contains_later, points_other, turned, Out, contains-nil,
}

-- A session is not before itself.
prev_self :
    (links : ℕ → Assoc.Link) (n : ℕ) (prev : Option ℕ) (xs : List ℕ) (x : ℕ)
    → Seg links n prev xs
    → distinct xs ≡ true
    → contains x xs ≡ true
    → points prev x ≡ false
    → points (links x).prev x ≡ false
unfolding Seg
prev_self links n prev [] x v d c p = ground (arith, contains-nil x)
prev_self links n prev (y ∷ ys) x v d c p = elim (Bool-cases (y == x)) [
  | inl b ↦ rw (sym ((==_iff y x).0 b), ap (λ l. l.prev) v.0, (==_iff y x).0 b) p
  | inr b ↦
      prev_self links n (some y) ys x v.1 (distinct_tail y ys d) (contains_later x y ys c b)
        (points_other x y (turned y x b))
]

set_head_later :
    (links : ℕ → Assoc.Link) (f : ℕ → Option ℕ) (n p : ℕ) (ys : List ℕ) (x m : ℕ) (v : Option ℕ)
    → Seg links n (some p) ys
    → contains x ys ≡ true
    → Assoc.set_head f (links x).node (links x).prev v m ≡ f m
unfolding Seg Assoc.set_head
set_head_later links f n p [] x m v s c = ground (arith, contains-nil x)
set_head_later links f n p (y ∷ ys) x m v s c = elim (Bool-cases (y == x)) [
  | inl b ↦ rw (sym ((==_iff y x).0 b), s.0) refl
  | inr b ↦ set_head_later links f n y ys x m v s.1 (contains_later x y ys c b)
]

-- The node's first session, after one of its sessions is taken out.
detach_head :
    (s : Assoc.Store) (n x : ℕ) (xs : List ℕ)
    → s.heads n ≡ first xs
    → Seg s.links n none xs
    → distinct xs ≡ true
    → contains x xs ≡ true
    → (Assoc.node_assoc_detach_session x s).heads n ≡ first (without x xs)
unfolding Seg first Assoc.node_assoc_detach_session Assoc.set_head
detach_head s n x [] h v d c = ground (arith, contains-nil x)
detach_head s n x (y ∷ ys) h v d c = elim (Bool-cases (y == x)) [
  | inl b ↦
      let q : y ≡ x = (==_iff y x).0 b in
      let own : s.links x ≡ link n none (first ys) = ap s.links (sym q) ∙ v.0 in
      let away : contains x ys ≡ false = ap (λ w. contains w ys) (sym q) ∙ distinct_head y ys d in
      rw (own, q, without_first x ys away) (set_same s.heads n (first ys))
  | inr b ↦
      let later : contains x ys ≡ true = contains_later x y ys c b in
      set_head_later s.links s.heads n y ys x n (s.links x).next v.1 later
      ∙ h
      ∙ ap first (sym (without_later x y ys b))
]

set_head_other :
    (f : ℕ → Option ℕ) (n m : ℕ) (node prev v : Option ℕ)
    → node ≡ some n
    → (m == n) ≡ false
    → Assoc.set_head f node prev v m ≡ f m
unfolding Assoc.set_head
set_head_other f n m none prev v e ne = ground arith
set_head_other f n m (some i) (some p) v e ne = refl
set_head_other f n m (some i) none v e ne = set_other f i m v (ground arith)

detach_heads_other :
    (s : Assoc.Store) (n x m : ℕ)
    → (s.links x).node ≡ some n
    → (m == n) ≡ false
    → (Assoc.node_assoc_detach_session x s).heads m ≡ s.heads m
unfolding Assoc.node_assoc_detach_session
detach_heads_other s n x m e ne = set_head_other s.heads n m _ _ _ e ne

-- A session of a node is taken out of the node's list, and the other nodes keep theirs.
pub node_assoc_detach_session-Refines :
    (s : Assoc.Store) (a : ℕ → List ℕ) (n x : ℕ)
    → Refines s a
    → contains x (a n) ≡ true
    → Refines (Assoc.node_assoc_detach_session x s) (Assoc.set a n (without x (a n)))
unfolding points Out
node_assoc_detach_session-Refines s a n x r c =
    let p = prev_self s.links n none (a n) x (r.seg n) (r.once n) c refl in
    let other : Out s.links (Assoc.node_assoc_detach_session x s).links n x =
      λ j e. detach_other s x j p e in
    at_node s _ a n (without x (a n)) r (detach_head s n x (a n) (r.head n) (r.seg n) (r.once n) c)
      (out_list s.links _ n x none (a n) other c (r.once n) (λ j i. refl) (r.seg n))
      (distinct-without x (a n) (r.once n))
      (λ m e. detach_heads_other s n x m (Seg-node s.links n none (a n) x (r.seg n) c) e)
      (λ m e.
        Seg-frame s.links _ m none (a m)
          (λ y i.
            let away : contains y (a n) ≡ false = two_nodes s a m n y r e i in
            other y (turned x y (differ y x (a n) away c))
            ∙ moved_out (s.links x) (s.links y) y
                (prev_out s.links n none (a n) x y (r.seg n) c away refl)
                (next_out s.links n none (a n) x y (r.seg n) c away))
          (r.seg m))

disable-Refines :
    (s : Assoc.Store) (a : ℕ → List ℕ) (n x : ℕ)
    → Refines s a
    → contains x (a n) ≡ true
    → Refines
        (Assoc.pfcp_free_session x (Assoc.pfcp_disable_session x s))
        (Assoc.set a n (without x (a n)))
unfolding Assoc.pfcp_free_session Assoc.pfcp_disable_session
disable-Refines s a n x r c =
    let r' =
      node_assoc_detach_session-Refines
        (record s { session_by_id = Assoc.set s.session_by_id (s.seids x) none }) a n x
        (record { head = r.head; seg = r.seg; once = r.once }) c in
    record { head = r'.head; seg = r'.seg; once = r'.once }

detach-sessions :
    (s : Assoc.Store) (x : ℕ) → (Assoc.node_assoc_detach_session x s).sessions ≡ s.sessions
unfolding Assoc.node_assoc_detach_session
detach-sessions s x = refl

disable-sessions :
    (s : Assoc.Store) (x y : ℕ)
    → contains y (Assoc.pfcp_free_session x (Assoc.pfcp_disable_session x s)).sessions
      ≡ (not (y == x) && contains y s.sessions)
unfolding Assoc.pfcp_free_session Assoc.pfcp_disable_session
disable-sessions s x y = contains-without y x s.sessions

Refines-ext :
    (s : Assoc.Store) (a b : ℕ → List ℕ) → ((m : ℕ) → b m ≡ a m) → Refines s a → Refines s b
Refines-ext s a b h r = record {
  head = λ m. r.head m ∙ ap first (sym (h m));
  seg = λ m. rw (h m) (r.seg m);
  once = λ m. rw (h m) (r.once m);
}

-- The store that a release gives: the node has no session, the sessions it had are back in the pool,
-- and nothing else is.
pub Released : Assoc.Store → (ℕ → List ℕ) → ℕ → List ℕ → Option Assoc.Store → Type 0
Released s a n xs o =
    (s' : Assoc.Store) × (o ≡ some s')
    × Refines s' (Assoc.set a n [])
    × ((y : ℕ) → contains y s'.sessions ≡ (not (contains y xs) && contains y s.sessions))

set_twice :
    (a : ℕ → List ℕ) (n : ℕ) (xs ys : List ℕ) (m : ℕ)
    → Assoc.set (Assoc.set a n xs) n ys m ≡ Assoc.set a n ys m
unfolding Assoc.set
set_twice a n xs ys m = ground arith

set_held : (a : ℕ → List ℕ) (n m : ℕ) (xs : List ℕ) → a n ≡ xs → Assoc.set a n xs m ≡ a m
unfolding Assoc.set
set_held a n m xs e = elim (Bool-cases (m == n)) [
  | inl b ↦ rw b (sym e ∙ ap a (sym ((==_iff m n).0 b)))
  | inr b ↦ rw b refl
]

next_first :
    (links : ℕ → Assoc.Link) (n : ℕ) (xs : List ℕ) (x : ℕ)
    → Seg links n none (x ∷ xs)
    → (links x).next ≡ first xs
unfolding Seg
next_first links n xs x v = ap (λ l. l.next) v.0

both_out :
    (s : Assoc.Store) (x : ℕ) (xs : List ℕ) (y : ℕ)
    → (not (contains y xs)
        && contains y (Assoc.pfcp_free_session x (Assoc.pfcp_disable_session x s)).sessions)
      ≡ (not (contains y (x ∷ xs)) && contains y s.sessions)
unfolding contains
both_out s x xs y = ground (arith, disable-sessions s x y)

release_loop-Released :
    (xs : List ℕ) (fuel n : ℕ) (s : Assoc.Store) (a : ℕ → List ℕ)
    → Refines s a
    → a n ≡ xs
    → length xs ≤ fuel
    → Released s a n xs (Assoc.release_loop fuel (first xs) s)
unfolding Assoc.release_loop Released first
release_loop-Released [] fuel n s a r e le = (
  s,
  refl,
  Refines-ext s a (Assoc.set a n []) (λ m. set_held a n m [] e) r,
  λ y. ground (arith, contains-nil y),
)
release_loop-Released (x ∷ xs) zero n s a r e le = ground arith
release_loop-Released (x ∷ xs) (suc fuel) n s a r e le =
    let c : contains x (a n) ≡ true = rw e (contains_head x xs) in
    let away : contains x xs ≡ false = distinct_head x xs (ap distinct (sym e) ∙ r.once n) in
    let s1 = Assoc.pfcp_free_session x (Assoc.pfcp_disable_session x s) in
    let a1 = Assoc.set a n (without x (a n)) in
    let rest : a1 n ≡ xs =
      set_same a n (without x (a n)) ∙ ap (without x) e ∙ without_first x xs away in
    let next : (s.links x).next ≡ first xs = next_first s.links n xs x (rw (sym e) (r.seg n)) in
    let (s', done, refines, pool) =
      release_loop-Released xs fuel n s1 a1 (disable-Refines s a n x r c) rest
        (omega (arith, le)) in
    (
      s',
      ap (λ o. Assoc.release_loop fuel o s1) next ∙ done,
      Refines-ext s' (Assoc.set a1 n []) (Assoc.set a n [])
          (λ m. sym (set_twice a n (without x (a n)) [] m)) refines,
      λ y. pool y ∙ both_out s x xs y,
    )

-- Releasing an association ends: with fuel for its sessions, it takes every session of the node out of
-- the list and gives it back to the pool, and leaves those of the other nodes.
pub pfcp_release_association-Released :
    (fuel n : ℕ) (s : Assoc.Store) (a : ℕ → List ℕ)
    → Refines s a
    → length (a n) ≤ fuel
    → Released s a n (a n) (Assoc.pfcp_release_association fuel n s)
unfolding Assoc.pfcp_release_association
pfcp_release_association-Released fuel n s a r le =
    rw (r.head n) (release_loop-Released (a n) fuel n s a r refl le)
