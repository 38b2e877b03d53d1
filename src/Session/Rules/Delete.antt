-- ===== src/Session/Rules/Delete.antt =====
-- Which rules a session of upf/upf_pfcp.c has after a deletion is committed.
use upg_vpp_tr.Base.{
  ℕ, ◌%◌, ◌^◌, suc, ◌≤◌, ◌≡◌, refl, ◌∙◌, true, false, ◌==◌, List, [], ◌∷◌, map, Option, none, some,
  if◌then◌else◌, arith, Bool-cases, inl, inr,
}
use upg_vpp_tr.Session.Rules
use upg_vpp_tr.Session.Rules.{pdr, far, urr, qer}
use upg_vpp_tr.Session.Rules.Laws.{
  commit, commit_given, make_pending-copy, plain, set_pending-pending, put_kind_same,
}

-- The rule with an identifier.
unfoldable pub rule_with : (k : Rules.Kind) → ℕ → List (Rules.Rule k) → Option (Rules.Rule k)
unfolding Rules.rule_id
rule_with k q [] = none
rule_with k q (r ∷ rs) = if q == Rules.rule_id k r then some r else rule_with k q rs

copy-id : (k : Rules.Kind) (r : Rules.Rule k) → Rules.rule_id k (Rules.copy k r) ≡ Rules.rule_id k r
unfolding Rules.rule_id Rules.copy Rules.copy_far
copy-id pdr r = refl
copy-id far r = ground arith
copy-id urr r = refl
copy-id qer r = refl

copy-above :
    (k : Rules.Kind) (n : ℕ) (rs : List (Rules.Rule k))
    → Rules.above k n (map (Rules.copy k) rs) ≡ Rules.above k n rs
unfolding Rules.above
copy-above k n [] = refl
copy-above k n (r ∷ rs) = rw (copy-id k r, copy-above k n rs) refl

pub copy-sorted :
    (k : Rules.Kind) (rs : List (Rules.Rule k))
    → Rules.sorted k (map (Rules.copy k) rs) ≡ Rules.sorted k rs
unfolding Rules.sorted
copy-sorted k [] = refl
copy-sorted k (r ∷ rs) =
    rw (copy-id k r, copy-above k (Rules.rule_id k r) rs, copy-sorted k rs) refl

pub rule_with-above :
    (k : Rules.Kind) (n q : ℕ) (rs : List (Rules.Rule k))
    → Rules.above k n rs ≡ true
    → q ≤ n
    → rule_with k q rs ≡ none
unfolding Rules.above rule_with
rule_with-above k n q [] a le = refl
rule_with-above k n q (r ∷ rs) a le = ground (arith, rule_with-above k n q rs (ground arith) le)

-- The vector without the rule that is found, if one is.
unfoldable removed : (k : Rules.Kind) → List (Rules.Rule k) → Option ℕ → List (Rules.Rule k)
unfolding Rules.vec_delete
removed k rs none = rs
removed k rs (some p) = Rules.vec_delete p rs

removed_later :
    (k : Rules.Kind) (id : ℕ) (r : Rules.Rule k) (rs : List (Rules.Rule k))
    → (id == Rules.rule_id k r) ≡ false
    → removed k (r ∷ rs) (Rules.position k id (r ∷ rs)) ≡ r ∷ removed k rs (Rules.position k id rs)
unfolding Rules.position removed
removed_later k id r rs e = rw e (later (Rules.position k id rs))
  where
    later :
        (o : Option ℕ)
        → removed k (r ∷ rs) (elim o [ none ↦ none | some i ↦ some (suc i) ]) ≡ r ∷ removed k rs o
    later none = refl
    later (some i) = refl

removed_first :
    (k : Rules.Kind) (id : ℕ) (r : Rules.Rule k) (rs : List (Rules.Rule k))
    → (id == Rules.rule_id k r) ≡ true
    → removed k (r ∷ rs) (Rules.position k id (r ∷ rs)) ≡ rs
unfolding Rules.position removed
removed_first k id r rs e = rw e refl

removed_none : (k : Rules.Kind) (id : ℕ) → removed k [] (Rules.position k id []) ≡ []
unfolding Rules.position removed
removed_none k id = refl

rule_with-removed :
    (k : Rules.Kind) (id q : ℕ) (rs : List (Rules.Rule k))
    → Rules.sorted k rs ≡ true
    → rule_with k q (removed k rs (Rules.position k id rs))
      ≡ (if q == id then none else rule_with k q rs)
unfolding rule_with Rules.sorted
rule_with-removed k id q [] s = rw (removed_none k id) (ground arith)
rule_with-removed k id q (r ∷ rs) s = elim (Bool-cases (id == Rules.rule_id k r)) [
  | inl e ↦
      rw (removed_first k id r rs e)
        (ground (arith, e, rule_with-above k (Rules.rule_id k r) q rs (ground arith)))
  | inr e ↦
      rw (removed_later k id r rs e) (ground (arith, e, rule_with-removed k id q rs (ground arith)))
]

deleted-pending :
    (k : Rules.Kind) (sx : Rules.Session) (rs : List (Rules.Rule k)) (o : Option ℕ)
    → Rules.pending_rules sx k ≡ some rs
    → Rules.pending_rules (Rules.deleted k sx rs o).0 k ≡ some (removed k rs o)
unfolding Rules.deleted removed
deleted-pending k sx rs none e = e
deleted-pending k sx rs (some p) e =
    set_pending-pending k k _ sx ∙ put_kind_same k _ (Rules.pending_rules sx)

delete-pending :
    (s : Rules.Search) (k : Rules.Kind) (sx : Rules.Session) (id : ℕ) (v : List (Rules.Rule k))
    → Rules.pending_rules sx k ≡ none
    → Rules.active_rules sx k ≡ some v
    → let rs = map (Rules.copy k) v in
      Rules.pending_rules (Rules.pfcp_delete s k sx id).0 k
      ≡ some (removed k rs (s.bsearch k (Rules.stored_id k id) rs))
unfolding Rules.pfcp_delete Rules.rules_of
delete-pending s k sx id v a b =
    let e = make_pending-copy k sx v a b in
    rw e (
      deleted-pending k (Rules.make_pending k sx) (map (Rules.copy k) v)
        (s.bsearch k (Rules.stored_id k id) (map (Rules.copy k) v)) e)

-- The bits of the field for an identifier.
abbrev pub width : Rules.Kind → ℕ
width pdr = 32
width far = 16
width urr = 16
width qer = 32

stored_id_lem : (k : Rules.Kind) (id : ℕ) → Rules.stored_id k id ≡ id % 2 ^ width k
unfolding Rules.stored_id
stored_id_lem pdr id = refl
stored_id_lem far id = refl
stored_id_lem urr id = refl
stored_id_lem qer id = refl

-- When the deletion of a PDR, FAR or QER is committed in a session in which none of its kind are pending
-- and the active ones are in order, the session has the rule no more whose identifier is the given one in
-- the bits of the field, 16 for a FAR and 32 else, and every other rule of the kind as copied, up to what
-- a rule refers to outside of the session.
pub pfcp_delete-commit :
    (s : Rules.Search) (k : Rules.Kind) (sx : Rules.Session) (id q : ℕ) (v : List (Rules.Rule k))
    → plain k ≡ true
    → Rules.pending_rules sx k ≡ none
    → Rules.active_rules sx k ≡ some v
    → Rules.sorted k v ≡ true
    → rule_with k q
        (Rules.rules_of k (Rules.active_rules (commit s (Rules.pfcp_delete s k sx id).0) k))
      ≡ (if q == id % 2 ^ width k then none else rule_with k q (map (Rules.copy k) v))
unfolding Rules.rules_of
pfcp_delete-commit s k sx id q v p a b o =
    let rs = map (Rules.copy k) v in
    let o' : Rules.sorted k rs ≡ true = copy-sorted k v ∙ o in
    rw
      (
        commit_given s k (Rules.pfcp_delete s k sx id).0 _ p (delete-pending s k sx id v a b),
        s.bsearch_sorted k (Rules.stored_id k id) rs o',
        ← stored_id_lem k id,
      )
      (rule_with-removed k (Rules.stored_id k id) q rs o')
