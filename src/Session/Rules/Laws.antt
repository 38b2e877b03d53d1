-- ===== src/Session/Rules/Laws.antt =====
-- Changes of the rules of a session in upf/upf_pfcp.c are seen together, when they are applied.
use upg_vpp_tr.Base.{
  ℕ, ◌≡◌, refl, ◌∙◌, ap, Bool, true, false, not, List, map, Option, none, some, arith, Bool-cases,
  inl, inr,
}
use upg_vpp_tr.Session.Rules
use upg_vpp_tr.Session.Rules.Apply
use upg_vpp_tr.Session.Rules.{pdr, far, urr, qer}

same_self : (b : Bool) → Rules.same b b ≡ true
unfolding Rules.same
same_self true = refl
same_self false = refl

same_not : (b : Bool) → Rules.same (not b) b ≡ false
unfolding Rules.same
same_not true = refl
same_not false = refl

set_pending-active :
    (k j : Rules.Kind) (v : Option (List (Rules.Rule k))) (sx : Rules.Session)
    → Rules.active_rules (Rules.set_pending k v sx) j ≡ Rules.active_rules sx j
unfolding Rules.active_rules Rules.set_pending
set_pending-active k j v sx = rw (same_self sx.active) refl

pub set_pending-pending :
    (k j : Rules.Kind) (v : Option (List (Rules.Rule k))) (sx : Rules.Session)
    → Rules.pending_rules (Rules.set_pending k v sx) j
      ≡ Rules.put_kind k v (Rules.pending_rules sx) j
unfolding Rules.pending_rules Rules.set_pending
set_pending-pending k j v sx = rw (same_not sx.active) refl

pub put_kind_same :
    (k : Rules.Kind) (v : Option (List (Rules.Rule k))) (w : Rules.Vectors)
    → Rules.put_kind k v w k ≡ v
unfolding Rules.put_kind
put_kind_same pdr v w = refl
put_kind_same far v w = refl
put_kind_same urr v w = refl
put_kind_same qer v w = refl

pub make_pending-active :
    (k j : Rules.Kind) (sx : Rules.Session)
    → Rules.active_rules (Rules.make_pending k sx) j ≡ Rules.active_rules sx j
unfolding Rules.make_pending
make_pending-active k j sx = set_pending-active k j _ sx

deleted-active :
    (k j : Rules.Kind) (sx : Rules.Session) (rs : List (Rules.Rule k)) (o : Option ℕ)
    → Rules.active_rules (Rules.deleted k sx rs o).0 j ≡ Rules.active_rules sx j
unfolding Rules.deleted
deleted-active k j sx rs none = refl
deleted-active k j sx rs (some p) = set_pending-active k j _ sx

-- A deletion, whether there is such a rule or not, leaves every active rule as it is.
pub pfcp_delete-active :
    (s : Rules.Search) (k j : Rules.Kind) (sx : Rules.Session) (id : ℕ)
    → Rules.active_rules (Rules.pfcp_delete s k sx id).0 j ≡ Rules.active_rules sx j
unfolding Rules.pfcp_delete
pfcp_delete-active s k j sx id =
    deleted-active k j (Rules.make_pending k sx) _ _ ∙ make_pending-active k j sx

-- An application and its end.
unfoldable pub commit : Rules.Search → Rules.Session → Rules.Session
commit s sx = Apply.pfcp_update_finish (Apply.pfcp_update_apply s sx)

finish-active :
    (j : Rules.Kind) (sx : Rules.Session)
    → Rules.active_rules (Apply.pfcp_update_finish sx) j ≡ Rules.active_rules sx j
unfolding Rules.active_rules Apply.pfcp_update_finish
finish-active j sx = rw (same_self sx.active) refl

finish-pending :
    (j : Rules.Kind) (sx : Rules.Session)
    → Rules.pending_rules (Apply.pfcp_update_finish sx) j ≡ none
unfolding Rules.pending_rules Apply.pfcp_update_finish
finish-pending j sx = rw (same_not sx.active) refl

apply-active :
    (s : Rules.Search) (j : Rules.Kind) (sx : Rules.Session)
    → Apply.any_given (Rules.pending_rules sx) ≡ true
    → Rules.active_rules (Apply.pfcp_update_apply s sx) j
      ≡ Apply.applied s (Rules.pending_rules sx) (Rules.active_rules sx) j
unfolding Apply.pfcp_update_apply Rules.active_rules
apply-active s j sx g = rw (g, same_not sx.active) refl

apply_none :
    (s : Rules.Search) (sx : Rules.Session)
    → Apply.any_given (Rules.pending_rules sx) ≡ false
    → Apply.pfcp_update_apply s sx ≡ sx
unfolding Apply.pfcp_update_apply
apply_none s sx g = rw g refl

-- What is applied for a kind of which nothing is pending.
applied_kept :
    (s : Rules.Search) (j : Rules.Kind) (pending active : Rules.Vectors)
    → pending j ≡ none
    → Apply.applied s pending active j ≡ active j
unfolding Apply.applied Apply.share Apply.shared Rules.put_kind Apply.is_given
applied_kept s pdr pending active e = elim (Bool-cases (Apply.is_given urr (pending urr))) [
  | inl g ↦ rw (g, e) refl
  | inr g ↦ rw (g, e) refl
]
applied_kept s far pending active e = elim (Bool-cases (Apply.is_given urr (pending urr))) [
  | inl g ↦ rw (g, e) refl
  | inr g ↦ rw (g, e) refl
]
applied_kept s urr pending active e =
    let g : Apply.is_given urr (pending urr) ≡ false = ap (Apply.is_given urr) e in rw (g, e) refl
applied_kept s qer pending active e = elim (Bool-cases (Apply.is_given urr (pending urr))) [
  | inl g ↦ rw (g, e) refl
  | inr g ↦ rw (g, e) refl
]

-- Committing leaves nothing pending, and the active rules of a kind of which nothing was pending stay.
pub commit_kept :
    (s : Rules.Search) (j : Rules.Kind) (sx : Rules.Session)
    → Rules.pending_rules sx j ≡ none
    → (Rules.active_rules (commit s sx) j ≡ Rules.active_rules sx j)
      × (Rules.pending_rules (commit s sx) j ≡ none)
unfolding commit
commit_kept s j sx e = (
  finish-active j (Apply.pfcp_update_apply s sx)
      ∙ elim (Bool-cases (Apply.any_given (Rules.pending_rules sx))) [
        | inl g ↦
            apply-active s j sx g
            ∙ applied_kept s j (Rules.pending_rules sx) (Rules.active_rules sx) e
        | inr g ↦ ap (λ x. Rules.active_rules x j) (apply_none s sx g)
      ],
  finish-pending j (Apply.pfcp_update_apply s sx),
)

-- The kinds whose vectors go over as they are; usage rules take over what was measured.
unfoldable pub plain : Rules.Kind → Bool
plain pdr = true
plain far = true
plain urr = false
plain qer = true

applied_given :
    (s : Rules.Search) (j : Rules.Kind) (pending active : Rules.Vectors) (v : List (Rules.Rule j))
    → plain j ≡ true
    → pending j ≡ some v
    → Apply.applied s pending active j ≡ some v
unfolding Apply.applied Apply.share Apply.shared Rules.put_kind Apply.is_given plain
applied_given s pdr pending active v p e = elim (Bool-cases (Apply.is_given urr (pending urr))) [
  | inl g ↦ rw (g, e) refl
  | inr g ↦ rw (g, e) refl
]
applied_given s far pending active v p e = elim (Bool-cases (Apply.is_given urr (pending urr))) [
  | inl g ↦ rw (g, e) refl
  | inr g ↦ rw (g, e) refl
]
applied_given s urr pending active v p e = ground arith
applied_given s qer pending active v p e = elim (Bool-cases (Apply.is_given urr (pending urr))) [
  | inl g ↦ rw (g, e) refl
  | inr g ↦ rw (g, e) refl
]

given_any :
    (j : Rules.Kind) (w : Rules.Vectors) (v : List (Rules.Rule j))
    → w j ≡ some v
    → Apply.any_given w ≡ true
unfolding Apply.any_given Apply.is_given
given_any pdr w v e = ground (arith, ap (Apply.is_given pdr) e)
given_any far w v e = ground (arith, ap (Apply.is_given far) e)
given_any urr w v e = ground (arith, ap (Apply.is_given urr) e)
given_any qer w v e = ground (arith, ap (Apply.is_given qer) e)

-- What is pending of such a kind becomes active.
pub commit_given :
    (s : Rules.Search) (j : Rules.Kind) (sx : Rules.Session) (v : List (Rules.Rule j))
    → plain j ≡ true
    → Rules.pending_rules sx j ≡ some v
    → Rules.active_rules (commit s sx) j ≡ some v
unfolding commit
commit_given s j sx v p e =
    finish-active j (Apply.pfcp_update_apply s sx)
    ∙ apply-active s j sx (given_any j (Rules.pending_rules sx) v e)
    ∙ applied_given s j (Rules.pending_rules sx) (Rules.active_rules sx) v p e

pub make_pending-copy :
    (k : Rules.Kind) (sx : Rules.Session) (v : List (Rules.Rule k))
    → Rules.pending_rules sx k ≡ none
    → Rules.active_rules sx k ≡ some v
    → Rules.pending_rules (Rules.make_pending k sx) k ≡ some (map (Rules.copy k) v)
unfolding Rules.make_pending Rules.copied
make_pending-copy k sx v a b =
    set_pending-pending k k _ sx ∙ put_kind_same k _ (Rules.pending_rules sx) ∙ rw (a, b) refl

-- Usage rules that are pending become active with what was measured before.
pub commit_urr :
    (s : Rules.Search) (sx : Rules.Session) (v w : List Rules.Urr)
    → Rules.pending_rules sx urr ≡ some v
    → Rules.active_rules sx urr ≡ some w
    → Rules.active_rules (commit s sx) urr ≡ some (Apply.take_over_all s w v)
unfolding commit Apply.applied Rules.put_kind Apply.share Apply.shared Apply.is_given Apply.combined
commit_urr s sx v w e f =
    finish-active urr (Apply.pfcp_update_apply s sx)
    ∙ apply-active s urr sx (given_any urr (Rules.pending_rules sx) v e)
    ∙ rw (e, f) refl
