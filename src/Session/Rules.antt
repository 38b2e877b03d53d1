-- ===== src/Session/Rules.antt =====
-- The rules of a session, which are changed in a pending copy and then made active: the functions
-- `pfcp_make_pending_*`, those of the macro `pfcp_rule_vector_fns`, and of `pfcp_update_apply` the
-- exchange of the vectors, in upf/upf_pfcp.c.
--
-- A vector is `none` where the C code has a null pointer. `bsearch` of the C library is a parameter.
--
-- A rule here is the rule without what refers to shared state and is given out or started anew when the
-- rules become active: the peer index of a FAR (`peer_addr_ref`), the policer's value of a QER
-- (`attach_qer_policer`), and of a URR `liusa_bitmap` (`build_urr_link_map`), the timers and
-- `traffic_by_ue`. The other fields that no function here reads or sets are one number, `*_rest`.
pub mod Apply
pub mod Laws
pub mod Delete
pub mod Usage
use upg_vpp_tr.Base.{
  ℕ, zero, suc, ◌+◌, ◌%◌, ◌^◌, ◌≡◌, Bool, true, false, not, ◌&&◌, ◌||◌, ltb, has, ◌==◌, List, [],
  ◌∷◌, map, Option, none, some, if◌then◌else◌,
}

pub data Kind : Type 0 where
  pdr far urr qer : Kind

pub record Pdr : Type 0 where
  pub pdr_id : ℕ
  pub pdr_rest : ℕ

pub record Far : Type 0 where
  pub far_id : ℕ
  pub forwards : Bool
  pub redirects : Bool
  pub rewrite : Option (List ℕ)
  pub redirect_information : Option ℕ
  pub far_rest : ℕ

-- `urr_counter_t` and `urr_measure_t`.
pub record Counts : Type 0 where
  pub ul : ℕ
  pub dl : ℕ
  pub total : ℕ

pub record Measure : Type 0 where
  pub packets : Counts
  pub bytes : Counts
  pub consumed : Counts

-- `volume_method` is the flag PFCP_URR_VOLUME of `methods`.
pub record Urr : Type 0 where
  pub urr_id : ℕ
  pub update_flags : ℕ
  pub traffic : Option ℕ
  pub volume_method : Bool
  pub measure : Measure
  pub urr_rest : ℕ

pub record Qer : Type 0 where
  pub qer_id : ℕ
  pub qer_rest : ℕ

abbrev pub Rule : Kind → Type 0
Rule pdr = Pdr
Rule far = Far
Rule urr = Urr
Rule qer = Qer

unfoldable pub rule_id : (k : Kind) → Rule k → ℕ
rule_id pdr r = r.pdr_id
rule_id far r = r.far_id
rule_id urr r = r.urr_id
rule_id qer r = r.qer_id

abbrev pub no_counts : Counts
no_counts = record { ul = 0; dl = 0; total = 0 }

abbrev pub no_measure : Measure
no_measure = record { packets = no_counts; bytes = no_counts; consumed = no_counts }

unfoldable pub copy_far : Far → Far
copy_far old =
    let new = record old { rewrite = none; redirect_information = none } in
    if not old.forwards
    then new
    else if old.redirects
    then record new { rewrite = old.rewrite; redirect_information = old.redirect_information }
    else record new { rewrite = old.rewrite }

-- What each `pfcp_make_pending_*` makes of a rule.
unfoldable pub copy : (k : Kind) → Rule k → Rule k
unfolding copy_far
copy pdr r = r
copy far r = copy_far r
copy urr r = record r { update_flags = 0; traffic = none; measure = no_measure }
copy qer r = r

-- `struct rules`, of which only the vectors of rules are here.
abbrev pub Vectors : Type 0
Vectors = (k : Kind) → Option (List (Rule k))

-- `rules` and `active` of a session.
pub record Session : Type 0 where
  pub active : Bool
  pub slots : Bool → Vectors

unfoldable pub active_rules : Session → Vectors
active_rules sx = sx.slots sx.active

unfoldable pub pending_rules : Session → Vectors
pending_rules sx = sx.slots (not sx.active)

unfoldable pub same : Bool → Bool → Bool
same true b = b
same false b = not b

unfoldable pub put_kind : (k : Kind) → Option (List (Rule k)) → Vectors → Vectors
put_kind pdr v w pdr = v
put_kind pdr v w far = w far
put_kind pdr v w urr = w urr
put_kind pdr v w qer = w qer
put_kind far v w pdr = w pdr
put_kind far v w far = v
put_kind far v w urr = w urr
put_kind far v w qer = w qer
put_kind urr v w pdr = w pdr
put_kind urr v w far = w far
put_kind urr v w urr = v
put_kind urr v w qer = w qer
put_kind qer v w pdr = w pdr
put_kind qer v w far = w far
put_kind qer v w urr = w urr
put_kind qer v w qer = v

unfoldable pub set_pending : (k : Kind) → Option (List (Rule k)) → Session → Session
unfolding same put_kind
set_pending k v sx = record sx {
  slots = λ i. if same i sx.active then sx.slots i else put_kind k v (sx.slots i);
}

unfoldable pub copied :
    (k : Kind) → Option (List (Rule k)) → Option (List (Rule k)) → Option (List (Rule k))
unfolding copy
copied k (some v) w = some v
copied k none none = none
copied k none (some w) = some (map (copy k) w)

-- `pfcp_make_pending_*`.
unfoldable pub make_pending : (k : Kind) → Session → Session
unfolding copied set_pending active_rules pending_rules
make_pending k sx = set_pending k (copied k (pending_rules sx k) (active_rules sx k)) sx

-- The vector with the rules it holds.
unfoldable pub rules_of : (k : Kind) → Option (List (Rule k)) → List (Rule k)
rules_of k none = []
rules_of k (some v) = v

-- The index of the rule with an identifier.
unfoldable pub position : (k : Kind) → ℕ → List (Rule k) → Option ℕ
unfolding rule_id
position k q [] = none
position k q (r ∷ rs) =
    let rest = position k q rs in
    if q == rule_id k r then some 0 else elim rest [ none ↦ none | some i ↦ some (suc i) ]

unfoldable pub above : (k : Kind) → ℕ → List (Rule k) → Bool
unfolding rule_id
above k n [] = true
above k n (r ∷ rs) = ltb n (rule_id k r) && above k n rs

unfoldable pub sorted : (k : Kind) → List (Rule k) → Bool
unfolding above rule_id
sorted k [] = true
sorted k (r ∷ rs) = above k (rule_id k r) rs && sorted k rs

-- `vec_bsearch`, on a vector in order.
pub record Search : Type 0 where
  pub bsearch : (k : Kind) → ℕ → List (Rule k) → Option ℕ
  pub bsearch_sorted :
      (k : Kind) (q : ℕ) (rs : List (Rule k))
      → sorted k rs ≡ true
      → bsearch k q rs ≡ position k q rs

-- `vec_delete` of one element.
unfoldable pub vec_delete : {A : Type 0} → ℕ → List A → List A
vec_delete n [] = []
vec_delete zero (x ∷ xs) = xs
vec_delete (suc n) (x ∷ xs) = x ∷ vec_delete n xs

unfoldable pub deleted : (k : Kind) → Session → List (Rule k) → Option ℕ → Session × Bool
unfolding set_pending vec_delete
deleted k sx rs none = (sx, false)
deleted k sx rs (some p) = (set_pending k (some (vec_delete p rs)) sx, true)

-- An identifier as the rules hold it: in 16 bits for a FAR and a URR, in 32 bits else.
unfoldable pub stored_id : Kind → ℕ → ℕ
stored_id pdr id = id % 2 ^ 32
stored_id far id = id % 2 ^ 16
stored_id urr id = id % 2 ^ 16
stored_id qer id = id % 2 ^ 32

-- `pfcp_delete_*`; the result says whether there was such a rule.
unfoldable pub pfcp_delete : Search → (k : Kind) → Session → ℕ → Session × Bool
unfolding make_pending pending_rules rules_of deleted stored_id
pfcp_delete s k sx id =
    let sx' = make_pending k sx in
    let rs = rules_of k (pending_rules sx' k) in deleted k sx' rs (s.bsearch k (stored_id k id) rs)

-- `pfcp_get_*`, on the active rules; on the pending ones a copy is made first.
unfoldable pub pfcp_get_active : Search → (k : Kind) → Session → ℕ → Option ℕ
unfolding active_rules rules_of stored_id
pfcp_get_active s k sx id = s.bsearch k (stored_id k id) (rules_of k (active_rules sx k))

unfoldable pub pfcp_get_pending : Search → (k : Kind) → Session → ℕ → Session × Option ℕ
unfolding make_pending pending_rules rules_of stored_id
pfcp_get_pending s k sx id =
    let sx' = make_pending k sx in
    (sx', s.bsearch k (stored_id k id) (rules_of k (pending_rules sx' k)))
