-- ===== src/Session/Rules/Apply.antt =====
-- Pending rules made active: of `pfcp_update_apply` and `pfcp_update_finish` of upf/upf_pfcp.c the
-- exchange of the vectors, and what a usage rule takes over.
--
-- The vectors hold the rules without their references to peers, policers and timers, which
-- `pfcp_update_apply` gives out here. `build_pfcp_rules` reads the PDRs and always returns 0, so that the
-- return of -1 is never taken.
use upg_vpp_tr.Base.{
  ℕ, zero, suc, ◌+◌, ◌%◌, ◌^◌, Bool, true, false, not, ◌||◌, has, List, [], ◌∷◌, Option, none, some,
  if◌then◌else◌,
}
use upg_vpp_tr.Session.Rules.{
  Kind, Counts, Measure, Urr, Rule, Vectors, Session, active_rules, pending_rules, same, put_kind,
  Search, pdr, far, urr, qer,
}

unfoldable pub is_given : (k : Kind) → Option (List (Rule k)) → Bool
is_given k none = false
is_given k (some v) = true

-- A vector that is not pending is that of the active rules.
unfoldable pub shared :
    (k : Kind) → Option (List (Rule k)) → Option (List (Rule k)) → Option (List (Rule k))
shared k none w = w
shared k (some v) w = some v

-- The pending slot of `pfcp_update_apply` before the switch, and the other one after it, which gives
-- up what was shared.
unfoldable pub share : Vectors → Vectors → Vectors
unfolding shared
share pending active k = shared k (pending k) (active k)

unfoldable pub given_up :
    (k : Kind) → Option (List (Rule k)) → Option (List (Rule k)) → Option (List (Rule k))
given_up k none w = none
given_up k (some v) w = w

unfoldable pub give_up : Vectors → Vectors → Vectors
unfolding given_up
give_up pending active k = given_up k (pending k) (active k)

unfoldable pub add_counts : Counts → Counts → Counts
add_counts a b = record {
  ul = (a.ul + b.ul) % 2 ^ 64;
  dl = (a.dl + b.dl) % 2 ^ 64;
  total = (a.total + b.total) % 2 ^ 64;
}

abbrev pub update_volume_quota : ℕ
update_volume_quota = 1

-- `combine_volume` of the old measure into the new one.
unfoldable pub combine_measure : ℕ → Measure → Measure → Measure
unfolding add_counts
combine_measure update_flags old new =
    let bytes = add_counts new.bytes old.bytes in
    record {
      packets = add_counts new.packets old.packets;
      bytes = bytes;
      consumed =
          if has update_flags update_volume_quota
          then bytes
          else add_counts new.consumed old.consumed;
    }

-- What a new rule takes over from the old one.
unfoldable pub take_over : Urr → Urr → Urr
unfolding combine_measure
take_over old new = record new {
  traffic = old.traffic;
  measure =
      if new.volume_method
      then combine_measure new.update_flags old.measure new.measure
      else new.measure;
}

unfoldable pub update_at : {A : Type 0} → ℕ → (A → A) → List A → List A
update_at n f [] = []
update_at zero f (x ∷ xs) = f x ∷ xs
update_at (suc n) f (x ∷ xs) = x ∷ update_at n f xs

unfoldable pub take_over_at : Urr → List Urr → Option ℕ → List Urr
unfolding update_at take_over
take_over_at old new none = new
take_over_at old new (some p) = update_at p (take_over old) new

-- The loop over the old rules.
unfoldable pub take_over_all : Search → List Urr → List Urr → List Urr
unfolding take_over_at
take_over_all s [] new = new
take_over_all s (old ∷ olds) new =
    take_over_all s olds (take_over_at old new (s.bsearch urr old.urr_id new))

unfoldable pub combined : Search → Option (List Urr) → Option (List Urr) → Option (List Urr)
unfolding take_over_all
combined s none new = new
combined s (some v) none = none
combined s (some v) (some new) = some (take_over_all s v new)

unfoldable pub any_given : Vectors → Bool
unfolding is_given
any_given w =
    is_given pdr (w pdr) || is_given far (w far) || is_given urr (w urr) || is_given qer (w qer)

-- The new active rules: with usage taken over where the usage rules were pending.
unfoldable pub applied : Search → Vectors → Vectors → Vectors
unfolding share combined put_kind is_given
applied s pending active =
    let w = share pending active in
    if is_given urr (pending urr) then put_kind urr (combined s (active urr) (w urr)) w else w

-- `pfcp_update_apply`, as far as the vectors of rules go.
unfoldable pub pfcp_update_apply : Search → Session → Session
unfolding applied give_up any_given pending_rules active_rules same
pfcp_update_apply s sx =
    let pending = pending_rules sx in
    let active = active_rules sx in
    if any_given pending
    then record {
      active = not sx.active;
      slots = λ i. if same i sx.active then give_up pending active else applied s pending active;
    }
    else sx

-- `pfcp_update_finish`, which frees the pending rules.
unfoldable pub pfcp_update_finish : Session → Session
unfolding same
pfcp_update_finish sx = record sx {
  slots = λ i. if same i sx.active then sx.slots i else λ k. none;
}
