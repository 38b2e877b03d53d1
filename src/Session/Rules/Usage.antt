-- ===== src/Session/Rules/Usage.antt =====
-- What was measured for a usage rule goes over to the rule that takes its place, in upf/upf_pfcp.c.
use upg_vpp_tr.Base.{
  Bool, has, ℕ, ◌+◌, suc, ◌%◌, ◌^◌, ◌<◌, ◌≡◌, refl, ◌∙◌, ap, true, false, ◌==◌, List, [], ◌∷◌,
  Option, none, some, if◌then◌else◌, arith, Bool-cases, inl, inr,
}
use upg_vpp_tr.Session.Rules
use upg_vpp_tr.Session.Rules.Apply
use upg_vpp_tr.Session.Rules.{urr}
use upg_vpp_tr.Session.Rules.Delete.{rule_with, rule_with-above}
use upg_vpp_tr.Session.Rules.Laws.{commit, commit_urr}

-- The sums of two counts, each in 64 bits.
abbrev both : Rules.Counts → Rules.Counts → Rules.Counts
both a b = record {
  ul = (a.ul + b.ul) % 2 ^ 64;
  dl = (a.dl + b.dl) % 2 ^ 64;
  total = (a.total + b.total) % 2 ^ 64;
}

-- What a new rule should have measured beside an old one: without the measurement of volume what it
-- had itself; with it the sums of the packets and of the octets, and as what is consumed of the quota
-- the sum, or all octets where the quota was set anew.
unfoldable measured : Bool → Bool → Rules.Measure → Rules.Measure → Rules.Measure
measured false anew old new = new
measured true false old new = record {
  packets = both new.packets old.packets;
  bytes = both new.bytes old.bytes;
  consumed = both new.consumed old.consumed;
}
measured true true old new = record {
  packets = both new.packets old.packets;
  bytes = both new.bytes old.bytes;
  consumed = both new.bytes old.bytes;
}

-- The result for an identifier that a new and an old rule may have: the new rule, with the traffic of
-- the old one and what both have measured.
unfoldable pub usage : Option Rules.Urr → Option Rules.Urr → Option Rules.Urr
unfolding measured
usage none new = new
usage (some old) none = none
usage (some old) (some new) = some (record new {
  traffic = old.traffic;
  measure = measured new.volume_method (has new.update_flags 1) old.measure new.measure;
})

measured_lem :
    (v : Bool) (flags : ℕ) (old new : Rules.Measure)
    → (if v then Apply.combine_measure flags old new else new) ≡ measured v (has flags 1) old new
unfolding measured Apply.combine_measure Apply.add_counts
measured_lem false flags old new = refl
measured_lem true flags old new = elim (Bool-cases (has flags 1)) [
  | inl e ↦ rw e refl
  | inr e ↦ rw e refl
]

usage_lem : (old new : Rules.Urr) → some (Apply.take_over old new) ≡ usage (some old) (some new)
unfolding usage Apply.take_over
usage_lem old new =
    ap (λ x. some (record new { traffic = old.traffic; measure = x }))
      (measured_lem new.volume_method new.update_flags old.measure new.measure)

take_over-id : (old new : Rules.Urr) → (Apply.take_over old new).urr_id ≡ new.urr_id
unfolding Apply.take_over
take_over-id old new = refl

first_taken :
    (old n : Rules.Urr) (ns : List Rules.Urr)
    → (old.urr_id == n.urr_id) ≡ true
    → Apply.take_over_at old (n ∷ ns) (Rules.position urr old.urr_id (n ∷ ns))
      ≡ Apply.take_over old n ∷ ns
unfolding Apply.take_over_at Rules.position Rules.rule_id Apply.update_at
first_taken old n ns e = rw e refl

later_taken :
    (old n : Rules.Urr) (ns : List Rules.Urr)
    → (old.urr_id == n.urr_id) ≡ false
    → Apply.take_over_at old (n ∷ ns) (Rules.position urr old.urr_id (n ∷ ns))
      ≡ n ∷ Apply.take_over_at old ns (Rules.position urr old.urr_id ns)
unfolding Apply.take_over_at Rules.position Rules.rule_id Apply.update_at
later_taken old n ns e = rw e (later (Rules.position urr old.urr_id ns))
  where
    later :
        (o : Option ℕ)
        → Apply.take_over_at old (n ∷ ns) (elim o [ none ↦ none | some i ↦ some (suc i) ])
          ≡ n ∷ Apply.take_over_at old ns o
    later none = refl
    later (some i) = refl

none_taken : (old : Rules.Urr) → Apply.take_over_at old [] (Rules.position urr old.urr_id []) ≡ []
unfolding Apply.take_over_at Rules.position
none_taken old = refl

empty_taken :
    (q : ℕ) (old : Rules.Urr)
    → rule_with urr q []
      ≡ (if q == old.urr_id then usage (some old) (rule_with urr q []) else rule_with urr q [])
unfolding rule_with usage
empty_taken q old = ground arith

-- The usage of the first old rule is not in the rest of them.
old_first :
    (q : ℕ) (old : Rules.Urr) (olds : List Rules.Urr) (new new' : Option Rules.Urr)
    → Rules.above urr old.urr_id olds ≡ true
    → new' ≡ (if q == old.urr_id then usage (some old) new else new)
    → usage (rule_with urr q olds) new' ≡ usage (rule_with urr q (old ∷ olds)) new
unfolding rule_with Rules.rule_id usage
old_first q old olds new new' a e = elim (Bool-cases (q == old.urr_id)) [
  | inl f ↦ rw (e, f, rule_with-above urr old.urr_id q olds a (ground (arith, f))) refl
  | inr f ↦ rw (e, f) refl
]

taken-above :
    (m : ℕ) (old : Rules.Urr) (new : List Rules.Urr)
    → Rules.above urr m (Apply.take_over_at old new (Rules.position urr old.urr_id new))
      ≡ Rules.above urr m new
unfolding Rules.above Rules.rule_id
taken-above m old [] = rw (none_taken old) refl
taken-above m old (n ∷ ns) = elim (Bool-cases (old.urr_id == n.urr_id)) [
  | inl e ↦ rw (first_taken old n ns e) (rw (take_over-id old n) refl)
  | inr e ↦ rw (later_taken old n ns e, taken-above m old ns) refl
]

taken-sorted :
    (old : Rules.Urr) (new : List Rules.Urr)
    → Rules.sorted urr new ≡ true
    → Rules.sorted urr (Apply.take_over_at old new (Rules.position urr old.urr_id new)) ≡ true
unfolding Rules.sorted Rules.rule_id
taken-sorted old [] s = rw (none_taken old) refl
taken-sorted old (n ∷ ns) s = elim (Bool-cases (old.urr_id == n.urr_id)) [
  | inl e ↦ rw (first_taken old n ns e) (rw (take_over-id old n) s)
  | inr e ↦
      rw (later_taken old n ns e)
        (ground (arith, taken-above n.urr_id old ns, taken-sorted old ns (ground arith)))
]

rule_first :
    (q : ℕ) (n : Rules.Urr) (ns : List Rules.Urr)
    → (q == n.urr_id) ≡ true
    → rule_with urr q (n ∷ ns) ≡ some n
unfolding rule_with Rules.rule_id
rule_first q n ns e = rw e refl

rule_later :
    (q : ℕ) (n : Rules.Urr) (ns : List Rules.Urr)
    → (q == n.urr_id) ≡ false
    → rule_with urr q (n ∷ ns) ≡ rule_with urr q ns
unfolding rule_with Rules.rule_id
rule_later q n ns e = rw e refl

head_taken :
    (q : ℕ) (old n : Rules.Urr) (ns : List Rules.Urr)
    → (old.urr_id == n.urr_id) ≡ true
    → rule_with urr q (Apply.take_over old n ∷ ns) ≡ (
        if q == old.urr_id
        then usage (some old) (rule_with urr q (n ∷ ns))
        else rule_with urr q (n ∷ ns))
unfolding usage
head_taken q old n ns e =
    let n' = Apply.take_over old n in
    let id : (q == n'.urr_id) ≡ (q == n.urr_id) = ap (λ x. q == x) (take_over-id old n) in
    elim (Bool-cases (q == old.urr_id)) [
      | inl f ↦
          let g : (q == n.urr_id) ≡ true = ground (arith, e, f) in
          rw (f, rule_first q n ns g) (rule_first q n' ns (id ∙ g) ∙ usage_lem old n)
      | inr f ↦
          let g : (q == n.urr_id) ≡ false = ground (arith, e, f) in
          rw (f, rule_later q n ns g) (rule_later q n' ns (id ∙ g))
    ]

tail_taken :
    (q : ℕ) (old n : Rules.Urr) (rest ns : List Rules.Urr)
    → (old.urr_id == n.urr_id) ≡ false
    → rule_with urr q rest
      ≡ (if q == old.urr_id then usage (some old) (rule_with urr q ns) else rule_with urr q ns)
    → rule_with urr q (n ∷ rest) ≡ (
        if q == old.urr_id
        then usage (some old) (rule_with urr q (n ∷ ns))
        else rule_with urr q (n ∷ ns))
tail_taken q old n rest ns e h = elim (Bool-cases (q == n.urr_id)) [
  | inl f ↦
      let g : (q == old.urr_id) ≡ false = ground (arith, e, f) in
      rw (g, rule_first q n ns f) (rule_first q n rest f)
  | inr f ↦ rw (rule_later q n ns f) (rule_later q n rest f ∙ h)
]

rule_taken :
    (q : ℕ) (old : Rules.Urr) (new : List Rules.Urr)
    → rule_with urr q (Apply.take_over_at old new (Rules.position urr old.urr_id new))
      ≡ (if q == old.urr_id then usage (some old) (rule_with urr q new) else rule_with urr q new)
rule_taken q old [] = rw (none_taken old) (empty_taken q old)
rule_taken q old (n ∷ ns) = elim (Bool-cases (old.urr_id == n.urr_id)) [
  | inl e ↦ rw (first_taken old n ns e) (head_taken q old n ns e)
  | inr e ↦ rw (later_taken old n ns e) (tail_taken q old n _ ns e (rule_taken q old ns))
]

-- Every new rule takes over from the old one with its identifier, where there is one.
take_over_all-usage :
    (s : Rules.Search) (q : ℕ) (olds new : List Rules.Urr)
    → Rules.sorted urr olds ≡ true
    → Rules.sorted urr new ≡ true
    → rule_with urr q (Apply.take_over_all s olds new)
      ≡ usage (rule_with urr q olds) (rule_with urr q new)
unfolding Apply.take_over_all usage Rules.sorted rule_with Rules.rule_id
take_over_all-usage s q [] new a b = refl
take_over_all-usage s q (old ∷ olds) new a b =
    let new' = Apply.take_over_at old new (Rules.position urr old.urr_id new) in
    rw (s.bsearch_sorted urr old.urr_id new b) (
      take_over_all-usage s q olds new' (ground arith) (taken-sorted old new b)
      ∙ old_first q old olds (rule_with urr q new) (rule_with urr q new') (ground arith)
          (rule_taken q old new))

-- When changed usage rules are committed, then for an identifier that a new and an old rule have, the
-- new one keeps the fields that are modelled, but for the traffic, which becomes the old rule's, and the
-- measurement: where volume is measured, packets, octets and what is consumed are the sums of both
-- rules in 64 bits, or the sum of the octets is consumed where the quota was set anew. A new rule without
-- an old one is as it was made, and one that is gone leaves nothing. Both vectors must be in order.
pub commit-usage :
    (s : Rules.Search) (sx : Rules.Session) (q : ℕ) (v w : List Rules.Urr)
    → Rules.pending_rules sx urr ≡ some v
    → Rules.active_rules sx urr ≡ some w
    → Rules.sorted urr v ≡ true
    → Rules.sorted urr w ≡ true
    → rule_with urr q (Rules.rules_of urr (Rules.active_rules (commit s sx) urr))
      ≡ usage (rule_with urr q w) (rule_with urr q v)
unfolding Rules.rules_of
commit-usage s sx q v w p a b c = rw (commit_urr s sx v w p a) (take_over_all-usage s q w v c b)

-- The counts are `u64`.
pub record Fits (c : Rules.Counts) : Type 0 where
  pub ul : c.ul < 2 ^ 64
  pub dl : c.dl < 2 ^ 64
  pub total : c.total < 2 ^ 64

add_nothing : (c : Rules.Counts) → Fits c → Apply.add_counts Rules.no_counts c ≡ c
unfolding Apply.add_counts
add_nothing c f =
    let u : (0 + c.ul) % 2 ^ 64 ≡ c.ul = omega (arith, f.ul) in
    let d : (0 + c.dl) % 2 ^ 64 ≡ c.dl = omega (arith, f.dl) in
    let t : (0 + c.total) % 2 ^ 64 ≡ c.total = omega (arith, f.total) in
    λ i. record { ul = u i; dl = d i; total = t i }

-- A copy takes over all that was measured, so that no usage is lost by a modification.
pub copy-take_over :
    (r : Rules.Urr)
    → r.volume_method ≡ true
    → Fits r.measure.packets
    → Fits r.measure.bytes
    → Fits r.measure.consumed
    → ((Apply.take_over r (Rules.copy urr r)).measure ≡ r.measure)
      × ((Apply.take_over r (Rules.copy urr r)).traffic ≡ r.traffic)
unfolding Apply.take_over Rules.copy Apply.combine_measure
copy-take_over r m a b c = (
  rw m (
      rw
        (
          add_nothing r.measure.packets a,
          add_nothing r.measure.bytes b,
          add_nothing r.measure.consumed c,
        )
        refl),
  refl,
)
