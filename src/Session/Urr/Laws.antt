-- ===== src/Session/Urr/Laws.antt =====
-- When the limits of a usage reporting rule of upf/upf_pfcp.c are reported.
use upg_vpp_tr.Base.{
  ℕ, ◌+◌, ◌^◌, ◌<◌, ◌≤◌, ◌≡◌, refl, sym, ◌∙◌, ap, true, false, not, ◌&&◌, ltb, leb, ◌==◌, List, [],
  ◌∷◌, if◌then◌else◌, has, arith, Bool-cases, inl, inr,
}
use upg_vpp_tr.Session.Urr

-- The flags of one packet are those of the two limits.
pub quota_flag :
    (l : Urr.Limit) (c : Urr.Counter) (n : ℕ)
    → has (Urr.urr_increment_and_check_counter l c n).1 Urr.urr_quota_exhausted
      ≡ Urr.passes l.quota c.consumed n
unfolding Urr.urr_increment_and_check_counter
quota_flag l c n = elim (Bool-cases (Urr.passes l.quota c.consumed n)) [
  | inl e ↦ elim (Bool-cases (Urr.passes l.threshold c.bytes n)) [
    | inl f ↦ rw (e, f) refl
    | inr f ↦ rw (e, f) refl
  ]
  | inr e ↦ elim (Bool-cases (Urr.passes l.threshold c.bytes n)) [
    | inl f ↦ rw (e, f) refl
    | inr f ↦ rw (e, f) refl
  ]
]

threshold_flag :
    (l : Urr.Limit) (c : Urr.Counter) (n : ℕ)
    → has (Urr.urr_increment_and_check_counter l c n).1 Urr.urr_threshold_reached
      ≡ Urr.passes l.threshold c.bytes n
unfolding Urr.urr_increment_and_check_counter
threshold_flag l c n = elim (Bool-cases (Urr.passes l.quota c.consumed n)) [
  | inl e ↦ elim (Bool-cases (Urr.passes l.threshold c.bytes n)) [
    | inl f ↦ rw (e, f) refl
    | inr f ↦ rw (e, f) refl
  ]
  | inr e ↦ elim (Bool-cases (Urr.passes l.threshold c.bytes n)) [
    | inl f ↦ rw (e, f) refl
    | inr f ↦ rw (e, f) refl
  ]
]

-- A limit is passed once when it is set, not reached at the start and reached at the end.
unfoldable pub once : ℕ → ℕ → ℕ → ℕ
once limit start total =
    if not (limit == 0) && (ltb start limit && leb limit (start + total)) then 1 else 0

once_step :
    (limit value n total : ℕ)
    → value + n + total < 2 ^ 64
    → (if Urr.passes limit value n
        then once limit (value + n) total + 1
        else once limit (value + n) total)
      ≡ once limit value (n + total)
unfolding Urr.passes once
once_step limit value n total lt = ground arith

once_none : (limit value : ℕ) → once limit value 0 ≡ 0
unfolding once
once_none limit value = ground arith

pub added-consumed :
    (l : Urr.Limit) (c : Urr.Counter) (n : ℕ)
    → c.consumed + n < 2 ^ 64
    → (Urr.urr_increment_and_check_counter l c n).0.consumed ≡ c.consumed + n
unfolding Urr.urr_increment_and_check_counter
added-consumed l c n lt = omega (arith, lt)

added-bytes :
    (l : Urr.Limit) (c : Urr.Counter) (n : ℕ)
    → c.bytes + n < 2 ^ 64
    → (Urr.urr_increment_and_check_counter l c n).0.bytes ≡ c.bytes + n
unfolding Urr.urr_increment_and_check_counter
added-bytes l c n lt = omega (arith, lt)

quota_count :
    (l : Urr.Limit) (c : Urr.Counter) (ns : List ℕ)
    → c.consumed + Urr.sum ns < 2 ^ 64
    → (Urr.count_all l Urr.urr_quota_exhausted c ns).1 ≡ once l.quota c.consumed (Urr.sum ns)
unfolding Urr.count_all Urr.sum
quota_count l c [] lt = sym (once_none l.quota c.consumed)
quota_count l c (n ∷ ns) lt =
    let r = Urr.urr_increment_and_check_counter l c n in
    let more : r.0.consumed ≡ c.consumed + n = added-consumed l c n (omega (arith, lt)) in
    let rest : (Urr.count_all l Urr.urr_quota_exhausted r.0 ns).1
        ≡ once l.quota (c.consumed + n) (Urr.sum ns) =
      quota_count l r.0 ns (omega (arith, lt, more)) ∙ ap (λ v. once l.quota v (Urr.sum ns)) more in
    rw (quota_flag l c n) (
      ap (λ v. if Urr.passes l.quota c.consumed n then v + 1 else v) rest
      ∙ once_step l.quota c.consumed n (Urr.sum ns) (omega (arith, lt)))

threshold_count :
    (l : Urr.Limit) (c : Urr.Counter) (ns : List ℕ)
    → c.bytes + Urr.sum ns < 2 ^ 64
    → (Urr.count_all l Urr.urr_threshold_reached c ns).1 ≡ once l.threshold c.bytes (Urr.sum ns)
unfolding Urr.count_all Urr.sum
threshold_count l c [] lt = sym (once_none l.threshold c.bytes)
threshold_count l c (n ∷ ns) lt =
    let r = Urr.urr_increment_and_check_counter l c n in
    let more : r.0.bytes ≡ c.bytes + n = added-bytes l c n (omega (arith, lt)) in
    let rest : (Urr.count_all l Urr.urr_threshold_reached r.0 ns).1
        ≡ once l.threshold (c.bytes + n) (Urr.sum ns) =
      threshold_count l r.0 ns (omega (arith, lt, more))
      ∙ ap (λ v. once l.threshold v (Urr.sum ns)) more in
    rw (threshold_flag l c n) (
      ap (λ v. if Urr.passes l.threshold c.bytes n then v + 1 else v) rest
      ∙ once_step l.threshold c.bytes n (Urr.sum ns) (omega (arith, lt)))

-- While the counts fit 64 bits, a run of packets reports a quota once if the consumption reaches it in
-- the run and never otherwise, and a threshold likewise by the octets.
pub count_all-once :
    (l : Urr.Limit) (c : Urr.Counter) (ns : List ℕ)
    → c.consumed + Urr.sum ns < 2 ^ 64
    → c.bytes + Urr.sum ns < 2 ^ 64
    → ((Urr.count_all l Urr.urr_quota_exhausted c ns).1 ≡ once l.quota c.consumed (Urr.sum ns))
      × ((Urr.count_all l Urr.urr_threshold_reached c ns).1 ≡ once l.threshold c.bytes (Urr.sum ns))
count_all-once l c ns a b = (quota_count l c ns a, threshold_count l c ns b)

check_below :
    (l : Urr.Limit) (c : Urr.Counter)
    → c.bytes ≤ l.threshold
    → has (Urr.urr_check_counter l c) Urr.report_volume_threshold ≡ false
unfolding Urr.urr_check_counter
check_below l c le =
    let below : (not (l.threshold == 0) && ltb l.threshold c.bytes) ≡ false = ground arith in
    elim (Bool-cases (not (l.quota == 0) && leb l.quota c.consumed)) [
      | inl e ↦ rw (below, e) refl
      | inr e ↦ rw (below, e) refl
    ]

-- A packet that brings the octets to the threshold and not above it is flagged; the check that the
-- flag leads to sees no threshold, and no later packet is flagged for it.
pub threshold_missed :
    (l : Urr.Limit) (c : Urr.Counter) (n : ℕ) (ns : List ℕ)
    → 0 < n
    → 0 < l.threshold
    → c.bytes + n ≡ l.threshold
    → l.threshold + Urr.sum ns < 2 ^ 64
    → let r = Urr.urr_increment_and_check_counter l c n in
      (has r.1 Urr.urr_threshold_reached ≡ true)
      × (has (Urr.urr_check_counter l r.0) Urr.report_volume_threshold ≡ false)
      × ((Urr.count_all l Urr.urr_threshold_reached r.0 ns).1 ≡ 0)
unfolding Urr.urr_check_counter Urr.passes once
threshold_missed l c n ns pos set' full lt =
    let more = added-bytes l c n (omega (arith, full, lt)) in
    (
      threshold_flag l c n ∙ ground (arith, full, pos, set', lt),
      check_below l (Urr.urr_increment_and_check_counter l c n).0 (omega (arith, more, full)),
      threshold_count l (Urr.urr_increment_and_check_counter l c n).0 ns
            (omega (arith, more, full, lt))
          ∙ ground (arith, more, full),
    )
