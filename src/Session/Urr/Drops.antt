-- ===== src/Session/Urr/Drops.antt =====
-- A usage rule of upf/upf_pfcp.c that is over quota, and the packets that are dropped for it.
use upg_vpp_tr.Base.{
  ℕ, ◌+◌, ◌^◌, ◌<◌, ◌≤◌, ◌≡◌, refl, ◌∙◌, ap, Bool, true, false, leb, List, [], ◌∷◌, bit_or, has,
  has_or, arith, Bool-cases, inl, inr,
}
use upg_vpp_tr.Session.Urr
use upg_vpp_tr.Session.Urr.Laws.{quota_flag, added-consumed}

passes_reached :
    (limit value n : ℕ)
    → value < limit
    → limit ≤ value + n
    → value + n < 2 ^ 64
    → Urr.passes limit value n ≡ true
unfolding Urr.passes
passes_reached limit value n under reach fits = ground arith

drops_or : (s : ℕ) → has (bit_or s Urr.urr_over_quota) Urr.urr_over_quota ≡ true
drops_or s = has_or s 1 ∙ ground arith

stays_over :
    (is_ul is_dl : Bool) (len : ℕ) (u : Urr.Urr)
    → Urr.drops u ≡ true
    → Urr.drops (Urr.process_volume is_ul is_dl len u).0 ≡ true
unfolding Urr.process_volume Urr.drops
stays_over is_ul is_dl len u d = ground (arith, drops_or u.status)

total-ul :
    (is_ul : Bool) (v : Urr.Volume) (len : ℕ)
    → let v' = (Urr.count_ul is_ul v len).0 in
      (v'.total ≡ v.total) × (v'.total_limit ≡ v.total_limit)
unfolding Urr.count_ul
total-ul false v len = (refl, refl)
total-ul true v len = (refl, refl)

total-dl :
    (is_dl : Bool) (v : Urr.Volume) (len : ℕ)
    → let v' = (Urr.count_dl is_dl v len).0 in
      (v'.total ≡ v.total) × (v'.total_limit ≡ v.total_limit)
unfolding Urr.count_dl
total-dl false v len = (refl, refl)
total-dl true v len = (refl, refl)

-- The volume before the total is counted.
directed : Bool → Bool → ℕ → Urr.Volume → Urr.Volume
directed is_ul is_dl len v = (Urr.count_dl is_dl (Urr.count_ul is_ul v len).0 len).0

total-directed :
    (is_ul is_dl : Bool) (len : ℕ) (v : Urr.Volume)
    → let v' = directed is_ul is_dl len v in (v'.total ≡ v.total) × (v'.total_limit ≡ v.total_limit)
unfolding directed
total-directed is_ul is_dl len v =
    let a = total-ul is_ul v len in
    let b = total-dl is_dl (Urr.count_ul is_ul v len).0 len in (b.0 ∙ a.0, b.1 ∙ a.1)

process-total :
    (is_ul is_dl : Bool) (len : ℕ) (u : Urr.Urr)
    → let v' = (Urr.process_volume is_ul is_dl len u).0.volume in
      (v'.total ≡ (Urr.urr_increment_and_check_counter u.volume.total_limit u.volume.total len).0)
      × (v'.total_limit ≡ u.volume.total_limit)
unfolding Urr.process_volume Urr.count_total directed
process-total is_ul is_dl len u =
    let t = total-directed is_ul is_dl len u.volume in
    (
      ap
            (λ c.
              (Urr.urr_increment_and_check_counter (directed is_ul is_dl len u.volume).total_limit c
                len).0)
            t.0
          ∙ ap (λ l. (Urr.urr_increment_and_check_counter l u.volume.total len).0) t.1,
      t.1,
    )

passed_drops :
    (is_ul is_dl : Bool) (len : ℕ) (u : Urr.Urr)
    → Urr.passes u.volume.total_limit.quota u.volume.total.consumed len ≡ true
    → Urr.drops (Urr.process_volume is_ul is_dl len u).0 ≡ true
unfolding Urr.process_volume Urr.drops Urr.count_total directed
passed_drops is_ul is_dl len u p =
    let t = total-directed is_ul is_dl len u.volume in
    let a = Urr.count_ul is_ul u.volume len in
    let b = Urr.count_dl is_dl a.0 len in
    let c = Urr.urr_increment_and_check_counter b.0.total_limit b.0.total len in
    let f : has c.1 Urr.urr_quota_exhausted ≡ true =
      quota_flag b.0.total_limit b.0.total len ∙ rw (t.0, t.1) p in
    let all : has (bit_or (bit_or a.1 b.1) c.1) Urr.urr_quota_exhausted ≡ true =
      has_or (bit_or a.1 b.1) c.1 ∙ ground (arith, f) in
    rw all (drops_or u.status)

stays_over_all :
    (ps : List (Bool × Bool × ℕ)) (u : Urr.Urr)
    → Urr.drops u ≡ true
    → Urr.drops (Urr.process_all u ps) ≡ true
unfolding Urr.process_all
stays_over_all [] u d = d
stays_over_all ((is_ul, is_dl, len) ∷ ps) u d = stays_over_all ps _ (stays_over is_ul is_dl len u d)

unfoldable pub lengths : List (Bool × Bool × ℕ) → List ℕ
lengths [] = []
lengths ((is_ul, is_dl, len) ∷ ps) = len ∷ lengths ps

-- Packets whose octets reach the total quota leave the rule over quota, so that every packet from then
-- on is dropped.
pub process_all-drops :
    (ps : List (Bool × Bool × ℕ)) (u : Urr.Urr)
    → u.volume.total.consumed < u.volume.total_limit.quota
    → u.volume.total_limit.quota ≤ u.volume.total.consumed + Urr.sum (lengths ps)
    → u.volume.total.consumed + Urr.sum (lengths ps) < 2 ^ 64
    → Urr.drops (Urr.process_all u ps) ≡ true
unfolding Urr.process_all Urr.sum lengths
process_all-drops [] u under reach fits = ground arith
process_all-drops ((is_ul, is_dl, len) ∷ ps) u under reach fits =
    let u' = (Urr.process_volume is_ul is_dl len u).0 in
    let t = process-total is_ul is_dl len u in
    let more : u'.volume.total.consumed ≡ u.volume.total.consumed + len =
      ap (λ c. c.consumed) t.0
      ∙ added-consumed u.volume.total_limit u.volume.total len (omega (arith, fits)) in
    let limit : u'.volume.total_limit.quota ≡ u.volume.total_limit.quota = ap (λ l. l.quota) t.1 in
    elim (Bool-cases (leb u.volume.total_limit.quota (u.volume.total.consumed + len))) [
      | inl e ↦ stays_over_all ps u' (
          passed_drops is_ul is_dl len u
            (passes_reached _ _ len under (ground (arith, e)) (omega (arith, fits))))
      | inr e ↦
          process_all-drops ps u' (ground (arith, more, limit, e))
            (omega (arith, more, limit, reach)) (omega (arith, more, fits))
    ]
