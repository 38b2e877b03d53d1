-- ===== src/Session/Urr.antt =====
-- The counters of a usage reporting rule: `urr_increment_and_check_counter` and the volume part of
-- `process_urrs` of upf/upf_pfcp.c, and the check that `upf_pfcp_session_usage_report` of
-- upf/upf_pfcp_server.c makes when an event comes. Counters are `u64`.
pub mod Laws
pub mod Drops
use upg_vpp_tr.Base.{
  ℕ, ◌+◌, ◌%◌, ◌^◌, Bool, true, false, not, ◌&&◌, ltb, leb, ◌==◌, List, [], ◌∷◌, if◌then◌else◌,
  bit_or, bit_and, has,
}

-- `packets`, `bytes` and `consumed` of one direction.
pub record Counter : Type 0 where
  pub packets : ℕ
  pub bytes : ℕ
  pub consumed : ℕ

-- `threshold` and `quota` of one direction.
pub record Limit : Type 0 where
  pub threshold : ℕ
  pub quota : ℕ

abbrev pub urr_quota_exhausted : ℕ
urr_quota_exhausted = 1

abbrev pub urr_threshold_reached : ℕ
urr_threshold_reached = 2

abbrev pub urr_over_quota : ℕ
urr_over_quota = 1

abbrev pub report_volume_threshold : ℕ
report_volume_threshold = 2

abbrev pub report_volume_quota : ℕ
report_volume_quota = 256

-- A limit that is set and passed by `n` more.
unfoldable pub passes : ℕ → ℕ → ℕ → Bool
passes limit value n = not (limit == 0) && (ltb value limit && leb limit ((value + n) % 2 ^ 64))

unfoldable pub urr_increment_and_check_counter : Limit → Counter → ℕ → Counter × ℕ
unfolding passes
urr_increment_and_check_counter l c n_bytes =
    let r = if passes l.quota c.consumed n_bytes then urr_quota_exhausted else 0 in
    let r' = if passes l.threshold c.bytes n_bytes then bit_or r urr_threshold_reached else r in
    (
      record {
        packets = (c.packets + 1) % 2 ^ 64;
        bytes = (c.bytes + n_bytes) % 2 ^ 64;
        consumed = (c.consumed + n_bytes) % 2 ^ 64;
      },
      r',
    )

-- The check of `upf_pfcp_session_usage_report`.
unfoldable pub urr_check_counter : Limit → Counter → ℕ
urr_check_counter l c =
    let r = if not (l.quota == 0) && leb l.quota c.consumed then report_volume_quota else 0 in
    if not (l.threshold == 0) && ltb l.threshold c.bytes
    then bit_or r report_volume_threshold
    else r

-- `volume` of a rule.
pub record Volume : Type 0 where
  pub ul : Counter
  pub dl : Counter
  pub total : Counter
  pub ul_limit : Limit
  pub dl_limit : Limit
  pub total_limit : Limit

pub record Urr : Type 0 where
  pub volume : Volume
  pub status : ℕ

unfoldable pub count_ul : Bool → Volume → ℕ → Volume × ℕ
unfolding urr_increment_and_check_counter
count_ul false v len = (v, 0)
count_ul true v len =
    let r = urr_increment_and_check_counter v.ul_limit v.ul len in (record v { ul = r.0 }, r.1)

unfoldable pub count_dl : Bool → Volume → ℕ → Volume × ℕ
unfolding urr_increment_and_check_counter
count_dl false v len = (v, 0)
count_dl true v len =
    let r = urr_increment_and_check_counter v.dl_limit v.dl len in (record v { dl = r.0 }, r.1)

unfoldable pub count_total : Volume → ℕ → Volume × ℕ
unfolding urr_increment_and_check_counter
count_total v len =
    let r = urr_increment_and_check_counter v.total_limit v.total len in
    (record v { total = r.0 }, r.1)

-- What `process_urrs` does with a packet for a rule that measures volume: the counters, the rule's
-- status and the flags.
unfoldable pub process_volume : Bool → Bool → ℕ → Urr → Urr × ℕ
unfolding count_ul count_dl count_total
process_volume is_ul is_dl len u =
    let a = count_ul is_ul u.volume len in
    let b = count_dl is_dl a.0 len in
    let c = count_total b.0 len in
    let r = bit_or (bit_or a.1 b.1) c.1 in
    (
      record {
        volume = c.0;
        status = if has r urr_quota_exhausted then bit_or u.status urr_over_quota else u.status;
      },
      r,
    )

-- Whether the packet is to be dropped after it.
unfoldable pub drops : Urr → Bool
drops u = has u.status urr_over_quota

-- A run of packets through one counter: the counter, and how many gave a flag.
unfoldable pub count_all : Limit → ℕ → Counter → List ℕ → Counter × ℕ
unfolding urr_increment_and_check_counter
count_all l flag c [] = (c, 0)
count_all l flag c (n ∷ ns) =
    let r = urr_increment_and_check_counter l c n in
    let rest = count_all l flag r.0 ns in (rest.0, if has r.1 flag then rest.1 + 1 else rest.1)

-- A run of packets through a rule.
unfoldable pub process_all : Urr → List (Bool × Bool × ℕ) → Urr
unfolding process_volume
process_all u [] = u
process_all u ((is_ul, is_dl, len) ∷ ps) = process_all (process_volume is_ul is_dl len u).0 ps

unfoldable pub sum : List ℕ → ℕ
sum [] = 0
sum (n ∷ ns) = n + sum ns
