-- ===== src/Message/Start.antt =====
-- The octets that a message starts with, and why `pfcp_decode_msg` of upf/pfcp.c refuses it for them.
use upg_vpp_tr.Base.{
  ◌++◌, [], ◌∷◌, ◌*◌, ◌^◌, ◌%◌, Bool, true, ℕ, ◌+◌, ◌<◌, ◌≤◌, ◌≡◌, ◌⊎◌, refl, arith, false, ltb,
  List, length, if◌then◌else◌, inl, inr,
}
use upg_vpp_tr.Wire.Defs.{from_be, Cause, invalid_length, request_rejected}
use upg_vpp_tr.Message.{
  pfcp_node_msg_seq, pfcp_session_msg_seq, pfcp_session_msg_seid, field, Prefix, pfcp_msg_type,
  pfcp_msg_length, pfcp_msg_s_flag, pfcp_is_session_msg, hdr_len, prefix_of, same,
}

-- The octets that a message starts with: flags, type, length, of a session message the SEID, the sequence
-- number, and a spare octet.
pub data Start : Type 0 where
  node_start : (flags kind l1 l0 q2 q1 q0 spare : ℕ) → Start
  session_start : (flags kind l1 l0 s7 s6 s5 s4 s3 s2 s1 s0 q2 q1 q0 spare : ℕ) → Start

abbrev pub start_octets : Start → List ℕ
start_octets (node_start flags kind l1 l0 q2 q1 q0 spare) =
    flags ∷ kind ∷ l1 ∷ l0 ∷ q2 ∷ q1 ∷ q0 ∷ spare ∷ []
start_octets (session_start flags kind l1 l0 s7 s6 s5 s4 s3 s2 s1 s0 q2 q1 q0 spare) =
    flags ∷ kind ∷ l1 ∷ l0 ∷ s7 ∷ s6 ∷ s5 ∷ s4 ∷ s3 ∷ s2 ∷ s1 ∷ s0 ∷ q2 ∷ q1 ∷ q0 ∷ spare ∷ []

-- What the octets tell.
abbrev pub told : Start → Prefix
told (node_start flags kind l1 l0 q2 q1 q0 spare) = record {
  kind = kind;
  seid = 0;
  seq_no = q2 * 2 ^ 16 + q1 * 2 ^ 8 + q0;
}
told (session_start flags kind l1 l0 s7 s6 s5 s4 s3 s2 s1 s0 q2 q1 q0 spare) = record {
  kind = kind;
  seid =
      s7 * 2 ^ 56
      + s6 * 2 ^ 48
      + s5 * 2 ^ 40
      + s4 * 2 ^ 32
      + s3 * 2 ^ 24
      + s2 * 2 ^ 16
      + s1 * 2 ^ 8
      + s0;
  seq_no = q2 * 2 ^ 16 + q1 * 2 ^ 8 + q0;
}

-- The number of octets behind the length field.
abbrev start_length : Start → ℕ
start_length (node_start flags kind l1 l0 q2 q1 q0 spare) = l1 * 256 + l0
start_length (session_start flags kind l1 l0 s7 s6 s5 s4 s3 s2 s1 s0 q2 q1 q0 spare) = l1 * 256 + l0

-- The type is that of a node message, or of a session message.
abbrev pub IsOfType : Start → Type 0
IsOfType (node_start flags kind l1 l0 q2 q1 q0 spare) = kind < 50 ⊎ 99 < kind
IsOfType (session_start flags kind l1 l0 s7 s6 s5 s4 s3 s2 s1 s0 q2 q1 q0 spare) =
    (50 ≤ kind) × (kind ≤ 99)

-- The flag S is not that of the kind of message.
abbrev IsMisflagged : Start → Type 0
IsMisflagged (node_start flags kind l1 l0 q2 q1 q0 spare) = flags % 2 ≡ 1
IsMisflagged (session_start flags kind l1 l0 s7 s6 s5 s4 s3 s2 s1 s0 q2 q1 q0 spare) = flags % 2 ≡ 0

-- Why a message of `len` octets is refused.
abbrev pub IsRefused : Start → ℕ → Cause → Type 0
IsRefused start len cause =
    ((len < start_length start + 4) × (cause ≡ invalid_length))
    ⊎ ((start_length start + 4 ≤ len) × IsMisflagged start × (cause ≡ request_rejected))

pub start_kind :
    (start : Start) (rest : List ℕ) → pfcp_msg_type (start_octets start ++ rest) ≡ (told start).kind
unfolding pfcp_msg_type field from_be
start_kind (node_start flags kind l1 l0 q2 q1 q0 spare) rest = omega arith
start_kind (session_start flags kind l1 l0 s7 s6 s5 s4 s3 s2 s1 s0 q2 q1 q0 spare) rest =
    omega arith

pub start_size :
    (start : Start) → IsOfType start → length (start_octets start) ≡ hdr_len (told start).kind
unfolding hdr_len pfcp_is_session_msg
start_size (node_start flags kind l1 l0 q2 q1 q0 spare) apt = ground arith
start_size (session_start flags kind l1 l0 s7 s6 s5 s4 s3 s2 s1 s0 q2 q1 q0 spare) apt =
    ground arith

is_session : Start → Bool
is_session (node_start flags kind l1 l0 q2 q1 q0 spare) = false
is_session (session_start flags kind l1 l0 s7 s6 s5 s4 s3 s2 s1 s0 q2 q1 q0 spare) = true

start_session :
    (start : Start) → IsOfType start → pfcp_is_session_msg (told start).kind ≡ is_session start
unfolding pfcp_is_session_msg is_session
start_session (node_start flags kind l1 l0 q2 q1 q0 spare) apt = ground arith
start_session (session_start flags kind l1 l0 s7 s6 s5 s4 s3 s2 s1 s0 q2 q1 q0 spare) apt =
    ground arith

pub start_prefix :
    (start : Start) (rest : List ℕ)
    → IsOfType start
    → prefix_of (pfcp_msg_type (start_octets start ++ rest)) (start_octets start ++ rest)
      ≡ told start
unfolding prefix_of is_session pfcp_node_msg_seq pfcp_session_msg_seq pfcp_session_msg_seid field
    from_be
start_prefix (node_start flags kind l1 l0 q2 q1 q0 spare) rest apt =
    let start = node_start flags kind l1 l0 q2 q1 q0 spare in
    let seq : pfcp_node_msg_seq (start_octets start ++ rest) ≡ (told start).seq_no = omega arith in
    rw (start_kind start rest, start_session start apt)
      λ i. record { kind = kind; seid = 0; seq_no = seq i }
start_prefix (session_start flags kind l1 l0 s7 s6 s5 s4 s3 s2 s1 s0 q2 q1 q0 spare) rest apt =
    let start = session_start flags kind l1 l0 s7 s6 s5 s4 s3 s2 s1 s0 q2 q1 q0 spare in
    let seq : pfcp_session_msg_seq (start_octets start ++ rest) ≡ (told start).seq_no =
      omega arith in
    let seid : pfcp_session_msg_seid (start_octets start ++ rest) ≡ (told start).seid =
      omega arith in
    rw (start_kind start rest, start_session start apt)
      λ i. record { kind = kind; seid = seid i; seq_no = seq i }

start_declared :
    (start : Start) (rest : List ℕ)
    → pfcp_msg_length (start_octets start ++ rest) ≡ start_length start
unfolding pfcp_msg_length field from_be
start_declared (node_start flags kind l1 l0 q2 q1 q0 spare) rest = omega arith
start_declared (session_start flags kind l1 l0 s7 s6 s5 s4 s3 s2 s1 s0 q2 q1 q0 spare) rest =
    omega arith

start_flag :
    (start : Start) (rest : List ℕ)
    → IsMisflagged start
    → same (is_session start) (pfcp_msg_s_flag (start_octets start ++ rest)) ≡ false
unfolding is_session pfcp_msg_s_flag field from_be same
start_flag (node_start flags kind l1 l0 q2 q1 q0 spare) rest bad = ground arith
start_flag (session_start flags kind l1 l0 s7 s6 s5 s4 s3 s2 s1 s0 q2 q1 q0 spare) rest bad =
    ground arith

pub wrong_cause :
    (start : Start) (rest : List ℕ) (len : ℕ) (cause : Cause)
    → IsOfType start
    → IsRefused start len cause
    → let mem = start_octets start ++ rest in
      ((len < pfcp_msg_length mem + 4)
        ⊎ (same (pfcp_is_session_msg (pfcp_msg_type mem)) (pfcp_msg_s_flag mem) ≡ false))
      × ((if ltb len (pfcp_msg_length mem + 4) then invalid_length else request_rejected) ≡ cause)
wrong_cause start rest len cause apt (inl (long, e)) =
    let over : ltb len (start_length start + 4) ≡ true = ground arith in
    rw (start_declared start rest) (inl long, rw (over, e) refl)
wrong_cause start rest len cause apt (inr (fits, bad, e)) =
    let over : ltb len (start_length start + 4) ≡ false = ground arith in
    rw (start_declared start rest, start_kind start rest, start_session start apt)
      (inr (start_flag start rest bad), rw (over, e) refl)
