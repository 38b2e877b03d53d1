-- ===== src/Server/Answer.antt =====
-- Answers to requests of upf/upf_pfcp_server.c.
use upg_vpp_tr.Base.{
  ℕ, ◌≤◌, ◌≡◌, Bool, true, false, ◌||◌, ◌==◌, List, [], ◌∷◌, length, Option, none, some,
}
use upg_vpp_tr.Message.{pfcp_msg_type, pfcp_msg_version_valid, pfcp_msg_enough_len}
use upg_vpp_tr.Server.{Msg, Call, TimerId, t1, Server, heartbeat, session, stop, response}
use upg_vpp_tr.Server.Rx.{is_request, is_response}

-- A response that passes the tests of the header.
pub record IsResponse (m : Msg) : Type 0 where
  pub long : 4 ≤ length m.bytes
  pub version : pfcp_msg_version_valid m.bytes ≡ true
  pub enough : pfcp_msg_enough_len m.bytes (length m.bytes) ≡ true
  pub other : is_request (pfcp_msg_type m.bytes) ≡ false
  pub kind : is_response (pfcp_msg_type m.bytes) ≡ true

-- Whether a timer is among those that have expired in this turn of the loop: that of a request with the
-- sequence number, or that of a response with the place in the pool.
unfoldable pub fired : ℕ → ℕ → List (Option TimerId) → Bool
fired seq_no id [] = false
fired seq_no id (none ∷ ts) = fired seq_no id ts
fired seq_no id (some (heartbeat n) ∷ ts) = fired seq_no id ts
fired seq_no id (some (t1 n) ∷ ts) = (n == seq_no) || fired seq_no id ts
fired seq_no id (some (response n) ∷ ts) = (n == id) || fired seq_no id ts
fired seq_no id (some (session n) ∷ ts) = fired seq_no id ts

-- The timer of a request is stopped, unless there is none or it has expired.
unfoldable pub stopped : Bool → Option TimerId → List Call
stopped has_fired none = []
stopped true (some t) = []
stopped false (some t) = stop t ∷ []
