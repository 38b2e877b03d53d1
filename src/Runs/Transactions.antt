-- ===== src/Runs/Transactions.antt =====
-- The theorems on the transactions of upf/upf_pfcp_server.c at a request and its response.
use upg_vpp_tr.Base.{ℕ, ◌≡◌, refl, arith, false, List, ◌∷◌, ◌++◌, [], none, some}
use upg_vpp_tr.Message.{pfcp_msg_version_valid, pfcp_msg_enough_len, pfcp_msg_type, pfcp_msg_seq}
use upg_vpp_tr.Server.{
  Msg, t1, response, Server, enqueue_response, restart_response_timer, any_expired, datagram,
}
use upg_vpp_tr.Server.Rx.{is_request}
use upg_vpp_tr.Server.Retry.{sent, copies}
use upg_vpp_tr.Server.Once.{
  Keeps, IsRequest, handles, receptions, receptions-Keeps, enqueue_response-Keeps,
  restart_response_timer-drops,
}
use upg_vpp_tr.Runs.Messages.{message}

abbrev idle : Server
idle = record {
  now = 100;
  msgs = λ id. none;
  free_list = [];
  request_q = λ n. none;
  response_q = λ k. none;
  expired = some (t1 5) ∷ [];
  log = [];
}

abbrev request_msg : Msg
request_msg = record {
  key = record { rmt = 1; seq_no = 5; session_handle = 2 };
  lcl = 3;
  node = some 0;
  expires_at = 0;
  timer = none;
  n1 = 0;
  t1_seconds = 0;
  bytes = message;
}

abbrev answer_octets : List ℕ
answer_octets = 32 ∷ 2 ∷ 0 ∷ 4 ∷ 0 ∷ 0 ∷ 5 ∷ 0 ∷ []

abbrev answer_msg : Msg
answer_msg = record request_msg { bytes = answer_octets; node = none }

-- The request waits at place 8, its timer runs.
abbrev waiting : Server
waiting = record idle {
  msgs = λ id. some (record request_msg { timer = some (t1 5) });
  request_q = λ n. some 8;
  expired = [];
}

request_msg-IsRequest : IsRequest request_msg
unfolding pfcp_msg_version_valid pfcp_msg_enough_len is_request pfcp_msg_type
request_msg-IsRequest = record { long = omega arith; version = refl; enough = refl; kind = refl }

abbrev kept : Server
kept = enqueue_response 4 request_msg idle

seq_five : pfcp_msg_seq message ≡ 5
unfolding pfcp_msg_seq
seq_five = refl

receptions-Keeps_example :
    Keeps request_msg.key 4 (datagram request_msg) (receptions 2 request_msg kept)
    × (sent (receptions 2 request_msg kept).log ≡ sent kept.log ++ copies 2 (datagram request_msg))
    × (handles (receptions 2 request_msg kept).log ≡ handles kept.log)
receptions-Keeps_example =
    receptions-Keeps 2 request_msg request_msg.key 4 (datagram request_msg) kept
      request_msg-IsRequest (rw seq_five refl) (enqueue_response-Keeps 4 request_msg idle)

restart_response_timer-drops_example :
    any_expired
      (t1 5)
      (t1 5)
      (restart_response_timer 4 (record request_msg { timer = some (response 4) }) idle).expired
    ≡ false
restart_response_timer-drops_example =
    restart_response_timer-drops 4 (record request_msg { timer = some (response 4) }) (response 4)
      idle refl
