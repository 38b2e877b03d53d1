-- ===== src/Server/Rx.antt =====
-- `upf_pfcp_server_rx_msg` of upf/upf_pfcp_server.c.
use upg_vpp_tr.Base.{
  ℕ, Bool, true, false, not, ◌||◌, ltb, ◌==◌, [], length, if◌then◌else◌, Option, none, some,
}
use upg_vpp_tr.Message.{pfcp_msg_type, pfcp_msg_seq, pfcp_msg_version_valid, pfcp_msg_enough_len}
use upg_vpp_tr.Server.{
  Msg, Server, set, call, datagram, send, handle, stop_msg_timer, restart_response_timer, pool_put,
}

-- The types of `case` lines of requests and of responses.
unfoldable pub is_request : ℕ → Bool
is_request kind =
    (kind == 1)
    || ((kind == 3)
        || ((kind == 5)
            || ((kind == 7)
                || ((kind == 9)
                    || ((kind == 12)
                        || ((kind == 14)
                            || ((kind == 50)
                                || ((kind == 52) || ((kind == 54) || (kind == 56))))))))))

unfoldable pub is_response : ℕ → Bool
is_response kind =
    (kind == 2)
    || ((kind == 4)
        || ((kind == 6)
            || ((kind == 8)
                || ((kind == 10)
                    || ((kind == 11)
                        || ((kind == 13)
                            || ((kind == 15)
                                || ((kind == 51)
                                    || ((kind == 53) || ((kind == 55) || (kind == 57)))))))))))

-- A response that is kept is sent again, and stays for another timeout.
unfoldable pub resend : ℕ → Option Msg → Server → Server
unfolding restart_response_timer
resend id none s = s
resend id (some m) s = restart_response_timer id m (call (send (datagram m)) s)

unfoldable pub rx_request : Option ℕ → Msg → Server → Server
unfolding resend
rx_request none m s = call (handle m) s
rx_request (some id) m s = resend id (s.msgs id) s

unfoldable pub rx_answer : ℕ → Option Msg → Msg → Server → Server
unfolding stop_msg_timer pool_put set
rx_answer id none m s = s
rx_answer id (some req) m s =
    let s1 = record s { request_q = set s.request_q m.key.seq_no none } in
    call (handle (record m { node = req.node })) (pool_put id (stop_msg_timer id req s1))

unfoldable pub rx_response : Option ℕ → Msg → Server → Server
unfolding rx_answer
rx_response none m s = s
rx_response (some id) m s = rx_answer id (s.msgs id) m s

-- The message with its sequence number and no node.
abbrev pub with_seq : Msg → Msg
with_seq m = record m { node = none; key = record m.key { seq_no = pfcp_msg_seq m.bytes } }

unfoldable pub rx_valid : Msg → Server → Server
unfolding rx_request rx_response is_request is_response
rx_valid m s =
    if is_request (pfcp_msg_type m.bytes)
    then rx_request (s.response_q m.key) m s
    else if is_response (pfcp_msg_type m.bytes)
    then rx_response (s.request_q m.key.seq_no) m s
    else s

-- `resp` of a message with another version: the octets go to `msg->data`, `resp.data` stays empty.
abbrev pub version_response : Msg → Msg
version_response m = record {
  key = m.key;
  lcl = m.lcl;
  node = some 0;
  expires_at = 0;
  timer = none;
  n1 = 0;
  t1_seconds = 0;
  bytes = [];
}

-- The state, and whether 0 is returned.
unfoldable pub upf_pfcp_server_rx_msg : Msg → Server → Bool × Server
unfolding rx_valid pfcp_msg_version_valid pfcp_msg_enough_len
upf_pfcp_server_rx_msg m s =
    if ltb (length m.bytes) 4
    then (false, s)
    else if not (pfcp_msg_version_valid m.bytes)
    then (true, call (send (datagram (version_response m))) s)
    else if not (pfcp_msg_enough_len m.bytes (length m.bytes))
    then (false, s)
    else (true, rx_valid (with_seq m) s)
