-- ===== src/Server.antt =====
-- The transactions of the PFCP server, upf/upf_pfcp_server.c and upf/upf_pfcp_server.h: requests that
-- are sent again until they are answered, and responses that are kept for requests that come again.
--
-- `msgs` are the valid items of `msg_pool`, the hashes are functions, and the calls of the sockets, the
-- timer wheel and the message handlers are written to `log`. A timer stands for its handle; `none` is ~0.
-- A pointer to an item that is not valid is not followed: the functions leave the state as it is.
-- The address and port of the peer, the session handle and the local address are numbers.
pub mod Rx
pub mod Retry
pub mod Answer
pub mod Once
use upg_vpp_tr.Message.{pfcp_msg_type}
use upg_vpp_tr.Base.{
  ℕ, zero, suc, ◌+◌, ◌-◌, ◌*◌, ◌%◌, ◌^◌, Bool, true, false, not, ◌&&◌, ◌||◌, ltb, leb, ◌==◌, List,
  [], ◌∷◌, ◌++◌, length, map, if◌then◌else◌, Option, none, some,
}

-- The ids of timers: `(0x80 | type) << 24 | id`, and a session below them.
pub data TimerId : Type 0 where
  heartbeat t1 response session : ℕ → TimerId

-- `request_key`
pub record Key : Type 0 where
  pub rmt : ℕ
  pub seq_no : ℕ
  pub session_handle : ℕ

pub record Msg : Type 0 where
  pub key : Key
  pub lcl : ℕ
  pub node : Option ℕ
  pub expires_at : ℕ
  pub timer : Option TimerId
  pub n1 : ℕ
  pub t1_seconds : ℕ
  pub bytes : List ℕ

-- What `upf_pfcp_send_data` sends of a message.
pub record Datagram : Type 0 where
  pub handle : ℕ
  pub from : ℕ
  pub to : ℕ
  pub bytes : List ℕ

abbrev pub datagram : Msg → Datagram
datagram m = record { handle = m.key.session_handle; from = m.lcl; to = m.key.rmt; bytes = m.bytes }

pub data Call : Type 0 where
  send : Datagram → Call
  start : TimerId → ℕ → Call
  stop : TimerId → Call
  handle : Msg → Call
  release_association : ℕ → Call

pub record Server : Type 0 where
  pub now : ℕ
  pub msgs : ℕ → Option Msg
  pub free_list : List ℕ
  pub request_q : ℕ → Option ℕ
  pub response_q : Key → Option ℕ
  pub expired : List (Option TimerId)
  pub log : List Call

unfoldable pub same_key : Key → Key → Bool
same_key a b = (a.rmt == b.rmt) && (a.seq_no == b.seq_no && a.session_handle == b.session_handle)

unfoldable pub same_timer : TimerId → TimerId → Bool
same_timer (heartbeat a) (heartbeat b) = a == b
same_timer (t1 a) (t1 b) = a == b
same_timer (response a) (response b) = a == b
same_timer (session a) (session b) = a == b
same_timer a b = false

unfoldable pub set {ℓ} : {A : Type ℓ} → (ℕ → A) → ℕ → A → ℕ → A
set f k a n = if n == k then a else f n

unfoldable pub set_key {ℓ} : {A : Type ℓ} → (Key → A) → Key → A → Key → A
unfolding same_key
set_key f k a n = if same_key n k then a else f n

abbrev pub call : Call → Server → Server
call c s = record s { log = s.log ++ (c ∷ []) }

abbrev pub put_msg : ℕ → Option Msg → Server → Server
put_msg id m s = record s { msgs = set s.msgs id m }

-- `pfcp_msg_pool_put`
unfoldable pub pool_put : ℕ → Server → Server
unfolding set
pool_put id s = record s { msgs = set s.msgs id none; free_list = s.free_list ++ (id ∷ []) }

-- `upf_pfcp_server_start_timer`, with its result kept in the message.
unfoldable pub with_timer : ℕ → Msg → TimerId → ℕ → Server → Server
unfolding set
with_timer id m t seconds s =
    call (start t seconds)
      (put_msg id (some (record m { timer = some t; expires_at = s.now + seconds })) s)

unfoldable pub is_expired : TimerId → TimerId → Option TimerId → Bool
unfolding same_timer
is_expired a b none = false
is_expired a b (some t) = same_timer t a || same_timer t b

unfoldable pub clear_expired : TimerId → TimerId → List (Option TimerId) → List (Option TimerId)
unfolding is_expired
clear_expired a b [] = []
clear_expired a b (t ∷ ts) = (if is_expired a b t then none else t) ∷ clear_expired a b ts

unfoldable pub any_expired : TimerId → TimerId → List (Option TimerId) → Bool
unfolding is_expired
any_expired a b [] = false
any_expired a b (t ∷ ts) = is_expired a b t || any_expired a b ts

unfoldable pub stop_timer : ℕ → Msg → Option TimerId → Server → Server
unfolding any_expired clear_expired set
stop_timer id m none s = s
stop_timer id m (some t) s =
    let a = t1 m.key.seq_no in
    let b = response id in
    let cleared =
      put_msg id (some (record m { timer = none }))
        (record s { expired = clear_expired a b s.expired }) in
    if any_expired a b s.expired then cleared else call (stop t) cleared

-- `upf_pfcp_server_stop_msg_timer`
unfoldable pub stop_msg_timer : ℕ → Msg → Server → Server
unfolding stop_timer
stop_msg_timer id m s = stop_timer id m m.timer s

unfoldable pub enqueue_request : ℕ → Msg → ℕ → ℕ → Server → Server
unfolding with_timer set
enqueue_request id m n1 seconds s =
    with_timer id (record m { n1 = n1; t1_seconds = seconds }) (t1 m.key.seq_no) seconds
      (record s { request_q = set s.request_q m.key.seq_no (some id) })

unfoldable pub server_send_request : ℕ → Msg → Server → Server
unfolding enqueue_request
server_send_request id m s = call (send (datagram m)) (enqueue_request id m 3 10 s)

-- A heartbeat without an answer ends the association, if its node exists.
unfoldable pub release_node : (ℕ → Bool) → ℕ → Option ℕ → Server → Server
release_node live kind none s = s
release_node live kind (some node) s =
    if (kind == 1) && live node then call (release_association node) s else s

-- The end of a request without an answer; `live` says which nodes exist.
unfoldable pub abort_request : (ℕ → Bool) → ℕ → ℕ → Msg → Server → Server
unfolding pool_put set pfcp_msg_type release_node
abort_request live seq_no id m s =
    release_node live (pfcp_msg_type m.bytes) m.node
      (pool_put id (record s { request_q = set s.request_q seq_no none }))

-- `--msg->n1` on a u32.
abbrev pub one_less : ℕ → ℕ
one_less n = (n + 2 ^ 32 - 1) % 2 ^ 32

-- `request_t1_expired` on the message that `request_q` leads to.
unfoldable pub retry_request : (ℕ → Bool) → ℕ → ℕ → Option Msg → Server → Server
unfolding with_timer abort_request set
retry_request live seq_no id none s = s
retry_request live seq_no id (some m) s =
    let m' = record m { n1 = one_less m.n1 } in
    if one_less m.n1 == 0
    then abort_request live seq_no id m' s
    else call (send (datagram m')) (with_timer id m' (t1 m.key.seq_no) m.t1_seconds s)

unfoldable pub retry_found : (ℕ → Bool) → ℕ → Option ℕ → Server → Server
unfolding retry_request
retry_found live seq_no none s = s
retry_found live seq_no (some id) s = retry_request live seq_no id (s.msgs id) s

unfoldable pub request_t1_expired : (ℕ → Bool) → ℕ → Server → Server
unfolding retry_found
request_t1_expired live seq_no s = retry_found live seq_no (s.request_q seq_no) s

unfoldable pub expire_response : ℕ → Option Msg → Server → Server
unfolding pool_put set_key
expire_response id none s = s
expire_response id (some m) s =
    pool_put id (record s { response_q = set_key s.response_q m.key none })

unfoldable pub response_expired : ℕ → Server → Server
unfolding expire_response
response_expired id s = expire_response id (s.msgs id) s

abbrev pub response_timeout : ℕ
response_timeout = 30

-- `start_timer` behind `stop_msg_timer`.
unfoldable pub restart_response_timer : ℕ → Msg → Server → Server
unfolding stop_msg_timer with_timer
restart_response_timer id m s =
    with_timer id m (response id) response_timeout (stop_msg_timer id m s)

unfoldable pub enqueue_response : ℕ → Msg → Server → Server
unfolding with_timer set_key
enqueue_response id m s =
    with_timer id m (response id) response_timeout
      (record s { response_q = set_key s.response_q m.key (some id) })
