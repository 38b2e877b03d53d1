-- ===== src/Server/Once.antt =====
-- Requests that come again, `upf_pfcp_server_rx_msg` of upf/upf_pfcp_server.c.
use upg_vpp_tr.Base.{
  sym, append-nil, ℕ, zero, suc, ◌+◌, ◌≤◌, ◌≡◌, refl, ap, ◌∙◌, arith, true, false, ltb, List, [],
  ◌∷◌, ◌++◌, length, if◌then◌else◌, Option, none, some, Bool-cases, inl, inr,
}
use upg_vpp_tr.Message.{pfcp_msg_type, pfcp_msg_version_valid, pfcp_msg_enough_len}
use upg_vpp_tr.Server.{
  Key, Msg, Datagram, datagram, Call, send, TimerId, t1, response, start, stop, handle,
  release_association, Server, set_key, same_key, call, with_timer, stop_msg_timer, stop_timer,
  any_expired, clear_expired, is_expired, restart_response_timer, enqueue_response,
  response_timeout,
}
use upg_vpp_tr.Server.Rx.{
  is_request, rx_request, rx_valid, resend, with_seq, upf_pfcp_server_rx_msg,
}
use upg_vpp_tr.Server.Retry.{sent, sent-append, copies, sent_more, set-same}

-- The number of messages that are given to the handlers.
unfoldable pub handles : List Call → ℕ
handles [] = 0
handles (handle m ∷ cs) = suc (handles cs)
handles (start t n ∷ cs) = handles cs
handles (stop t ∷ cs) = handles cs
handles (send d ∷ cs) = handles cs
handles (release_association n ∷ cs) = handles cs

handles-append : (cs ds : List Call) → handles (cs ++ ds) ≡ handles cs + handles ds
unfolding handles
handles-append [] ds = omega arith
handles-append (handle m ∷ cs) ds = omega (arith, handles-append cs ds)
handles-append (start t n ∷ cs) ds = handles-append cs ds
handles-append (stop t ∷ cs) ds = handles-append cs ds
handles-append (send d ∷ cs) ds = handles-append cs ds
handles-append (release_association n ∷ cs) ds = handles-append cs ds

-- The response that is kept for a request.
pub record Keeps (k : Key) (id : ℕ) (d : Datagram) (s : Server) : Type 0 where
  pub msg : Msg
  pub queued : s.response_q k ≡ some id
  pub there : s.msgs id ≡ some msg
  pub same_datagram : datagram msg ≡ d

-- A request that passes the tests of the header.
pub record IsRequest (m : Msg) : Type 0 where
  pub long : 4 ≤ length m.bytes
  pub version : pfcp_msg_version_valid m.bytes ≡ true
  pub enough : pfcp_msg_enough_len m.bytes (length m.bytes) ≡ true
  pub kind : is_request (pfcp_msg_type m.bytes) ≡ true

-- What stopping a timer leaves as it is.
stop_quiet :
    (id : ℕ) (m : Msg) (t : Option TimerId) (s : Server)
    → ((stop_timer id m t s).response_q ≡ s.response_q)
      × (sent (stop_timer id m t s).log ≡ sent s.log)
      × (handles (stop_timer id m t s).log ≡ handles s.log)
unfolding stop_timer sent handles
stop_quiet id m none s = (refl, refl, refl)
stop_quiet id m (some t) s =
    elim (Bool-cases (any_expired (t1 m.key.seq_no) (response id) s.expired)) [
      | inl fired ↦ rw fired (refl, refl, refl)
      | inr running ↦ rw running (
        refl,
        sent-append s.log (stop t ∷ []) ∙ append-nil (sent s.log),
        omega (arith, handles-append s.log (stop t ∷ [])),
      )
    ]

restarted :
    (k : Key) (id : ℕ) (d : Datagram) (m : Msg) (s : Server)
    → datagram m ≡ d
    → s.response_q k ≡ some id
    → Keeps k id d (restart_response_timer id m s)
      × (sent (restart_response_timer id m s).log ≡ sent s.log)
      × (handles (restart_response_timer id m s).log ≡ handles s.log)
unfolding restart_response_timer with_timer stop_msg_timer sent handles
restarted k id d m s same queued =
    let s1 : Server = stop_timer id m m.timer s in
    let (same_q, same_sent, same_handles) = stop_quiet id m m.timer s in
    let m' : Msg = record m {
      timer = some (response id);
      expires_at = s1.now + response_timeout;
    } in
    (
      record {
        msg = m';
        queued = rw same_q queued;
        there = set-same s1.msgs id (some m');
        same_datagram = same;
      },
      sent-append s1.log (start (response id) response_timeout ∷ [])
          ∙ append-nil (sent s1.log)
          ∙ same_sent,
      omega
          (arith, same_handles, handles-append s1.log (start (response id) response_timeout ∷ [])),
    )

resent :
    (k : Key) (id : ℕ) (d : Datagram) (s : Server)
    → Keeps k id d s
    → Keeps k id d (resend id (s.msgs id) s)
      × (sent (resend id (s.msgs id) s).log ≡ sent s.log ++ (d ∷ []))
      × (handles (resend id (s.msgs id) s).log ≡ handles s.log)
unfolding resend sent handles
resent k id d s w =
    let s1 : Server = call (send (datagram w.msg)) s in
    let (kept, same_sent, same_handles) = restarted k id d w.msg s1 w.same_datagram w.queued in
    rw (w.there, resend)
      (
        kept,
        same_sent
            ∙ sent-append s.log (send (datagram w.msg) ∷ [])
            ∙ ap (λ x. sent s.log ++ (x ∷ [])) w.same_datagram,
        omega (arith, same_handles, handles-append s.log (send (datagram w.msg) ∷ [])),
      )

again :
    (m : Msg) (k : Key) (id : ℕ) (d : Datagram) (s : Server)
    → IsRequest m
    → (with_seq m).key ≡ k
    → Keeps k id d s
    → upf_pfcp_server_rx_msg m s ≡ (true, resend id (s.msgs id) s)
unfolding upf_pfcp_server_rx_msg rx_valid rx_request
again m k id d s r e w =
    let long : ltb (length m.bytes) 4 ≡ false = ground (arith, r.long) in
    rw (long, r.version, r.enough, r.kind, e, w.queued, rx_request) refl

-- The state after `n` receptions of a message.
unfoldable pub receptions : ℕ → Msg → Server → Server
unfolding upf_pfcp_server_rx_msg
receptions zero m s = s
receptions (suc n) m s = receptions n m (upf_pfcp_server_rx_msg m s).1

-- A request for which a response is kept is not handled again, however often it comes: each time
-- the kept octets are sent to the kept address and nothing else is, and the response stays.
pub receptions-Keeps :
    (n : ℕ) (m : Msg) (k : Key) (id : ℕ) (d : Datagram) (s : Server)
    → IsRequest m
    → (with_seq m).key ≡ k
    → Keeps k id d s
    → Keeps k id d (receptions n m s)
      × (sent (receptions n m s).log ≡ sent s.log ++ copies n d)
      × (handles (receptions n m s).log ≡ handles s.log)
unfolding receptions copies
receptions-Keeps zero m k id d s r e w = (w, sym (append-nil (sent s.log)), refl)
receptions-Keeps (suc n) m k id d s r e w =
    let (kept, sent_one, handled) = resent k id d s w in
    let (all_kept, all_sent, all_handled) =
      receptions-Keeps n m k id d (resend id (s.msgs id) s) r e kept in
    let step : receptions (suc n) m s ≡ receptions n m (resend id (s.msgs id) s) =
      ap (λ p. receptions n m p.1) (again m k id d s r e w) in
    rw step (all_kept, sent_more n d _ _ _ sent_one all_sent, all_handled ∙ handled)

same_key_refl : (k : Key) → same_key k k ≡ true
unfolding same_key
same_key_refl k = ground arith

-- `enqueue_response` keeps the response for the requests with its key.
pub enqueue_response-Keeps :
    (id : ℕ) (m : Msg) (s : Server) → Keeps m.key id (datagram m) (enqueue_response id m s)
unfolding enqueue_response with_timer set_key
enqueue_response-Keeps id m s =
    let m' : Msg = record m { timer = some (response id); expires_at = s.now + response_timeout } in
    record {
      msg = m';
      queued =
          let here : same_key m.key m.key ≡ true = same_key_refl m.key in
          unfold set_key in rw here refl;
      there = set-same s.msgs id (some m');
      same_datagram = refl;
    }

dropped :
    (a b : TimerId) (t : Option TimerId)
    → is_expired a a (if is_expired a b t then none else t) ≡ false
unfolding is_expired
dropped a b none = refl
dropped a b (some t) = ground arith

clear_expired-none :
    (a b : TimerId) (ts : List (Option TimerId)) → any_expired a a (clear_expired a b ts) ≡ false
unfolding any_expired clear_expired
clear_expired-none a b [] = refl
clear_expired-none a b (t ∷ ts) = rw (dropped a b t) (clear_expired-none a b ts)

-- A response with a running timer that is sent again drops the expiration of a request of this side
-- with the same sequence number: whatever has expired in this turn of the loop, the timer of that
-- request has not, when the expirations are gone through.
pub restart_response_timer-drops :
    (id : ℕ) (m : Msg) (t : TimerId) (s : Server)
    → m.timer ≡ some t
    → any_expired (t1 m.key.seq_no) (t1 m.key.seq_no) (restart_response_timer id m s).expired
      ≡ false
unfolding restart_response_timer with_timer stop_msg_timer stop_timer
restart_response_timer-drops id m t s e =
    rw e (elim (Bool-cases (any_expired (t1 m.key.seq_no) (response id) s.expired)) [
      | inl fired ↦ rw fired (clear_expired-none (t1 m.key.seq_no) (response id) s.expired)
      | inr running ↦ rw running (clear_expired-none (t1 m.key.seq_no) (response id) s.expired)
    ])
