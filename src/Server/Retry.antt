-- ===== src/Server/Retry.antt =====
-- Requests of upf/upf_pfcp_server.c that are not answered.
use upg_vpp_tr.Base.{
  ap, sym, append_assoc, append-nil, ℕ, zero, suc, ◌+◌, ◌-◌, ◌^◌, ◌<◌, ◌≡◌, refl, ◌∙◌, arith, Bool,
  true, false, ◌&&◌, ◌==◌, List, [], ◌∷◌, ◌++◌, Option, none, some, Bool-cases, inl, inr,
}
use upg_vpp_tr.Message.{pfcp_msg_type}
use upg_vpp_tr.Server.{
  Msg, Call, Datagram, datagram, send, TimerId, t1, start, stop, handle, release_association,
  Server, set, call, pool_put, release_node, with_timer, abort_request, one_less, retry_request,
  retry_found, request_t1_expired,
}

-- What is sent, in order: the octets, the address and port, and the session they go by.
unfoldable pub sent : List Call → List Datagram
sent [] = []
sent (send d ∷ cs) = d ∷ sent cs
sent (start t n ∷ cs) = sent cs
sent (stop t ∷ cs) = sent cs
sent (handle m ∷ cs) = sent cs
sent (release_association n ∷ cs) = sent cs

pub sent-append : (cs ds : List Call) → sent (cs ++ ds) ≡ sent cs ++ sent ds
unfolding sent
sent-append [] ds = refl
sent-append (send d ∷ cs) ds = ap (λ x. d ∷ x) (sent-append cs ds)
sent-append (start t n ∷ cs) ds = sent-append cs ds
sent-append (stop t ∷ cs) ds = sent-append cs ds
sent-append (handle m ∷ cs) ds = sent-append cs ds
sent-append (release_association n ∷ cs) ds = sent-append cs ds

-- One datagram `n` times.
unfoldable pub copies : ℕ → Datagram → List Datagram
copies zero d = []
copies (suc n) d = d ∷ copies n d

-- Something was sent once, and then `n` times.
pub sent_more :
    (n : ℕ) (d : Datagram) (a b c : List Datagram)
    → b ≡ a ++ (d ∷ [])
    → c ≡ b ++ copies n d
    → c ≡ a ++ copies (suc n) d
unfolding copies
sent_more n d a b c e f = f ∙ (ap (λ x. x ++ copies n d) e ∙ append_assoc a (d ∷ []) (copies n d))

pub set-same : {A : Type 0} (f : ℕ → A) (k : ℕ) (a : A) → set f k a k ≡ a
unfolding set
set-same f k a = let here : (k == k) ≡ true = ground arith in rw here refl

-- A request that waits for its answer, sent as `d`, with `n` sends to come.
pub record Waits (seq_no id n : ℕ) (d : Datagram) (s : Server) : Type 0 where
  pub msg : Msg
  pub queued : s.request_q seq_no ≡ some id
  pub there : s.msgs id ≡ some msg
  pub same_datagram : datagram msg ≡ d
  pub counted : msg.n1 ≡ suc n
  pub small : n < 2 ^ 32 - 1

-- A request that is not waited for.
pub record IsGone (seq_no id : ℕ) (s : Server) : Type 0 where
  pub unqueued : s.request_q seq_no ≡ none
  pub freed : s.msgs id ≡ none

module _ (live : ℕ → Bool) (seq_no id : ℕ) where
  found :
      (s : Server) (m : Msg)
      → s.request_q seq_no ≡ some id
      → s.msgs id ≡ some m
      → request_t1_expired live seq_no s ≡ retry_request live seq_no id (some m) s
  unfolding request_t1_expired
  found s m queued there = rw (queued, retry_found, there) refl

  retried :
      (s : Server) (m : Msg)
      → (one_less m.n1 == 0) ≡ false
      → retry_request live seq_no id (some m) s
        ≡ call
            (send (datagram m))
            (with_timer id (record m { n1 = one_less m.n1 }) (t1 m.key.seq_no) m.t1_seconds s)
  unfolding retry_request
  retried s m more = rw more refl

  timed :
      (s : Server) (n seconds : ℕ) (m : Msg) (t : TimerId)
      → s.request_q seq_no ≡ some id
      → m.n1 ≡ suc n
      → n < 2 ^ 32 - 1
      → Waits seq_no id n (datagram m) (call (send (datagram m)) (with_timer id m t seconds s))
        × (sent (call (send (datagram m)) (with_timer id m t seconds s)).log
            ≡ sent s.log ++ (datagram m ∷ []))
  unfolding with_timer sent
  timed s n seconds m t queued counted small =
      let started = s.log ++ (start t seconds ∷ []) in
      (
        record {
          msg = record m { timer = some t; expires_at = s.now + seconds };
          queued = queued;
          there =
              set-same s.msgs id (some (record m { timer = some t; expires_at = s.now + seconds }));
          same_datagram = refl;
          counted = counted;
          small = small;
        },
        sent-append started (send (datagram m) ∷ [])
            ∙ ap (λ x. x ++ (datagram m ∷ []))
                (sent-append s.log (start t seconds ∷ []) ∙ append-nil (sent s.log)),
      )

  resends :
      (s : Server) (n : ℕ) (d : Datagram)
      → Waits seq_no id (suc n) d s
      → Waits seq_no id n d (request_t1_expired live seq_no s)
        × (sent (request_t1_expired live seq_no s).log ≡ sent s.log ++ (d ∷ []))
  resends s n d w =
      let m = w.msg in
      let less : one_less m.n1 ≡ suc n = omega (arith, w.counted, w.small) in
      let more : (one_less m.n1 == 0) ≡ false = ground (arith, less) in
      rw (found s m w.queued w.there ∙ retried s m more, ← w.same_datagram)
        (timed s n m.t1_seconds (record m { n1 = one_less m.n1 }) (t1 m.key.seq_no) w.queued less
          (omega (arith, w.small)))

  released :
      (kind : ℕ) (node : Option ℕ) (s : Server)
      → IsGone seq_no id s
      → IsGone seq_no id (release_node live kind node s)
        × (sent (release_node live kind node s).log ≡ sent s.log)
  unfolding release_node sent
  released kind none s w = (w, refl)
  released kind (some node) s w = elim (Bool-cases ((kind == 1) && live node)) [
    | inl both ↦ rw both (
      record { unqueued = w.unqueued; freed = w.freed },
      sent-append s.log (release_association node ∷ []) ∙ append-nil (sent s.log),
    )
    | inr other ↦ rw other (w, refl)
  ]

  abort-IsGone :
      (s : Server) (m : Msg)
      → IsGone seq_no id (abort_request live seq_no id m s)
        × (sent (abort_request live seq_no id m s).log ≡ sent s.log)
  unfolding abort_request pool_put
  abort-IsGone s m =
      released (pfcp_msg_type m.bytes) m.node
        (pool_put id (record s { request_q = set s.request_q seq_no none }))
        (record { unqueued = set-same s.request_q seq_no none; freed = set-same s.msgs id none })

  gives_up :
      (s : Server) (d : Datagram)
      → Waits seq_no id 0 d s
      → IsGone seq_no id (request_t1_expired live seq_no s)
        × (sent (request_t1_expired live seq_no s).log ≡ sent s.log)
  gives_up s d w =
      let m = w.msg in
      let less : one_less m.n1 ≡ 0 = omega (arith, w.counted) in
      let last : (one_less m.n1 == 0) ≡ true = ground (arith, less) in
      let end : retry_request live seq_no id (some m) s
          ≡ abort_request live seq_no id (record m { n1 = one_less m.n1 }) s =
        unfold retry_request in rw last refl in
      rw (found s m w.queued w.there ∙ end) (abort-IsGone s (record m { n1 = one_less m.n1 }))

  -- `k` expirations of the timer of a request.
  unfoldable pub expirations : ℕ → Server → Server
  unfolding request_t1_expired
  expirations zero s = s
  expirations (suc k) s = expirations k (request_t1_expired live seq_no s)

  -- A request that waits with `n` more sends to come is sent `n` more times, the same each time, by as many expirations of
  -- its timer and one more, and then is gone: its sequence number leads to no message and its item
  -- is free.
  pub expirations-IsGone :
      (n : ℕ) (s : Server) (d : Datagram)
      → Waits seq_no id n d s
      → IsGone seq_no id (expirations (suc n) s)
        × (sent (expirations (suc n) s).log ≡ sent s.log ++ copies n d)
  unfolding expirations copies
  expirations-IsGone zero s d w =
      let (gone, same) = gives_up s d w in (gone, same ∙ sym (append-nil (sent s.log)))
  expirations-IsGone (suc n) s d w =
      let (next, more) = resends s n d w in
      let (gone, all) = expirations-IsGone n (request_t1_expired live seq_no s) d next in
      (gone, sent_more n d _ _ _ more all)
