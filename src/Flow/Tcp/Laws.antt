-- ===== src/Flow/Tcp/Laws.antt =====
-- The state and the timer of a TCP flow: `flow_tcp_update_lifetime` of upf/flowtable.h.
use upg_vpp_tr.Base.{
  ℕ, ◌+◌, ◌<◌, ◌≤◌, ◌≡◌, ◌≢◌, ==_iff, refl, ap, arith, Bool, true, false, not, ◌&&◌, ◌||◌, ◌⊎◌,
  ◌==◌, List, [], ◌∷◌, ◌++◌, if◌then◌else◌, Bool-cases, inl, inr,
}
use upg_vpp_tr.Flow.Tcp

-- The states in the order of a connection's life.
moves_on :
    (s : Tcp.TcpState) (e : Tcp.TcpEvent)
    → Tcp.moves s (Tcp.tcp_trans s e) ≡ true
    → Tcp.index s < Tcp.index (Tcp.tcp_trans s e)
unfolding Tcp.moves Tcp.tcp_trans Tcp.index
moves_on Tcp.start e h = ground arith
moves_on Tcp.syn e h = ground arith
moves_on Tcp.synack e h = ground arith
moves_on Tcp.established e h = ground arith
moves_on Tcp.fin e h = ground arith
moves_on Tcp.finack e h = ground arith
moves_on Tcp.rst e h = ground arith

index_bound : (s : Tcp.TcpState) → Tcp.index s ≤ 6
unfolding Tcp.index
index_bound s = ground arith

pub contains-without :
    (x y : ℕ) (ys : List ℕ)
    → Tcp.contains x (Tcp.without y ys) ≡ (not (x == y) && Tcp.contains x ys)
unfolding Tcp.contains Tcp.without
contains-without x y [] = ground arith
contains-without x y (z ∷ zs) = ground (arith, contains-without x y zs)

contains-append :
    (x y : ℕ) (ys : List ℕ) → Tcp.contains x (ys ++ (y ∷ [])) ≡ (Tcp.contains x ys || (x == y))
unfolding Tcp.contains
contains-append x y [] = ground arith
contains-append x y (z ∷ zs) = ground (arith, contains-append x y zs)

module _ (d : Tcp.Dlists) where
  open d use {
    Timers, members, remove, addtail, members-remove, members-addtail, members-addtail_other,
  }

  -- The two effects of a segment.
  pub Effect : ℕ → Tcp.FlowEntry → Timers → Tcp.Updated d → Type 0
  Effect max f timers u =
      ((u.result ≡ true)
        × (Tcp.index f.tcp_state < Tcp.index u.flow.tcp_state)
        × (u.flow.lifetime ≡ Tcp.tcp_lifetime u.flow.tcp_state)
        × (u.timers
            ≡ addtail (remove timers f.timer_index) (Tcp.deadline_slot d max u.flow) f.timer_index)
        × (u.flow.active ≡ f.active))
      ⊎ ((u.result ≡ false) × (u.flow ≡ f) × (u.timers ≡ timers))

  -- A segment that reschedules a flow moves it to a later state, with the lifetime of that state, and
  -- to the list of its new deadline; any other leaves the flow and the lists as they are.
  pub flow_tcp_update_lifetime_lem :
      (max : ℕ) (f : Tcp.FlowEntry) (timers : Timers) (hdr : Tcp.TcpHeader)
      → Effect max f timers (Tcp.flow_tcp_update_lifetime d max f timers hdr)
  unfolding Tcp.flow_tcp_update_lifetime Effect
  flow_tcp_update_lifetime_lem max f timers hdr =
      elim (Bool-cases (Tcp.moves f.tcp_state (Tcp.tcp_trans f.tcp_state (Tcp.tcp_event hdr)))) [
        | inl e ↦ inl (rw e (refl, moves_on f.tcp_state (Tcp.tcp_event hdr) e, refl, refl, refl))
        | inr e ↦ inr (rw e (refl, refl, refl))
      ]

  removed : (timers : Timers) (i s : ℕ) → Tcp.contains i (members (remove timers i) s) ≡ false
  removed timers i s = rw (members-remove, contains-without) (ground arith)

  moved :
      (timers : Timers) (i k s : ℕ)
      → Tcp.contains i (members (addtail (remove timers i) k i) s) ≡ (s == k)
  moved timers i k s = elim (Bool-cases (s == k)) [
    | inl e ↦
        let same : s ≡ k = (==_iff s k).0 e in
        rw (same, members-addtail (remove timers i) k i (removed timers i), contains-append)
          (ground arith)
    | inr e ↦
        rw
          (
            e,
            members-addtail_other (remove timers i) k i s (removed timers i) (ground arith),
            members-remove,
            contains-without,
          )
          (ground arith)
  ]

  others :
      (timers : Timers) (i j k s : ℕ)
      → j ≢ i
      → Tcp.contains j (members (addtail (remove timers i) k i) s)
        ≡ Tcp.contains j (members timers s)
  others timers i j k s h = elim (Bool-cases (s == k)) [
    | inl e ↦
        let same : s ≡ k = (==_iff s k).0 e in
        rw
          (
            same,
            members-addtail (remove timers i) k i (removed timers i),
            contains-append,
            members-remove,
            contains-without,
          )
          (ground arith)
    | inr e ↦
        rw
          (
            members-addtail_other (remove timers i) k i s (removed timers i) (ground arith),
            members-remove,
            contains-without,
          )
          (ground arith)
  ]

  -- A rescheduled flow is in the list of its deadline, and in no other.
  pub flow_tcp_update_lifetime-slot :
      (max : ℕ) (f : Tcp.FlowEntry) (timers : Timers) (hdr : Tcp.TcpHeader) (s : ℕ)
      → (Tcp.flow_tcp_update_lifetime d max f timers hdr).result ≡ true
      → Tcp.contains f.timer_index
          (members (Tcp.flow_tcp_update_lifetime d max f timers hdr).timers s)
        ≡ (s == Tcp.deadline_slot d max (Tcp.flow_tcp_update_lifetime d max f timers hdr).flow)
  unfolding Effect
  flow_tcp_update_lifetime-slot max f timers hdr s h =
      elim (flow_tcp_update_lifetime_lem max f timers hdr) [
        | inl (r, lt, l, t, a) ↦ rw t (moved timers f.timer_index _ s)
        | inr (r, g, t) ↦ cc
      ]

  -- A segment of one flow leaves every other flow in the lists where it is.
  pub flow_tcp_update_lifetime-others :
      (max : ℕ) (f : Tcp.FlowEntry) (timers : Timers) (hdr : Tcp.TcpHeader) (j s : ℕ)
      → j ≢ f.timer_index
      → Tcp.contains j (members (Tcp.flow_tcp_update_lifetime d max f timers hdr).timers s)
        ≡ Tcp.contains j (members timers s)
  unfolding Effect
  flow_tcp_update_lifetime-others max f timers hdr j s h =
      elim (flow_tcp_update_lifetime_lem max f timers hdr) [
        | inl (r, lt, l, t, a) ↦ rw t (others timers f.timer_index j _ s h)
        | inr (r, g, t) ↦ rw t refl
      ]

  rescheduled_once :
      (b : Bool) (i k z n : ℕ)
      → ((b ≡ true) × (i < k)) ⊎ ((b ≡ false) × (k ≡ i))
      → k + n ≤ z
      → i + (if b then 1 + n else n) ≤ z
  rescheduled_once true i k z n h g = ground arith
  rescheduled_once false i k z n h g = ground arith

  update_all-index :
      (max : ℕ) (f : Tcp.FlowEntry) (timers : Timers) (hdrs : List Tcp.TcpHeader)
      → let (f', timers', n) = Tcp.update_all d max f timers hdrs in
        Tcp.index f.tcp_state + n ≤ Tcp.index f'.tcp_state
  unfolding Tcp.update_all Effect
  update_all-index max f timers [] = omega arith
  update_all-index max f timers (hdr ∷ hdrs) =
      let u = Tcp.flow_tcp_update_lifetime d max f timers hdr in
      rescheduled_once u.result (Tcp.index f.tcp_state) (Tcp.index u.flow.tcp_state) _ _
        (elim (flow_tcp_update_lifetime_lem max f timers hdr) [
          | inl (r, lt, l, t, a) ↦ inl (r, lt)
          | inr (r, g, t) ↦ inr (r, ap (λ x. Tcp.index (Tcp.FlowEntry.tcp_state x)) g)
        ])
        (update_all-index max u.flow u.timers hdrs)

  -- Whatever segments arrive, a flow is rescheduled at most as often as there are states between its
  -- first and its last, so at most six times.
  pub update_all-bounded :
      (max : ℕ) (f : Tcp.FlowEntry) (timers : Timers) (hdrs : List Tcp.TcpHeader)
      → let (f', timers', n) = Tcp.update_all d max f timers hdrs in
        (Tcp.index f.tcp_state + n ≤ Tcp.index f'.tcp_state) × (n ≤ 6)
  update_all-bounded max f timers hdrs =
      let least = update_all-index max f timers hdrs in
      (least, omega (arith, index_bound (Tcp.update_all d max f timers hdrs).0.tcp_state))

  -- A segment without SYN, FIN and RST leaves a flow in the start state, and the lists, as they
  -- are.
  pub flow_tcp_update_lifetime-start :
      (max : ℕ) (f : Tcp.FlowEntry) (timers : Timers) (hdr : Tcp.TcpHeader)
      → f.tcp_state ≡ Tcp.start
      → (hdr.has_syn ≡ false) × (hdr.has_fin ≡ false) × (hdr.has_rst ≡ false)
      → Tcp.flow_tcp_update_lifetime d max f timers hdr
        ≡ (record { flow = f; timers = timers; result = false })
  unfolding Tcp.flow_tcp_update_lifetime Tcp.tcp_event Tcp.tcp_trans Tcp.moves
  flow_tcp_update_lifetime-start max f timers hdr h (s, n, r) = rw (h, s, n, r) refl
