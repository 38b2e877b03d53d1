-- ===== src/Flow/Tcp.antt =====
-- upf/flowtable_tcp.h and `flow_tcp_update_lifetime` of upf/flowtable.h: the states that a TCP flow
-- goes through, and its place in the timer wheel.
--
-- The doubly linked lists of the wheel are VPP's (`clib_dlist_*`), and so an interface here.
pub mod Laws
use upg_vpp_tr.Base.{
  ℕ, ◌+◌, ◌%◌, ◌^◌, ◌≡◌, ◌≢◌, Bool, true, false, not, ◌&&◌, ◌||◌, ◌==◌, List, [], ◌∷◌, ◌++◌,
  if◌then◌else◌,
}

pub data TcpState : Type 0 where
  start syn synack established fin finack rst : TcpState

pub data TcpEvent : Type 0 where
  ev_none ev_syn ev_synack ev_fin ev_finack ev_rst ev_pshack : TcpEvent

-- The index of a state in the C enumeration.
unfoldable pub index : TcpState → ℕ
index start = 0
index syn = 1
index synack = 2
index established = 3
index fin = 4
index finack = 5
index rst = 6

-- In seconds. The array has no entry for `TCP_F_STATE_START`, which C sets to 0.
unfoldable pub tcp_lifetime : TcpState → ℕ
tcp_lifetime start = 0
tcp_lifetime syn = 15
tcp_lifetime synack = 60
tcp_lifetime established = 299
tcp_lifetime fin = 15
tcp_lifetime finack = 3
tcp_lifetime rst = 6

-- The rows of the table. What a row leaves out C sets to 0, which is `TCP_F_STATE_START`.
unfoldable pub tcp_trans : TcpState → TcpEvent → TcpState
tcp_trans start ev_syn = syn
tcp_trans start ev_synack = synack
tcp_trans start ev_fin = fin
tcp_trans start ev_finack = finack
tcp_trans start ev_rst = rst
tcp_trans start ev_none = established
tcp_trans start ev_pshack = start
tcp_trans syn ev_synack = synack
tcp_trans syn ev_pshack = established
tcp_trans syn ev_fin = fin
tcp_trans syn ev_finack = finack
tcp_trans syn ev_rst = rst
tcp_trans syn ev_none = start
tcp_trans syn ev_syn = start
tcp_trans synack ev_pshack = established
tcp_trans synack ev_fin = fin
tcp_trans synack ev_finack = finack
tcp_trans synack ev_rst = rst
tcp_trans synack ev_none = start
tcp_trans synack ev_syn = start
tcp_trans synack ev_synack = start
tcp_trans established ev_fin = fin
tcp_trans established ev_finack = finack
tcp_trans established ev_rst = rst
tcp_trans established ev_none = start
tcp_trans established ev_syn = start
tcp_trans established ev_synack = start
tcp_trans established ev_pshack = start
tcp_trans fin ev_finack = finack
tcp_trans fin ev_rst = rst
tcp_trans fin ev_none = start
tcp_trans fin ev_syn = start
tcp_trans fin ev_synack = start
tcp_trans fin ev_fin = start
tcp_trans fin ev_pshack = start
tcp_trans finack ev_rst = rst
tcp_trans finack ev_none = start
tcp_trans finack ev_syn = start
tcp_trans finack ev_synack = start
tcp_trans finack ev_fin = start
tcp_trans finack ev_finack = start
tcp_trans finack ev_pshack = start
tcp_trans rst e = start

-- The bits of `hdr->flags` that are tested.
pub record TcpHeader : Type 0 where
  pub has_fin : Bool
  pub has_syn : Bool
  pub has_rst : Bool
  pub has_ack : Bool

unfoldable pub tcp_event : TcpHeader → TcpEvent
tcp_event hdr =
    if hdr.has_syn && hdr.has_ack
    then ev_synack
    else if hdr.has_syn
    then ev_syn
    else if hdr.has_fin && hdr.has_ack
    then ev_finack
    else if hdr.has_fin
    then ev_fin
    else if hdr.has_rst
    then ev_rst
    else ev_pshack

-- The list without an element.
unfoldable pub without : ℕ → List ℕ → List ℕ
without x [] = []
without x (y ∷ ys) = let rest = without x ys in if x == y then rest else y ∷ rest

-- Whether an element is in a list.
unfoldable pub contains : ℕ → List ℕ → Bool
contains x [] = false
contains x (y ∷ ys) = (x == y) || contains x ys

-- The lists of the timer wheel, as VPP documents them: by the index of their head. An element that is
-- added is in no list.
pub record Dlists : Type 1 where
  pub Timers : Type 0
  pub members : Timers → ℕ → List ℕ
  pub remove : Timers → ℕ → Timers
  pub addtail : Timers → ℕ → ℕ → Timers
  pub members-remove :
      (t : Timers) (i slot : ℕ) → members (remove t i) slot ≡ without i (members t slot)
  pub members-addtail :
      (t : Timers) (slot i : ℕ)
      → ((s : ℕ) → contains i (members t s) ≡ false)
      → members (addtail t slot i) slot ≡ members t slot ++ (i ∷ [])
  pub members-addtail_other :
      (t : Timers) (slot i s : ℕ)
      → ((s : ℕ) → contains i (members t s) ≡ false)
      → s ≢ slot
      → members (addtail t slot i) s ≡ members t s

pub record FlowEntry : Type 0 where
  pub tcp_state : TcpState
  pub lifetime : ℕ
  pub active : ℕ
  pub timer_index : ℕ

-- `new_state && old_state != new_state`
unfoldable pub moves : TcpState → TcpState → Bool
unfolding index
moves old_state new_state = not (index new_state == 0) && not (index old_state == index new_state)

module _ (d : Dlists) where
  open d use {Timers, remove, addtail}

  -- What a call leaves: the flow, the lists, and its result.
  pub record Updated : Type 0 where
    pub flow : FlowEntry
    pub timers : Timers
    pub result : Bool

  -- `(f->active + f->lifetime) % fm->timer_max_lifetime`, on 32 bits.
  abbrev pub deadline_slot : ℕ → FlowEntry → ℕ
  deadline_slot max f = (f.active + f.lifetime) % 2 ^ 32 % max

  abbrev pub rescheduled : ℕ → FlowEntry → Timers → Updated
  rescheduled max f timers = record {
    flow = f;
    timers = addtail (remove timers f.timer_index) (deadline_slot max f) f.timer_index;
    result = true;
  }

  -- `max` is `fm->timer_max_lifetime`.
  unfoldable pub flow_tcp_update_lifetime : ℕ → FlowEntry → Timers → TcpHeader → Updated
  flow_tcp_update_lifetime max f timers hdr =
      let new_state = tcp_trans f.tcp_state (tcp_event hdr) in
      if moves f.tcp_state new_state
      then rescheduled max (record f { tcp_state = new_state; lifetime = tcp_lifetime new_state })
          timers
      else record { flow = f; timers = timers; result = false }

  -- The segments of a flow in turn, and how often they rescheduled it.
  unfoldable pub update_all : ℕ → FlowEntry → Timers → List TcpHeader → FlowEntry × Timers × ℕ
  update_all max f timers [] = (f, timers, 0)
  update_all max f timers (hdr ∷ hdrs) =
      let u = flow_tcp_update_lifetime max f timers hdr in
      let (f', timers', n) = update_all max u.flow u.timers hdrs in
      (f', timers', if u.result then 1 + n else n)
