-- ===== src/Runs/Flows.antt =====
-- The theorems on the flow table at concrete flows, over lists and addresses of their own.
use upg_vpp_tr.Base.{
  ℕ, ◌+◌, ◌≤◌, ◌≡◌, ◌≢◌, ==_iff, refl, true, false, not, ltb, ◌==◌, List, ◌∷◌, ◌++◌, [],
  if◌then◌else◌, Bool-cases, inl, inr,
}
use upg_vpp_tr.Flow.Tcp
use upg_vpp_tr.Flow.Tcp.Laws.{flow_tcp_update_lifetime-slot, update_all-bounded}
use upg_vpp_tr.Flow.Key
use upg_vpp_tr.Flow.Key.Laws.{answered, IsBetween, flow_mk_key-answer}

-- The lists as a function from heads.
abbrev appended : (ℕ → List ℕ) → ℕ → ℕ → ℕ → List ℕ
appended t slot i s = if s == slot then t s ++ (i ∷ []) else t s

appended-same : (t : ℕ → List ℕ) (slot i : ℕ) → appended t slot i slot ≡ t slot ++ (i ∷ [])
appended-same t slot i = rw ((==_iff slot slot).1 refl) refl

appended-other : (t : ℕ → List ℕ) (slot i s : ℕ) → s ≢ slot → appended t slot i s ≡ t s
appended-other t slot i s h = elim (Bool-cases (s == slot)) [
  | inl e ↦ absurd (h ((==_iff s slot).0 e))
  | inr e ↦ rw e refl
]

abbrev lists : Tcp.Dlists
lists = record {
  Timers = ℕ → List ℕ;
  members = λ t s. t s;
  remove = λ t i s. Tcp.without i (t s);
  addtail = appended;
  members-remove = λ t i s. refl;
  members-addtail = λ t slot i _. appended-same t slot i;
  members-addtail_other = λ t slot i s _ h. appended-other t slot i s h;
}

-- A flow in the list of slot 60, with another one.
abbrev wheel : ℕ → List ℕ
wheel s = if s == 60 then 1000 ∷ 1001 ∷ [] else []

abbrev handshake : Tcp.FlowEntry
handshake = record { tcp_state = Tcp.synack; lifetime = 60; active = 0; timer_index = 1000 }

abbrev new_flow : Tcp.FlowEntry
new_flow = record { tcp_state = Tcp.start; lifetime = 60; active = 0; timer_index = 1000 }

abbrev plain_ack : Tcp.TcpHeader
plain_ack = record { has_fin = false; has_syn = false; has_rst = false; has_ack = true }

abbrev reset : Tcp.TcpHeader
reset = record { has_fin = false; has_syn = false; has_rst = true; has_ack = false }

abbrev acknowledged : Tcp.Updated lists
acknowledged = Tcp.flow_tcp_update_lifetime lists 600 handshake wheel plain_ack

flow_tcp_update_lifetime-slot_example :
    Tcp.contains 1000 (Tcp.Updated.timers acknowledged 299)
    ≡ (299 == Tcp.deadline_slot lists 600 (Tcp.Updated.flow acknowledged))
unfolding Tcp.flow_tcp_update_lifetime Tcp.tcp_trans Tcp.tcp_event Tcp.moves
flow_tcp_update_lifetime-slot_example =
    flow_tcp_update_lifetime-slot lists 600 handshake wheel plain_ack 299 refl

update_all-bounded_example :
    (2 + (Tcp.update_all lists 600 handshake wheel (plain_ack ∷ reset ∷ [])).2
      ≤ Tcp.index ((Tcp.update_all lists 600 handshake wheel (plain_ack ∷ reset ∷ [])).0.tcp_state))
    × ((Tcp.update_all lists 600 handshake wheel (plain_ack ∷ reset ∷ [])).2 ≤ 6)
unfolding Tcp.index
update_all-bounded_example = update_all-bounded lists 600 handshake wheel (plain_ack ∷ reset ∷ [])

-- Numbers for addresses.
abbrev numbers : Key.Addresses ℕ
numbers = record { Address = ℕ; before = ltb; set = λ a. a }

abbrev request : Key.Packet ℕ
request = record {
  src_address = 10;
  dst_address = 20;
  protocol = 6;
  src_port = 40000;
  dst_port = 80;
}

abbrev hairpin : Key.Packet ℕ
hairpin = record {
  src_address = 10;
  dst_address = 10;
  protocol = 6;
  src_port = 40000;
  dst_port = 80;
}

flow_mk_key-answer_example :
    Key.flow_mk_key numbers numbers 7 (answered numbers numbers (Key.ip4 request)) ≡ (
      not (Key.flow_mk_key numbers numbers 7 (Key.ip4 request)).0,
      (Key.flow_mk_key numbers numbers 7 (Key.ip4 request)).1,
    )
unfolding IsBetween
flow_mk_key-answer_example = flow_mk_key-answer numbers numbers 7 (Key.ip4 request) refl
