-- ===== src/Flow/Table/Expire.antt =====
-- Expiry of flows: `expire_single_flow`, `flowtable_timer_expire` and `recycle_flow` of
-- upf/flowtable.c.
--
-- The hook of the proxy is a parameter. A slot is walked along its links, the next one read before
-- the flow is handled, so a flow that moves to the end of its own slot is met again, but the last one.
use upg_vpp_tr.Base.{
  ℕ, zero, suc, ◌+◌, ◌-◌, ◌%◌, ◌^◌, Bool, true, false, ltb, ◌==◌, List, [], ◌∷◌, ◌++◌,
  if◌then◌else◌, Option, none, some,
}
use upg_vpp_tr.Flow.Tcp.{without, contains}
use upg_vpp_tr.Flow.Table

module _ (k : Table.Keys) (hook : Table.Entry k → Bool) where
  -- The second at which the flow is idle for its lifetime; both are `u32`.
  unfoldable pub deadline : Table.Entry k → ℕ
  deadline e = (e.active + e.lifetime) % 2 ^ 32

  -- A flow that is kept: the slot it is due in, and whether it is linked there anew.
  unfoldable pub reschedule : Table.Entry k → ℕ → Table.Table k → Table.Table k × Bool
  unfolding deadline Table.unlink Table.addtail
  reschedule e f t =
      let slot = deadline e % t.max_lifetime in
      if slot == e.timer_index
      then (t, false)
      else (record t { wheel = Table.addtail k (Table.unlink k t.wheel f) slot f }, true)

  unfoldable pub decrement : ℕ → ℕ
  decrement n = (n + 2 ^ 64 - 1) % 2 ^ 64

  unfoldable pub remove_flow : Table.Entry k → ℕ → Table.Table k → Table.Table k
  unfolding Table.unlink Table.set_key Table.flow_entry_free decrement without
  remove_flow e f t = Table.flow_entry_free k f (record t {
    wheel = Table.unlink k t.wheel f;
    timers = without e.timer_index t.timers;
    ht = Table.set_key k t.ht e.key none;
    flow_counter = decrement t.flow_counter;
    stitched_counter = if e.is_spliced then decrement t.stitched_counter else t.stitched_counter;
    dirty_counter = if e.spliced_dirty then decrement t.dirty_counter else t.dirty_counter;
  })

  -- The flow that the hook keeps waits for another lifetime.
  unfoldable pub postpone : Table.Entry k → Table.Entry k
  unfolding deadline
  postpone e = record e { active = deadline e }

  -- The result says whether the flow left its place.
  unfoldable pub expire_single_flow : ℕ → ℕ → Table.Table k → Table.Table k × Bool
  unfolding deadline reschedule remove_flow postpone Table.set_entry
  expire_single_flow now f t =
      let e = t.entries f in
      if ltb now (deadline e)
      then reschedule e f t
      else if hook e
      then reschedule (postpone e) f
          (record t { entries = Table.set_entry k t.entries f (postpone e) })
      else (remove_flow e f t, true)

  -- What is ahead on the walk, after `f` was handled.
  unfoldable pub ahead : ℕ → List ℕ → List ℕ → List ℕ
  ahead f [] slot = []
  ahead f (g ∷ rest) slot = if contains f slot then (g ∷ rest) ++ (f ∷ []) else g ∷ rest

  -- The loop over one slot: `budget` is what `expire_cpt` lacks to `TIMER_MAX_EXPIRE`, and `go` is
  -- the loop with one less.
  unfoldable pub walk :
      (List ℕ → Table.Table k → Table.Table k × ℕ)
      → ℕ
      → List ℕ
      → ℕ
      → ℕ
      → Table.Table k
      → Table.Table k × ℕ
  unfolding expire_single_flow ahead
  walk go budget [] slot now t = (t, budget)
  walk go budget (f ∷ rest) slot now t =
      let r = expire_single_flow now f t in
      let rest' = walk go budget rest slot now r.0 in
      if r.1 then go (ahead f rest (r.0.wheel slot)) r.0 else rest'

  unfoldable pub visit : ℕ → List ℕ → ℕ → ℕ → Table.Table k → Table.Table k × ℕ
  unfolding walk
  visit zero rest slot now t = (t, zero)
  visit (suc budget) rest slot now t =
      walk (λ rest' t'. visit budget rest' slot now t') (suc budget) rest slot now t

  -- The loop over the seconds from `tick`, of which `n` are left.
  unfoldable pub seconds : ℕ → ℕ → ℕ → ℕ → Table.Table k → Table.Table k × ℕ
  unfolding visit
  seconds zero tick now budget t = (record t { next_check = some tick }, budget)
  seconds (suc n) tick now budget t =
      let slot = tick % t.max_lifetime in
      let r = visit budget (t.wheel slot) slot now t in
      let rest = seconds n (suc tick) now r.1 r.0 in
      if r.1 == 0 then (record r.0 { next_check = some tick }, 0) else rest

  unfoldable pub expire_from : ℕ → ℕ → Table.Table k → Table.Table k × ℕ
  unfolding seconds
  expire_from start now t =
      let r = seconds (suc now - start) start now Table.timer_max_expire t in
      (r.0, Table.timer_max_expire - r.1)

  -- The second part of the result is the number of flows handled.
  unfoldable pub check_from : Option ℕ → ℕ → Table.Table k → Table.Table k × ℕ
  unfolding expire_from
  check_from none now t = expire_from now now t
  check_from (some next) now t = if ltb now next then (t, 0) else expire_from next now t

  unfoldable pub flowtable_timer_expire : ℕ → Table.Table k → Table.Table k × ℕ
  unfolding check_from
  flowtable_timer_expire now t = check_from t.next_check now t

  -- What one turn of the loop of `recycle_flow` does with slot `next`.
  unfoldable pub turn : ℕ → ℕ → Table.Table k → List ℕ → ℕ × Table.Table k
  unfolding expire_single_flow
  turn next now t [] = ((next + 1) % t.max_lifetime, t)
  turn next now t (f ∷ rest) = (next, (expire_single_flow now f t).0)

  -- The loop from slot `next`; `none` when `fuel` runs out.
  unfoldable pub recycle : ℕ → ℕ → ℕ → Table.Table k → Option (Table.Table k)
  unfolding turn
  recycle zero next now t = none
  recycle (suc fuel) next now t =
      let r = turn next now t (t.wheel next) in
      let rest = recycle fuel r.0 now r.1 in if next == now then some t else rest

  -- `recycle_flow`. Where the loop ends the source reports an error, as a flow should have been found
  -- before; the report is not modelled, and the table is given as it is there.
  unfoldable pub recycle_flow : ℕ → ℕ → Table.Table k → Option (Table.Table k)
  unfolding recycle
  recycle_flow fuel now t = recycle fuel ((now + 1) % t.max_lifetime) now t
