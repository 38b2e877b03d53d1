-- ===== src/Flow/Table/Recycle.antt =====
-- The loop of `recycle_flow` in upf/flowtable.c compares a slot with the time.
use upg_vpp_tr.Base.{ℕ, zero, suc, ◌+◌, ◌≤◌, ◌<◌, ◌≡◌, refl, Bool, List, [], ◌∷◌, none, arith}
use native.Mathlib.Nat.{mod-lt}
use upg_vpp_tr.Flow.Table
use upg_vpp_tr.Flow.Table.Expire
use upg_vpp_tr.Flow.Table.Create

module _ (k : Table.Keys) (hook : Table.Entry k → Bool) where
  freed-max :
      (f : ℕ) (t : Table.Table k) → (Table.flow_entry_free k f t).max_lifetime ≡ t.max_lifetime
  unfolding Table.flow_entry_free Table.flow_entry_cache_empty
  freed-max f t = ground arith

  pub expire-max :
      (now f : ℕ) (t : Table.Table k)
      → (Expire.expire_single_flow k hook now f t).0.max_lifetime ≡ t.max_lifetime
  unfolding Expire.expire_single_flow Expire.reschedule Expire.remove_flow
  expire-max now f t = grind (arith, freed-max)

  turn-max :
      (next now : ℕ) (t : Table.Table k) (slot : List ℕ)
      → (Expire.turn k hook next now t slot).1.max_lifetime ≡ t.max_lifetime
  unfolding Expire.turn
  turn-max next now t [] = refl
  turn-max next now t (f ∷ rest) = expire-max now f t

  turn_below :
      (next now : ℕ) (t : Table.Table k) (slot : List ℕ)
      → next < t.max_lifetime
      → (Expire.turn k hook next now t slot).0 < t.max_lifetime
  unfolding Expire.turn
  turn_below next now t [] below = mod-lt (next + 1) (omega arith)
  turn_below next now t (f ∷ rest) below = below

  recycle_loops :
      (fuel next now : ℕ) (t : Table.Table k)
      → next < t.max_lifetime
      → t.max_lifetime ≤ now
      → Expire.recycle k hook fuel next now t ≡ none
  unfolding Expire.recycle
  recycle_loops zero next now t below late = refl
  recycle_loops (suc fuel) next now t below late =
      let r = Expire.turn k hook next now t (t.wheel next) in
      let e : r.1.max_lifetime ≡ t.max_lifetime = turn-max next now t (t.wheel next) in
      ground (
        arith,
        recycle_loops fuel r.0 now r.1
            (omega (arith, e, turn_below next now t (t.wheel next) below)) (omega (arith, e)),
      )

  pub recycle_flow-loops :
      (fuel now : ℕ) (t : Table.Table k)
      → 0 < t.max_lifetime
      → t.max_lifetime ≤ now
      → Expire.recycle_flow k hook fuel now t ≡ none
  unfolding Expire.recycle_flow
  recycle_flow-loops fuel now t pos late = recycle_loops fuel _ now t (mod-lt (now + 1) pos) late

  module _ (p : Table.Pools) where
    open k use {Key}

    alloc_full :
        (t : Table.Table k)
        → t.cache ≡ []
        → t.flows_max < t.flows_cpt
        → Table.flow_entry_alloc k p t ≡ (t, none)
    unfolding Table.flow_entry_alloc Table.fill_if_empty Table.flow_entry_cache_fill
        Table.pop_cached
    alloc_full t empty full = rw empty (ground (arith, empty))

    -- A new flow, asked for when the cache is empty and no more flows may be made, is never answered
    -- once the time has reached the size of the wheel, whatever is in the wheel.
    pub lookup_create-recycle :
        (fuel : ℕ) (key : Key) (now : ℕ) (is_reverse : Bool) (generation : ℕ) (t : Table.Table k)
        → t.ht key ≡ none
        → t.cache ≡ []
        → t.flows_max < t.flows_cpt
        → 0 < t.max_lifetime
        → t.max_lifetime ≤ now
        → Create.flowtable_entry_lookup_create k p hook fuel key now is_reverse generation t ≡ none
    unfolding Create.flowtable_entry_lookup_create Create.found Create.create Create.recycled
    lookup_create-recycle fuel key now is_reverse generation t miss empty full pos late =
        rw (miss, alloc_full t empty full, recycle_flow-loops fuel now t pos late) refl
