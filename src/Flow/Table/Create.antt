-- ===== src/Flow/Table/Create.antt =====
-- A flow looked up, and made when there is none: `flowtable_entry_lookup_create` of
-- upf/flowtable.c and `timer_wheel_insert_flow` of upf/flowtable.h.
use upg_vpp_tr.Base.{ℕ, ◌+◌, ◌%◌, ◌^◌, Bool, true, false, ◌∷◌, Option, none, some}
use upg_vpp_tr.Flow.Table
use upg_vpp_tr.Flow.Table.Expire.{recycle_flow}

module _ (k : Table.Keys) (p : Table.Pools) (hook : Table.Entry k → Bool) where
  open k use {Key}
  open p use {new_timer}

  unfoldable pub timer_wheel_insert_flow : ℕ → Table.Table k → Table.Table k
  unfolding Table.addtail
  timer_wheel_insert_flow f t =
      let slot = (t.time_index + (t.entries f).lifetime) % t.max_lifetime in
      record t { wheel = Table.addtail k t.wheel slot f }

  -- The entry that is made; all that is not set is 0 by the `memset`.
  unfoldable pub new_entry : Key → ℕ → Bool → ℕ → Table.Table k → Table.Entry k
  unfolding Table.flowtable_lifetime_calculate
  new_entry key now is_reverse generation t = record {
    key = key;
    is_reverse = is_reverse;
    is_spliced = false;
    spliced_dirty = false;
    active = now;
    lifetime = Table.flowtable_lifetime_calculate k t key;
    timer_index = new_timer t.timers;
    application_id = none;
    ps_index = none;
    sides = (Table.new_side, Table.new_side);
    generation = generation;
  }

  unfoldable pub increment : ℕ → ℕ
  increment n = (n + 1) % 2 ^ 64

  unfoldable pub enter : Key → ℕ → Bool → ℕ → ℕ → Table.Table k → Table.Table k
  unfolding new_entry timer_wheel_insert_flow increment Table.set_entry Table.set_key
  enter key now is_reverse generation f t =
      let t' = timer_wheel_insert_flow f (record t {
        entries = Table.set_entry k t.entries f (new_entry key now is_reverse generation t);
        timers = new_timer t.timers ∷ t.timers;
      }) in
      record t' { flow_counter = increment t.flow_counter; ht = Table.set_key k t.ht key (some f) }

  -- After the second `flow_entry_alloc`: the table, the index, `none` being ~0, and `*created`.
  unfoldable pub retried :
      Key → ℕ → Bool → ℕ → Table.Table k × Option ℕ → Table.Table k × Option ℕ × Bool
  unfolding enter
  retried key now is_reverse generation (t, none) = (t, none, false)
  retried key now is_reverse generation (t, some f) =
      (enter key now is_reverse generation f t, some f, true)

  -- After `recycle_flow`, which may run out of fuel.
  unfoldable pub recycled :
      Key → ℕ → Bool → ℕ → Option (Table.Table k) → Option (Table.Table k × Option ℕ × Bool)
  unfolding retried Table.flow_entry_alloc
  recycled key now is_reverse generation none = none
  recycled key now is_reverse generation (some t) =
      some (retried key now is_reverse generation (Table.flow_entry_alloc k p t))

  unfoldable pub create :
      ℕ → Key → ℕ → Bool → ℕ → Table.Table k × Option ℕ → Option (Table.Table k × Option ℕ × Bool)
  unfolding enter recycled recycle_flow
  create fuel key now is_reverse generation (t, some f) =
      some (enter key now is_reverse generation f t, some f, true)
  create fuel key now is_reverse generation (t, none) =
      recycled key now is_reverse generation (recycle_flow k hook fuel now t)

  -- The index that the hash table has, or a new flow; `*created` is set for a new one.
  unfoldable pub found :
      ℕ → Key → ℕ → Bool → ℕ → Table.Table k → Option ℕ → Option (Table.Table k × Option ℕ × Bool)
  unfolding create Table.flow_entry_alloc
  found fuel key now is_reverse generation t (some f) = some (t, some f, false)
  found fuel key now is_reverse generation t none =
      create fuel key now is_reverse generation (Table.flow_entry_alloc k p t)

  -- `flowtable_entry_lookup_create`; `none` when the fuel for `recycle_flow` runs out.
  unfoldable pub flowtable_entry_lookup_create :
      ℕ → Key → ℕ → Bool → ℕ → Table.Table k → Option (Table.Table k × Option ℕ × Bool)
  unfolding found
  flowtable_entry_lookup_create fuel key now is_reverse generation t =
      found fuel key now is_reverse generation t (t.ht key)
