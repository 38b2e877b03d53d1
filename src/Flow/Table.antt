-- ===== src/Flow/Table.antt =====
-- The flow table of one worker: upf/flowtable.c, with the structures and the timer wheel of
-- upf/flowtable.h.
--
-- VPP's part is left open: the pools give indices (`Pools`), the hash table is a function of the key,
-- and the doubly linked list of a slot is the list of its flows. An element of the timer pool stands
-- for the flow that it holds, but for its own index, `timer_index`.
pub mod Lists
pub mod Expire
pub mod Walk
pub mod Invariant
pub mod Keep
pub mod New
pub mod Create
pub mod Safety
pub mod Cache
pub mod Answer
pub mod Recycle
use upg_vpp_tr.Base.{
  ℕ, zero, suc, ◌+◌, ◌-◌, ◌*◌, ◌%◌, ◌^◌, ◌<◌, ◌≤◌, ◌≡◌, ◌↔◌, Bool, true, false, not, ◌&&◌, ◌||◌,
  ltb, leb, ◌==◌, List, [], ◌∷◌, ◌++◌, length, drop, take, if◌then◌else◌, Option, none, some,
}
use upg_vpp_tr.Flow.Tcp.{without, contains}

-- What the table needs of `flow_key_t`.
pub record Keys : Type 1 where
  pub Key : Type 0
  pub same : Key → Key → Bool
  pub same_iff : (a b : Key) → (same a b ≡ true) ↔ (a ≡ b)
  pub proto : Key → ℕ
  pub is_ip4 : Key → Bool

-- `pool_get` on a pool with the given indices in use. The timer pool also holds the heads of the
-- slots, below `timer_heads`.
pub record Pools : Type 0 where
  pub new_flow : List ℕ → ℕ
  pub new_timer : List ℕ → ℕ
  pub new_flow-free : (used : List ℕ) → contains (new_flow used) used ≡ false
  pub new_timer-above : (used : List ℕ) → 600 ≤ new_timer used

-- `flowtable_timeout_type_t`
pub data Timeout : Type 0 where
  unknown ipv4 ipv6 icmp udp tcp : Timeout

abbrev pub timer_default_lifetime : ℕ
timer_default_lifetime = 60

abbrev pub timer_heads : ℕ
timer_heads = 600

abbrev pub timer_max_expire : ℕ
timer_max_expire = 256

abbrev pub flow_cache_sz : ℕ
flow_cache_sz = 256

-- What a flow keeps for each direction; both start alike.
pub record Side : Type 0 where
  pub pdr_id : Option ℕ
  pub teid : Option ℕ
  pub next : ℕ
  pub conn_index : Option ℕ
  pub thread_index : Option ℕ

-- `next` is `FT_NEXT_CLASSIFY`, 1.
abbrev pub new_side : Side
new_side = record { pdr_id = none; teid = none; next = 1; conn_index = none; thread_index = none }

module _ (k : Keys) where
  open k use {Key, same, proto, is_ip4}

  -- `none` stands for ~0.
  pub record Entry : Type 0 where
    pub key : Key
    pub is_reverse : Bool
    pub is_spliced : Bool
    pub spliced_dirty : Bool
    pub active : ℕ
    pub lifetime : ℕ
    pub timer_index : ℕ
    pub application_id : Option ℕ
    pub ps_index : Option ℕ
    pub sides : Side × Side
    pub generation : ℕ

  -- `flowtable_main_t` with the `flowtable_main_per_cpu_t` of the worker and the counters. `pool` holds
  -- the indices of `flows` in use or cached, `cache` the vector with its end first.
  pub record Table : Type 0 where
    pub flows_max : ℕ
    pub flows_cpt : ℕ
    pub pool : List ℕ
    pub cache : List ℕ
    pub entries : ℕ → Entry
    pub ht : Key → Option ℕ
    pub wheel : ℕ → List ℕ
    pub timers : List ℕ
    pub time_index : ℕ
    pub next_check : Option ℕ
    pub max_lifetime : ℕ
    pub lifetimes : Timeout → ℕ
    pub flow_counter : ℕ
    pub stitched_counter : ℕ
    pub dirty_counter : ℕ

  unfoldable pub set_entry : (ℕ → Entry) → ℕ → Entry → ℕ → Entry
  set_entry es f e g = if g == f then e else es g

  unfoldable pub set_key : (Key → Option ℕ) → Key → Option ℕ → Key → Option ℕ
  set_key ht a v b = if same b a then v else ht b

  -- `clib_dlist_remove`
  unfoldable pub unlink : (ℕ → List ℕ) → ℕ → ℕ → List ℕ
  unfolding without
  unlink wheel f slot = without f (wheel slot)

  -- `clib_dlist_addtail`
  unfoldable pub addtail : (ℕ → List ℕ) → ℕ → ℕ → ℕ → List ℕ
  addtail wheel head f slot = if slot == head then wheel slot ++ (f ∷ []) else wheel slot

  module _ (p : Pools) where
    open p use {new_flow, new_timer}

    -- The loop of `flow_entry_cache_fill`.
    unfoldable pub fill : ℕ → Table → Table
    fill zero t = t
    fill (suc n) t =
        let f = new_flow t.pool in fill n (record t { pool = f ∷ t.pool; cache = f ∷ t.cache })

    unfoldable pub flow_entry_cache_fill : Table → Table
    unfolding fill
    flow_entry_cache_fill t =
        if ltb t.flows_max t.flows_cpt
        then t
        else let t' = fill flow_cache_sz t in
          record t' { flows_cpt = (t'.flows_cpt + flow_cache_sz) % 2 ^ 64 }

    unfoldable pub pop_cached : List ℕ → Table → Table × Option ℕ
    pop_cached [] t = (t, none)
    pop_cached (f ∷ fs) t = (record t { cache = fs }, some f)

    unfoldable pub fill_if_empty : List ℕ → Table → Table
    unfolding flow_entry_cache_fill
    fill_if_empty [] t = flow_entry_cache_fill t
    fill_if_empty (f ∷ fs) t = t

    unfoldable pub flow_entry_alloc : Table → Table × Option ℕ
    unfolding pop_cached fill_if_empty
    flow_entry_alloc t = let t' = fill_if_empty t.cache t in pop_cached t'.cache t'

  -- The indices that `pool_put_index` gives back.
  unfoldable pub without_all : List ℕ → List ℕ → List ℕ
  unfolding without
  without_all [] pool = pool
  without_all (f ∷ fs) pool = without_all fs (without f pool)

  -- The loop runs from `vec_len - 1` down to `FLOW_CACHE_SZ + 1`.
  unfoldable pub flow_entry_cache_empty : Table → Table
  unfolding without_all
  flow_entry_cache_empty t =
      let n = length t.cache - 1 - flow_cache_sz in
      record t {
        pool = without_all (take n t.cache) t.pool;
        cache = drop n t.cache;
        flows_cpt = (t.flows_cpt + 2 ^ 64 - flow_cache_sz) % 2 ^ 64;
      }

  unfoldable pub flow_entry_free : ℕ → Table → Table
  unfolding flow_entry_cache_empty
  flow_entry_free f t =
      let t' = record t { cache = f ∷ t.cache } in
      if ltb (2 * flow_cache_sz) (length t'.cache) then flow_entry_cache_empty t' else t'

  unfoldable pub flowtable_lifetime_calculate : Table → Key → ℕ
  flowtable_lifetime_calculate t key =
      if proto key == 1
      then t.lifetimes icmp
      else if proto key == 17
      then t.lifetimes udp
      else if proto key == 6
      then t.lifetimes tcp
      else if is_ip4 key
      then t.lifetimes ipv4
      else t.lifetimes ipv6

  unfoldable pub timer_wheel_index_update : ℕ → Table → Table
  timer_wheel_index_update now t = record t { time_index = now % t.max_lifetime }

  -- `flowtable_lifetime_update`, for a type that there is; the result says whether it is accepted.
  unfoldable pub flowtable_lifetime_update :
      (Timeout → Timeout → Bool) → Timeout → ℕ → Table → Table × Bool
  flowtable_lifetime_update eq type value t =
      if ltb t.max_lifetime value
      then (t, false)
      else (record t { lifetimes = λ x. if eq x type then value else t.lifetimes x }, true)
