-- ===== src/Runs/FlowTable.antt =====
-- The theorems on the flow table of a worker at a concrete table, over keys and pools of its own.
use upg_vpp_tr.Base.{
  ℕ, suc, ◌+◌, ◌≤◌, ◌≡◌, refl, ==_iff, arith, true, false, ◌==◌, Bool, List, ◌∷◌, [], none, some,
  if◌then◌else◌, Bool-cases, inl, inr,
}
use upg_vpp_tr.Flow.Tcp.{contains}
use upg_vpp_tr.Flow.Table
use upg_vpp_tr.Flow.Table.Lists.{distinct}
use upg_vpp_tr.Flow.Table.Expire
use upg_vpp_tr.Flow.Table.Create
use upg_vpp_tr.Flow.Table.Walk.{Returned}
use upg_vpp_tr.Flow.Table.Invariant.{Inv}
use upg_vpp_tr.Flow.Table.Safety.{Held, flowtable_timer_expire-Held}
use upg_vpp_tr.Flow.Table.Answer.{Answer, lookup_create-Answer}
use upg_vpp_tr.Flow.Table.Cache.{Accounts, flow_entry_free-Accounts}
use upg_vpp_tr.Flow.Table.Recycle.{lookup_create-recycle}

abbrev keys : Table.Keys
keys = record {
  Key = ℕ;
  same = λ a b. a == b;
  same_iff = ==_iff;
  proto = λ q. 17;
  is_ip4 = λ q. true;
}

unfoldable next_index : List ℕ → ℕ
next_index [] = 0
next_index (x ∷ xs) = suc x + next_index xs

above_all : (n : ℕ) (xs : List ℕ) → next_index xs ≤ n → contains n xs ≡ false
unfolding next_index contains
above_all n [] le = refl
above_all n (x ∷ xs) le = ground (arith, above_all n xs (omega (arith, le)))

abbrev pools : Table.Pools
pools = record {
  new_flow = next_index;
  new_timer = λ used. 600 + next_index used;
  new_flow-free = λ used. above_all (next_index used) used (omega arith);
  new_timer-above = λ used. omega arith;
}

-- The hook keeps no flow.
abbrev hook : Table.Entry keys → Bool
hook e = false

abbrev a_flow : Table.Entry keys
a_flow = record {
  key = 11;
  is_reverse = false;
  is_spliced = false;
  spliced_dirty = false;
  active = 10;
  lifetime = 60;
  timer_index = 600;
  application_id = none;
  ps_index = none;
  sides = (Table.new_side, Table.new_side);
  generation = 0;
}

-- Flow 7 in slot 70, with the entries 8 and 9 cached.
abbrev a_table : Table.Table keys
a_table = record {
  flows_max = 1000;
  flows_cpt = 3;
  pool = 7 ∷ 8 ∷ 9 ∷ [];
  cache = 8 ∷ 9 ∷ [];
  entries = λ f. a_flow;
  ht = λ q. if q == 11 then some 7 else none;
  wheel = λ s. if s == 70 then 7 ∷ [] else [];
  timers = 600 ∷ [];
  time_index = 10;
  next_check = some 11;
  max_lifetime = 600;
  lifetimes = λ x. 60;
  flow_counter = 1;
  stitched_counter = 0;
  dirty_counter = 0;
}

one_slot : (s f : ℕ) → contains f (if s == 70 then 7 ∷ [] else []) ≡ true → f ≡ 7
unfolding contains
one_slot s f c = ground arith

seven_known : (f : ℕ) → f ≡ 7 → some 7 ≡ some f
seven_known f e = ground arith

seven_apart : (f : ℕ) → f ≡ 7 → contains f (8 ∷ 9 ∷ []) ≡ false
unfolding contains
seven_apart f e = ground arith

seven_busy : (f : ℕ) → f ≡ 7 → contains f (7 ∷ 8 ∷ 9 ∷ []) ≡ true
unfolding contains
seven_busy f e = ground arith

cached_busy : (f : ℕ) → contains f (8 ∷ 9 ∷ []) ≡ true → contains f (7 ∷ 8 ∷ 9 ∷ []) ≡ true
unfolding contains
cached_busy f c = ground arith

one_distinct : (s : ℕ) → distinct (if s == 70 then 7 ∷ [] else []) ≡ true
unfolding distinct
one_distinct s = elim (Bool-cases (s == 70)) [ inl e ↦ rw e refl | inr e ↦ rw e refl ]

a_table-Inv : Inv keys a_table
unfolding distinct
a_table-Inv = record {
  known = λ s f c. seven_known f (one_slot s f c);
  once = one_distinct;
  apart = λ s f c. seven_apart f (one_slot s f c);
  busy = λ s f c. seven_busy f (one_slot s f c);
  cached = cached_busy;
  single = refl;
}

a_flow-Held : Held keys hook 7 a_flow a_table
unfolding contains
a_flow-Held = record { entry = refl; known = refl; linked = (70, refl) }

flowtable_timer_expire-Held_example :
    Held keys hook 7 a_flow (Expire.flowtable_timer_expire keys hook 20 a_table).0
unfolding Expire.deadline
flowtable_timer_expire-Held_example =
    flowtable_timer_expire-Held keys hook 20 7 a_flow a_table a_table-Inv a_flow-Held (omega arith)

lookup_create-Answer_example :
    Returned
      (Answer keys pools hook 12)
      (Create.flowtable_entry_lookup_create keys pools hook 0 12 20 false 1 a_table)
lookup_create-Answer_example =
    lookup_create-Answer keys pools hook 0 12 20 false 1 a_table a_table-Inv

flow_entry_free-Accounts_example : Accounts keys pools 0 (Table.flow_entry_free keys 7 a_table)
flow_entry_free-Accounts_example =
    flow_entry_free-Accounts keys pools 0 7 a_table
      (record { total = refl; small = omega arith; limit = omega arith; width = omega arith })

-- No entry is cached, and more than `flows_max` are allocated.
abbrev a_full_table : Table.Table keys
a_full_table = record a_table { flows_max = 2; cache = [] }

lookup_create-recycle_example :
    Create.flowtable_entry_lookup_create keys pools hook 1000 12 700 false 1 a_full_table ≡ none
lookup_create-recycle_example =
    lookup_create-recycle keys hook pools 1000 12 700 false 1 a_full_table refl refl (omega arith)
      (omega arith) (omega arith)
