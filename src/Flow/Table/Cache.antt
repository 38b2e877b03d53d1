-- ===== src/Flow/Table/Cache.antt =====
-- The entries that upf/flowtable.c allocates and caches.
use upg_vpp_tr.Base.{
  ℕ, zero, suc, ◌+◌, ◌-◌, ◌*◌, ◌^◌, ◌≤◌, ◌<◌, ◌≡◌, refl, sym, ◌∙◌, ap, true, false, ltb, List, [],
  ◌∷◌, arith, Bool-cases, inl, inr, Option, none, some, length, length-drop,
}
use upg_vpp_tr.Flow.Table

module _ (k : Table.Keys) (p : Table.Pools) where
  -- With `used` entries handed out: the count of entries is that of the used and the cached, and it is
  -- bounded.
  pub record Accounts (used : ℕ) (t : Table.Table k) : Type 0 where
    pub total : t.flows_cpt ≡ used + length t.cache
    pub small : length t.cache ≤ 512
    pub limit : t.flows_cpt ≤ t.flows_max + 256
    pub width : t.flows_max < 2 ^ 32

  fill-length : (n : ℕ) (t : Table.Table k) → length (Table.fill k p n t).cache ≡ n + length t.cache
  unfolding Table.fill
  fill-length zero t = omega arith
  fill-length (suc n) t = omega (
    arith,
    fill-length n
        (record t { pool = p.new_flow t.pool ∷ t.pool; cache = p.new_flow t.pool ∷ t.cache }),
  )

  fill-cpt : (n : ℕ) (t : Table.Table k) → (Table.fill k p n t).flows_cpt ≡ t.flows_cpt
  unfolding Table.fill
  fill-cpt zero t = refl
  fill-cpt (suc n) t = fill-cpt n _

  fill-max : (n : ℕ) (t : Table.Table k) → (Table.fill k p n t).flows_max ≡ t.flows_max
  unfolding Table.fill
  fill-max zero t = refl
  fill-max (suc n) t = fill-max n _

  cache_fill-Accounts :
      (used : ℕ) (t : Table.Table k)
      → t.cache ≡ []
      → Accounts used t
      → Accounts used (Table.flow_entry_cache_fill k p t)
  unfolding Table.flow_entry_cache_fill
  cache_fill-Accounts used t empty a =
      let n = Table.flow_cache_sz in
      let none_left : length t.cache ≡ 0 = ap length empty in
      elim (Bool-cases (ltb t.flows_max t.flows_cpt)) [
        | inl e ↦ rw e a
        | inr e ↦
            let room : t.flows_cpt ≤ t.flows_max = ground arith in
            rw e (record {
              total = omega (
                arith,
                a.total,
                a.limit,
                a.width,
                room,
                none_left,
                fill-length n t,
                fill-cpt n t,
              );
              small = omega (arith, none_left, fill-length n t);
              limit = omega (arith, a.width, room, fill-cpt n t, fill-max n t);
              width = omega (arith, a.width, fill-max n t);
            })
      ]

  fill_if_empty-Accounts :
      (used : ℕ) (c : List ℕ) (t : Table.Table k)
      → t.cache ≡ c
      → Accounts used t
      → Accounts used (Table.fill_if_empty k p c t)
  unfolding Table.fill_if_empty
  fill_if_empty-Accounts used [] t e a = cache_fill-Accounts used t e a
  fill_if_empty-Accounts used (f ∷ c) t e a = a

  -- An entry handed out is one more in use; none is when the limit is passed.
  unfoldable pub Handed : ℕ → Table.Table k × Option ℕ → Type 0
  Handed used (t, none) = Accounts used t × (t.flows_max < t.flows_cpt)
  Handed used (t, some f) = Accounts (suc used) t

  pop-Handed :
      (used : ℕ) (c : List ℕ) (t : Table.Table k)
      → t.cache ≡ c
      → (c ≡ [] → t.flows_max < t.flows_cpt)
      → Accounts used t
      → Handed used (Table.pop_cached k p c t)
  unfolding Table.pop_cached Handed
  pop-Handed used [] t e h a = (a, h refl)
  pop-Handed used (f ∷ c) t e h a =
      let n : length t.cache ≡ suc (length c) = ap length e in
      record {
        total = omega (arith, a.total, n);
        small = omega (arith, a.small, n);
        limit = a.limit;
        width = a.width;
      }

  cache_fill-length :
      (t : Table.Table k)
      → ltb t.flows_max t.flows_cpt ≡ false
      → length (Table.flow_entry_cache_fill k p t).cache ≡ Table.flow_cache_sz + length t.cache
  unfolding Table.flow_entry_cache_fill
  cache_fill-length t e = rw e (fill-length Table.flow_cache_sz t)

  cache_fill_full :
      (t : Table.Table k)
      → ltb t.flows_max t.flows_cpt ≡ true
      → Table.flow_entry_cache_fill k p t ≡ t
  unfolding Table.flow_entry_cache_fill
  cache_fill_full t e = rw e refl

  Full : Table.Table k → Type 0
  Full t = t.flows_max < t.flows_cpt

  filled_empty :
      (c : List ℕ) (t : Table.Table k)
      → t.cache ≡ c
      → (Table.fill_if_empty k p c t).cache ≡ []
      → Full (Table.fill_if_empty k p c t)
  unfolding Table.fill_if_empty Full
  filled_empty [] t e z = elim (Bool-cases (ltb t.flows_max t.flows_cpt)) [
    | inl b ↦ rw (cache_fill_full t b) (ground arith)
    | inr b ↦
        let n : length (Table.flow_entry_cache_fill k p t).cache ≡ 0 = ap length z in
        omega (arith, n, cache_fill-length t b)
  ]
  filled_empty (f ∷ c) t e z =
      let n : length (f ∷ c) ≡ 0 = ap length (sym e) ∙ ap length z in omega (arith, n)

  -- Handing out an entry keeps the accounts, and fails only when more than `flows_max` are allocated.
  pub flow_entry_alloc-Accounts :
      (used : ℕ) (t : Table.Table k) → Accounts used t → Handed used (Table.flow_entry_alloc k p t)
  unfolding Table.flow_entry_alloc Full
  flow_entry_alloc-Accounts used t a =
      pop-Handed used _ _ refl (filled_empty t.cache t refl)
        (fill_if_empty-Accounts used t.cache t refl a)

  cache_empty-Accounts :
      (used : ℕ) (t : Table.Table k)
      → t.flows_cpt ≡ used + length t.cache
      → length t.cache ≡ 513
      → t.flows_cpt ≤ t.flows_max + 256
      → t.flows_max < 2 ^ 32
      → Accounts used (Table.flow_entry_cache_empty k t)
  unfolding Table.flow_entry_cache_empty
  cache_empty-Accounts used t total full limit width =
      let n = length t.cache - 1 - Table.flow_cache_sz in
      record {
        total = omega (arith, total, full, limit, width, length-drop n t.cache);
        small = omega (arith, full, length-drop n t.cache);
        limit = omega (arith, total, full, limit, width);
        width = width;
      }

  -- Giving an entry back keeps the accounts. Where one entry more than `used` is in use, then after
  -- `flow_entry_free` the count of allocated entries is `used` and the cached ones, at most 512 are
  -- cached, and the count is at most `flows_max` and 256.
  pub flow_entry_free-Accounts :
      (used f : ℕ) (t : Table.Table k)
      → Accounts (suc used) t
      → Accounts used (Table.flow_entry_free k f t)
  unfolding Table.flow_entry_free
  flow_entry_free-Accounts used f t a =
      let t' : Table.Table k = record t { cache = f ∷ t.cache } in
      elim (Bool-cases (ltb (2 * Table.flow_cache_sz) (length (f ∷ t.cache)))) [
        | inl e ↦ rw e (
            cache_empty-Accounts used t' (omega (arith, a.total)) (ground (arith, a.small)) a.limit
              a.width)
        | inr e ↦ rw e (record {
          total = omega (arith, a.total);
          small = ground (arith, a.small);
          limit = a.limit;
          width = a.width;
        })
      ]
