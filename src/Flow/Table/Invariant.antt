-- ===== src/Flow/Table/Invariant.antt =====
-- What holds of every flow table that upf/flowtable.c keeps.
use upg_vpp_tr.Base.{
  ℕ, ◌-◌, ◌*◌, ◌≡◌, sym, ◌∙◌, ap, true, false, ◌==◌, ltb, List, ◌∷◌, arith, Bool-cases, inl, inr,
  some, take, drop, length, ==_iff,
}
use upg_vpp_tr.Flow.Tcp
use upg_vpp_tr.Flow.Table
use upg_vpp_tr.Flow.Table.Lists.{
  distinct, contains_relinked, distinct_relinked, contains_split, distinct-drop, distinct_apart,
  contains-without_all,
}

module _ (k : Table.Keys) where
  open k use {Key, same, same_iff}

  -- Every flow of the wheel is the one that the hash table has under its key, stands in its slot once,
  -- and is an index in use that is not cached; the cached ones are in the pool, once each.
  pub record Inv (t : Table.Table k) : Type 0 where
    pub known : (s f : ℕ) → Tcp.contains f (t.wheel s) ≡ true → t.ht (t.entries f).key ≡ some f
    pub once : (s : ℕ) → distinct (t.wheel s) ≡ true
    pub apart : (s f : ℕ) → Tcp.contains f (t.wheel s) ≡ true → Tcp.contains f t.cache ≡ false
    pub busy : (s f : ℕ) → Tcp.contains f (t.wheel s) ≡ true → Tcp.contains f t.pool ≡ true
    pub cached : (f : ℕ) → Tcp.contains f t.cache ≡ true → Tcp.contains f t.pool ≡ true
    pub single : distinct t.cache ≡ true

  -- The same table but for what the invariant does not read.
  pub record Same (t t' : Table.Table k) : Type 0 where
    pub keys : (f : ℕ) → (t'.entries f).key ≡ (t.entries f).key
    pub hts : t'.ht ≡ t.ht
    pub caches : t'.cache ≡ t.cache
    pub pools : t'.pool ≡ t.pool

  came :
      (wheel : ℕ → List ℕ) (f head s x g : ℕ)
      → Tcp.contains f (wheel s) ≡ true
      → Tcp.contains g (Table.addtail k (Table.unlink k wheel f) head f x) ≡ true
      → (y : ℕ) × (Tcp.contains g (wheel y) ≡ true)
  came wheel f head s x g i c = elim (Bool-cases (g == f)) [
    | inl e ↦ (s, ap (λ n. Tcp.contains n (wheel s)) ((==_iff g f).0 e) ∙ i)
    | inr e ↦ (x, ground (arith, contains_relinked k wheel f g head x))
  ]

  -- A flow that is linked elsewhere.
  pub relinked-Inv :
      (t t' : Table.Table k) (f head s : ℕ)
      → Same t t'
      → t'.wheel ≡ Table.addtail k (Table.unlink k t.wheel f) head f
      → Tcp.contains f (t.wheel s) ≡ true
      → Inv t
      → Inv t'
  relinked-Inv t t' f head s u w i v =
      let from : (x g : ℕ)
          → Tcp.contains g (t'.wheel x) ≡ true
          → (y : ℕ) × (Tcp.contains g (t.wheel y) ≡ true) =
        λ x g c. came t.wheel f head s x g i (sym (ap (λ o. Tcp.contains g (o x)) w) ∙ c) in
      record {
        known = λ x g c. rw (u.keys, u.hts) (v.known (from x g c).0 g (from x g c).1);
        once = λ x. ap (λ o. distinct (o x)) w ∙ distinct_relinked k t.wheel f head x (v.once x);
        apart = λ x g c. rw (u.caches) (v.apart (from x g c).0 g (from x g c).1);
        busy = λ x g c. rw (u.pools) (v.busy (from x g c).0 g (from x g c).1);
        cached = rw (u.caches, u.pools) v.cached;
        single = rw (u.caches) v.single;
      }

  -- A table whose wheel holds no more.
  pub shrunk-Inv :
      (t t' : Table.Table k)
      → Same t t'
      → ((x g : ℕ) → Tcp.contains g (t'.wheel x) ≡ true → Tcp.contains g (t.wheel x) ≡ true)
      → ((x : ℕ) → distinct (t'.wheel x) ≡ true)
      → Inv t
      → Inv t'
  shrunk-Inv t t' u w d v = record {
    known = λ x g c. rw (u.keys, u.hts) (v.known x g (w x g c));
    once = d;
    apart = λ x g c. rw (u.caches) (v.apart x g (w x g c));
    busy = λ x g c. rw (u.pools) (v.busy x g (w x g c));
    cached = rw (u.caches, u.pools) v.cached;
    single = rw (u.caches) v.single;
  }

  cache_empty-Inv : (t : Table.Table k) → Inv t → Inv (Table.flow_entry_cache_empty k t)
  unfolding Table.flow_entry_cache_empty
  cache_empty-Inv t v =
      let n = length t.cache - 1 - Table.flow_cache_sz in
      let dropped : (f : ℕ)
          → Tcp.contains f (drop n t.cache) ≡ true
          → Tcp.contains f t.cache ≡ true =
        λ f c. ground (arith, contains_split n f t.cache) in
      record {
        known = v.known;
        once = v.once;
        apart = λ s f c. ground (arith, v.apart s f c, contains_split n f t.cache);
        busy = λ s f c. ground (
          arith,
          v.apart s f c,
          v.busy s f c,
          contains_split n f t.cache,
          contains-without_all k f (take n t.cache) t.pool,
        );
        cached = λ f c. ground (
          arith,
          v.cached f (dropped f c),
          distinct_apart n f t.cache v.single c,
          contains-without_all k f (take n t.cache) t.pool,
        );
        single = distinct-drop n t.cache v.single;
      }

  -- A flow of no slot and no cache goes back to the cache.
  pub freed-Inv :
      (f : ℕ) (t : Table.Table k)
      → ((s : ℕ) → Tcp.contains f (t.wheel s) ≡ false)
      → Tcp.contains f t.cache ≡ false
      → Tcp.contains f t.pool ≡ true
      → Inv t
      → Inv (Table.flow_entry_free k f t)
  unfolding Table.flow_entry_free Tcp.contains distinct
  freed-Inv f t out new use' v =
      let v' : Inv (record t { cache = f ∷ t.cache }) = record {
        known = v.known;
        once = v.once;
        apart = λ s g c. elim (Bool-cases (g == f)) [
          | inl e ↦ ground (arith, out s, ap (λ n. Tcp.contains n (t.wheel s)) ((==_iff g f).0 e))
          | inr e ↦ ground (arith, v.apart s g c)
        ];
        busy = v.busy;
        cached = λ g c. elim (Bool-cases (g == f)) [
          | inl e ↦ ap (λ n. Tcp.contains n t.pool) ((==_iff g f).0 e) ∙ use'
          | inr e ↦ v.cached g (ground arith)
        ];
        single = ground (arith, new, v.single);
      } in
      elim (Bool-cases (ltb (2 * Table.flow_cache_sz) (length (f ∷ t.cache)))) [
        | inl e ↦ rw e (cache_empty-Inv _ v')
        | inr e ↦ rw e v'
      ]
