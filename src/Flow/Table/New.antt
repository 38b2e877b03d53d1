-- ===== src/Flow/Table/New.antt =====
-- What the allocation of an entry in upf/flowtable.c keeps.
use upg_vpp_tr.Base.{
  ℕ, zero, suc, ◌≡◌, sym, ◌∙◌, ap, true, false, ◌==◌, ltb, List, [], ◌∷◌, arith, Bool-cases, inl,
  inr, Option, none, some, ==_iff, refl,
}
use upg_vpp_tr.Flow.Tcp
use upg_vpp_tr.Flow.Table
use upg_vpp_tr.Flow.Table.Lists.{distinct}
use upg_vpp_tr.Flow.Table.Invariant.{Inv}

module _ (k : Table.Keys) (p : Table.Pools) where
  open k use {Key, same, same_iff}
  open p use {new_flow, new_flow-free}

  fill-Inv : (n : ℕ) (t : Table.Table k) → Inv k t → Inv k (Table.fill k p n t)
  unfolding Table.fill Tcp.contains distinct
  fill-Inv zero t v = v
  fill-Inv (suc n) t v =
      let f = new_flow t.pool in
      let free : Tcp.contains f t.pool ≡ false = new_flow-free t.pool in
      let renamed : (g : ℕ) (l : List ℕ) → (g == f) ≡ true → Tcp.contains g l ≡ Tcp.contains f l =
        λ g l e. ap (λ x. Tcp.contains x l) ((==_iff g f).0 e) in
      fill-Inv n _ (record {
        known = v.known;
        once = v.once;
        apart = λ s g c. elim (Bool-cases (g == f)) [
          | inl e ↦ ground (arith, free, v.busy s g c, renamed g t.pool e)
          | inr e ↦ ground (arith, v.apart s g c)
        ];
        busy = λ s g c. ground (arith, v.busy s g c);
        cached = λ g c. elim (Bool-cases (g == f)) [
          | inl e ↦ ground arith
          | inr e ↦ ground (arith, v.cached g (ground arith))
        ];
        single = elim (Bool-cases (Tcp.contains f t.cache)) [
          | inl e ↦ ground (arith, v.cached f e, free)
          | inr e ↦ ground (arith, v.single)
        ];
      })

  fill-ht : (n : ℕ) (t : Table.Table k) → (Table.fill k p n t).ht ≡ t.ht
  unfolding Table.fill
  fill-ht zero t = refl
  fill-ht (suc n) t = fill-ht n _

  cache_fill-ht : (t : Table.Table k) → (Table.flow_entry_cache_fill k p t).ht ≡ t.ht
  unfolding Table.flow_entry_cache_fill
  cache_fill-ht t = elim (Bool-cases (ltb t.flows_max t.flows_cpt)) [
    | inl e ↦ rw e refl
    | inr e ↦ rw e (fill-ht Table.flow_cache_sz t)
  ]

  cache_fill-Inv : (t : Table.Table k) → Inv k t → Inv k (Table.flow_entry_cache_fill k p t)
  unfolding Table.flow_entry_cache_fill
  cache_fill-Inv t v = elim (Bool-cases (ltb t.flows_max t.flows_cpt)) [
    | inl e ↦ rw e v
    | inr e ↦
        let v' : Inv k (Table.fill k p Table.flow_cache_sz t) = fill-Inv Table.flow_cache_sz t v in
        rw e (record {
          known = v'.known;
          once = v'.once;
          apart = v'.apart;
          busy = v'.busy;
          cached = v'.cached;
          single = v'.single;
        })
  ]

  fill_if_empty-Inv :
      (c : List ℕ) (t : Table.Table k) → Inv k t → Inv k (Table.fill_if_empty k p c t)
  unfolding Table.fill_if_empty
  fill_if_empty-Inv [] t v = cache_fill-Inv t v
  fill_if_empty-Inv (f ∷ c) t v = v

  fill_if_empty-ht : (c : List ℕ) (t : Table.Table k) → (Table.fill_if_empty k p c t).ht ≡ t.ht
  unfolding Table.fill_if_empty
  fill_if_empty-ht [] t = cache_fill-ht t
  fill_if_empty-ht (f ∷ c) t = refl

  -- An index that no slot and no cache has, in a table whose hash table is `ht`.
  pub record Ready (ht : Key → Option ℕ) (t : Table.Table k) (f : ℕ) : Type 0 where
    pub inv : Inv k t
    pub same_ht : t.ht ≡ ht
    pub out : (s : ℕ) → Tcp.contains f (t.wheel s) ≡ false
    pub new : Tcp.contains f t.cache ≡ false
    pub taken : Tcp.contains f t.pool ≡ true

  -- An allocation keeps the invariant and the hash table, and what it gives is free.
  unfoldable pub Allocated : (Key → Option ℕ) → Table.Table k × Option ℕ → Type 0
  Allocated ht (t, none) = Inv k t × (t.ht ≡ ht)
  Allocated ht (t, some f) = Ready ht t f

  pop-Allocated :
      (c : List ℕ) (ht : Key → Option ℕ) (t : Table.Table k)
      → t.cache ≡ c
      → t.ht ≡ ht
      → Inv k t
      → Allocated ht (Table.pop_cached k p c t)
  unfolding Table.pop_cached Allocated Tcp.contains distinct
  pop-Allocated [] ht t e h v = (v, h)
  pop-Allocated (f ∷ c) ht t e h v =
      let first : Tcp.contains f t.cache ≡ true = rw e (ground arith) in
      let d : distinct (f ∷ c) ≡ true = ap distinct (sym e) ∙ v.single in
      let more : (g : ℕ) → Tcp.contains g c ≡ true → Tcp.contains g t.cache ≡ true =
        λ g i. rw e (ground arith) in
      record {
        inv = record {
          known = v.known;
          once = v.once;
          apart = λ s g i. ground (arith, v.apart s g i, ap (Tcp.contains g) e);
          busy = v.busy;
          cached = λ g i. v.cached g (more g i);
          single = ground arith;
        };
        same_ht = h;
        out = λ s. elim (Bool-cases (Tcp.contains f (t.wheel s))) [
          | inl i ↦ ground (arith, v.apart s f i)
          | inr i ↦ i
        ];
        new = ground arith;
        taken = v.cached f first;
      }

  pub alloc-Allocated :
      (t : Table.Table k) → Inv k t → Allocated t.ht (Table.flow_entry_alloc k p t)
  unfolding Table.flow_entry_alloc
  alloc-Allocated t v =
      pop-Allocated _ t.ht _ refl (fill_if_empty-ht t.cache t) (fill_if_empty-Inv t.cache t v)
