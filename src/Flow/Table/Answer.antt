-- ===== src/Flow/Table/Answer.antt =====
-- What `flowtable_entry_lookup_create` of upf/flowtable.c keeps: the entry that is made is put into the
-- wheel and under its key.
use upg_vpp_tr.Base.{
  ℕ, ◌+◌, ◌%◌, ◌≡◌, sym, ◌∙◌, ap, Bool, true, false, ◌&&◌, ◌||◌, ◌==◌, List, [], ◌∷◌, arith,
  Bool-cases, inl, inr, Option, none, some, ==_iff, refl,
}
use upg_vpp_tr.Flow.Tcp
use upg_vpp_tr.Flow.Table
use upg_vpp_tr.Flow.Table.Lists.{distinct, distinct_addtail, contains-append}
use upg_vpp_tr.Flow.Table.Create
use upg_vpp_tr.Flow.Table.Walk.{Returned}
use upg_vpp_tr.Flow.Table.Keep
use upg_vpp_tr.Flow.Table.Invariant.{Inv}
use upg_vpp_tr.Flow.Table.New.{Ready, Allocated, alloc-Allocated}

module _ (k : Table.Keys) (p : Table.Pools) (hook : Table.Entry k → Bool) where
  open k use {Key, same, same_iff}

  entered-wheel :
      (wheel : ℕ → List ℕ) (head f s g : ℕ)
      → Tcp.contains g (Table.addtail k wheel head f s)
        ≡ (Tcp.contains g (wheel s) || ((s == head) && (g == f)))
  unfolding Table.addtail Tcp.contains
  entered-wheel wheel head f s g = ground (arith, contains-append g (wheel s) (f ∷ []))

  entered-distinct :
      (wheel : ℕ → List ℕ) (head f s : ℕ)
      → distinct (wheel s) ≡ true
      → Tcp.contains f (wheel s) ≡ false
      → distinct (Table.addtail k wheel head f s) ≡ true
  unfolding Table.addtail
  entered-distinct wheel head f s d o = ground (arith, distinct_addtail f (wheel s) d o)

  -- The flows of the wheel are found under their keys when a new one is entered under its own.
  entered_known :
      (es : ℕ → Table.Entry k) (ht : Key → Option ℕ) (e : Table.Entry k) (f g : ℕ)
      → ht e.key ≡ none
      → ((g == f) ≡ false → ht (es g).key ≡ some g)
      → Table.set_key k ht e.key (some f) (Table.set_entry k es f e g).key ≡ some g
  unfolding Table.set_key Table.set_entry
  entered_known es ht e f g miss old = elim (Bool-cases (g == f)) [
    | inl b ↦ rw (b, (same_iff e.key e.key).1 refl) (ap some (sym ((==_iff g f).0 b)))
    | inr b ↦ elim (Bool-cases (same (es g).key e.key)) [
      | inl c ↦ ground (arith, old b, miss, ap ht ((same_iff (es g).key e.key).0 c))
      | inr c ↦ rw (b, c) (old b)
    ]
  ]

  enter-Inv :
      (key : Key) (now : ℕ) (is_reverse : Bool) (generation f : ℕ) (ht : Key → Option ℕ)
      (t : Table.Table k)
      → ht key ≡ none
      → Ready k p ht t f
      → Inv k (Create.enter k p hook key now is_reverse generation f t)
  unfolding Create.enter Create.timer_wheel_insert_flow
  enter-Inv key now is_reverse generation f ht t miss r =
      let v = r.inv in
      let new = Create.new_entry k p hook key now is_reverse generation t in
      let head = (t.time_index + (Table.set_entry k t.entries f new f).lifetime) % t.max_lifetime in
      let miss' : t.ht key ≡ none = ap (λ h. h key) r.same_ht ∙ miss in
      let same_f : (g : ℕ) (l : List ℕ) → (g == f) ≡ true → Tcp.contains g l ≡ Tcp.contains f l =
        λ g l e. ap (λ x. Tcp.contains x l) ((==_iff g f).0 e) in
      record {
        known = λ s g c.
            entered_known t.entries t.ht new f g miss'
              λ b. v.known s g (ground (arith, entered-wheel t.wheel head f s g));
        once = λ s. entered-distinct t.wheel head f s (v.once s) (r.out s);
        apart = λ s g c. elim (Bool-cases (g == f)) [
          | inl b ↦ same_f g t.cache b ∙ r.new
          | inr b ↦ v.apart s g (ground (arith, entered-wheel t.wheel head f s g))
        ];
        busy = λ s g c. elim (Bool-cases (g == f)) [
          | inl b ↦ same_f g t.pool b ∙ r.taken
          | inr b ↦ v.busy s g (ground (arith, entered-wheel t.wheel head f s g))
        ];
        cached = v.cached;
        single = v.single;
      }

  enter-ht :
      (key : Key) (now : ℕ) (is_reverse : Bool) (generation f : ℕ) (t : Table.Table k)
      → (Create.enter k p hook key now is_reverse generation f t).ht key ≡ some f
  unfolding Create.enter Table.set_key
  enter-ht key now is_reverse generation f t = rw ((same_iff key key).1 refl) refl

  -- The invariant, and under the key the index that is given.
  unfoldable pub Answer : Key → Table.Table k × Option ℕ × Bool → Type 0
  Answer key (t, none, created) = Inv k t
  Answer key (t, some f, created) = Inv k t × (t.ht key ≡ some f)

  retried-Answer :
      (key : Key) (now : ℕ) (is_reverse : Bool) (generation : ℕ) (ht : Key → Option ℕ)
      (r : Table.Table k × Option ℕ)
      → ht key ≡ none
      → Allocated k p ht r
      → Answer key (Create.retried k p hook key now is_reverse generation r)
  unfolding Create.retried Answer Allocated
  retried-Answer key now is_reverse generation ht (t, none) miss a = a.0
  retried-Answer key now is_reverse generation ht (t, some f) miss a = (
    enter-Inv key now is_reverse generation f ht t miss a,
    enter-ht key now is_reverse generation f t,
  )

  recycled-Answer :
      (key : Key) (now : ℕ) (is_reverse : Bool) (generation : ℕ) (o : Option (Table.Table k))
      → Returned (Keep.Without k hook key) o
      → Returned (Answer key) (Create.recycled k p hook key now is_reverse generation o)
  unfolding Create.recycled Returned Keep.Without
  recycled-Answer key now is_reverse generation none q = tt
  recycled-Answer key now is_reverse generation (some t) q =
      retried-Answer key now is_reverse generation t.ht _ q.1 (alloc-Allocated k p t q.0)

  create-Answer :
      (fuel : ℕ) (key : Key) (now : ℕ) (is_reverse : Bool) (generation : ℕ) (ht : Key → Option ℕ)
      (r : Table.Table k × Option ℕ)
      → ht key ≡ none
      → Allocated k p ht r
      → Returned (Answer key) (Create.create k p hook fuel key now is_reverse generation r)
  unfolding Create.create Returned Answer Allocated Keep.Without
  create-Answer fuel key now is_reverse generation ht (t, none) miss a =
      recycled-Answer key now is_reverse generation _
        (Keep.recycle_flow-Without k hook fuel now key t (a.0, ap (λ h. h key) a.1 ∙ miss))
  create-Answer fuel key now is_reverse generation ht (t, some f) miss a = (
    enter-Inv key now is_reverse generation f ht t miss a,
    enter-ht key now is_reverse generation f t,
  )

  found-Answer :
      (fuel : ℕ) (key : Key) (now : ℕ) (is_reverse : Bool) (generation : ℕ) (t : Table.Table k)
      (o : Option ℕ)
      → t.ht key ≡ o
      → Inv k t
      → Returned (Answer key) (Create.found k p hook fuel key now is_reverse generation t o)
  unfolding Create.found Returned Answer
  found-Answer fuel key now is_reverse generation t none miss v =
      create-Answer fuel key now is_reverse generation t.ht _ miss (alloc-Allocated k p t v)
  found-Answer fuel key now is_reverse generation t (some f) hit v = (v, hit)

  -- Whenever a flow is looked up or made, the table's invariant is kept, and the hash table has the
  -- index that is given, if one is, under the key.
  pub lookup_create-Answer :
      (fuel : ℕ) (key : Key) (now : ℕ) (is_reverse : Bool) (generation : ℕ) (t : Table.Table k)
      → Inv k t
      → Returned
          (Answer key)
          (Create.flowtable_entry_lookup_create k p hook fuel key now is_reverse generation t)
  unfolding Create.flowtable_entry_lookup_create
  lookup_create-Answer fuel key now is_reverse generation t v =
      found-Answer fuel key now is_reverse generation t _ refl v
