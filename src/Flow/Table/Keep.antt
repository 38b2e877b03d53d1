-- ===== src/Flow/Table/Keep.antt =====
-- The walks of upf/flowtable.c over the timer wheel keep the table's invariant.
use upg_vpp_tr.Base.{
  ℕ, ◌%◌, ◌≡◌, sym, ◌∙◌, ap, Bool, true, false, ◌==◌, ltb, arith, Bool-cases, inl, inr, Option,
  none, some, ==_iff, refl,
}
use upg_vpp_tr.Flow.Tcp
use upg_vpp_tr.Flow.Tcp.Laws.{contains-without}
use upg_vpp_tr.Flow.Table
use upg_vpp_tr.Flow.Table.Lists.{distinct-without}
use upg_vpp_tr.Flow.Table.Expire
use upg_vpp_tr.Flow.Table.Walk
use upg_vpp_tr.Flow.Table.Invariant.{Inv, relinked-Inv, shrunk-Inv, freed-Inv}

module _ (k : Table.Keys) where
  open k use {Key, same, same_iff}

  -- Another flow is still found under its key when the key of `f` is taken out.
  pub set_key_other :
      (ht : Key → Option ℕ) (a b : Key) (f g : ℕ)
      → ht a ≡ some f
      → ht b ≡ some g
      → (g == f) ≡ false
      → Table.set_key k ht a none b ≡ some g
  unfolding Table.set_key
  set_key_other ht a b f g ea eb ne = elim (Bool-cases (same b a)) [
    | inl e ↦ ground (arith, ap ht ((same_iff b a).0 e))
    | inr e ↦ rw e eb
  ]

  set_entry-key :
      (es : ℕ → Table.Entry k) (f g : ℕ) (e : Table.Entry k)
      → e.key ≡ (es f).key
      → (Table.set_entry k es f e g).key ≡ (es g).key
  unfolding Table.set_entry
  set_entry-key es f g e h = elim (Bool-cases (g == f)) [
    | inl b ↦ rw b (h ∙ sym (ap (λ n. (es n).key) ((==_iff g f).0 b)))
    | inr b ↦ rw b refl
  ]

  module _ (hook : Table.Entry k → Bool) where
    reschedule-Inv :
        (e : Table.Entry k) (f s : ℕ) (t : Table.Table k)
        → Tcp.contains f (t.wheel s) ≡ true
        → Inv k t
        → Inv k (Expire.reschedule k hook e f t).0
    unfolding Expire.reschedule
    reschedule-Inv e f s t i v =
        let head = Expire.deadline k hook e % t.max_lifetime in
        elim (Bool-cases (head == e.timer_index)) [
          | inl b ↦ rw b v
          | inr b ↦ rw b (
              relinked-Inv k t _ f head s
                (record { keys = λ g. refl; hts = refl; caches = refl; pools = refl }) refl i v)
        ]

    remove-Inv :
        (f s : ℕ) (t : Table.Table k)
        → Tcp.contains f (t.wheel s) ≡ true
        → Inv k t
        → Inv k (Expire.remove_flow k hook (t.entries f) f t)
    unfolding Expire.remove_flow Table.unlink
    remove-Inv f s t i v =
        let stays : (x g : ℕ)
            → Tcp.contains g (Tcp.without f (t.wheel x)) ≡ true
            → Tcp.contains g (t.wheel x) ≡ true =
          λ x g c. ground (arith, contains-without g f (t.wheel x)) in
        freed-Inv k f _ (λ x. ground (arith, contains-without f f (t.wheel x))) (v.apart s f i)
          (v.busy s f i)
          (record {
            known = λ x g c.
                set_key_other t.ht (t.entries f).key (t.entries g).key f g (v.known s f i)
                  (v.known x g (stays x g c)) (ground (arith, contains-without g f (t.wheel x)));
            once = λ x. distinct-without f (t.wheel x) (v.once x);
            apart = λ x g c. v.apart x g (stays x g c);
            busy = λ x g c. v.busy x g (stays x g c);
            cached = v.cached;
            single = v.single;
          })

    postponed-Inv :
        (f : ℕ) (t : Table.Table k)
        → Inv k t
        → Inv k (record t {
          entries = Table.set_entry k t.entries f (Expire.postpone k hook (t.entries f));
        })
    unfolding Table.set_entry Expire.postpone
    postponed-Inv f t v =
        shrunk-Inv k t _
          (record {
            keys = λ g. set_entry-key t.entries f g (Expire.postpone k hook (t.entries f)) refl;
            hts = refl;
            caches = refl;
            pools = refl;
          })
          (λ x g c. c) v.once v

    pub expire-Inv :
        (now s f : ℕ) (t : Table.Table k)
        → Tcp.contains f (t.wheel s) ≡ true
        → Inv k t
        → Inv k (Expire.expire_single_flow k hook now f t).0
    unfolding Expire.expire_single_flow
    expire-Inv now s f t i v =
        let e = t.entries f in
        elim (Bool-cases (ltb now (Expire.deadline k hook e))) [
          | inl b ↦ rw b (reschedule-Inv e f s t i v)
          | inr b ↦ elim (Bool-cases (hook e)) [
            | inl h ↦
                rw (b, h) (reschedule-Inv (Expire.postpone k hook e) f s _ i (postponed-Inv f t v))
            | inr h ↦ rw (b, h) (remove-Inv f s t i v)
          ]
        ]

    pub Inv-Kept : (now : ℕ) → Walk.Kept k hook (Inv k) now
    Inv-Kept now = record {
      step = λ s f t i v. expire-Inv now s f t i v;
      once = λ s t v. v.once s;
      checked = λ c t v. record {
        known = v.known;
        once = v.once;
        apart = v.apart;
        busy = v.busy;
        cached = v.cached;
        single = v.single;
      };
    }

    -- Expiry keeps the invariant, at every time and with every answer of the hook.
    pub flowtable_timer_expire-Inv :
        (now : ℕ) (t : Table.Table k)
        → Inv k t
        → Inv k (Expire.flowtable_timer_expire k hook now t).0
    flowtable_timer_expire-Inv now t v =
        Walk.flowtable_timer_expire-Kept k hook (Inv k) now (Inv-Kept now) t v

    pub freed-ht : (f : ℕ) (t : Table.Table k) → (Table.flow_entry_free k f t).ht ≡ t.ht
    unfolding Table.flow_entry_free Table.flow_entry_cache_empty
    freed-ht f t = ground arith

    pub reschedule-ht :
        (e : Table.Entry k) (f : ℕ) (t : Table.Table k)
        → (Expire.reschedule k hook e f t).0.ht ≡ t.ht
    unfolding Expire.reschedule
    reschedule-ht e f t = ground arith

    pub remove_flow-ht :
        (e : Table.Entry k) (f : ℕ) (t : Table.Table k)
        → (Expire.remove_flow k hook e f t).ht ≡ Table.set_key k t.ht e.key none
    unfolding Expire.remove_flow
    remove_flow-ht e f t = freed-ht f _

    set_key-none :
        (ht : Key → Option ℕ) (a b : Key) → ht b ≡ none → Table.set_key k ht a none b ≡ none
    unfolding Table.set_key
    set_key-none ht a b h = ground (arith, h)

    -- Expiry makes no key known.
    expire-ht_none :
        (now f : ℕ) (key : Key) (t : Table.Table k)
        → t.ht key ≡ none
        → (Expire.expire_single_flow k hook now f t).0.ht key ≡ none
    unfolding Expire.expire_single_flow
    expire-ht_none now f key t h =
        let e = t.entries f in
        elim (Bool-cases (ltb now (Expire.deadline k hook e))) [
          | inl b ↦ rw b (ap (λ o. o key) (reschedule-ht e f t) ∙ h)
          | inr b ↦ elim (Bool-cases (hook e)) [
            | inl c ↦ rw (b, c) (ap (λ o. o key) (reschedule-ht (Expire.postpone k hook e) f _) ∙ h)
            | inr c ↦
                rw (b, c) (ap (λ o. o key) (remove_flow-ht e f t) ∙ set_key-none t.ht e.key key h)
          ]
        ]

    -- A table without the key, that `recycle_flow` gives back, is without it still.
    unfoldable pub Without : Key → Table.Table k → Type 0
    Without key t = Inv k t × (t.ht key ≡ none)

    pub recycle_flow-Without :
        (fuel now : ℕ) (key : Key) (t : Table.Table k)
        → Without key t
        → Walk.Returned (Without key) (Expire.recycle_flow k hook fuel now t)
    unfolding Without
    recycle_flow-Without fuel now key t v =
        Walk.recycle_flow-Kept k hook (Without key) now
          (record {
            step = λ s f t' i q. (expire-Inv now s f t' i q.0, expire-ht_none now f key t' q.1);
            once = λ s t' q. q.0.once s;
            checked = λ c t' q. ((Inv-Kept now).checked c t' q.0, q.1);
          })
          fuel t v
