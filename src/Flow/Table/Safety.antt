-- ===== src/Flow/Table/Safety.antt =====
-- Which flows `flowtable_timer_expire` of upf/flowtable.c leaves alone, and how many it handles.
use upg_vpp_tr.Base.{
  ℕ, ◌%◌, ◌≤◌, ◌<◌, ◌≡◌, refl, sym, ◌∙◌, ap, Bool, true, false, ◌==◌, ltb, arith, Bool-cases, inl,
  inr, some, ==_iff,
}
use native.Mathlib.Nat.{mod-lt}
use upg_vpp_tr.Flow.Tcp
use upg_vpp_tr.Flow.Table
use upg_vpp_tr.Flow.Table.Lists.{contains_relinked}
use upg_vpp_tr.Flow.Table.Expire
use upg_vpp_tr.Flow.Table.Walk
use upg_vpp_tr.Flow.Table.Walk.{expire-wheel_other}
use upg_vpp_tr.Flow.Table.Keep
use upg_vpp_tr.Flow.Table.Invariant.{Inv}

module _ (k : Table.Keys) (hook : Table.Entry k → Bool) where
  open k use {Key}

  -- The flow of index `g` is `e`, known under its key and linked in a slot.
  pub record Held (g : ℕ) (e : Table.Entry k) (t : Table.Table k) : Type 0 where
    pub entry : t.entries g ≡ e
    pub known : t.ht e.key ≡ some g
    pub linked : (s : ℕ) × (Tcp.contains g (t.wheel s) ≡ true)

  reschedule-linked :
      (e : Table.Entry k) (g : ℕ) (t : Table.Table k)
      → (s : ℕ) × (Tcp.contains g (t.wheel s) ≡ true)
      → (s : ℕ) × (Tcp.contains g ((Expire.reschedule k hook e g t).0.wheel s) ≡ true)
  unfolding Expire.reschedule
  reschedule-linked e g t (s, i) =
      let head = Expire.deadline k hook e % t.max_lifetime in
      elim (Bool-cases (head == e.timer_index)) [
        | inl b ↦ rw b (s, i)
        | inr b ↦ rw b (head, ground (arith, contains_relinked k t.wheel g g head head))
      ]

  reschedule-entries :
      (e : Table.Entry k) (f : ℕ) (t : Table.Table k)
      → (Expire.reschedule k hook e f t).0.entries ≡ t.entries
  unfolding Expire.reschedule
  reschedule-entries e f t = ground arith

  freed-entries : (f : ℕ) (t : Table.Table k) → (Table.flow_entry_free k f t).entries ≡ t.entries
  unfolding Table.flow_entry_free Table.flow_entry_cache_empty
  freed-entries f t = ground arith

  remove_flow-entries :
      (e : Table.Entry k) (f : ℕ) (t : Table.Table k)
      → (Expire.remove_flow k hook e f t).entries ≡ t.entries
  unfolding Expire.remove_flow
  remove_flow-entries e f t = freed-entries f _

  set_entry_other :
      (es : ℕ → Table.Entry k) (f g : ℕ) (e : Table.Entry k)
      → (g == f) ≡ false
      → Table.set_entry k es f e g ≡ es g
  unfolding Table.set_entry
  set_entry_other es f g e ne = rw ne refl

  expire-entry :
      (now f g : ℕ) (t : Table.Table k)
      → (g == f) ≡ false
      → (Expire.expire_single_flow k hook now f t).0.entries g ≡ t.entries g
  unfolding Expire.expire_single_flow
  expire-entry now f g t ne =
      let e = t.entries f in
      let late = Expire.postpone k hook e in
      elim (Bool-cases (ltb now (Expire.deadline k hook e))) [
        | inl b ↦ rw b (ap (λ es. es g) (reschedule-entries e f t))
        | inr b ↦ elim (Bool-cases (hook e)) [
          | inl c ↦
              rw (b, c)
                (ap (λ es. es g) (reschedule-entries late f _)
                  ∙ set_entry_other t.entries f g late ne)
          | inr c ↦ rw (b, c) (ap (λ es. es g) (remove_flow-entries e f t))
        ]
      ]

  expire-ht_other :
      (now f g : ℕ) (key : Key) (t : Table.Table k)
      → (g == f) ≡ false
      → t.ht (t.entries f).key ≡ some f
      → t.ht key ≡ some g
      → (Expire.expire_single_flow k hook now f t).0.ht key ≡ some g
  unfolding Expire.expire_single_flow
  expire-ht_other now f g key t ne hf hg =
      let e = t.entries f in
      elim (Bool-cases (ltb now (Expire.deadline k hook e))) [
        | inl b ↦ rw b (ap (λ o. o key) (Keep.reschedule-ht k hook e f t) ∙ hg)
        | inr b ↦ elim (Bool-cases (hook e)) [
          | inl c ↦
              rw (b, c)
                (ap (λ o. o key) (Keep.reschedule-ht k hook (Expire.postpone k hook e) f _) ∙ hg)
          | inr c ↦
              rw (b, c)
                (ap (λ o. o key) (Keep.remove_flow-ht k hook e f t)
                  ∙ Keep.set_key_other k t.ht e.key key f g hf hg ne)
        ]
      ]

  -- Another flow is not touched.
  expire-Held_other :
      (now s f g : ℕ) (e : Table.Entry k) (t : Table.Table k)
      → (g == f) ≡ false
      → Tcp.contains f (t.wheel s) ≡ true
      → Inv k t
      → Held g e t
      → Held g e (Expire.expire_single_flow k hook now f t).0
  expire-Held_other now s f g e t ne i v h = record {
    entry = expire-entry now f g t ne ∙ h.entry;
    known = expire-ht_other now f g e.key t ne (v.known s f i) h.known;
    linked = (h.linked.0, expire-wheel_other k hook now f g h.linked.0 t ne ∙ h.linked.1);
  }

  -- A flow that is not due is at most linked elsewhere.
  expire-Held_self :
      (now g : ℕ) (e : Table.Entry k) (t : Table.Table k)
      → now < Expire.deadline k hook e
      → Held g e t
      → Held g e (Expire.expire_single_flow k hook now g t).0
  unfolding Expire.expire_single_flow
  expire-Held_self now g e t early h =
      let e' = t.entries g in
      let b : ltb now (Expire.deadline k hook e') ≡ true =
        ap (λ x. ltb now (Expire.deadline k hook x)) h.entry ∙ ground arith in
      rw b (record {
        entry = ap (λ es. es g) (reschedule-entries e' g t) ∙ h.entry;
        known = ap (λ o. o e.key) (Keep.reschedule-ht k hook e' g t) ∙ h.known;
        linked = reschedule-linked e' g t h.linked;
      })

  expire-Held :
      (now s f g : ℕ) (e : Table.Entry k) (t : Table.Table k)
      → now < Expire.deadline k hook e
      → Tcp.contains f (t.wheel s) ≡ true
      → Inv k t
      → Held g e t
      → Held g e (Expire.expire_single_flow k hook now f t).0
  expire-Held now s f g e t early i v h = elim (Bool-cases (g == f)) [
    | inl b ↦ rw (sym ((==_iff g f).0 b)) (expire-Held_self now g e t early h)
    | inr b ↦ expire-Held_other now s f g e t b i v h
  ]

  -- A flow whose lifetime is not over stays as it is when the timers are checked: its entry, its key in
  -- the hash table and a link in the wheel, whatever else is expired and whatever the hook answers.
  pub flowtable_timer_expire-Held :
      (now g : ℕ) (e : Table.Entry k) (t : Table.Table k)
      → Inv k t
      → Held g e t
      → now < Expire.deadline k hook e
      → Held g e (Expire.flowtable_timer_expire k hook now t).0
  flowtable_timer_expire-Held now g e t v h early =
      (Walk.flowtable_timer_expire-Kept k hook (λ t'. Inv k t' × Held g e t') now
        (record {
          step = λ s f t' i q.
              (Keep.expire-Inv k hook now s f t' i q.0, expire-Held now s f g e t' early i q.0 q.1);
          once = λ s t' q. q.0.once s;
          checked = λ c t' q. (
            (Keep.Inv-Kept k hook now).checked c t' q.0,
            record { entry = q.1.entry; known = q.1.known; linked = q.1.linked },
          );
        })
        t (v, h)).1

  -- The timer elements of the flows follow the heads of the slots, so that a flow that is looked at
  -- always counts: it is linked anew even in the slot where it is.
  pub expire_single_flow-counts :
      (now f : ℕ) (t : Table.Table k)
      → 0 < t.max_lifetime
      → t.max_lifetime ≤ (t.entries f).timer_index
      → (Expire.expire_single_flow k hook now f t).1 ≡ true
  unfolding Expire.expire_single_flow Expire.reschedule Expire.postpone
  expire_single_flow-counts now f t pos above =
      let e = t.entries f in
      ground (
        arith,
        mod-lt (Expire.deadline k hook e) pos,
        mod-lt (Expire.deadline k hook (Expire.postpone k hook e)) pos,
      )
