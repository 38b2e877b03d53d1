-- ===== src/Flow/Table/Walk.antt =====
-- What every walk over the timer wheel of upf/flowtable.c keeps: the loops of
-- `flowtable_timer_expire` and `recycle_flow`, each step of which is `expire_single_flow` on a flow
-- of the wheel.
use upg_vpp_tr.Base.{
  ℕ, zero, suc, ◌-◌, ◌%◌, ◌≡◌, refl, ◌∙◌, ap, Bool, true, false, ◌&&◌, ◌==◌, ltb, List, [], ◌∷◌,
  ◌++◌, arith, Bool-cases, inl, inr, Option, none, some,
}
use upg_vpp_tr.Flow.Tcp
use upg_vpp_tr.Flow.Tcp.Laws.{contains-without}
use upg_vpp_tr.Flow.Table
use upg_vpp_tr.Flow.Table.Lists.{distinct, distinct_addtail, contains_relinked}
use upg_vpp_tr.Flow.Table.Expire

-- A property of the table that is returned, where one is.
unfoldable pub Returned : {A : Type 0} → (A → Type 0) → Option A → Type 0
Returned P none = Unit
Returned P (some a) = P a

unfoldable inside : List ℕ → List ℕ → Bool
unfolding Tcp.contains
inside [] slot = true
inside (x ∷ xs) slot = Tcp.contains x slot && inside xs slot

inside_grow :
    (xs slot slot' : List ℕ)
    → ((g : ℕ)
        → Tcp.contains g xs ≡ true
        → Tcp.contains g slot ≡ true
        → Tcp.contains g slot' ≡ true)
    → inside xs slot ≡ true
    → inside xs slot' ≡ true
unfolding inside Tcp.contains
inside_grow [] slot slot' h i = refl
inside_grow (x ∷ xs) slot slot' h i = ground (
  arith,
  h x (ground arith) (ground arith),
  inside_grow xs slot slot' (λ g a b. h g (ground arith) b) (ground arith),
)

inside_refl : (xs : List ℕ) → inside xs xs ≡ true
unfolding inside Tcp.contains
inside_refl [] = refl
inside_refl (x ∷ xs) =
    ground (arith, inside_grow xs xs (x ∷ xs) (λ g a b. ground arith) (inside_refl xs))

inside_addtail :
    (f : ℕ) (xs slot : List ℕ)
    → inside xs slot ≡ true
    → Tcp.contains f slot ≡ true
    → inside (xs ++ (f ∷ [])) slot ≡ true
unfolding inside Tcp.contains
inside_addtail f [] slot i c = ground arith
inside_addtail f (x ∷ xs) slot i c = ground (arith, inside_addtail f xs slot (ground arith) c)

other :
    (x f : ℕ) (xs : List ℕ)
    → Tcp.contains x xs ≡ true
    → Tcp.contains f xs ≡ false
    → (x == f) ≡ false
unfolding Tcp.contains
other x f [] i c = ground arith
other x f (y ∷ xs) i c = elim (Bool-cases (x == y)) [
  | inl e ↦ ground arith
  | inr e ↦ other x f xs (ground arith) (ground arith)
]

module _ (k : Table.Keys) (hook : Table.Entry k → Bool) where
  freed-wheel : (f : ℕ) (t : Table.Table k) → (Table.flow_entry_free k f t).wheel ≡ t.wheel
  unfolding Table.flow_entry_free Table.flow_entry_cache_empty
  freed-wheel f t = ground arith

  reschedule-wheel_other :
      (e : Table.Entry k) (f g s : ℕ) (t : Table.Table k)
      → (g == f) ≡ false
      → Tcp.contains g ((Expire.reschedule k hook e f t).0.wheel s) ≡ Tcp.contains g (t.wheel s)
  unfolding Expire.reschedule
  reschedule-wheel_other e f g s t ne =
      ground (arith, contains_relinked k t.wheel f g (Expire.deadline k hook e % t.max_lifetime) s)

  pub remove_flow-wheel :
      (e : Table.Entry k) (f : ℕ) (t : Table.Table k)
      → (Expire.remove_flow k hook e f t).wheel ≡ Table.unlink k t.wheel f
  unfolding Expire.remove_flow
  remove_flow-wheel e f t = freed-wheel f _

  remove_flow-wheel_other :
      (e : Table.Entry k) (f g s : ℕ) (t : Table.Table k)
      → (g == f) ≡ false
      → Tcp.contains g ((Expire.remove_flow k hook e f t).wheel s) ≡ Tcp.contains g (t.wheel s)
  unfolding Table.unlink
  remove_flow-wheel_other e f g s t ne = ground (
    arith,
    ap (λ w. Tcp.contains g (w s)) (remove_flow-wheel e f t),
    contains-without g f (t.wheel s),
  )

  -- Only the flow itself changes its place.
  pub expire-wheel_other :
      (now f g s : ℕ) (t : Table.Table k)
      → (g == f) ≡ false
      → Tcp.contains g ((Expire.expire_single_flow k hook now f t).0.wheel s)
        ≡ Tcp.contains g (t.wheel s)
  unfolding Expire.expire_single_flow
  expire-wheel_other now f g s t ne =
      let e = t.entries f in
      let late = Expire.postpone k hook e in
      ground (
        arith,
        reschedule-wheel_other e f g s t ne,
        reschedule-wheel_other late f g s
            (record t { entries = Table.set_entry k t.entries f late }) ne,
        remove_flow-wheel_other e f g s t ne,
      )

  -- A property of the table that every step keeps.
  pub record Kept (P : Table.Table k → Type 0) (now : ℕ) : Type 0 where
    pub step :
        (s f : ℕ) (t : Table.Table k)
        → Tcp.contains f (t.wheel s) ≡ true
        → P t
        → P (Expire.expire_single_flow k hook now f t).0
    pub once : (s : ℕ) (t : Table.Table k) → P t → distinct (t.wheel s) ≡ true
    pub checked : (c : Option ℕ) (t : Table.Table k) → P t → P (record t { next_check = c })

  module _ (P : Table.Table k → Type 0) (now : ℕ) (v : Kept P now) where
    ahead-inside :
        (f : ℕ) (rest slot slot' : List ℕ)
        → inside rest slot ≡ true
        → Tcp.contains f rest ≡ false
        → ((g : ℕ) → (g == f) ≡ false → Tcp.contains g slot' ≡ Tcp.contains g slot)
        → inside (Expire.ahead k hook f rest slot') slot' ≡ true
    unfolding Expire.ahead inside
    ahead-inside f [] slot slot' i c h = refl
    ahead-inside f (g ∷ rest) slot slot' i c h =
        let grown : inside (g ∷ rest) slot' ≡ true =
          inside_grow (g ∷ rest) slot slot' (λ x a b. h x (other x f (g ∷ rest) a c) ∙ b) i in
        ground (arith, grown, inside_addtail f (g ∷ rest) slot' grown)

    ahead-distinct :
        (f : ℕ) (rest slot : List ℕ)
        → distinct rest ≡ true
        → Tcp.contains f rest ≡ false
        → distinct (Expire.ahead k hook f rest slot) ≡ true
    unfolding Expire.ahead distinct
    ahead-distinct f [] slot d c = refl
    ahead-distinct f (g ∷ rest) slot d c = ground (arith, distinct_addtail f (g ∷ rest) d c)

    -- What a loop over one slot needs and gives.
    Loop : (List ℕ → Table.Table k → Table.Table k × ℕ) → ℕ → Type 0
    Loop go slot =
        (rest : List ℕ) (t : Table.Table k)
        → inside rest (t.wheel slot) ≡ true
        → distinct rest ≡ true
        → P t
        → P (go rest t).0

    walk-Loop :
        (go : List ℕ → Table.Table k → Table.Table k × ℕ) (budget slot : ℕ)
        → Loop go slot
        → Loop (λ rest t. Expire.walk k hook go budget rest slot now t) slot
    unfolding Expire.walk Loop inside distinct
    walk-Loop go budget slot h [] t i d q = q
    walk-Loop go budget slot h (f ∷ rest) t i d q =
        let r = Expire.expire_single_flow k hook now f t in
        let q' : P r.0 = v.step slot f t (ground arith) q in
        let places : (g : ℕ)
            → (g == f) ≡ false
            → Tcp.contains g (r.0.wheel slot) ≡ Tcp.contains g (t.wheel slot) =
          λ g ne. expire-wheel_other now f g slot t ne in
        elim (Bool-cases r.1) [
          | inl e ↦ rw e (
              h _ r.0
                (ahead-inside f rest (t.wheel slot) (r.0.wheel slot) (ground arith) (ground arith)
                  places)
                (ahead-distinct f rest (r.0.wheel slot) (ground arith) (ground arith)) q')
          | inr e ↦ rw e (
              walk-Loop go budget slot h rest r.0
                (inside_grow rest (t.wheel slot) (r.0.wheel slot)
                  (λ g a b. places g (other g f rest a (ground arith)) ∙ b) (ground arith))
                (ground arith) q')
        ]

    visit-Loop :
        (budget slot : ℕ) → Loop (λ rest t. Expire.visit k hook budget rest slot now t) slot
    unfolding Expire.visit Loop
    visit-Loop zero slot rest t i d q = q
    visit-Loop (suc budget) slot rest t i d q =
        walk-Loop (λ rest' t'. Expire.visit k hook budget rest' slot now t') (suc budget) slot
          (visit-Loop budget slot) rest t i d q

    seconds_keep :
        (n tick budget : ℕ) (t : Table.Table k)
        → P t
        → P (Expire.seconds k hook n tick now budget t).0
    unfolding Expire.seconds Loop
    seconds_keep zero tick budget t q = v.checked (some tick) t q
    seconds_keep (suc n) tick budget t q =
        let slot = tick % t.max_lifetime in
        let r = Expire.visit k hook budget (t.wheel slot) slot now t in
        let q' : P r.0 =
          visit-Loop budget slot (t.wheel slot) t (inside_refl (t.wheel slot)) (v.once slot t q)
            q in
        elim (Bool-cases (r.1 == 0)) [
          | inl e ↦ rw e (v.checked (some tick) r.0 q')
          | inr e ↦ rw e (seconds_keep n (suc tick) r.1 r.0 q')
        ]

    check_keeps : (c : Option ℕ) (t : Table.Table k) → P t → P (Expire.check_from k hook c now t).0
    unfolding Expire.check_from Expire.expire_from
    check_keeps none t q = seconds_keep (suc now - now) now Table.timer_max_expire t q
    check_keeps (some next) t q = elim (Bool-cases (ltb now next)) [
      | inl e ↦ rw e q
      | inr e ↦ rw e (seconds_keep (suc now - next) next Table.timer_max_expire t q)
    ]

    pub flowtable_timer_expire-Kept :
        (t : Table.Table k) → P t → P (Expire.flowtable_timer_expire k hook now t).0
    unfolding Expire.flowtable_timer_expire
    flowtable_timer_expire-Kept t q = check_keeps t.next_check t q

    turn_keeps :
        (next : ℕ) (t : Table.Table k) (slot : List ℕ)
        → t.wheel next ≡ slot
        → P t
        → P (Expire.turn k hook next now t slot).1
    unfolding Expire.turn Tcp.contains
    turn_keeps next t [] e q = q
    turn_keeps next t (f ∷ rest) e q = v.step next f t (rw e (ground arith)) q

    recycle_keeps :
        (fuel next : ℕ) (t : Table.Table k)
        → P t
        → Returned P (Expire.recycle k hook fuel next now t)
    unfolding Expire.recycle Returned
    recycle_keeps zero next t q = tt
    recycle_keeps (suc fuel) next t q =
        let r = Expire.turn k hook next now t (t.wheel next) in
        elim (Bool-cases (next == now)) [
          | inl b ↦ rw b q
          | inr b ↦ rw b (recycle_keeps fuel r.0 r.1 (turn_keeps next t (t.wheel next) refl q))
        ]

    pub recycle_flow-Kept :
        (fuel : ℕ) (t : Table.Table k) → P t → Returned P (Expire.recycle_flow k hook fuel now t)
    unfolding Expire.recycle_flow
    recycle_flow-Kept fuel t q = recycle_keeps fuel _ t q
