-- ===== src/Session/Diff/Laws.antt =====
-- `vec_diff` of upf/upf_pfcp.c against the difference of two sets.
use upg_vpp_tr.Base.{
  ℕ, ◌<◌, ◌≤◌, ◌≡◌, refl, ◌∙◌, true, false, ltb, ◌==◌, List, [], ◌∷◌, Option, none, some, arith,
  Bool-cases, inl, inr,
}
use upg_vpp_tr.Session.Diff

module _ {ℓ κ} {A : Type ℓ} {V : Type κ} (key : A → ℕ) (value : A → V) where
  entry_above :
      (n q : ℕ) (xs : List A)
      → Diff.above key value n xs ≡ true
      → q ≤ n
      → Diff.entry key value q xs ≡ none
  unfolding Diff.above Diff.entry
  entry_above n q [] a le = refl
  entry_above n q (x ∷ xs) a le = ground (arith, entry_above n q xs (ground arith) le)

  above_weaken :
      (m n : ℕ) (xs : List A)
      → m < n
      → Diff.above key value n xs ≡ true
      → Diff.above key value m xs ≡ true
  unfolding Diff.above
  above_weaken m n [] lt a = refl
  above_weaken m n (x ∷ xs) lt a = ground (arith, above_weaken m n xs lt (ground arith))

  -- What a loop gives for every table.
  Right : List A → (List A → Diff.Calls key value) → List A → Type κ
  Right new go old =
      (q : ℕ) (table : ℕ → Option V)
      → Diff.run key value (go old) table q
        ≡ Diff.diffed key value (table q) (Diff.entry key value q new) (Diff.entry key value q old)

  removes-Right :
      (old : List A) → Diff.sorted key value old ≡ true → Right [] (Diff.removes key value) old
  unfolding Right Diff.removes Diff.run Diff.add_del Diff.diffed Diff.filled Diff.kept Diff.entry
      Diff.sorted
  removes-Right [] s q table = refl
  removes-Right (y ∷ old) s q table =
      let t' : ℕ → Option V = Diff.add_del key value (y, false) table in
      let rest = removes-Right old (ground arith) q t' in
      elim (Bool-cases (q == key y)) [
        | inl e ↦ ground (arith, rest, entry_above (key y) q old (ground arith) (ground arith))
        | inr e ↦ ground (arith, rest)
      ]

  entry_same :
      (x : A) (q : ℕ) (xs : List A) → (q == key x) ≡ true → Diff.entry key value q (x ∷ xs) ≡ some x
  unfolding Diff.entry
  entry_same x q xs e = rw e refl

  entry_other :
      (x : A) (q : ℕ) (xs : List A)
      → (q == key x) ≡ false
      → Diff.entry key value q (x ∷ xs) ≡ Diff.entry key value q xs
  unfolding Diff.entry
  entry_other x q xs e = rw e refl

  -- A first entry of `new` that is in `old` too, and is first there.
  both_first :
      (x y : A) (new old : List A) (q : ℕ) (v : Option V)
      → (key x == key y) ≡ true
      → Diff.above key value (key x) new ≡ true
      → Diff.above key value (key y) old ≡ true
      → Diff.diffed key value v (Diff.entry key value q new) (Diff.entry key value q old)
        ≡ Diff.diffed key value v
            (Diff.entry key value q (x ∷ new))
            (Diff.entry key value q (y ∷ old))
  unfolding Diff.diffed Diff.filled Diff.kept
  both_first x y new old q v e a b = elim (Bool-cases (q == key x)) [
    | inl c ↦ ground (
      arith,
      entry_same x q new c,
      entry_same y q old (ground arith),
      entry_above (key x) q new a (ground arith),
      entry_above (key y) q old b (ground arith),
    )
    | inr c ↦ ground (arith, entry_other x q new c, entry_other y q old (ground arith))
  ]

  -- One that `old` has not.
  new_first :
      (x : A) (new old : List A) (q : ℕ) (table : ℕ → Option V)
      → Diff.above key value (key x) new ≡ true
      → Diff.above key value (key x) old ≡ true
      → Diff.diffed key value
          (Diff.add_del key value (x, true) table q)
          (Diff.entry key value q new)
          (Diff.entry key value q old)
        ≡ Diff.diffed key value
            (table q)
            (Diff.entry key value q (x ∷ new))
            (Diff.entry key value q old)
  unfolding Diff.diffed Diff.filled Diff.kept Diff.add_del
  new_first x new old q table a b = elim (Bool-cases (q == key x)) [
    | inl c ↦ ground (
      arith,
      entry_same x q new c,
      entry_above (key x) q new a (ground arith),
      entry_above (key x) q old b (ground arith),
    )
    | inr c ↦ ground (arith, entry_other x q new c)
  ]

  -- A first entry of `old` that `new` has not.
  old_first :
      (y : A) (new old : List A) (q : ℕ) (table : ℕ → Option V)
      → Diff.above key value (key y) new ≡ true
      → Diff.above key value (key y) old ≡ true
      → Diff.diffed key value
          (Diff.add_del key value (y, false) table q)
          (Diff.entry key value q new)
          (Diff.entry key value q old)
        ≡ Diff.diffed key value
            (table q)
            (Diff.entry key value q new)
            (Diff.entry key value q (y ∷ old))
  unfolding Diff.diffed Diff.filled Diff.kept Diff.add_del
  old_first y new old q table a b = elim (Bool-cases (q == key y)) [
    | inl c ↦ ground (
      arith,
      entry_same y q old c,
      entry_above (key y) q new a (ground arith),
      entry_above (key y) q old b (ground arith),
    )
    | inr c ↦ ground (arith, entry_other y q old c)
  ]

  against-Right :
      (x : A) (new : List A) (go : List A → Diff.Calls key value)
      → Diff.sorted key value (x ∷ new) ≡ true
      → ((old : List A) → Diff.sorted key value old ≡ true → Right new go old)
      → (old : List A) → Diff.sorted key value old ≡ true
      → Right (x ∷ new) (λ ys. Diff.against key value x go ys) old
  unfolding Right Diff.against Diff.run Diff.sorted Diff.above
  against-Right x new go s h [] s' q table =
      h [] refl q (Diff.add_del key value (x, true) table)
      ∙ new_first x new [] q table (ground arith) refl
  against-Right x new go s h (y ∷ old) s' q table = elim (Bool-cases (key x == key y)) [
    | inl e ↦ rw e (
        h old (ground arith) q table
        ∙ both_first x y new old q (table q) e (ground arith) (ground arith))
    | inr e ↦ elim (Bool-cases (ltb (key x) (key y))) [
      | inl l ↦
          rw (e, l)
            (h (y ∷ old) s' q (Diff.add_del key value (x, true) table)
              ∙ new_first x new (y ∷ old) q table (ground arith)
                  (ground (arith, above_weaken (key x) (key y) old (ground arith) (ground arith))))
      | inr l ↦
          rw (e, l)
            (against-Right x new go s h old (ground arith) q
                (Diff.add_del key value (y, false) table)
              ∙ old_first y (x ∷ new) old q table
                  (ground (arith, above_weaken (key y) (key x) new (ground arith) (ground arith)))
                  (ground arith))
    ]
  ]

  -- On sorted vectors the calls come to the difference of the two: an entry of `new` alone is put into
  -- the table, one of `old` alone is taken out, and whatever both have or neither has is left as it was.
  pub run-vec_diff :
      (new old : List A) (q : ℕ) (table : ℕ → Option V)
      → Diff.sorted key value new ≡ true
      → Diff.sorted key value old ≡ true
      → Diff.run key value (Diff.vec_diff key value new old) table q
        ≡ Diff.diffed key value (table q) (Diff.entry key value q new) (Diff.entry key value q old)
  unfolding Diff.vec_diff Diff.sorted Right
  run-vec_diff [] old q table s s' = removes-Right old s' q table
  run-vec_diff (x ∷ new) old q table s s' =
      against-Right x new (λ ys. Diff.vec_diff key value new ys) s
        (λ ys d q' t'. run-vec_diff new ys q' t' (ground arith) d) old s' q table

  pub run-diff :
      (s : Diff.Sorter key value) (new old : List A) (q : ℕ) (table : ℕ → Option V)
      → Diff.apart key value new ≡ true
      → Diff.apart key value old ≡ true
      → Diff.run key value (Diff.diff key value s new old) table q
        ≡ Diff.diffed key value (table q) (Diff.entry key value q new) (Diff.entry key value q old)
  unfolding Diff.diff
  run-diff s new old q table a b =
      run-vec_diff (s.sort new) (s.sort old) q table (s.sort-sorted new a) (s.sort-sorted old b)
      ∙ rw (s.sort-entry q new a, s.sort-entry q old b) refl
