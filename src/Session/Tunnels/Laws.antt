-- ===== src/Session/Tunnels/Laws.antt =====
-- What the tunnel tables hold for the TEIDs of a session, by upf/upf_pfcp.c.
use upg_vpp_tr.Base.{
  ℕ, ◌≡◌, refl, ◌∙◌, ap, Bool, true, false, ◌==◌, List, [], ◌∷◌, ◌++◌, Option, none, some, arith,
  Bool-cases, inl, inr,
}
use upg_vpp_tr.Session.Diff
use upg_vpp_tr.Session.Diff.Laws.{run-diff}
use upg_vpp_tr.Session.Tunnels

module _ (session : ℕ) where
  value : Tunnels.Endp → Option ℕ × ℕ
  value e = Tunnels.tunnel_value session e

  abbrev find : ℕ → List Tunnels.Endp → Option Tunnels.Endp
  find q es = Diff.entry Tunnels.endp_key (Tunnels.tunnel_value session) q es

  abbrev once : List Tunnels.Endp → Bool
  once es = Diff.apart Tunnels.endp_key (Tunnels.tunnel_value session) es

  -- What a call makes of the entry for its key.
  unfoldable noted : ℕ → ℕ → Option Tunnels.Endp → Option Tunnels.Endp
  noted q i none = some (record { key = q; rule_index = some i })
  noted q i (some e) = some (record e { rule_index = none })

  add_same :
      (q key i : ℕ) (es : List Tunnels.Endp)
      → (q == key) ≡ true
      → find q (Tunnels.rules_add_teid es key i) ≡ noted q i (find q es)
  unfolding Tunnels.rules_add_teid noted Diff.entry
  add_same q key i [] e = ground arith
  add_same q key i (x ∷ es) e = ground (arith, add_same q key i es e)

  add_other :
      (q key i : ℕ) (es : List Tunnels.Endp)
      → (q == key) ≡ false
      → find q (Tunnels.rules_add_teid es key i) ≡ find q es
  unfolding Tunnels.rules_add_teid Diff.entry
  add_other q key i [] e = ground arith
  add_other q key i (x ∷ es) e = ground (arith, add_other q key i es e)

  absent-noted :
      (q key i : ℕ) (es : List Tunnels.Endp)
      → (q == key) ≡ false
      → Diff.absent Tunnels.endp_key (Tunnels.tunnel_value session) (find q es) ≡ true
      → Diff.absent Tunnels.endp_key
          (Tunnels.tunnel_value session)
          (find q (Tunnels.rules_add_teid es key i))
        ≡ true
  absent-noted q key i es ne a = rw (add_other q key i es ne) a

  add-once :
      (key i : ℕ) (es : List Tunnels.Endp)
      → once es ≡ true
      → once (Tunnels.rules_add_teid es key i) ≡ true
  unfolding Tunnels.rules_add_teid Diff.apart Diff.absent Diff.entry
  add-once key i [] o = refl
  add-once key i (x ∷ es) o = elim (Bool-cases (key == x.key)) [
    | inl e ↦ rw e o
    | inr e ↦ rw e (
        ground (
          arith,
          add-once key i es (ground arith),
          absent-noted x.key key i es (ground arith) (ground arith),
        ))
  ]

  registered-once :
      (calls : List (ℕ × ℕ)) (es : List Tunnels.Endp)
      → once es ≡ true
      → once (Tunnels.registered es calls) ≡ true
  unfolding Tunnels.registered
  registered-once [] es o = o
  registered-once ((key, i) ∷ calls) es o =
      registered-once calls (Tunnels.rules_add_teid es key i) (add-once key i es o)

  -- The entry for a key after several calls for it.
  unfoldable noted_all : ℕ → Option Tunnels.Endp → List ℕ → Option Tunnels.Endp
  unfolding noted
  noted_all q o [] = o
  noted_all q o (i ∷ is) = noted_all q (noted q i o) is

  find-registered :
      (q : ℕ) (es : List Tunnels.Endp) (calls : List (ℕ × ℕ))
      → find q (Tunnels.registered es calls) ≡ noted_all q (find q es) (Tunnels.indices q calls)
  unfolding Tunnels.registered Tunnels.indices noted_all
  find-registered q es [] = refl
  find-registered q es ((key, i) ∷ calls) =
      let rest = find-registered q (Tunnels.rules_add_teid es key i) calls in
      elim (Bool-cases (q == key)) [
        | inl e ↦
            rw e (rest ∙ ap (λ o. noted_all q o (Tunnels.indices q calls)) (add_same q key i es e))
        | inr e ↦
            rw e (rest ∙ ap (λ o. noted_all q o (Tunnels.indices q calls)) (add_other q key i es e))
      ]

  noted_all_marked :
      (q : ℕ) (is : List ℕ)
      → noted_all q (some (record { key = q; rule_index = none })) is
        ≡ some (record { key = q; rule_index = none })
  unfolding noted_all noted
  noted_all_marked q [] = refl
  noted_all_marked q (i ∷ is) = noted_all_marked q is

  noted_all-summary : (q : ℕ) (is : List ℕ) → noted_all q none is ≡ Tunnels.summary q is
  unfolding noted_all noted Tunnels.summary
  noted_all-summary q [] = refl
  noted_all-summary q (i ∷ []) = refl
  noted_all-summary q (i ∷ j ∷ more) = noted_all_marked q more

  find-summary :
      (q : ℕ) (calls : List (ℕ × ℕ))
      → find q (Tunnels.registered [] calls) ≡ Tunnels.summary q (Tunnels.indices q calls)
  unfolding Diff.entry
  find-summary q calls = find-registered q [] calls ∙ noted_all-summary q (Tunnels.indices q calls)

  registered-append :
      (es : List Tunnels.Endp) (calls more : List (ℕ × ℕ))
      → Tunnels.registered (Tunnels.registered es calls) more
        ≡ Tunnels.registered es (calls ++ more)
  unfolding Tunnels.registered
  registered-append es [] more = refl
  registered-append es ((key, i) ∷ calls) more =
      registered-append (Tunnels.rules_add_teid es key i) calls more

  -- The calls for the rules of a kind, none where no such rules are pending.
  unfoldable pub given : Option (List (ℕ × ℕ)) → List (ℕ × ℕ)
  given none = []
  given (some calls) = calls

  far_teids_lem :
      (fars : Option (List (ℕ × ℕ))) (es : List Tunnels.Endp)
      → Tunnels.far_teids fars es ≡ Tunnels.registered es (given fars)
  unfolding Tunnels.far_teids given Tunnels.registered
  far_teids_lem none es = refl
  far_teids_lem (some calls) es = refl

  pending_lem :
      (pdrs : List (ℕ × ℕ)) (fars : Option (List (ℕ × ℕ))) (active : List Tunnels.Endp)
      → Tunnels.far_teids fars (Tunnels.pdr_teids (some pdrs) active)
        ≡ Tunnels.registered [] (pdrs ++ given fars)
  unfolding Tunnels.pdr_teids
  pending_lem pdrs fars active =
      far_teids_lem fars (Tunnels.registered [] pdrs) ∙ registered-append [] pdrs (given fars)

  -- After an update with pending PDRs the tunnel table has, for a key that the pending PDRs and FARs
  -- give and the active vector lacks, their summary; for one that only the active vector has, nothing;
  -- and for any other what it had, also when the pending rules give another index. The vector then has
  -- for each key the summary of the pending rules, and each key at most once. The active vector must
  -- have each key at most once before.
  pub update_tunnels-registered :
      (s : Diff.Sorter Tunnels.endp_key (Tunnels.tunnel_value session)) (pdrs : List (ℕ × ℕ))
      (fars : Option (List (ℕ × ℕ))) (active : List Tunnels.Endp)
      (table : ℕ → Option (Option ℕ × ℕ)) (q : ℕ)
      → once active ≡ true
      → let new = Tunnels.summary q (Tunnels.indices q (pdrs ++ given fars)) in
        ((Tunnels.update_tunnels session s (some pdrs) fars active table).1 q
          ≡ Diff.diffed Tunnels.endp_key
              (Tunnels.tunnel_value session)
              (table q)
              new
              (find q active))
        × (find q (Tunnels.update_tunnels session s (some pdrs) fars active table).0 ≡ new)
        × (once (Tunnels.update_tunnels session s (some pdrs) fars active table).0 ≡ true)
  unfolding Tunnels.update_tunnels Tunnels.update_table Diff.apart
  update_tunnels-registered s pdrs fars active table q o =
      let calls = pdrs ++ given fars in
      let new_once = registered-once calls [] refl in
      rw (pending_lem pdrs fars active) (
        run-diff Tunnels.endp_key (Tunnels.tunnel_value session) s (Tunnels.registered [] calls)
              active q table new_once o
            ∙ ap
                (λ x.
                  Diff.diffed Tunnels.endp_key (Tunnels.tunnel_value session) (table q) x
                    (find q active))
                (find-summary q calls),
        find-summary q calls,
        new_once,
      )

  -- What is in both vectors stays as the table has it.
  both_kept :
      (q j : ℕ) (js : List ℕ) (e : Tunnels.Endp) (v : Option (Option ℕ × ℕ))
      → Diff.diffed Tunnels.endp_key
          (Tunnels.tunnel_value session)
          v
          (Tunnels.summary q (j ∷ js))
          (some e)
        ≡ v
  unfolding Diff.diffed Diff.kept Tunnels.summary
  both_kept q j [] e v = refl
  both_kept q j (n ∷ js) e v = refl

  -- Where only FARs are pending, a TEID that just one of them gives and the active vector lacks is in the
  -- vector after the update, and the tunnel table is as before; the next update with pending PDRs whose
  -- rules give the TEID, once or more, leaves what the table has for it as it is, too. The active vector
  -- must have each key at most once before.
  pub update_tunnels-far_only :
      (s : Diff.Sorter Tunnels.endp_key (Tunnels.tunnel_value session)) (fars : List (ℕ × ℕ))
      (active : List Tunnels.Endp) (table : ℕ → Option (Option ℕ × ℕ)) (q i j : ℕ) (is : List ℕ)
      (pdrs : List (ℕ × ℕ)) (more : Option (List (ℕ × ℕ)))
      → once active ≡ true
      → find q active ≡ none
      → Tunnels.indices q fars ≡ i ∷ []
      → Tunnels.indices q (pdrs ++ given more) ≡ j ∷ is
      → let next = Tunnels.update_tunnels session s none (some fars) active table in
        (find q next.0 ≡ some (record { key = q; rule_index = some i }))
        × (next.1 ≡ table)
        × ((Tunnels.update_tunnels session s (some pdrs) more next.0 next.1).1 q ≡ table q)
  unfolding Tunnels.update_tunnels Tunnels.update_table Tunnels.far_teids Tunnels.pdr_teids
      noted_all noted
  update_tunnels-far_only s fars active table q i j is pdrs more o absent one again =
      let vector = Tunnels.registered active fars in
      let there : find q vector ≡ some (record { key = q; rule_index = some i }) =
        find-registered q active fars ∙ rw (absent, one) refl in
      (
        there,
        refl,
        (update_tunnels-registered s pdrs more vector table q (registered-once fars active o)).0
            ∙ ap
                (λ x.
                  Diff.diffed Tunnels.endp_key (Tunnels.tunnel_value session) (table q)
                    (Tunnels.summary q x) (find q vector))
                again
            ∙ rw there (both_kept q j is _ (table q)),
      )
