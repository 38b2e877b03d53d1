-- ===== src/Group/Mandatory.antt =====
-- The mandatory IEs of a group that `decode_group` of upf/pfcp.c accepts.
use upg_vpp_tr.Base.{
  ℕ, zero, suc, ◌+◌, ◌-◌, ◌≡◌, refl, ◌==◌, List, [], ◌∷◌, ◌++◌, drop, length, Option, none, some,
  Bool-cases, inl, inr,
}
use upg_vpp_tr.Wire.Defs.{Outcome, ok, err, fault}
use upg_vpp_tr.Group.{GroupDef, Specs, Group, Ie}
use upg_vpp_tr.Group.Read.{
  Answer, Next, on, stop, lost, frame, missing, check_mandatory, verdict, after_ie, after_frame,
  loop_body, Loop, empty_group, decode_ies, decode_group, answer,
}

module _ {V : Type 0} where
  -- A group that is accepted has every mandatory item of its definition.
  abbrev Complete : GroupDef → Option (Answer V) → Type 0
  Complete d o =
      (g : Group V) (offending : List ℕ)
      → o ≡ some (answer (ok g) offending)
      → missing d.mandatory 0 d.items g.entries ≡ []

  pub verdict-ok :
      (ms : List ℕ) (r : Outcome (Group V)) (offending more : List ℕ) (g : Group V)
      → verdict ms r offending ≡ answer (ok g) more
      → (ms ≡ []) × (r ≡ ok g)
  unfolding verdict
  verdict-ok [] r offending more g e = (refl, cc)
  verdict-ok (m ∷ ms) r offending more g e = cc

  check-Complete :
      (d : GroupDef) (g : Group V) (r : Outcome (Group V)) (offending : List ℕ)
      → ((g' : Group V) → r ≡ ok g' → g' ≡ g)
      → Complete d (some (check_mandatory d g r offending))
  unfolding check_mandatory
  check-Complete d g r offending h g' more e =
      let (none_missing, same) =
        verdict-ok (missing d.mandatory 0 d.items g.entries) r offending more g' (cc) in
      rw (h g' same) none_missing

  after_ie-Complete :
      (next : Group V → List ℕ → Option (Answer V)) (d : GroupDef) (g : Group V)
      (offending : List ℕ) (o : Option (Next V × List ℕ))
      → ((g' : Group V) (more : List ℕ) → Complete d (next g' more))
      → Complete d (after_ie next d g offending o)
  unfolding after_ie
  after_ie-Complete next d g offending none h = λ g' more e. cc
  after_ie-Complete next d g offending (some (on g1, more)) h = h g1 (offending ++ more)
  after_ie-Complete next d g offending (some (stop c, more)) h =
      check-Complete d g (err c) (offending ++ more) (λ g' e. cc)
  after_ie-Complete next d g offending (some (lost, more)) h = λ g' more' e. cc

  after_frame-Complete :
      (self : Loop V) (s : Specs V) (d : GroupDef) (mem : List ℕ) (pos left : ℕ) (g : Group V)
      (offending : List ℕ) (o : Outcome Ie)
      → ((mem' : List ℕ) (pos' left' : ℕ) (g' : Group V) (more : List ℕ)
          → Complete d (self d mem' pos' left' g' more))
      → Complete d (after_frame self s d mem pos left g offending o)
  unfolding after_frame
  after_frame-Complete self s d mem pos left g offending fault h = λ g' more e. cc
  after_frame-Complete self s d mem pos left g offending (err c) h = λ g' more e. cc
  after_frame-Complete self s d mem pos left g offending (ok ie) h =
      after_ie-Complete _ d g offending _ (λ g' more.
        h (drop (ie.header + ie.len) mem) (pos + (ie.header + ie.len)) (left - (ie.header + ie.len))
          g' more)

  decode_ies-Complete :
      (fuel : ℕ) (s : Specs V) (d : GroupDef) (mem : List ℕ) (pos left : ℕ) (g : Group V)
      (offending : List ℕ)
      → Complete d (decode_ies fuel s d mem pos left g offending)
  unfolding decode_ies loop_body
  decode_ies-Complete zero s d mem pos left g offending = λ g' more e. cc
  decode_ies-Complete (suc fuel) s d mem pos left g offending = elim (Bool-cases (left == 0)) [
    | inl e ↦ rw e (check-Complete d g (ok g) offending (λ g' e. cc))
    | inr e ↦ rw e (
        after_frame-Complete (decode_ies fuel s) s d mem pos left g offending (frame mem left)
          (λ mem' pos' left' g' more. decode_ies-Complete fuel s d mem' pos' left' g' more))
  ]

  -- A group that `decode_group` accepts holds every mandatory item of its definition, whatever the
  -- octets and the tables.
  pub decode_group-Complete :
      (s : Specs V) (d : GroupDef) (mem : List ℕ) (len : ℕ) (g : Group V) (offending : List ℕ)
      → decode_group s d mem len ≡ some (answer (ok g) offending)
      → missing d.mandatory 0 d.items g.entries ≡ []
  unfolding decode_group
  decode_group-Complete s d mem len =
      decode_ies-Complete (suc (length mem)) s d mem 0 len empty_group []
