-- ===== src/Group/Total.antt =====
-- The end of the loop of `decode_group` of upf/pfcp.c.
use upg_vpp_tr.Base.{
  ℕ, zero, suc, ◌+◌, ◌-◌, ◌*◌, ◌^◌, ◌<◌, ◌≤◌, ◌≡◌, ◌≢◌, refl, arith, List, [], ◌∷◌, ◌++◌, length,
  drop, length-drop, Option, none, some,
}
use upg_vpp_tr.Wire.Defs.{Outcome, ok, err, fault}
use upg_vpp_tr.Group.{
  GroupDef, IeDef, leaf, grouped, Specs, Value, Group, Ie, Item, get_ie_spec, specs_of,
}
use upg_vpp_tr.Group.Read.{
  Answer, Next, on, stop, lost, frame, vendor_frame, decode_ie, as_value, decode_item, stored,
  decode_known, dispatch, after_ie, after_frame, loop_body, Loop, empty_group, decode_ies,
  decode_group,
}

vendor_frame_room :
    (kind l : ℕ) (mem : List ℕ) {ie : Ie} → vendor_frame kind l mem ≡ ok ie → (4 ≤ ie.header)
unfolding vendor_frame
vendor_frame_room kind l [] e = cc
vendor_frame_room kind l (v1 ∷ []) e = cc
vendor_frame_room kind l (v1 ∷ v0 ∷ mem) e = ground arith

-- A header that was read is four octets at least, and is there.
frame_room :
    (mem : List ℕ) (left : ℕ) {ie : Ie}
    → frame mem left ≡ ok ie
    → (4 ≤ ie.header) × (4 ≤ length mem)
unfolding frame
frame_room [] left e = cc
frame_room (a ∷ []) left e = cc
frame_room (a ∷ b ∷ []) left e = cc
frame_room (a ∷ b ∷ c ∷ []) left e = cc
frame_room (a ∷ b ∷ c ∷ d ∷ mem) left e =
    ground (arith, vendor_frame_room (a * 256 + b - 2 ^ 15) (c * 256 + d) mem)

module _ {V : Type 0} where
  -- The members of groups that are decoded from `mem` do not run out of fuel.
  abbrev Ends : (GroupDef → List ℕ → ℕ → Option (Answer V)) → List ℕ → Type 0
  Ends rec mem = (d : GroupDef) (l : ℕ) → rec d mem l ≢ none

  decode_ie-Ends :
      (rec : GroupDef → List ℕ → ℕ → Option (Answer V)) (d : IeDef V) (mem : List ℕ) (l : ℕ)
      → Ends rec mem
      → decode_ie rec d mem l ≢ none
  unfolding decode_ie as_value
  decode_ie-Ends rec (leaf f) mem l h = λ e. cc
  decode_ie-Ends rec (grouped d) mem l h = ground (arith, h d l)

  stored-ends :
      (g : Group V) (id : ℕ) (r : Option (Outcome (Value V) × List ℕ))
      → r ≢ none
      → stored g id r ≢ none
  unfolding stored
  stored-ends g id none h e = h refl
  stored-ends g id (some (o, more)) h e = cc

  decode_item-Ends :
      (rec : GroupDef → List ℕ → ℕ → Option (Answer V)) (g : Group V) (id : ℕ)
      (d : Option (IeDef V)) (mem : List ℕ) (l : ℕ)
      → Ends rec mem
      → decode_item rec g id d mem l ≢ none
  unfolding decode_item
  decode_item-Ends rec g id none mem l h = λ e. cc
  decode_item-Ends rec g id (some d) mem l h = stored-ends g id _ (decode_ie-Ends rec d mem l h)

  decode_known-Ends :
      (rec : GroupDef → List ℕ → ℕ → Option (Answer V)) (table : ℕ → Option (IeDef V)) (g : Group V)
      (item : Option (ℕ × Item)) (pos kind : ℕ) (mem : List ℕ) (l : ℕ)
      → Ends rec mem
      → decode_known rec table g item pos kind mem l ≢ none
  unfolding decode_known
  decode_known-Ends rec table g none pos kind mem l h = λ e. cc
  decode_known-Ends rec table g (some (id, item)) pos kind mem l h =
      ground (arith, decode_item-Ends rec g id (table kind) mem l h)

  dispatch-Ends :
      (rec : GroupDef → List ℕ → ℕ → Option (Answer V)) (d : GroupDef)
      (table : Option (ℕ → Option (IeDef V))) (g : Group V) (pos : ℕ) (ie : Ie) (mem : List ℕ)
      → Ends rec mem
      → dispatch rec d table g pos ie mem ≢ none
  unfolding dispatch
  dispatch-Ends rec d none g pos ie mem h = λ e. cc
  dispatch-Ends rec d (some table) g pos ie mem h =
      decode_known-Ends rec table g (get_ie_spec 0 d.items ie.kind) pos ie.kind mem ie.len h

  after_ie-ends :
      (next : Group V → List ℕ → Option (Answer V)) (d : GroupDef) (g : Group V)
      (offending : List ℕ) (o : Option (Next V × List ℕ))
      → ((g' : Group V) (more : List ℕ) → next g' more ≢ none)
      → o ≢ none
      → after_ie next d g offending o ≢ none
  unfolding after_ie
  after_ie-ends next d g offending none h k = λ e. k refl
  after_ie-ends next d g offending (some (on g', more)) h k = h g' (offending ++ more)
  after_ie-ends next d g offending (some (stop c, more)) h k = λ e. cc
  after_ie-ends next d g offending (some (lost, more)) h k = λ e. cc

  -- The loop that is called ends on memory that is shorter by four octets.
  after_frame-ends :
      (self : Loop V) (s : Specs V) (d : GroupDef) (mem : List ℕ) (pos left : ℕ) (g : Group V)
      (offending : List ℕ) (o : Outcome Ie)
      → ((d' : GroupDef) (mem' : List ℕ) (pos' left' : ℕ) (g' : Group V) (more : List ℕ)
          → length mem' + 4 ≤ length mem
          → self d' mem' pos' left' g' more ≢ none)
      → ((ie : Ie) → o ≡ ok ie → (4 ≤ ie.header) × (4 ≤ length mem))
      → after_frame self s d mem pos left g offending o ≢ none
  unfolding after_frame
  after_frame-ends self s d mem pos left g offending fault h k = λ e. cc
  after_frame-ends self s d mem pos left g offending (err c) h k = λ e. cc
  after_frame-ends self s d mem pos left g offending (ok ie) h k =
      let (room, there) = k ie refl in
      let n = ie.header + ie.len in
      after_ie-ends _ d g offending _
        (λ g' more.
          h d (drop n mem) (pos + n) (left - n) g' more (omega (arith, length-drop n mem)))
        (dispatch-Ends _ d (specs_of s ie.vendor) g pos ie (drop ie.header mem) (λ d' l.
          h d' (drop ie.header mem) 0 l empty_group [] (omega (arith, length-drop ie.header mem))))

  loop_body-ends :
      (self : Loop V) (s : Specs V) (d : GroupDef) (mem : List ℕ) (pos left : ℕ) (g : Group V)
      (offending : List ℕ)
      → ((d' : GroupDef) (mem' : List ℕ) (pos' left' : ℕ) (g' : Group V) (more : List ℕ)
          → length mem' + 4 ≤ length mem
          → self d' mem' pos' left' g' more ≢ none)
      → loop_body self s d mem pos left g offending ≢ none
  unfolding loop_body
  loop_body-ends self s d mem pos left g offending h = ground (
    arith,
    after_frame-ends self s d mem pos left g offending (frame mem left) h
        (λ ie e. frame_room mem left e),
  )

  -- With more fuel than octets of memory the loop ends, whatever the tables and the octets.
  decode_ies-ends :
      (fuel : ℕ) (s : Specs V) (d : GroupDef) (mem : List ℕ) (pos left : ℕ) (g : Group V)
      (offending : List ℕ)
      → length mem < fuel
      → decode_ies fuel s d mem pos left g offending ≢ none
  unfolding decode_ies
  decode_ies-ends zero s d mem pos left g offending h = elim h [ ]
  decode_ies-ends (suc fuel) s d mem pos left g offending h =
      loop_body-ends (decode_ies fuel s) s d mem pos left g offending
        (λ d' mem' pos' left' g' more k.
          decode_ies-ends fuel s d' mem' pos' left' g' more (omega arith))

  -- `decode_group` ends on any octets, at any declared length and for any tables, also those in which
  -- groups are members of themselves.
  pub decode_group-ends :
      (s : Specs V) (d : GroupDef) (mem : List ℕ) (len : ℕ) → decode_group s d mem len ≢ none
  unfolding decode_group
  decode_group-ends s d mem len =
      decode_ies-ends (suc (length mem)) s d mem 0 len empty_group [] (omega arith)
