-- ===== src/Group/Read.antt =====
-- `decode_group`, `decode_ie` and `decode_vector_ie` of upf/pfcp.c.
use upg_vpp_tr.Base.{
  ℕ, zero, suc, ◌+◌, ◌-◌, ◌*◌, ◌/◌, ◌%◌, ◌^◌, not, ◌&&◌, ltb, ◌==◌, List, [], ◌∷◌, ◌++◌, length,
  drop, if◌then◌else◌, Option, none, some,
}
use upg_vpp_tr.Wire.Defs.{Outcome, ok, err, fault, Cause, invalid_length, mandatory_ie_missing}
use upg_vpp_tr.Group.{
  Item, GroupDef, IeDef, leaf, grouped, Specs, Value, plain, group, Entries, end, Group, Ie, is_set,
  add, specs_of, get_ie_spec,
}

-- `length -= 2` on a u16.
abbrev pub less_two : ℕ → ℕ
less_two l = (l + 2 ^ 16 - 2) % 2 ^ 16

unfoldable pub vendor_frame : ℕ → ℕ → List ℕ → Outcome Ie
vendor_frame kind l (v1 ∷ v0 ∷ mem) =
    ok (record { kind = kind; vendor = some (v1 * 256 + v0); header = 6; len = less_two l })
vendor_frame kind l mem = fault

-- The header of the IE at the pointer, with `left` octets (`len - pos`) left in the group.
unfoldable pub frame : List ℕ → ℕ → Outcome Ie
unfolding vendor_frame
frame (t1 ∷ t0 ∷ l1 ∷ l0 ∷ mem) left =
    let kind = t1 * 256 + t0 in
    let l = l1 * 256 + l0 in
    if ltb left (4 + l)
    then err invalid_length
    else if ltb kind (2 ^ 15)
    then ok (record { kind = kind; vendor = none; header = 4; len = l })
    else vendor_frame (kind - 2 ^ 15) l mem
frame mem left = fault

-- The types of the mandatory items that are not set.
unfoldable pub missing : {V : Type 0} → ℕ → ℕ → List Item → Entries V → List ℕ
missing mask id [] es = []
missing mask id (item ∷ items) es =
    let rest = missing (mask / 2) (suc id) items es in
    if (mask % 2 == 1) && not (is_set id es) then item.kind ∷ rest else rest

-- What `decode_group` returns, and the offending IEs that it adds to `err`.
pub record Answer (V : Type 0) : Type 0 where
  pub result : Outcome (Group V)
  pub offending : List ℕ

-- What becomes of the group and of `r` by one IE.
pub data Next (V : Type 0) : Type 0 where
  on : Group V → Next V
  stop : Cause → Next V
  lost : Next V

-- `decode_group` from a position with `left` octets to go, the group so far, and `err` so far.
abbrev pub Loop : Type 0 → Type 0
Loop V = GroupDef → List ℕ → ℕ → ℕ → Group V → List ℕ → Option (Answer V)

module _ {V : Type 0} where
  abbrev pub answer : Outcome (Group V) → List ℕ → Answer V
  answer r offending = record { result = r; offending = offending }

  unfoldable pub verdict : List ℕ → Outcome (Group V) → List ℕ → Answer V
  verdict [] r offending = answer r offending
  verdict (m ∷ ms) r offending = answer (err mandatory_ie_missing) (offending ++ (m ∷ ms))

  -- The test for mandatory IEs, behind the loop that ended with `r`.
  unfoldable pub check_mandatory : GroupDef → Group V → Outcome (Group V) → List ℕ → Answer V
  unfolding verdict missing
  check_mandatory d g = verdict (missing d.mandatory 0 d.items g.entries)

  -- `vec_add1 (grp->ies, ie)`
  abbrev pub keep_ie : Group V → ℕ → Group V
  keep_ie g pos = record g { ies = g.ies ++ (pos ∷ []) }

  unfoldable pub as_plain : Outcome V → Outcome (Value V)
  as_plain (ok v) = ok (plain v)
  as_plain (err c) = err c
  as_plain fault = fault

  unfoldable pub as_group : Outcome (Group V) → Outcome (Value V)
  as_group (ok g) = ok (group g.entries g.ies)
  as_group (err c) = err c
  as_group fault = fault

  unfoldable pub as_value : Option (Answer V) → Option (Outcome (Value V) × List ℕ)
  unfolding as_group
  as_value none = none
  as_value (some a) = some (as_group a.result, a.offending)

  -- `decode_ie`, over the `decode_group` that it calls.
  unfoldable pub decode_ie :
      (GroupDef → List ℕ → ℕ → Option (Answer V))
      → IeDef V
      → List ℕ
      → ℕ
      → Option (Outcome (Value V) × List ℕ)
  unfolding as_plain as_value
  decode_ie rec (leaf f) mem len = some (as_plain (f.decode mem len), [])
  decode_ie rec (grouped d) mem len = as_value (rec d mem len)

  unfoldable pub store : Group V → ℕ → Outcome (Value V) → Next V
  store g id (ok v) = on (record g { entries = add g.entries id v })
  store g id (err c) = stop c
  store g id fault = lost

  unfoldable pub stored :
      Group V → ℕ → Option (Outcome (Value V) × List ℕ) → Option (Next V × List ℕ)
  unfolding store
  stored g id none = none
  stored g id (some (r, offending)) = some (store g id r, offending)

  -- An IE of the group's item `id`. Outside of its table there is no definition to call.
  unfoldable pub decode_item :
      (GroupDef → List ℕ → ℕ → Option (Answer V))
      → Group V
      → ℕ
      → Option (IeDef V)
      → List ℕ
      → ℕ
      → Option (Next V × List ℕ)
  unfolding decode_ie stored
  decode_item rec g id none mem len = some (lost, [])
  decode_item rec g id (some d) mem len = stored g id (decode_ie rec d mem len)

  -- An IE whose vendor is known: ignored, a duplicate, or decoded.
  unfoldable pub decode_known :
      (GroupDef → List ℕ → ℕ → Option (Answer V))
      → (ℕ → Option (IeDef V))
      → Group V
      → Option (ℕ × Item)
      → ℕ
      → ℕ
      → List ℕ
      → ℕ
      → Option (Next V × List ℕ)
  unfolding decode_item is_set
  decode_known rec table g none pos kind mem len = some (on (keep_ie g pos), [])
  decode_known rec table g (some (id, item)) pos kind mem len =
      if not item.is_array && is_set id g.entries
      then some (on (keep_ie g pos), [])
      else decode_item rec g id (table kind) mem len

  -- The body of the loop behind the header; `mem` starts at the contents.
  unfoldable pub dispatch :
      (GroupDef → List ℕ → ℕ → Option (Answer V))
      → GroupDef
      → Option (ℕ → Option (IeDef V))
      → Group V
      → ℕ
      → Ie
      → List ℕ
      → Option (Next V × List ℕ)
  unfolding decode_known get_ie_spec
  dispatch rec d none g pos ie mem = some (on (keep_ie g pos), [])
  dispatch rec d (some table) g pos ie mem =
      decode_known rec table g (get_ie_spec 0 d.items ie.kind) pos ie.kind mem ie.len

  abbrev pub empty_group : Group V
  empty_group = record { entries = end; ies = [] }

  unfoldable pub after_ie :
      (Group V → List ℕ → Option (Answer V))
      → GroupDef
      → Group V
      → List ℕ
      → Option (Next V × List ℕ)
      → Option (Answer V)
  unfolding check_mandatory
  after_ie next d g offending none = none
  after_ie next d g offending (some (on g', more)) = next g' (offending ++ more)
  after_ie next d g offending (some (stop c, more)) =
      some (check_mandatory d g (err c) (offending ++ more))
  after_ie next d g offending (some (lost, more)) = some (answer fault (offending ++ more))

  unfoldable pub after_frame :
      Loop V
      → Specs V
      → GroupDef
      → List ℕ
      → ℕ
      → ℕ
      → Group V
      → List ℕ
      → Outcome Ie
      → Option (Answer V)
  unfolding after_ie dispatch specs_of
  after_frame self s d mem pos left g offending fault = some (answer fault offending)
  after_frame self s d mem pos left g offending (err c) = some (answer (err c) offending)
  after_frame self s d mem pos left g offending (ok ie) =
      let n = ie.header + ie.len in
      after_ie (self d (drop n mem) (pos + n) (left - n)) d g offending (
        dispatch (λ d' m l. self d' m 0 l empty_group []) d (specs_of s ie.vendor) g pos ie
          (drop ie.header mem))

  -- The test of the loop, its body and what follows it.
  unfoldable pub loop_body : Loop V → Specs V → Loop V
  unfolding after_frame check_mandatory
  loop_body self s d mem pos left g offending =
      if left == 0
      then some (check_mandatory d g (ok g) offending)
      else after_frame self s d mem pos left g offending (frame mem left)

  -- `none`: out of fuel.
  unfoldable pub decode_ies : ℕ → Specs V → Loop V
  unfolding loop_body
  decode_ies zero s = λ d mem pos left g offending. none
  decode_ies (suc fuel) s = loop_body (decode_ies fuel s) s

  -- The fuel is more than enough: each IE takes four octets of memory.
  unfoldable pub decode_group : Specs V → GroupDef → List ℕ → ℕ → Option (Answer V)
  unfolding decode_ies
  decode_group s d mem len = decode_ies (suc (length mem)) s d mem 0 len empty_group []
