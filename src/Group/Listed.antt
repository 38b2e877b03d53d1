-- ===== src/Group/Listed.antt =====
-- The ids in a group that `decode_group` of upf/pfcp.c accepts.
use upg_vpp_tr.Base.{
  ℕ, zero, suc, ◌+◌, ◌-◌, ◌≡◌, refl, arith, true, false, not, ◌&&◌, ◌==◌, List, [], ◌∷◌, ◌++◌, drop,
  length, Option, none, some, Bool-cases, inl, inr, ==_iff,
}
use upg_vpp_tr.Wire.Defs.{Outcome, ok, err, fault}
use upg_vpp_tr.Group.{
  Item, GroupDef, IeDef, Specs, Value, Entries, end, entry, Group, Ie, get_ie_spec, is_set, add,
  specs_of,
}
use upg_vpp_tr.Group.Write.{get_item}
use upg_vpp_tr.Group.Read.{
  Answer, Next, on, stop, lost, frame, check_mandatory, missing, keep_ie, decode_ie, store, stored,
  decode_item, decode_known, dispatch, after_ie, after_frame, loop_body, Loop, empty_group,
  decode_ies, decode_group, answer,
}
use upg_vpp_tr.Group.Mandatory.{verdict-ok}

-- The item that `get_ie_spec` finds stands at the id that it gives, and is not a free slot.
pub get_ie_spec-at :
    (n : ℕ) (items : List Item) (kind : ℕ) (i : ℕ) (item : Item)
    → get_ie_spec n items kind ≡ some (i, item)
    → (j : ℕ) × (i ≡ n + j) × (get_item items j ≡ some item) × ((item.kind == 0) ≡ false)
unfolding get_ie_spec get_item
get_ie_spec-at n [] kind i item e = cc
get_ie_spec-at n (x ∷ items) kind i item e =
    elim (Bool-cases (not (x.kind == 0) && x.kind == kind)) [
      | inl here ↦
          let found : ◌≡◌ {A = Option (ℕ × Item)} (some (n, x)) (some (i, item)) = cc in
          let used : (x.kind == 0) ≡ false = ground arith in
          let same : x ≡ item = cc in (0, ground arith, cc, rw (← same) used)
      | inr further ↦
          let rest : get_ie_spec (suc n) items kind ≡ some (i, item) = cc in
          let (j, place, stands, used) = get_ie_spec-at (suc n) items kind i item rest in
          (suc j, omega arith, stands, used)
    ]

-- An id of an item that is not a free slot.
unfoldable pub IsId : List Item → ℕ → Type 0
IsId items id = (item : Item) × (get_item items id ≡ some item) × ((item.kind == 0) ≡ false)

found-IsId :
    (d : GroupDef) (kind id : ℕ) (item : Item)
    → get_ie_spec 0 d.items kind ≡ some (id, item)
    → IsId d.items id
unfolding IsId
found-IsId d kind id item e =
    let (j, place, stands, used) = get_ie_spec-at 0 d.items kind id item e in
    let same : id ≡ j = omega arith in (item, rw same stands, used)

module _ {V : Type 0} where
  unfoldable pub Listed : List Item → Entries V → Type 0
  Listed items end = Unit
  Listed items (entry id v es) = IsId items id × Listed items es

  pub Listed-is_set :
      (items : List Item) (es : Entries V) (id : ℕ)
      → Listed items es
      → is_set id es ≡ true
      → IsId items id
  unfolding is_set Listed
  Listed-is_set items end id w e = cc
  Listed-is_set items (entry i v es) id (here, w) e = elim (Bool-cases (i == id)) [
    | inl same ↦ rw (← (==_iff i id).0 same) here
    | inr other ↦ Listed-is_set items es id w (cc)
  ]

  Listed-add :
      (items : List Item) (es : Entries V) (id : ℕ) (v : Value V)
      → Listed items es
      → IsId items id
      → Listed items (add es id v)
  unfolding add Listed
  Listed-add items end id v w k = (k, tt)
  Listed-add items (entry i x es) id v (here, w) k = (here, Listed-add items es id v w k)

  -- The group that one IE leaves.
  abbrev Keeps : GroupDef → Option (Next V × List ℕ) → Type 0
  Keeps d o = (g : Group V) (more : List ℕ) → o ≡ some (on g, more) → Listed d.items g.entries

  on-Keeps :
      (d : GroupDef) (g : Group V) (ms : List ℕ)
      → Listed d.items g.entries
      → Keeps d (some (on g, ms))
  on-Keeps d g ms w = λ g' more e. let same : g ≡ g' = cc in rw (← same) w

  store-Keeps :
      (d : GroupDef) (g : Group V) (id : ℕ) (r : Option (Outcome (Value V) × List ℕ))
      → Listed d.items g.entries
      → IsId d.items id
      → Keeps d (stored g id r)
  unfolding stored store
  store-Keeps d g id none w k = λ g' more e. cc
  store-Keeps d g id (some (ok v, ms)) w k =
      on-Keeps d (record g { entries = add g.entries id v }) ms
        (Listed-add d.items g.entries id v w k)
  store-Keeps d g id (some (err c, ms)) w k = λ g' more e. cc
  store-Keeps d g id (some (fault, ms)) w k = λ g' more e. cc

  item-Keeps :
      (rec : GroupDef → List ℕ → ℕ → Option (Answer V)) (d : GroupDef) (g : Group V) (id : ℕ)
      (def : Option (IeDef V)) (mem : List ℕ) (l : ℕ)
      → Listed d.items g.entries
      → IsId d.items id
      → Keeps d (decode_item rec g id def mem l)
  unfolding decode_item
  item-Keeps rec d g id none mem l w k = λ g' more e. cc
  item-Keeps rec d g id (some def) mem l w k = store-Keeps d g id (decode_ie rec def mem l) w k

  same-Keeps :
      (d : GroupDef) (g : Group V) (pos : ℕ)
      → Listed d.items g.entries
      → Keeps d (some (on (keep_ie g pos), []))
  same-Keeps d g pos w = on-Keeps d (keep_ie g pos) [] w

  known-Keeps :
      (rec : GroupDef → List ℕ → ℕ → Option (Answer V)) (table : ℕ → Option (IeDef V))
      (d : GroupDef) (g : Group V) (r : Option (ℕ × Item)) (pos kind : ℕ) (mem : List ℕ) (l : ℕ)
      → Listed d.items g.entries
      → ((id : ℕ) (item : Item) → r ≡ some (id, item) → IsId d.items id)
      → Keeps d (decode_known rec table g r pos kind mem l)
  unfolding decode_known
  known-Keeps rec table d g none pos kind mem l w k = same-Keeps d g pos w
  known-Keeps rec table d g (some (id, item)) pos kind mem l w k =
      elim (Bool-cases (not item.is_array && is_set id g.entries)) [
        | inl again ↦ rw again (same-Keeps d g pos w)
        | inr fresh ↦ rw fresh (item-Keeps rec d g id (table kind) mem l w (k id item refl))
      ]

  dispatch-Keeps :
      (rec : GroupDef → List ℕ → ℕ → Option (Answer V)) (d : GroupDef)
      (table : Option (ℕ → Option (IeDef V))) (g : Group V) (pos : ℕ) (ie : Ie) (mem : List ℕ)
      → Listed d.items g.entries
      → Keeps d (dispatch rec d table g pos ie mem)
  unfolding dispatch
  dispatch-Keeps rec d none g pos ie mem w = same-Keeps d g pos w
  dispatch-Keeps rec d (some table) g pos ie mem w =
      known-Keeps rec table d g (get_ie_spec 0 d.items ie.kind) pos ie.kind mem ie.len w
        (λ id item e. found-IsId d ie.kind id item e)

  -- A group that is accepted holds only ids of items.
  abbrev AllListed : GroupDef → Option (Answer V) → Type 0
  AllListed d o =
      (g : Group V) (offending : List ℕ)
      → o ≡ some (answer (ok g) offending)
      → Listed d.items g.entries

  check-Listed :
      (d : GroupDef) (g : Group V) (r : Outcome (Group V)) (offending : List ℕ)
      → ((g' : Group V) → r ≡ ok g' → Listed d.items g'.entries)
      → AllListed d (some (check_mandatory d g r offending))
  unfolding check_mandatory
  check-Listed d g r offending h g' more e =
      let (none_missing, same) =
        verdict-ok (missing d.mandatory 0 d.items g.entries) r offending more g' (cc) in
      h g' same

  after_ie-Listed :
      (next : Group V → List ℕ → Option (Answer V)) (d : GroupDef) (g : Group V)
      (offending : List ℕ) (o : Option (Next V × List ℕ))
      → ((g' : Group V) (more : List ℕ) → Listed d.items g'.entries → AllListed d (next g' more))
      → Keeps d o
      → AllListed d (after_ie next d g offending o)
  unfolding after_ie
  after_ie-Listed next d g offending none h k = λ g' more e. cc
  after_ie-Listed next d g offending (some (on g1, more)) h k =
      h g1 (offending ++ more) (k g1 more refl)
  after_ie-Listed next d g offending (some (stop c, more)) h k =
      check-Listed d g (err c) (offending ++ more) (λ g' e. cc)
  after_ie-Listed next d g offending (some (lost, more)) h k = λ g' more' e. cc

  after_frame-Listed :
      (self : Loop V) (s : Specs V) (d : GroupDef) (mem : List ℕ) (pos left : ℕ) (g : Group V)
      (offending : List ℕ) (o : Outcome Ie)
      → Listed d.items g.entries
      → ((mem' : List ℕ) (pos' left' : ℕ) (g' : Group V) (more : List ℕ)
          → Listed d.items g'.entries
          → AllListed d (self d mem' pos' left' g' more))
      → AllListed d (after_frame self s d mem pos left g offending o)
  unfolding after_frame
  after_frame-Listed self s d mem pos left g offending fault w h = λ g' more e. cc
  after_frame-Listed self s d mem pos left g offending (err c) w h = λ g' more e. cc
  after_frame-Listed self s d mem pos left g offending (ok ie) w h =
      after_ie-Listed _ d g offending _
        (λ g' more.
          h (drop (ie.header + ie.len) mem) (pos + (ie.header + ie.len))
            (left - (ie.header + ie.len)) g' more)
        (dispatch-Keeps _ d (specs_of s ie.vendor) g pos ie (drop ie.header mem) w)

  decode_ies-Listed :
      (fuel : ℕ) (s : Specs V) (d : GroupDef) (mem : List ℕ) (pos left : ℕ) (g : Group V)
      (offending : List ℕ)
      → Listed d.items g.entries
      → AllListed d (decode_ies fuel s d mem pos left g offending)
  unfolding decode_ies loop_body
  decode_ies-Listed zero s d mem pos left g offending w = λ g' more e. cc
  decode_ies-Listed (suc fuel) s d mem pos left g offending w = elim (Bool-cases (left == 0)) [
    | inl e ↦
        rw e (check-Listed d g (ok g) offending (λ g' e. let same : g ≡ g' = cc in rw (← same) w))
    | inr e ↦ rw e (
        after_frame-Listed (decode_ies fuel s) s d mem pos left g offending (frame mem left) w
          (λ mem' pos' left' g' more w'. decode_ies-Listed fuel s d mem' pos' left' g' more w'))
  ]

  -- Each id that is set in a group that `decode_group` accepts is the id of an item with a type,
  -- whatever the octets and the tables: the free slots of a definition stay free.
  pub decode_group-IsId :
      (s : Specs V) (d : GroupDef) (mem : List ℕ) (len : ℕ) (g : Group V) (offending : List ℕ)
      (id : ℕ)
      → decode_group s d mem len ≡ some (answer (ok g) offending)
      → is_set id g.entries ≡ true
      → IsId d.items id
  unfolding decode_group Listed
  decode_group-IsId s d mem len g offending id e set =
      Listed-is_set d.items g.entries id
        (decode_ies-Listed (suc (length mem)) s d mem 0 len empty_group [] tt g offending e) set
