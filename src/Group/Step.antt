-- ===== src/Group/Step.antt =====
-- One turn of the loop of `decode_group` on an IE that `encode_ie` of upf/pfcp.c wrote.
use upg_vpp_tr.Base.{
  ℕ, ◌+◌, ◌-◌, ◌^◌, ◌<◌, ◌≡◌, refl, arith, false, not, ◌&&◌, ◌==◌, List, [], ◌++◌, append_assoc,
  length, length-append, drop, drop-append, if◌then◌else◌, Option, none, some, Bool-cases, inl, inr,
}
use upg_vpp_tr.Wire.Defs.{ok, octets}
use upg_vpp_tr.Group.{
  Item, GroupDef, IeDef, Specs, Value, Group, Ie, is_set, add, specs_of, get_ie_spec, get_ie_def,
  vendor_bbf, vendor_travelping,
}
use upg_vpp_tr.Group.Read.{
  Answer, on, frame, decode_ie, decode_item, stored, decode_known, dispatch, after_ie, after_frame,
  loop_body, Loop, empty_group,
}
use upg_vpp_tr.Group.Write.{put_header, get_item}

-- The vendor in the header of an item.
abbrev pub wire_vendor : Item → Option ℕ
wire_vendor item = if item.vendor == 0 then none else some item.vendor

abbrev pub header_size : Item → ℕ
header_size item = if item.vendor == 0 then 4 else 6

abbrev pub ie_of : Item → ℕ → Ie
ie_of item n = record {
  kind = item.kind;
  vendor = wire_vendor item;
  header = header_size item;
  len = n;
}

pub length-put_header : (item : Item) (n : ℕ) → length (put_header item n) ≡ header_size item
unfolding put_header octets
length-put_header item n = ground arith

-- The header of an item is read back, from any memory and with any number of octets left behind it.
frame-put_header :
    (item : Item) (n l : ℕ) (mem : List ℕ)
    → item.kind < 2 ^ 15
    → item.vendor < 2 ^ 16
    → n + 2 < 2 ^ 16
    → frame (put_header item n ++ mem) (header_size item + n + l) ≡ ok (ie_of item n)
unfolding put_header octets frame
frame-put_header item n l mem h k m = ground arith

drop_header :
    (item : Item) (n : ℕ) (mem : List ℕ) → drop (header_size item) (put_header item n ++ mem) ≡ mem
drop_header item n mem = rw (← length-put_header item n) (drop-append (put_header item n) mem)

-- What an IE takes off the memory and off the octets that are left.
drop_ie :
    (item : Item) (xs rest : List ℕ)
    → drop (header_size item + length xs) (put_header item (length xs) ++ (xs ++ rest)) ≡ rest
drop_ie item xs rest =
    let size : header_size item + length xs ≡ length (put_header item (length xs) ++ xs) =
      omega (
        arith,
        length-append (put_header item (length xs)) xs,
        length-put_header item (length xs),
      ) in
    rw (size, ← append_assoc (put_header item (length xs)) xs rest)
      (drop-append (put_header item (length xs) ++ xs) rest)

module _ {V : Type 0} (s : Specs V) where
  -- An item of a group with its id and its definition: the first of its type, in the table of its
  -- vendor, and of a type and a vendor that fit the header.
  pub record IsItem (d : GroupDef) (id : ℕ) (item : Item) (def : IeDef V) : Type 0 where
    pub found : get_ie_spec 0 d.items item.kind ≡ some (id, item)
    pub listed : get_item d.items id ≡ some item
    pub known : get_ie_def s item ≡ some def
    pub some_kind : (item.kind == 0) ≡ false
    pub kind_ok : item.kind < 2 ^ 15
    pub vendor_ok : item.vendor < 2 ^ 16

  -- The table that the header of an item leads to has the definition of the item.
  table_of :
      (item : Item) {def : IeDef V}
      → get_ie_def s item ≡ some def
      → (t : ℕ → Option (IeDef V)) × (specs_of s (wire_vendor item) ≡ some t)
        × (t item.kind ≡ some def)
  unfolding get_ie_def specs_of
  table_of item e = elim (Bool-cases (item.vendor == 0)) [
    | inl h ↦ (s.tgpp, rw h refl, rw h at e)
    | inr h ↦ elim (Bool-cases (item.vendor == vendor_bbf)) [
      | inl b ↦ (s.bbf, rw (h, specs_of, b) refl, rw (h, b) at e)
      | inr b ↦ elim (Bool-cases (item.vendor == vendor_travelping)) [
        | inl p ↦ (s.tp, rw (h, specs_of, b, p) refl, rw (h, b, p) at e)
        | inr p ↦ cc (rw (h, b, p) at e)
      ]
    ]
  ]

  dispatch_item :
      (rec : GroupDef → List ℕ → ℕ → Option (Answer V)) (d : GroupDef) (id : ℕ) (item : Item)
      (def : IeDef V) (v : Value V) (n pos : ℕ) (mem : List ℕ) (g : Group V)
      → IsItem d id item def
      → (not item.is_array && is_set id g.entries) ≡ false
      → decode_ie rec def mem n ≡ some (ok v, [])
      → dispatch rec d (specs_of s (wire_vendor item)) g pos (ie_of item n) mem
        ≡ some (on (record g { entries = add g.entries id v }), [])
  unfolding dispatch decode_known decode_item
  dispatch_item rec d id item def v n pos mem g w fresh back =
      let (t, table, there) = table_of item w.known in
      rw (table, dispatch, w.found, decode_known, fresh, there, decode_item, back, stored) refl

  after_frame_on :
      (self : Loop V) (d : GroupDef) (mem inside rest : List ℕ) (pos left l : ℕ) (g g' : Group V)
      (offending : List ℕ) (ie : Ie)
      → drop (ie.header + ie.len) mem ≡ rest
      → drop ie.header mem ≡ inside
      → left - (ie.header + ie.len) ≡ l
      → dispatch (λ d' m n. self d' m 0 n empty_group []) d (specs_of s ie.vendor) g pos ie inside
        ≡ some (on g', [])
      → after_frame self s d mem pos left g offending (ok ie)
        ≡ self d rest (pos + (ie.header + ie.len)) l g' (offending ++ [])
  unfolding after_frame after_ie
  after_frame_on self d mem inside rest pos left l g g' offending ie e h k m =
      rw (h, m, after_ie, e, k) refl

  -- One turn of the loop on an IE of an item whose contents are read back.
  pub read_ie :
      (self : Loop V) (d : GroupDef) (id : ℕ) (item : Item) (def : IeDef V) (v : Value V)
      (xs rest : List ℕ) (pos l : ℕ) (g : Group V) (offending : List ℕ)
      → IsItem d id item def
      → (not item.is_array && is_set id g.entries) ≡ false
      → length xs + 2 < 2 ^ 16
      → decode_ie (λ d' m n. self d' m 0 n empty_group []) def (xs ++ rest) (length xs)
        ≡ some (ok v, [])
      → loop_body self s d
          (put_header item (length xs) ++ (xs ++ rest))
          pos
          (header_size item + length xs + l)
          g
          offending
        ≡ self d rest
            (pos + (header_size item + length xs))
            l
            (record g { entries = add g.entries id v })
            (offending ++ [])
  unfolding loop_body
  read_ie self d id item def v xs rest pos l g offending w fresh short back =
      let some_left : (header_size item + length xs + l == 0) ≡ false = ground arith in
      let left : header_size item + length xs + l - (header_size item + length xs) ≡ l =
        omega arith in
      rw (some_left, frame-put_header item (length xs) l (xs ++ rest) w.kind_ok w.vendor_ok short)
        (after_frame_on self d (put_header item (length xs) ++ (xs ++ rest)) (xs ++ rest) rest pos _
          l g _ offending (ie_of item (length xs)) (drop_ie item xs rest)
          (drop_header item (length xs) (xs ++ rest)) left
          (dispatch_item _ d id item def v (length xs) pos (xs ++ rest) g w fresh back))
