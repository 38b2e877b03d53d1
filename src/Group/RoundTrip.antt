-- ===== src/Group/RoundTrip.antt =====
-- Groups that `encode_group` of upf/pfcp.c wrote, read by `decode_group`.
use upg_vpp_tr.Base.{
  ℕ, zero, suc, ◌+◌, ◌^◌, ◌<◌, ◌≤◌, ◌≡◌, refl, sym, ap, ◌∙◌, arith, false, not, ◌&&◌, List, [],
  ◌++◌, append_assoc, length, length-append, Option, none, some,
}
use upg_vpp_tr.Wire.Defs.{ok}
use upg_vpp_tr.Group.{
  Item, GroupDef, Leaf, IeDef, leaf, grouped, Specs, Value, plain, group, Entries, end, entry,
  Group, is_set, add,
}
use upg_vpp_tr.Group.Read.{
  Answer, missing, check_mandatory, verdict, decode_ie, as_value, as_plain, as_group, loop_body,
  empty_group, decode_ies, decode_group, answer,
}
use upg_vpp_tr.Group.Write.{
  put_header, put_ie, put_known, join, get_item, encode_value, encode_entries, encode_group,
}
use upg_vpp_tr.Group.Order.{in_order, Ascending, gather-Ascending}
use native.Mathlib.Nat.{zero-add}
use upg_vpp_tr.Group.Step.{IsItem, header_size, length-put_header, read_ie}
use upg_vpp_tr.Group.Fits.{Codecs, add_all, add_all-end, Fits, Readable}

module _ {V : Type 0} (s : Specs V) (c : Codecs V) where
  open c use {IsPlain, decode-encode}

  -- What a piece of an item consists of.
  put_known_item :
      (d : GroupDef) (id : ℕ) (item : Item) (def : IeDef V) (contents : IeDef V → Option (List ℕ))
      → IsItem s d id item def
      → put_known s contents (get_item d.items id) ≡ put_ie item (contents def)
  unfolding put_known
  put_known_item d id item def contents w = rw (w.listed, put_known, w.some_kind, w.known) refl

  -- A join that gives octets joins octets.
  join-some :
      (xs ys : Option (List ℕ)) {zs : List ℕ}
      → join xs ys ≡ some zs
      → (a : List ℕ) × (b : List ℕ) × (xs ≡ some a) × (ys ≡ some b) × (zs ≡ a ++ b)
  unfolding join
  join-some none ys e = cc
  join-some (some a) none e = cc
  join-some (some a) (some b) e = (a, b, refl, refl, cc)

  put_ie-some :
      (item : Item) (xs : Option (List ℕ)) {zs : List ℕ}
      → put_ie item xs ≡ some zs
      → (a : List ℕ) × (xs ≡ some a) × (zs ≡ put_header item (length a) ++ a)
  unfolding put_ie
  put_ie-some item none e = cc
  put_ie-some item (some a) e = (a, refl, cc)

  checked_answer :
      (d : GroupDef) (es : Entries V)
      → missing d.mandatory 0 d.items es ≡ []
      → check_mandatory d
          (record { entries = es; ies = [] })
          (ok (record { entries = es; ies = [] }))
          []
        ≡ answer (ok (record { entries = es; ies = [] })) []
  unfolding check_mandatory
  checked_answer d es e = rw (check_mandatory, e, verdict) refl

  read_plain :
      (rec : GroupDef → List ℕ → ℕ → Option (Answer V)) (f : Leaf V) (v : V) (mem : List ℕ) (n : ℕ)
      → f.decode mem n ≡ ok v
      → decode_ie rec (leaf f) mem n ≡ some (ok (plain v), [])
  unfolding decode_ie
  read_plain rec f v mem n e = rw (e, as_plain) refl

  read_group :
      (rec : GroupDef → List ℕ → ℕ → Option (Answer V)) (d : GroupDef) (es : Entries V)
      (ies mem : List ℕ) (n : ℕ)
      → ies ≡ []
      → rec d mem n ≡ some (answer (ok (record { entries = es; ies = [] })) [])
      → decode_ie rec (grouped d) mem n ≡ some (ok (group es ies), [])
  unfolding decode_ie
  read_group rec d es ies mem n no_ies e = rw (e, as_value, as_group, no_ies) refl

  read_end :
      (fuel : ℕ) (d : GroupDef) (xs mem : List ℕ) (pos : ℕ) (g : Group V)
      → xs ≡ []
      → decode_ies (suc fuel) s d mem pos (length xs) g [] ≡ some (check_mandatory d g (ok g) [])
  unfolding decode_ies loop_body
  read_end fuel d xs mem pos g e = rw e refl

  -- An entry at the head of the octets.
  read_entry :
      (fuel : ℕ) (d : GroupDef) (id : ℕ) (item : Item) (def : IeDef V) (v : Value V)
      (xs ys rest : List ℕ) (pos : ℕ) (g : Group V)
      → IsItem s d id item def
      → (not item.is_array && is_set id g.entries) ≡ false
      → length xs + 2 < 2 ^ 16
      → decode_ie
          (λ d' m n. decode_ies fuel s d' m 0 n empty_group [])
          def
          (xs ++ (ys ++ rest))
          (length xs)
        ≡ some (ok v, [])
      → decode_ies
          (suc fuel)
          s
          d
          (((put_header item (length xs) ++ xs) ++ ys) ++ rest)
          pos
          (length ((put_header item (length xs) ++ xs) ++ ys))
          g
          []
        ≡ decode_ies fuel s d
            (ys ++ rest)
            (pos + (header_size item + length xs))
            (length ys)
            (record g { entries = add g.entries id v })
            []
  unfolding decode_ies
  read_entry fuel d id item def v xs ys rest pos g w fresh short back =
      let head = put_header item (length xs) in
      let size : length ((head ++ xs) ++ ys) ≡ header_size item + length xs + length ys = omega (
        arith,
        length-append (head ++ xs) ys,
        length-append head xs,
        length-put_header item (length xs),
      ) in
      rw (size, append_assoc (head ++ xs) ys rest, append_assoc head xs (ys ++ rest))
        (read_ie s (decode_ies fuel s) d id item def v xs (ys ++ rest) pos (length ys) g [] w fresh
          short back)

  header_room : (item : Item) → 4 ≤ header_size item
  header_room item = ground arith

  -- The fuel for the contents of an entry, and for the entries behind it.
  entry_room :
      (item : Item) (xs p ys rest : List ℕ) (fuel : ℕ)
      → xs ≡ (put_header item (length p) ++ p) ++ ys
      → length (xs ++ rest) < suc fuel
      → (length (p ++ (ys ++ rest)) < fuel) × (length (ys ++ rest) < fuel)
  entry_room item xs p ys rest fuel e h =
      let head = put_header item (length p) in
      let size : length xs ≡ length ((head ++ p) ++ ys) = ap length e in
      omega (
        arith,
        header_room item,
        length-put_header item (length p),
        length-append xs rest,
        length-append (head ++ p) ys,
        length-append head p,
        length-append p (ys ++ rest),
        length-append ys rest,
      )

  mutual
    unfolding Fits Readable encode_value encode_entries in_order add_all

    read_value :
        (v : Value V) (def : IeDef V) (fuel : ℕ) (xs rest : List ℕ)
        → Fits s c v def
        → encode_value s v def ≡ some xs
        → length xs < 2 ^ 16
        → length (xs ++ rest) < fuel
        → decode_ie (λ d m n. decode_ies fuel s d m 0 n empty_group []) def (xs ++ rest) (length xs)
          ≡ some (ok v, [])
    read_value (plain v) (leaf f) fuel xs rest w e short enough =
        read_plain _ f v (xs ++ rest) (length xs) (decode-encode f v xs rest w e short)
    read_value (plain v) (grouped d) fuel xs rest w e short enough = absurd w
    read_value (group es ies) (leaf f) fuel xs rest w e short enough = absurd w
    read_value (group es ies) (grouped d) fuel xs rest (no_ies, readable, sorted, all) e short
          enough =
        let listed : in_order (encode_entries s d.items es) ≡ some xs =
          sym (gather-Ascending 0 d.items _ (rw zero-add sorted)) ∙ e in
        read_group _ d es ies (xs ++ rest) (length xs) no_ies (
          rw (add_all-end es, checked_answer d es all) at
            (read_entries es d end fuel xs rest 0 readable listed enough))

    read_entries :
        (es : Entries V) (d : GroupDef) (acc : Entries V) (fuel : ℕ) (xs rest : List ℕ) (pos : ℕ)
        → Readable s c es d acc
        → in_order (encode_entries s d.items es) ≡ some xs
        → length (xs ++ rest) < fuel
        → decode_ies fuel s d (xs ++ rest) pos (length xs) (record { entries = acc; ies = [] }) []
          ≡ some (
              check_mandatory d
                (record { entries = add_all acc es; ies = [] })
                (ok (record { entries = add_all acc es; ies = [] }))
                [])
    read_entries end d acc zero xs rest pos w e enough = elim enough [ ]
    read_entries end d acc (suc fuel) xs rest pos w e enough =
        read_end fuel d xs (xs ++ rest) pos (record { entries = acc; ies = [] }) (cc)
    read_entries (entry id v es) d acc zero xs rest pos w e enough = elim enough [ ]
    read_entries (entry id v es) d acc (suc fuel) xs rest pos
          (item, def, w, fresh, fits, short, more) e enough =
        let (a, ys, piece, others, whole) = join-some _ _ e in
        let (p, contents, written) =
          put_ie-some item _ (sym (put_known_item d id item def (encode_value s v) w) ∙ piece) in
        let octets : xs ≡ (put_header item (length p) ++ p) ++ ys = rw (← written) whole in
        let (room, room') = entry_room item xs p ys rest fuel octets enough in
        let small : length p + 2 < 2 ^ 16 = short p contents in
        rw octets (
          read_entry fuel d id item def v p ys rest pos (record { entries = acc; ies = [] }) w fresh
            small (read_value v def fuel p (ys ++ rest) fits contents (omega arith) room)
          ∙ read_entries es d (add acc id v) fuel ys rest _ more others room')

  -- A group whose entries stand in the order of the items, are values of their definitions and hold
  -- every mandatory one is read back from what `encode_group` wrote, with no other IEs and no
  -- offending ones, whatever lies in memory behind it and however deep its groups are.
  pub decode-encode_group :
      (d : GroupDef) (es : Entries V) (xs rest : List ℕ)
      → Readable s c es d end
      → Ascending 0 (length d.items) (encode_entries s d.items es)
      → missing d.mandatory 0 d.items es ≡ []
      → encode_group s d (record { entries = es; ies = [] }) ≡ some xs
      → decode_group s d (xs ++ rest) (length xs)
        ≡ some (answer (ok (record { entries = es; ies = [] })) [])
  unfolding decode_group encode_group
  decode-encode_group d es xs rest readable sorted all e =
      let listed : in_order (encode_entries s d.items es) ≡ some xs =
        sym (gather-Ascending 0 d.items _ (rw zero-add sorted)) ∙ e in
      rw (add_all-end es, checked_answer d es all) at
        (read_entries es d end (suc (length (xs ++ rest))) xs rest 0 readable listed (omega arith))
