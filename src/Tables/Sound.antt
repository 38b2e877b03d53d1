-- ===== src/Tables/Sound.antt =====
-- What the tests of Upf say of the items and groups in the tables of upf/pfcp.c.
use upg_vpp_tr.Base.{
  ℕ, zero, suc, ◌+◌, ◌^◌, ◌<◌, ◌≤◌, ◌≡◌, refl, ◌∙◌, arith, Bool, true, false, ◌&&◌, ltb, ◌==◌, List,
  [], ◌∷◌, length, Option, none, some, ==_iff,
}
use upg_vpp_tr.Group.{Item, GroupDef, Leaf, IeDef, get_ie_spec, get_ie_def}
use upg_vpp_tr.Group.Write.{get_item}
use upg_vpp_tr.Group.Step.{IsItem}
use upg_vpp_tr.Group.Listed.{get_ie_spec-at}
use upg_vpp_tr.Tables.Codec.{Codec, Shape, simple, members}
use upg_vpp_tr.Tables.Upf.{
  ie_def, upf_groups, upf_specs, shape_of, is_first, is_there, item_fits, items_fit, group_fits,
  groups_fit,
}
use mathlib.Core.List.{Memᴰ}
use native.Mathlib.Nat.{add-zero, zero-add}

and_left : (a b : Bool) → (a && b) ≡ true → a ≡ true
and_left a b e = ground arith

and_right : (a b : Bool) → (a && b) ≡ true → b ≡ true
and_right a b e = ground arith

item_first :
    (items : List Item) (id kind : ℕ) (item : Item) (r : Option (ℕ × Item))
    → get_item items id ≡ some item
    → get_ie_spec 0 items kind ≡ r
    → is_first id r ≡ true
    → r ≡ some (id, item)
unfolding is_first
item_first items id kind item none at e first = cc
item_first items id kind item (some (i, x)) at e first =
    let (j, place, stands, used) = get_ie_spec-at 0 items kind i x e in
    let same : i ≡ id = (==_iff i id).0 first in
    let here : j ≡ id = omega arith in
    let stands' : get_item items id ≡ some x = rw (here) at stands in cc

items_fit-at :
    (all : List Item) (n : ℕ) (items : List Item) (j : ℕ) (item : Item)
    → items_fit all n items ≡ true
    → get_item items j ≡ some item
    → item_fits all (n + j) item ≡ true
unfolding items_fit get_item
items_fit-at all n [] j item fit e = cc
items_fit-at all n (x ∷ items) zero item fit e =
    let x_item : x ≡ item = cc in
    let fits : item_fits all n x ≡ true =
      and_left (item_fits all n x) (items_fit all (suc n) items) fit in
    rw (add-zero n, ← x_item) fits
items_fit-at all n (x ∷ items) (suc j) item fit e =
    let shift : n + suc j ≡ suc n + j = omega arith in
    rw shift (items_fit-at all (suc n) items j item (and_right (item_fits all n x) _ fit) e)

there_known :
    {V : Type 0} (leafs : Codec → Leaf V) (o : Option Shape)
    → is_there o ≡ true
    → (def : IeDef V) × (ie_def leafs o ≡ some def)
unfolding is_there
there_known leafs none e = cc
there_known leafs (some (simple c)) e = (_, refl)
there_known leafs (some (members m items)) e = (_, refl)

def_of_shape :
    {V : Type 0} (leafs : Codec → Leaf V) (item : Item)
    → get_ie_def (upf_specs leafs) item ≡ ie_def leafs (shape_of item)
unfolding get_ie_def upf_specs shape_of
def_of_shape leafs item = ground arith

-- An item that passes the test is an item of its group, whatever the functions of the definitions.
item_fits-IsItem :
    {V : Type 0} (leafs : Codec → Leaf V) (d : GroupDef) (id : ℕ) (item : Item)
    → (item.kind == 0) ≡ false
    → get_item d.items id ≡ some item
    → item_fits d.items id item ≡ true
    → (def : IeDef V) × IsItem (upf_specs leafs) d id item def
unfolding item_fits
item_fits-IsItem leafs d id item kind at fit =
    let tests : (is_first id (get_ie_spec 0 d.items item.kind)
          && (is_there (shape_of item) && (ltb item.kind (2 ^ 15) && ltb item.vendor (2 ^ 16))))
        ≡ true =
      rw kind at fit in
    let first = and_left (is_first id (get_ie_spec 0 d.items item.kind)) _ tests in
    let others = and_right (is_first id (get_ie_spec 0 d.items item.kind)) _ tests in
    let (def, known) =
      there_known leafs (shape_of item) (and_left (is_there (shape_of item)) _ others) in
    let sizes = and_right (is_there (shape_of item)) _ others in
    (
      def,
      record {
        found = item_first d.items id item.kind item _ at refl first;
        listed = at;
        known = def_of_shape leafs item ∙ known;
        some_kind = kind;
        kind_ok = ground arith;
        vendor_ok = ground arith;
      },
    )

upf_groups-fit : groups_fit upf_groups ≡ true
unfolding groups_fit upf_groups
upf_groups-fit = refl

groups_fit-at :
    (ds : List GroupDef) (d : GroupDef) → groups_fit ds ≡ true → Memᴰ d ds → group_fits d ≡ true
unfolding groups_fit
groups_fit-at [] d fit m = elim m [ ]
groups_fit-at (x ∷ ds) d fit (Memᴰ.head e) = rw e (and_left (group_fits x) (groups_fit ds) fit)
groups_fit-at (x ∷ ds) d fit (Memᴰ.tail m) =
    groups_fit-at ds d (and_right (group_fits x) (groups_fit ds) fit) m

group_fits-items : (d : GroupDef) → group_fits d ≡ true → items_fit d.items 0 d.items ≡ true
unfolding group_fits
group_fits-items d fit = and_left (items_fit d.items 0 d.items) _ fit

group_fits-bits :
    (d : GroupDef)
    → group_fits d ≡ true
    → (length d.items ≤ 32) × (d.mandatory < 2 ^ length d.items)
unfolding group_fits
group_fits-bits d fit =
    let sizes = and_right (items_fit d.items 0 d.items) _ fit in (ground arith, ground arith)

-- Every item with a type other than 0, of every group in the tables, has a type that no item of the
-- group before it has, a definition in the table of its vendor, and a type and a vendor that fit a
-- header: what the round trip of a group asks of an item. An item of type 0 is no such item.
pub upf-IsItem :
    {V : Type 0} (leafs : Codec → Leaf V) (d : GroupDef) (id : ℕ) (item : Item)
    → Memᴰ d upf_groups
    → get_item d.items id ≡ some item
    → (item.kind == 0) ≡ false
    → (def : IeDef V) × IsItem (upf_specs leafs) d id item def
upf-IsItem leafs d id item m at kind =
    let fit = group_fits-items d (groups_fit-at upf_groups d upf_groups-fit m) in
    item_fits-IsItem leafs d id item kind at
      (rw zero-add at (items_fit-at d.items 0 d.items id item fit at))

-- Every group in the tables has at most 32 slots, so that the id of each is a bit of the 32-bit
-- `fields`, and its mask of mandatory IEs has no bit beyond its slots; a slot may be a free one.
pub upf-Bits :
    (d : GroupDef) → Memᴰ d upf_groups → (length d.items ≤ 32) × (d.mandatory < 2 ^ length d.items)
upf-Bits d m = group_fits-bits d (groups_fit-at upf_groups d upf_groups-fit m)
