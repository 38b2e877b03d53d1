-- ===== src/Tables/Upf.antt =====
-- `tgpp_specs`, `vendor_tp_specs`, `vendor_bbf_specs` and `msg_specs` of upf/pfcp.c as arrays.
use upg_vpp_tr.Base.{
  ℕ, suc, ◌^◌, Bool, true, false, ◌&&◌, ◌||◌, ltb, leb, ◌==◌, List, [], ◌∷◌, ◌++◌, length,
  if◌then◌else◌, Option, none, some,
}
use upg_vpp_tr.Group.{
  Item, GroupDef, Leaf, IeDef, leaf, grouped, Specs, get_ie_spec, vendor_bbf, vendor_travelping,
}
use upg_vpp_tr.Tables.Codec.{Codec, Shape, simple, members}
use upg_vpp_tr.Tables.SpecsA.{rule_specs}
use upg_vpp_tr.Tables.SpecsB.{session_specs}
use upg_vpp_tr.Tables.SpecsC.{traffic_specs}
use upg_vpp_tr.Tables.SpecsVendor.{vendor_tp_specs, vendor_bbf_specs}
use upg_vpp_tr.Tables.SpecsMessage.{msg_specs}

abbrev pub tgpp_specs : List (ℕ × Shape)
tgpp_specs = rule_specs ++ (session_specs ++ traffic_specs)

unfoldable pub later {ℓ} : {A : Type ℓ} → Option A → Option A → Option A
later first none = first
later first (some a) = some a

-- An initializer for the same index overrides the ones before it.
unfoldable pub lookup {ℓ} : {A : Type ℓ} → List (ℕ × A) → ℕ → Option A
unfolding later
lookup [] k = none
lookup ((n, a) ∷ es) k = later (if n == k then some a else none) (lookup es k)

-- An entry without an initializer has no function that could be called: `none`.
abbrev pub ie_def : {V : Type 0} → (Codec → Leaf V) → Option Shape → Option (IeDef V)
ie_def leafs none = none
ie_def leafs (some (simple c)) = some (leaf (leafs c))
ie_def leafs (some (members mandatory items)) =
    some (grouped (record { mandatory = mandatory; items = items }))

unfoldable pub upf_specs : {V : Type 0} → (Codec → Leaf V) → Specs V
unfolding lookup
upf_specs leafs = record {
  tgpp = λ kind. ie_def leafs (lookup tgpp_specs kind);
  bbf = λ kind. ie_def leafs (lookup vendor_bbf_specs kind);
  tp = λ kind. ie_def leafs (lookup vendor_tp_specs kind);
}

-- An entry without an initializer has size 0.
unfoldable pub group_or_empty : Option GroupDef → GroupDef
group_or_empty none = record { mandatory = 0; items = [] }
group_or_empty (some d) = d

-- The last entry of `msg_specs` is for type 57.
unfoldable pub upf_messages : ℕ → Option GroupDef
unfolding lookup group_or_empty
upf_messages kind = if ltb kind 58 then some (group_or_empty (lookup msg_specs kind)) else none

-- The groups of a table of IE definitions, and of `msg_specs`.
unfoldable pub groups_of : List (ℕ × Shape) → List GroupDef
groups_of [] = []
groups_of ((n, simple c) ∷ es) = groups_of es
groups_of ((n, members mandatory items) ∷ es) =
    record { mandatory = mandatory; items = items } ∷ groups_of es

unfoldable pub groups_of_messages : List (ℕ × GroupDef) → List GroupDef
groups_of_messages [] = []
groups_of_messages ((n, d) ∷ es) = d ∷ groups_of_messages es

-- The groups of the tables, in the order of the tables.
unfoldable pub upf_groups : List GroupDef
unfolding groups_of groups_of_messages
upf_groups =
    groups_of rule_specs
    ++ (groups_of session_specs
        ++ (groups_of traffic_specs ++ (groups_of vendor_tp_specs ++ groups_of_messages msg_specs)))

-- The entry of an item, in the table of its vendor.
unfoldable pub shape_of : Item → Option Shape
unfolding lookup
shape_of item =
    if item.vendor == 0
    then lookup tgpp_specs item.kind
    else if item.vendor == vendor_bbf
    then lookup vendor_bbf_specs item.kind
    else if item.vendor == vendor_travelping
    then lookup vendor_tp_specs item.kind
    else none

unfoldable pub is_first : ℕ → Option (ℕ × Item) → Bool
is_first id none = false
is_first id (some (i, item)) = i == id

unfoldable pub is_there : Option Shape → Bool
is_there none = false
is_there (some s) = true

-- A slot is free, or its item is the first of its type, has an entry, and fits a header.
unfoldable pub item_fits : List Item → ℕ → Item → Bool
unfolding is_first is_there get_ie_spec shape_of
item_fits items id item =
    (item.kind == 0)
    || (is_first id (get_ie_spec 0 items item.kind)
        && (is_there (shape_of item) && (ltb item.kind (2 ^ 15) && ltb item.vendor (2 ^ 16))))

unfoldable pub items_fit : List Item → ℕ → List Item → Bool
unfolding item_fits
items_fit all id [] = true
items_fit all id (item ∷ items) = item_fits all id item && items_fit all (suc id) items

-- The ids are bits of a u32, and so are those of the mandatory items.
unfoldable pub group_fits : GroupDef → Bool
unfolding items_fit
group_fits d =
    items_fit d.items 0 d.items && (leb (length d.items) 32 && ltb d.mandatory (2 ^ length d.items))

unfoldable pub groups_fit : List GroupDef → Bool
unfolding group_fits
groups_fit [] = true
groups_fit (d ∷ ds) = group_fits d && groups_fit ds
