-- ===== src/Group.antt =====
-- The group engine of upf/pfcp.c: `decode_group`, `encode_group` and what they call, over the tables
-- of IE definitions of upf/pfcp.h.
--
-- A structure that an IE without members is decoded into is a `V`, and the functions of its
-- definition are the members `decode` and `encode` of `Leaf`. The slots of a group, and the bits of
-- `fields`, are its entries: the bit of an id is set when there is an entry for it, and the vector of
-- an array holds the values of its entries in their order. `ies` holds positions in the octets.
-- Memory runs from the pointer on to the end of what may be read, as for an IE.
pub mod Read
pub mod Write
pub mod Total
pub mod Malformed
pub mod Mandatory
pub mod Listed
pub mod Order
pub mod Step
pub mod Fits
pub mod RoundTrip
use upg_vpp_tr.Base.{
  ℕ, zero, suc, ◌+◌, ◌-◌, ◌*◌, ◌/◌, ◌%◌, ◌^◌, Bool, true, false, not, ◌&&◌, ◌||◌, ltb, ◌==◌, has,
  List, [], ◌∷◌, ◌++◌, length, drop, if◌then◌else◌, Option, none, some,
}
use upg_vpp_tr.Wire.Defs.{
  Outcome, ok, err, fault, Cause, invalid_length, mandatory_ie_missing, put_u16,
}

-- `struct pfcp_group_ie_def`; the offset is the slot of the item's id.
pub record Item : Type 0 where
  pub kind : ℕ
  pub vendor : ℕ
  pub is_array : Bool

pub record GroupDef : Type 0 where
  pub mandatory : ℕ
  pub items : List Item

-- The functions of a definition. `none` stands for a result of `encode` that is not 0.
pub record Leaf (V : Type 0) : Type 0 where
  pub decode : List ℕ → ℕ → Outcome V
  pub encode : V → Option (List ℕ)

-- `struct pfcp_ie_def`: with members (`size != 0`) or without.
pub data IeDef (V : Type 0) : Type 0 where
  leaf : Leaf V → IeDef V
  grouped : GroupDef → IeDef V

-- `tgpp_specs`, `vendor_bbf_specs` and `vendor_tp_specs`: `none` is outside the array.
pub record Specs (V : Type 0) : Type 0 where
  pub tgpp : ℕ → Option (IeDef V)
  pub bbf : ℕ → Option (IeDef V)
  pub tp : ℕ → Option (IeDef V)

mutual
  pub data Value (V : Type 0) : Type 0 where
    plain : V → Value V
    group : Entries V → List ℕ → Value V

  pub data Entries (V : Type 0) : Type 0 where
    end : Entries V
    entry : ℕ → Value V → Entries V → Entries V

-- `struct pfcp_group`
pub record Group (V : Type 0) : Type 0 where
  pub entries : Entries V
  pub ies : List ℕ

abbrev pub vendor_bbf : ℕ
vendor_bbf = 3561

abbrev pub vendor_travelping : ℕ
vendor_travelping = 18681

-- The header of an IE. `vendor` is there when the type has the bit 0x8000; `header` is the number of
-- octets before the contents, `len` the u16 `length`.
pub record Ie : Type 0 where
  pub kind : ℕ
  pub vendor : Option ℕ
  pub header : ℕ
  pub len : ℕ

module _ {V : Type 0} where
  -- `ISSET_BIT (grp->fields, id)`
  unfoldable pub is_set : ℕ → Entries V → Bool
  is_set id end = false
  is_set id (entry i v es) = (i == id) || is_set id es

  -- A value for an id, behind those that are there.
  unfoldable pub add : Entries V → ℕ → Value V → Entries V
  add end id v = entry id v end
  add (entry i w es) id v = entry i w (add es id v)

  -- The vendor's table: `none` for a vendor that the code does not know.
  unfoldable pub specs_of : Specs V → Option ℕ → Option (ℕ → Option (IeDef V))
  specs_of s none = some s.tgpp
  specs_of s (some vendor) =
      if vendor == vendor_bbf
      then some s.bbf
      else if vendor == vendor_travelping
      then some s.tp
      else none

  -- `get_ie_def`: by the vendor of the item.
  unfoldable pub get_ie_def : Specs V → Item → Option (IeDef V)
  get_ie_def s item =
      if item.vendor == 0
      then s.tgpp item.kind
      else if item.vendor == vendor_bbf
      then s.bbf item.kind
      else if item.vendor == vendor_travelping
      then s.tp item.kind
      else none

-- `get_ie_spec`: the first item of a type, whatever its vendor, with its id.
unfoldable pub get_ie_spec : ℕ → List Item → ℕ → Option (ℕ × Item)
get_ie_spec id [] kind = none
get_ie_spec id (item ∷ items) kind =
    if not (item.kind == 0) && item.kind == kind
    then some (id, item)
    else get_ie_spec (suc id) items kind
