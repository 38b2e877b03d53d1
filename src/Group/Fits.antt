-- ===== src/Group/Fits.antt =====
-- The groups that the group engine of upf/pfcp.c can read back, over structures that are read back.
use upg_vpp_tr.Base.{ℕ, ◌+◌, ◌^◌, ◌<◌, ◌≡◌, refl, false, not, ◌&&◌, List, [], ◌++◌, length, some}
use upg_vpp_tr.Wire.Defs.{ok}
use upg_vpp_tr.Group.{
  Item, GroupDef, Leaf, IeDef, leaf, grouped, Specs, Value, plain, group, Entries, end, entry,
  is_set, add,
}
use upg_vpp_tr.Group.Read.{missing}
use upg_vpp_tr.Group.Write.{encode_value, encode_entries}
use upg_vpp_tr.Group.Order.{Ascending}
use upg_vpp_tr.Group.Step.{IsItem}

-- The structures of the IEs without members that are read back.
pub record Codecs (V : Type 0) : Type 1 where
  pub IsPlain : Leaf V → V → Type 0
  pub decode-encode :
      (f : Leaf V) (v : V) (xs rest : List ℕ)
      → IsPlain f v
      → f.encode v ≡ some xs
      → length xs < 2 ^ 16
      → f.decode (xs ++ rest) (length xs) ≡ ok v

module _ {V : Type 0} where
  -- The entries of one list behind those of another.
  unfoldable pub add_all : Entries V → Entries V → Entries V
  add_all acc end = acc
  add_all acc (entry id v es) = add_all (add acc id v) es

  add_all-entry :
      (id : ℕ) (v : Value V) (acc es : Entries V)
      → add_all (entry id v acc) es ≡ entry id v (add_all acc es)
  unfolding add_all add
  add_all-entry id v acc end = refl
  add_all-entry id v acc (entry i w es) = add_all-entry id v (add acc i w) es

  pub add_all-end : (es : Entries V) → add_all end es ≡ es
  unfolding add_all add
  add_all-end end = refl
  add_all-end (entry id v es) = rw (add_all-entry id v end es, add_all-end es) refl

module _ {V : Type 0} (s : Specs V) (c : Codecs V) where
  open c use {IsPlain, decode-encode}

  unfoldable mutual
    -- A value of the structure that a definition asks for, with the groups in it as below.
    pub Fits : Value V → IeDef V → Type 0
    Fits (plain v) (leaf f) = IsPlain f v
    Fits (plain v) (grouped d) = ⊥
    Fits (group es ies) (leaf f) = ⊥
    Fits (group es ies) (grouped d) =
        (ies ≡ [])
        × Readable es d end
        × Ascending 0 (length d.items) (encode_entries s d.items es)
        × (missing d.mandatory 0 d.items es ≡ [])

    -- Entries behind those in `acc`: of known items, once unless the item is an array, each with a
    -- value of its definition whose octets fit the length of an IE.
    pub Readable : Entries V → GroupDef → Entries V → Type 0
    Readable end d acc = Unit
    Readable (entry id v es) d acc =
        (item : Item) × (def : IeDef V) × IsItem s d id item def
        × ((not item.is_array && is_set id acc) ≡ false)
        × Fits v def
        × ((xs : List ℕ) → encode_value s v def ≡ some xs → length xs + 2 < 2 ^ 16)
        × Readable es d (add acc id v)
