-- ===== src/Group/Write.antt =====
-- `encode_group`, `encode_vector_ie` and `encode_ie` of upf/pfcp.c, and the headers that they write.
use upg_vpp_tr.Base.{
  ℕ, zero, suc, ◌+◌, ◌%◌, ◌^◌, ◌&&◌, ◌==◌, List, [], ◌∷◌, ◌++◌, length, if◌then◌else◌, Option, none,
  some,
}
use upg_vpp_tr.Wire.Defs.{put_u16}
use upg_vpp_tr.Group.{
  Item, GroupDef, IeDef, leaf, grouped, Specs, Value, plain, group, Entries, end, entry, Group,
  get_ie_def,
}

-- The header with its final length, `finalize_ie`: the octets behind the length field.
unfoldable pub put_header : Item → ℕ → List ℕ
put_header item n =
    if item.vendor == 0
    then put_u16 item.kind ++ put_u16 n
    else put_u16 (2 ^ 15 + item.kind % 2 ^ 15) ++ (put_u16 (2 + n) ++ put_u16 item.vendor)

unfoldable pub join : Option (List ℕ) → Option (List ℕ) → Option (List ℕ)
join none ys = none
join (some xs) none = none
join (some xs) (some ys) = some (xs ++ ys)

-- A header with the contents behind it; a failure to encode them removes the header.
unfoldable pub put_ie : Item → Option (List ℕ) → Option (List ℕ)
unfolding put_header
put_ie item none = none
put_ie item (some xs) = some (put_header item (length xs) ++ xs)

unfoldable pub get_item : List Item → ℕ → Option Item
get_item [] id = none
get_item (item ∷ items) zero = some item
get_item (item ∷ items) (suc id) = get_item items id

-- The octets for an id, in the order of its vector.
unfoldable pub pick : ℕ → List (ℕ × Option (List ℕ)) → Option (List ℕ)
unfolding join
pick id [] = some []
pick id ((i, xs) ∷ ps) = let rest = pick id ps in if i == id then join xs rest else rest

-- The loop of `encode_group` over the items, from id `id` on.
unfoldable pub gather : ℕ → List Item → List (ℕ × Option (List ℕ)) → Option (List ℕ)
unfolding join pick
gather id [] ps = some []
gather id (item ∷ items) ps = join (pick id ps) (gather (suc id) items ps)

-- An empty or unknown item writes nothing.
unfoldable pub put_known :
    {V : Type 0} → Specs V → (IeDef V → Option (List ℕ)) → Option Item → Option (List ℕ)
unfolding get_ie_def put_ie
put_known s contents none = some []
put_known s contents (some item) =
    if (item.kind == 0) && (item.vendor == 0)
    then some []
    else elim (get_ie_def s item) [ none ↦ some [] | some d ↦ put_ie item (contents d) ]

unfoldable mutual
  pub encode_value : {V : Type 0} → Specs V → Value V → IeDef V → Option (List ℕ)
  encode_value s (plain v) (leaf f) = f.encode v
  encode_value s (plain v) (grouped d) = none
  encode_value s (group es ies) (leaf f) = none
  encode_value s (group es ies) (grouped d) = gather 0 d.items (encode_entries s d.items es)

  -- The octets of each entry, with its id.
  pub encode_entries : {V : Type 0} → Specs V → List Item → Entries V → List (ℕ × Option (List ℕ))
  encode_entries s items end = []
  encode_entries s items (entry id v es) =
      (id, put_known s (encode_value s v) (get_item items id)) ∷ encode_entries s items es

unfoldable pub encode_group : {V : Type 0} → Specs V → GroupDef → Group V → Option (List ℕ)
unfolding gather encode_entries
encode_group s d g = gather 0 d.items (encode_entries s d.items g.entries)
