-- ===== src/Group/Order.antt =====
-- The order in which `encode_group` of upf/pfcp.c writes the entries of a group.
use upg_vpp_tr.Base.{
  ℕ, suc, ◌+◌, ◌<◌, ◌≤◌, ◌≡◌, refl, sym, ap, ◌∙◌, arith, false, ◌==◌, ==_iff, List, [], ◌∷◌,
  append_assoc, length, Option, none, some, Bool-cases, inl, inr,
}
use upg_vpp_tr.Group.{Item}
use upg_vpp_tr.Group.Write.{join, pick, gather}

abbrev pub Piece : Type 0
Piece = ℕ × Option (List ℕ)

-- The octets of pieces in the order of the list.
unfoldable pub in_order : List Piece → Option (List ℕ)
in_order [] = some []
in_order ((i, xs) ∷ ps) = join xs (in_order ps)

-- Ids that do not fall, from `lo` on and below `hi`.
abbrev pub Ascending : ℕ → ℕ → List Piece → Type 0
Ascending lo hi [] = Unit
Ascending lo hi ((i, xs) ∷ ps) = (lo ≤ i) × (i < hi) × Ascending i hi ps

pub join_assoc : (xs ys zs : Option (List ℕ)) → join xs (join ys zs) ≡ join (join xs ys) zs
unfolding join
join_assoc none ys zs = refl
join_assoc (some xs) none zs = refl
join_assoc (some xs) (some ys) none = refl
join_assoc (some xs) (some ys) (some zs) = ap some (sym (append_assoc xs ys zs))

join_empty : (xs : Option (List ℕ)) → join (some []) xs ≡ xs
unfolding join
join_empty none = refl
join_empty (some xs) = refl

-- What lies above an id is not picked for it.
pick-above : (id lo hi : ℕ) (ps : List Piece) → id < lo → Ascending lo hi ps → pick id ps ≡ some []
unfolding pick
pick-above id lo hi [] h a = refl
pick-above id lo hi ((i, xs) ∷ ps) h (l, b, a) =
    let other : (i == id) ≡ false = ground arith in rw other (pick-above id i hi ps (omega arith) a)

-- A piece below the first id is passed over.
gather-below :
    (lo i : ℕ) (xs : Option (List ℕ)) (items : List Item) (ps : List Piece)
    → i < lo
    → gather lo items ((i, xs) ∷ ps) ≡ gather lo items ps
unfolding gather pick
gather-below lo i xs [] ps h = refl
gather-below lo i xs (item ∷ items) ps h =
    let other : (i == lo) ≡ false = ground arith in
    rw (other, gather-below (suc lo) i xs items ps (omega arith)) refl

-- The pieces of one id, and then those above it.
gather_first :
    (lo hi : ℕ) (items : List Item) (ps : List Piece)
    → ((qs : List Piece) → Ascending (suc lo) hi qs → gather (suc lo) items qs ≡ in_order qs)
    → Ascending lo hi ps
    → join (pick lo ps) (gather (suc lo) items ps) ≡ in_order ps
unfolding in_order pick
gather_first lo hi items [] ih a = join_empty _ ∙ ih [] tt
gather_first lo hi items ((i, xs) ∷ ps) ih (l, b, a) = elim (Bool-cases (i == lo)) [
  | inl e ↦
      let same : i ≡ lo = (==_iff i lo).0 e in
      let from : Ascending lo hi ps = rw (← same) a in
      rw
        (
          e,
          gather-below (suc lo) i xs items ps (omega arith),
          ← join_assoc,
          gather_first lo hi items ps ih from,
        )
        refl
  | inr e ↦
      let above : lo < i = ground arith in
      rw (e, pick-above lo i hi ps above a, join_empty) (ih ((i, xs) ∷ ps) (omega arith, b, a))
]

-- Pieces with ids that do not fall are written in their order.
pub gather-Ascending :
    (lo : ℕ) (items : List Item) (ps : List Piece)
    → Ascending lo (lo + length items) ps
    → gather lo items ps ≡ in_order ps
unfolding gather in_order
gather-Ascending lo [] [] a = refl
gather-Ascending lo [] ((i, xs) ∷ ps) (l, b, a) = absurd (omega arith)
gather-Ascending lo (item ∷ items) ps a =
    let shift : suc lo + length items ≡ lo + length (item ∷ items) = omega arith in
    gather_first lo (lo + length (item ∷ items)) items ps
      (λ qs h. gather-Ascending (suc lo) items qs (rw shift h)) a
