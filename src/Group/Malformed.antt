-- ===== src/Group/Malformed.antt =====
-- What `decode_group` of upf/pfcp.c makes of octets that `encode_group` does not write.
use upg_vpp_tr.Base.{
  ℕ, suc, ◌+◌, ◌-◌, ◌*◌, ◌^◌, ◌<◌, ◌≤◌, ◌≡◌, refl, ◌∙◌, arith, false, ◌==◌, List, [], ◌∷◌, length,
  drop, none, some,
}
use upg_vpp_tr.Wire.Defs.{ok, err, fault, invalid_length}
use upg_vpp_tr.Group.{GroupDef, Specs, Group, Ie, specs_of}
use upg_vpp_tr.Group.Read.{
  frame, vendor_frame, check_mandatory, keep_ie, dispatch, after_ie, after_frame, loop_body,
  empty_group, decode_ies, decode_group, answer,
}

module _ {V : Type 0} (s : Specs V) (d : GroupDef) where
  -- One to three octets where a header belongs are read as a header, past the end of the group.
  pub decode_group-short :
      (mem : List ℕ) (len : ℕ)
      → length mem < 4
      → 0 < len
      → decode_group s d mem len ≡ some (answer fault [])
  unfolding decode_group decode_ies loop_body frame after_frame
  decode_group-short [] len h k = ground arith
  decode_group-short (a ∷ []) len h k = ground arith
  decode_group-short (a ∷ b ∷ []) len h k = ground arith
  decode_group-short (a ∷ b ∷ c ∷ []) len h k = ground arith
  decode_group-short (a ∷ b ∷ c ∷ e ∷ mem) len h k = absurd (omega arith)

  -- An IE that declares more octets than the group has left ends the group with INVALID_LENGTH,
  -- before the contents are looked at and whatever IEs are missing.
  pub decode_group-truncated :
      (t1 t0 l1 l0 : ℕ) (mem : List ℕ) (len : ℕ)
      → 0 < len
      → len < 4 + (l1 * 256 + l0)
      → decode_group s d (t1 ∷ t0 ∷ l1 ∷ l0 ∷ mem) len ≡ some (answer (err invalid_length) [])
  unfolding decode_group decode_ies loop_body frame after_frame
  decode_group-truncated t1 t0 l1 l0 mem len h k = ground arith

  abbrev hidden_ie : ℕ → ℕ → ℕ → Ie
  hidden_ie kind l vendor = record {
    kind = kind - 2 ^ 15;
    vendor = some vendor;
    header = 6;
    len = 65534 + l;
  }

  frame_hidden :
      (t1 t0 l0 v1 v0 : ℕ) (mem : List ℕ) (len : ℕ)
      → 2 ^ 15 ≤ t1 * 256 + t0
      → l0 < 2
      → 6 ≤ len
      → frame (t1 ∷ t0 ∷ 0 ∷ l0 ∷ v1 ∷ v0 ∷ mem) len
        ≡ ok (hidden_ie (t1 * 256 + t0) l0 (v1 * 256 + v0))
  unfolding frame vendor_frame
  frame_hidden t1 t0 l0 v1 v0 mem len h k small = ground arith

  loop_ends :
      (fuel : ℕ) (mem : List ℕ) (pos left : ℕ) (g : Group V)
      → left ≡ 0
      → decode_ies (suc fuel) s d mem pos left g [] ≡ some (check_mandatory d g (ok g) [])
  unfolding decode_ies loop_body
  loop_ends fuel mem pos left g e = rw e refl

  -- One turn on a frame of an unknown vendor.
  unknown_ie :
      (fuel : ℕ) (mem : List ℕ) (left : ℕ) (ie : Ie)
      → (left == 0) ≡ false
      → frame mem left ≡ ok ie
      → specs_of s ie.vendor ≡ none
      → decode_ies (suc fuel) s d mem 0 left empty_group []
        ≡ decode_ies fuel s d
            (drop (ie.header + ie.len) mem)
            (0 + (ie.header + ie.len))
            (left - (ie.header + ie.len))
            (keep_ie empty_group 0)
            []
  unfolding decode_ies loop_body after_frame
  unknown_ie fuel mem left ie e k unknown = rw (e, k, after_frame, unknown, dispatch, after_ie) refl

  -- A group of 6 to 65540 octets whose first IE is of a vendor without a table, with a length of 0 or 1,
  -- is read no further: that IE is kept as one at position 0 that is not decoded, and the mandatory
  -- IEs are looked for in a group that has nothing else.
  pub decode_group-hidden :
      (t1 t0 l0 v1 v0 : ℕ) (mem : List ℕ) (len : ℕ)
      → 2 ^ 15 ≤ t1 * 256 + t0
      → l0 < 2
      → specs_of s (some (v1 * 256 + v0)) ≡ none
      → 6 ≤ len
      → len ≤ 65540
      → decode_group s d (t1 ∷ t0 ∷ 0 ∷ l0 ∷ v1 ∷ v0 ∷ mem) len
        ≡ some (check_mandatory d (keep_ie empty_group 0) (ok (keep_ie empty_group 0)) [])
  unfolding decode_group
  decode_group-hidden t1 t0 l0 v1 v0 mem len h k unknown small big =
      let more : (len == 0) ≡ false = ground arith in
      unknown_ie (suc (suc (suc (suc (suc (suc (length mem))))))) (t1 ∷ t0 ∷ 0 ∷ l0 ∷ v1 ∷ v0 ∷ mem)
        len (hidden_ie (t1 * 256 + t0) l0 (v1 * 256 + v0)) more
        (frame_hidden t1 t0 l0 v1 v0 mem len h k small) unknown
      ∙ loop_ends (suc (suc (suc (suc (suc (length mem))))))
          (drop {A = ℕ} (6 + (65534 + l0)) (t1 ∷ t0 ∷ 0 ∷ l0 ∷ v1 ∷ v0 ∷ mem))
          (0 + (6 + (65534 + l0))) (len - (6 + (65534 + l0))) (keep_ie empty_group 0) (omega arith)
