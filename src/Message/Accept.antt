-- ===== src/Message/Accept.antt =====
-- The messages that `pfcp_decode_msg` of upf/pfcp.c accepts.
use upg_vpp_tr.Base.{
  ℕ, ◌+◌, ◌-◌, ◌≤◌, ◌≡◌, ◌≢◌, refl, sym, ap, ◌∙◌, arith, Bool, true, false, ltb, ◌==◌, List, [],
  length, drop, if◌then◌else◌, Option, none, some, Bool-cases, inl, inr,
}
use upg_vpp_tr.Wire.Defs.{Outcome, ok, err, fault, failure}
use upg_vpp_tr.Group.{GroupDef, Specs, Group}
use upg_vpp_tr.Group.Read.{Answer, answer, missing, decode_group}
use upg_vpp_tr.Group.Mandatory.{decode_group-Complete}
use upg_vpp_tr.Message.{
  Prefix, no_prefix, DecodedMsg, pfcp_msg_type, pfcp_msg_length, pfcp_msg_s_flag, pfcp_msg_seq,
  pfcp_msg_seid, pfcp_msg_enough_len, pfcp_is_session_msg, hdr_len, prefix_of, same, reply,
  with_group, decode_contents, decode_known_msg, pfcp_decode_msg,
}

same-true : (a b : Bool) → same a b ≡ true → a ≡ b
unfolding same
same-true true b e = sym e
same-true false true e = cc
same-true false false e = refl

module _ {V : Type 0} (s : Specs V) (msgs : ℕ → Option GroupDef) where
  -- What a message has to be for its group to be read.
  pub record IsRead (mem : List ℕ) (len : ℕ) (r : DecodedMsg V) : Type 0 where
    pub def : GroupDef
    pub known : msgs (pfcp_msg_type mem) ≡ some def
    pub room : hdr_len (pfcp_msg_type mem) ≤ len
    pub fits : pfcp_msg_length mem + 4 ≤ len
    pub flagged : pfcp_is_session_msg (pfcp_msg_type mem) ≡ pfcp_msg_s_flag mem
    pub prefix_read : r.prefix ≡ prefix_of (pfcp_msg_type mem) mem
    pub group_read :
        decode_group s def
          (drop (hdr_len (pfcp_msg_type mem)) mem)
          (pfcp_msg_length mem + 4 - hdr_len (pfcp_msg_type mem))
        ≡ some r.answer

  with_group-some :
      (m : Prefix) (a : Option (Answer V)) (r : DecodedMsg V)
      → with_group m a ≡ some r
      → (r.prefix ≡ m) × (a ≡ some r.answer)
  unfolding with_group
  with_group-some m none r e = cc
  with_group-some m (some a) r e = ground arith

  abbrev Accepted : DecodedMsg V → Type 0
  Accepted r = (g : Group V) × (r.answer.result ≡ ok g)

  -- An accepted message is not one that a test refused.
  cut :
      (b : Bool) (o : Outcome (Group V)) (x : Option (DecodedMsg V)) (r : DecodedMsg V)
      → Accepted r
      → ((g : Group V) → o ≢ ok g)
      → (if b then some (reply no_prefix o) else x) ≡ some r
      → x ≡ some r
  cut true o x r (g, accepted) apart e = absurd (apart g (cc))
  cut false o x r a apart e = e

  contents_read :
      (d : GroupDef) (kind : ℕ) (mem : List ℕ) (len : ℕ) (r : DecodedMsg V)
      → Accepted r
      → decode_contents s d kind mem len ≡ some r
      → (pfcp_msg_length mem + 4 ≤ len)
        × (pfcp_is_session_msg kind ≡ pfcp_msg_s_flag mem)
        × (with_group
              (prefix_of kind mem)
              (decode_group s d (drop (hdr_len kind) mem) (pfcp_msg_length mem + 4 - hdr_len kind))
            ≡ some r)
  unfolding decode_contents
  contents_read d kind mem len r (g, accepted) e =
      let agree = same-true (pfcp_is_session_msg kind) (pfcp_msg_s_flag mem) in
      elim (Bool-cases (ltb len (pfcp_msg_length mem + 4))) [
        | inl short ↦ cc
        | inr enough ↦ elim (Bool-cases (same (pfcp_is_session_msg kind) (pfcp_msg_s_flag mem))) [
          | inl matching ↦ (ground arith, agree matching, ground arith)
          | inr other ↦ cc
        ]
      ]

  known-IsRead :
      (d : Option GroupDef) (mem : List ℕ) (len : ℕ) (r : DecodedMsg V)
      → Accepted r
      → msgs (pfcp_msg_type mem) ≡ d
      → hdr_len (pfcp_msg_type mem) ≤ len
      → decode_known_msg s d (pfcp_msg_type mem) mem len ≡ some r
      → IsRead mem len r
  unfolding decode_known_msg
  known-IsRead none mem len r a known room e =
      let bad : none ≡ some r = cut true (err failure) none r a (λ g k. cc) e in cc
  known-IsRead (some d) mem len r a known room e =
      let there : decode_contents s d (pfcp_msg_type mem) mem len ≡ some r =
        cut (ltb (length mem) (hdr_len (pfcp_msg_type mem))) fault _ r a (λ g k. cc) e in
      let (fits, flagged, inner) = contents_read d (pfcp_msg_type mem) mem len r a there in
      let (prefix_read, group_read) = with_group-some _ _ r inner in
      record {
        def = d;
        known = known;
        room = room;
        fits = fits;
        flagged = flagged;
        prefix_read = prefix_read;
        group_read = group_read;
      }

  -- A message whose group is accepted has a known type, a whole header, a length that it does not
  -- exceed and the flag of its type, and its group is what `decode_group` reads behind the header.
  pub decode_msg-IsRead :
      (mem : List ℕ) (len : ℕ) (r : DecodedMsg V)
      → Accepted r
      → pfcp_decode_msg s msgs mem len ≡ some r
      → IsRead mem len r
  unfolding pfcp_decode_msg
  decode_msg-IsRead mem len r a e =
      let e1 = cut (len == 0) (err failure) _ r a (λ g k. cc) e in
      let e2 = cut (ltb (length mem) 2) fault _ r a (λ g k. cc) e1 in
      elim (Bool-cases (ltb len (hdr_len (pfcp_msg_type mem)))) [
        | inl short ↦ cc
        | inr enough ↦
            known-IsRead (msgs (pfcp_msg_type mem)) mem len r a refl (ground arith)
              (cut (ltb len (hdr_len (pfcp_msg_type mem))) (err failure) _ r a (λ g k. cc) e2)
      ]

  -- For an accepted message the quick accessors agree with what was decoded: it has the type, the
  -- sequence number and, in a session message, the SEID that they give, and is long enough for them.
  pub decode_msg-accessors :
      (mem : List ℕ) (len : ℕ) (r : DecodedMsg V)
      → Accepted r
      → pfcp_decode_msg s msgs mem len ≡ some r
      → (r.prefix.kind ≡ pfcp_msg_type mem)
        × (r.prefix.seq_no ≡ pfcp_msg_seq mem)
        × (pfcp_msg_s_flag mem ≡ true → r.prefix.seid ≡ pfcp_msg_seid mem)
        × (pfcp_msg_enough_len mem len ≡ true)
  unfolding pfcp_msg_seq pfcp_msg_seid pfcp_msg_enough_len prefix_of hdr_len
  decode_msg-accessors mem len r a e =
      let w = decode_msg-IsRead mem len r a e in
      rw (w.prefix_read, w.flagged)
        (elim (Bool-cases (pfcp_msg_s_flag mem)) [
          | inl session ↦
              rw session (refl, refl, λ k. refl, ground (arith, w.room, w.fits, w.flagged))
          | inr node ↦ rw node (refl, refl, λ k. cc, ground (arith, w.room, w.fits, w.flagged))
        ])

  -- An accepted message has a definition, and its group every IE that the definition calls mandatory.
  pub decode_msg-Complete :
      (mem : List ℕ) (len : ℕ) (m : Prefix) (g : Group V) (offending : List ℕ)
      → pfcp_decode_msg s msgs mem len
        ≡ some (record { prefix = m; answer = answer (ok g) offending })
      → (d : GroupDef) × (msgs m.kind ≡ some d) × (missing d.mandatory 0 d.items g.entries ≡ [])
  decode_msg-Complete mem len m g offending e =
      let r : DecodedMsg V = record { prefix = m; answer = answer (ok g) offending } in
      let w = decode_msg-IsRead mem len r (g, refl) e in
      let (same_kind, _, _, _) = decode_msg-accessors mem len r (g, refl) e in
      (
        w.def,
        ap msgs same_kind ∙ w.known,
        decode_group-Complete s w.def _ _ g offending w.group_read,
      )
