-- ===== src/Message/Errors.antt =====
-- The answers of `pfcp_decode_msg` of upf/pfcp.c to messages that it does not read.
use upg_vpp_tr.Base.{
  ap, ◌∙◌, ◌++◌, ℕ, ◌+◌, ◌-◌, ◌<◌, ◌≤◌, ◌≡◌, ◌≢◌, ◌⊎◌, refl, arith, false, ltb, ◌==◌, List, length,
  drop, if◌then◌else◌, Option, none, some, inl, inr,
}
use upg_vpp_tr.Wire.Defs.{Cause, err, failure, invalid_length, request_rejected}
use upg_vpp_tr.Group.{GroupDef, Specs}
use upg_vpp_tr.Group.Read.{Answer}
use upg_vpp_tr.Group.Total.{decode_group-ends}
use upg_vpp_tr.Message.{
  Prefix, no_prefix, pfcp_msg_type, pfcp_msg_length, pfcp_msg_s_flag, pfcp_is_session_msg, hdr_len,
  prefix_of, same, reply, with_group, decode_contents, decode_known_msg, pfcp_decode_msg,
}
use upg_vpp_tr.Message.Start.{
  Start, start_octets, told, IsOfType, IsRefused, start_kind, start_size, start_prefix, wrong_cause,
}

hdr_len_low : (kind : ℕ) → 8 ≤ hdr_len kind
unfolding hdr_len
hdr_len_low kind = ground arith

module _ {V : Type 0} (s : Specs V) (msgs : ℕ → Option GroupDef) where
  with_group-ends : (m : Prefix) (a : Option (Answer V)) → a ≢ none → with_group m a ≢ none
  unfolding with_group
  with_group-ends m none h = λ e. h refl
  with_group-ends m (some a) h = λ e. cc

  contents-ends :
      (d : GroupDef) (kind : ℕ) (mem : List ℕ) (len : ℕ) → decode_contents s d kind mem len ≢ none
  unfolding decode_contents
  contents-ends d kind mem len =
      let inside = with_group-ends (prefix_of kind mem) _ (
        decode_group-ends s d (drop (hdr_len kind) mem) (pfcp_msg_length mem + 4 - hdr_len kind)) in
      ground arith

  known-ends :
      (d : Option GroupDef) (kind : ℕ) (mem : List ℕ) (len : ℕ)
      → decode_known_msg s d kind mem len ≢ none
  unfolding decode_known_msg
  known-ends none kind mem len = λ e. cc
  known-ends (some d) kind mem len = let inside = contents-ends d kind mem len in ground arith

  -- `pfcp_decode_msg` ends on any octets and any declared length.
  pub decode_msg-ends : (mem : List ℕ) (len : ℕ) → pfcp_decode_msg s msgs mem len ≢ none
  unfolding pfcp_decode_msg
  decode_msg-ends mem len =
      let inside = known-ends (msgs (pfcp_msg_type mem)) (pfcp_msg_type mem) mem len in ground arith

  contents_refused :
      (d : GroupDef) (kind : ℕ) (mem : List ℕ) (len : ℕ)
      → (len < pfcp_msg_length mem + 4)
        ⊎ (same (pfcp_is_session_msg kind) (pfcp_msg_s_flag mem) ≡ false)
      → decode_contents s d kind mem len
        ≡ some (
            reply (prefix_of kind mem) (
              err (if ltb len (pfcp_msg_length mem + 4) then invalid_length else request_rejected)))
  unfolding decode_contents
  contents_refused d kind mem len (inl long) = ground arith
  contents_refused d kind mem len (inr other) = ground (arith, other)

  -- A message whose header is not whole, or whose type is unknown, cannot be answered: nothing of it
  -- is kept.
  pub decode_msg-unanswered :
      (mem : List ℕ) (len : ℕ)
      → 2 ≤ length mem
      → (len < hdr_len (pfcp_msg_type mem)) ⊎ (msgs (pfcp_msg_type mem) ≡ none)
      → pfcp_decode_msg s msgs mem len ≡ some (reply no_prefix (err failure))
  unfolding pfcp_decode_msg
  decode_msg-unanswered mem len two (inl short) = ground arith
  decode_msg-unanswered mem len two (inr unknown) =
      let refused : decode_known_msg s (msgs (pfcp_msg_type mem)) (pfcp_msg_type mem) mem len
          ≡ some (reply no_prefix (err failure)) =
        rw (unknown, decode_known_msg) refl in
      ground (arith, refused)

  known_refused :
      (mem : List ℕ) (len : ℕ) (d : GroupDef)
      → msgs (pfcp_msg_type mem) ≡ some d
      → hdr_len (pfcp_msg_type mem) ≤ len
      → len ≤ length mem
      → (len < pfcp_msg_length mem + 4)
        ⊎ (same (pfcp_is_session_msg (pfcp_msg_type mem)) (pfcp_msg_s_flag mem) ≡ false)
      → pfcp_decode_msg s msgs mem len
        ≡ some (
            reply (prefix_of (pfcp_msg_type mem) mem) (
              err (if ltb len (pfcp_msg_length mem + 4) then invalid_length else request_rejected)))
  unfolding pfcp_decode_msg decode_known_msg decode_contents
  known_refused mem len d known room there wrong =
      let long = hdr_len_low (pfcp_msg_type mem) in
      let inside : decode_contents s d (pfcp_msg_type mem) mem len
          ≡ some (
              reply (prefix_of (pfcp_msg_type mem) mem) (
                err (
                  if ltb len (pfcp_msg_length mem + 4)
                  then invalid_length
                  else request_rejected))) =
        contents_refused d (pfcp_msg_type mem) mem len wrong in
      let more : (len == 0) ≡ false = ground arith in
      let two : ltb (length mem) 2 ≡ false = ground arith in
      let enough : ltb len (hdr_len (pfcp_msg_type mem)) ≡ false = ground arith in
      let held : ltb (length mem) (hdr_len (pfcp_msg_type mem)) ≡ false = ground arith in
      rw (more, two, enough, known, decode_known_msg, held) inside

  -- A message of a known type with a whole header that declares more octets than there are is answered
  -- with INVALID_LENGTH, and one that has its octets and not the flag of its type with REQUEST_REJECTED.
  -- For the answer its type is kept, its sequence number from octets 4 to 6 of a node message and 12 to
  -- 14 of a session message, and the SEID from octets 4 to 11 of the latter; its IEs are not looked at,
  -- whatever they are.
  pub decode_msg-refused :
      (start : Start) (rest : List ℕ) (len : ℕ) (cause : Cause) (d : GroupDef)
      → IsOfType start
      → msgs (told start).kind ≡ some d
      → length (start_octets start) ≤ len
      → len ≤ length (start_octets start ++ rest)
      → IsRefused start len cause
      → pfcp_decode_msg s msgs (start_octets start ++ rest) len
        ≡ some (reply (told start) (err cause))
  decode_msg-refused start rest len cause d apt known whole there refused =
      let mem = start_octets start ++ rest in
      let kind : pfcp_msg_type mem ≡ (told start).kind = start_kind start rest in
      let size : hdr_len (pfcp_msg_type mem) ≤ len = rw (kind, ← start_size start apt) whole in
      let known' : msgs (pfcp_msg_type mem) ≡ some d = rw kind known in
      let (wrong, same_cause) = wrong_cause start rest len cause apt refused in
      known_refused mem len d known' size there wrong
      ∙ ap
          (λ x. some (
            reply x (
              err
                (if ltb len (pfcp_msg_length mem + 4) then invalid_length else request_rejected))))
          (start_prefix start rest apt)
      ∙ ap (λ x. some (reply (told start) (err x))) same_cause
