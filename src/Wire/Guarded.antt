-- ===== src/Wire/Guarded.antt =====
-- Decoders that test `length` without taking off it what they have read: `s` counts the octets that
-- are read already and still counted.
use upg_vpp_tr.Base.{
  ℕ, ◌+◌, ◌^◌, ◌<◌, ◌≤◌, ◌≢◌, arith, Bool, true, false, List, length, length-drop, drop,
  if◌then◌else◌, ltb, Bool-cases, inl, inr,
}
use upg_vpp_tr.Wire.Defs.{
  Outcome, ok, err, fault, Cause, Cursor, Decoder, ◌>>=◌, pure, fail, need, get_length, get_vec,
  after, run, finish,
}
use upg_vpp_tr.Wire.Yields.{Yields}
use upg_vpp_tr.Wire.Safe.{Within, Safe, Exact}

abbrev NoFault {ℓ} : {A : Type ℓ} → Outcome (A × Cursor) → Type 0
NoFault (ok x) = Unit {0}
NoFault (err e) = Unit {0}
NoFault fault = ⊥

pub record Guarded {ℓ} {A : Type ℓ} (s : ℕ) (m : Decoder A) : Type ℓ where
  pub guarded : (c : Cursor) → c.length ≤ length c.bytes + s → c.length < 2 ^ 16 → NoFault (m c)

NoFault-Within {ℓ} : {A : Type ℓ} (o : Outcome (A × Cursor)) → Within o → NoFault o
NoFault-Within (ok x) w = tt
NoFault-Within (err e) w = tt
NoFault-Within fault w = w

NoFault-after {ℓ κ} :
    {A : Type ℓ} {B : Type κ} (o : Outcome (A × Cursor)) (f : A → Decoder B)
    → Within o
    → ((a : A) → Guarded 0 (f a))
    → NoFault (after o f)
unfolding after
NoFault-after (ok (a, c)) f w h = (h a).guarded c (omega arith) w.is_u16
NoFault-after (err e) f w h = tt
NoFault-after fault f w h = w

module _ {ℓ} {A : Type ℓ} where
  pub Guarded-Safe : {m : Decoder A} → Safe m → Guarded 0 m
  Guarded-Safe {m} g = record {
    guarded = λ c w u. NoFault-Within (m c) (g.safe c (record { there = omega arith; is_u16 = u }));
  }

  pub Guarded-pure : (s : ℕ) (a : A) → Guarded s (pure a)
  unfolding pure
  Guarded-pure s a = record { guarded = λ c w u. tt }

  pub Guarded-fail : (s : ℕ) (e : Cause) → Guarded s (fail {A = A} e)
  unfolding fail
  Guarded-fail s e = record { guarded = λ c w u. tt }

  pub Guarded-if :
      (s : ℕ) (b : Bool) {m k : Decoder A}
      → Guarded s m
      → Guarded s k
      → Guarded s (if b then m else k)
  Guarded-if s true h g = h
  Guarded-if s false h g = g

module _ {ℓ κ} {A : Type ℓ} {B : Type κ} where
  pub Guarded-bind :
      {m : Decoder A} (f : A → Decoder B)
      → Safe m
      → ((a : A) → Guarded 0 (f a))
      → Guarded 0 (m >>= f)
  unfolding ◌>>=◌
  Guarded-bind {m} f g h = record {
    guarded =
        λ c w u. NoFault-after (m c) f (g.safe c (record { there = omega arith; is_u16 = u })) h;
  }

  -- `if (length < n) return PFCP_CAUSE_INVALID_LENGTH;`, and `k` octets are read of those tested for.
  pub Guarded-need :
      (n k s : ℕ) {m : Decoder A} (f : A → Decoder B)
      → k + s ≤ n
      → Exact k m
      → ((a : A) → Guarded (s + k) (f a))
      → Guarded s (need n >>= λ _. m >>= f)
  unfolding ◌>>=◌ need after
  Guarded-need n k s {m} f fits g h = record {
    guarded = λ c w u. elim (Bool-cases (ltb c.length n)) [
      | inl short ↦ rw (short, after) tt
      | inr long ↦
          let (a, e) = g.exact c (ground arith) in
          rw (long, after, e)
            ((h a).guarded (record c { bytes = drop k c.bytes })
              (ground (arith, length-drop k c.bytes)) u)
    ];
  }

module _ {ℓ κ λ1} {A : Type ℓ} {B : Type κ} (Q : A → Type λ1) where
  -- The same with a fact about what was read.
  pub Guarded-need-Yields :
      (n k s : ℕ) {m : Decoder A} (f : A → Decoder B)
      → k + s ≤ n
      → Exact k m
      → Yields Q m
      → ((a : A) → Q a → Guarded (s + k) (f a))
      → Guarded s (need n >>= λ _. m >>= f)
  unfolding ◌>>=◌ need after
  Guarded-need-Yields n k s {m} f fits g y h = record {
    guarded = λ c w u. elim (Bool-cases (ltb c.length n)) [
      | inl short ↦ rw (short, after) tt
      | inr long ↦
          let (a, e) = g.exact c (ground arith) in
          rw (long, after, e)
            ((h a (y.yields c a _ e)).guarded (record c { bytes = drop k c.bytes })
              (ground (arith, length-drop k c.bytes)) u)
    ];
  }

pub Guarded-last {ℓ} :
    {A : Type ℓ} (n k s : ℕ) {m : Decoder A} → k + s ≤ n → Exact k m → Guarded s (need n >>= λ _. m)
unfolding ◌>>=◌ need after
Guarded-last n k s {m} fits g = record {
  guarded = λ c w u. elim (Bool-cases (ltb c.length n)) [
    | inl short ↦ rw (short, after) tt
    | inr long ↦ let (a, e) = g.exact c (ground arith) in rw (long, after, e) tt
  ];
}

NoFault-pure {ℓ κ} :
    {A : Type ℓ} {B : Type κ} (o : Outcome (A × Cursor)) (f : A → B)
    → NoFault o
    → NoFault (after o (λ x. pure (f x)))
unfolding after pure
NoFault-pure (ok (a, c)) f w = tt
NoFault-pure (err e) f w = tt
NoFault-pure fault f w = w

pub Guarded-end {ℓ κ} :
    {A : Type ℓ} {B : Type κ} (s : ℕ) {m : Decoder A} (f : A → B)
    → Guarded s m
    → Guarded s (m >>= λ x. pure (f x))
unfolding ◌>>=◌
Guarded-end s {m} f g = record { guarded = λ c w u. NoFault-pure (m c) f (g.guarded c w u) }

-- All that `length` counts is taken.
pub Guarded-rest : Guarded 0 (do len ← get_length; get_vec len)
unfolding ◌>>=◌ get_length get_vec after
Guarded-rest = record { guarded = λ c w u. ground arith }

ne_fault {ℓ} : {A : Type ℓ} (o : Outcome (A × Cursor)) → NoFault o → finish o ≢ fault
unfolding finish
ne_fault (ok x) w = λ e. cc
ne_fault (err x) w = λ e. cc
ne_fault fault w = absurd w

-- A guarded decode function never reads outside an information element that is in the memory.
pub run-Guarded {ℓ} :
    {A : Type ℓ} {m : Decoder A} (bytes : List ℕ) (l : ℕ)
    → Guarded 0 m
    → l ≤ length bytes
    → l < 2 ^ 16
    → run m bytes l ≢ fault
unfolding run
run-Guarded bytes l g h k =
    ne_fault _ (g.guarded (record { bytes = bytes; length = l }) (omega arith) k)
