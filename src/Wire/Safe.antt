-- ===== src/Wire/Safe.antt =====
-- When a decoder stays inside the memory it is given.
use upg_vpp_tr.Base.{
  ℕ, zero, suc, ◌+◌, ◌^◌, ◌<◌, ◌≤◌, ◌≡◌, ◌≢◌, refl, arith, bit_and, Bool, true, false, List, [],
  ◌∷◌, length, length-drop, drop, take, if◌then◌else◌, ltb, Bool-cases, inl, inr,
}
use upg_vpp_tr.Wire.Defs.{
  Outcome, ok, err, fault, Cause, Cursor, Decoder, ◌>>=◌, pure, fail, need, sub_length, get_vec,
  map_result, from_be, get_be, from_le, get_u16_little, checked, taken, when, after, run, finish,
  get_masked, counted_vec,
}
use native.Mathlib.Nat.{zero-add, suc-add}

-- `length` counts octets that are there, and is a u16.
pub record Fits (c : Cursor) : Type 0 where
  pub there : c.length ≤ length c.bytes
  pub is_u16 : c.length < 2 ^ 16

abbrev pub Within {ℓ} : {A : Type ℓ} → Outcome (A × Cursor) → Type 0
Within (ok (a, c)) = Fits c
Within (err e) = Unit {0}
Within fault = ⊥

-- From a cursor that fits the memory `m` makes no read outside it, and the cursor it leaves fits.
pub record Safe {ℓ} {A : Type ℓ} (m : Decoder A) : Type ℓ where
  pub safe : (c : Cursor) → Fits c → Within (m c)

-- `m` takes exactly `n` octets and succeeds where they are there.
pub record Exact {ℓ} {A : Type ℓ} (n : ℕ) (m : Decoder A) : Type ℓ where
  pub exact :
      (c : Cursor)
      → n ≤ length c.bytes
      → (a : A) × (m c ≡ ok (a, record { bytes = drop n c.bytes; length = c.length }))

Within-after {ℓ κ} :
    {A : Type ℓ} {B : Type κ} (o : Outcome (A × Cursor)) (f : A → Decoder B)
    → ((a : A) → Safe (f a))
    → Within o
    → Within (after o f)
unfolding after
Within-after (ok (a, c)) f h w = (h a).safe c w
Within-after (err e) f h w = tt
Within-after fault f h w = w

drop-nil {ℓ} : {A : Type ℓ} (n : ℕ) → drop {A = A} n [] ≡ []
drop-nil zero = refl
drop-nil (suc n) = refl

drop-drop {ℓ} : {A : Type ℓ} (n k : ℕ) (xs : List A) → drop k (drop n xs) ≡ drop (n + k) xs
drop-drop zero k xs = rw zero-add
drop-drop (suc n) k [] = rw (drop-nil k, drop-nil (suc n + k))
drop-drop (suc n) k (x ∷ xs) = rw suc-add (drop-drop n k xs)

module _ {ℓ κ} {A : Type ℓ} {B : Type κ} where
  pub Safe-bind :
      {m : Decoder A} (f : A → Decoder B) → Safe m → ((a : A) → Safe (f a)) → Safe (m >>= f)
  unfolding ◌>>=◌
  Safe-bind {m} f g h = record { safe = λ c w. Within-after (m c) f h (g.safe c w) }

  pub Exact-bind :
      {n k t : ℕ} {m : Decoder A} (f : A → Decoder B)
      → Exact n m
      → ((a : A) → Exact k (f a))
      → n + k ≡ t
      → Exact t (m >>= f)
  unfolding ◌>>=◌ after
  Exact-bind {n} {k} {t} {m} f g h sum = record {
    exact = λ c w.
        let (a, e) = g.exact c (omega arith) in
        let (b, e') =
          (h a).exact (record c { bytes = drop n c.bytes })
            (omega (arith, length-drop n c.bytes)) in
        (b, rw (e, after, e', drop-drop, sum));
  }

module _ {ℓ} {A : Type ℓ} where
  pub Safe-pure : (a : A) → Safe (pure a)
  unfolding pure
  Safe-pure a = record { safe = λ c w. w }

  pub Safe-fail : (e : Cause) → Safe (fail {A = A} e)
  unfolding fail
  Safe-fail e = record { safe = λ c w. tt }

  pub Exact-pure : (a : A) → Exact 0 (pure a)
  unfolding pure
  Exact-pure a = record { exact = λ c w. (a, refl) }

  pub Safe-when : (b : Bool) (old : A) {m : Decoder A} → Safe m → Safe (when b old m)
  unfolding when
  Safe-when true old h = h
  Safe-when false old h = Safe-pure old

  pub Safe-if : (b : Bool) {m k : Decoder A} → Safe m → Safe k → Safe (if b then m else k)
  Safe-if true h g = h
  Safe-if false h g = g

  pub Safe-checked : (n : ℕ) {m : Decoder A} → Exact n m → Safe (checked n m)
  unfolding checked ◌>>=◌ need sub_length pure after
  Safe-checked n {m} g = record {
    safe = λ c w. elim (Bool-cases (ltb c.length n)) [
      | inl short ↦ ground arith
      | inr long ↦ let (a, e) = g.exact c (ground arith) in ground (arith, length-drop n c.bytes)
    ];
  }

pub Safe-taken {ℓ} : {A : Type ℓ} (n k : ℕ) {m : Decoder A} → k ≤ n → Exact k m → Safe (taken n k m)
unfolding taken ◌>>=◌ need sub_length pure after
Safe-taken n k {m} fits g = record {
  safe = λ c w. elim (Bool-cases (ltb c.length n)) [
    | inl short ↦ ground arith
    | inr long ↦ let (a, e) = g.exact c (ground arith) in ground (arith, length-drop k c.bytes)
  ];
}

pub Safe-need : (n : ℕ) → Safe (need n)
unfolding need
Safe-need n = record { safe = λ c w. ground arith }

pub Exact-vec : (n : ℕ) → Exact n (get_vec n)
unfolding get_vec
Exact-vec n = record { exact = λ c w. (take n c.bytes, ground arith) }

pub Exact-map {ℓ κ} :
    {A : Type ℓ} {B : Type κ} (n : ℕ) (f : A → B) {m : Decoder A}
    → Exact n m
    → Exact n (map_result f m)
unfolding map_result ◌>>=◌ pure after
Exact-map n f g = record { exact = λ c w. let (a, e) = g.exact c w in (f a, rw (e, after)) }

pub Exact-be : (k : ℕ) → Exact k (get_be k)
unfolding get_be
Exact-be k = Exact-map k (from_be 0) (Exact-vec k)

pub Exact-le : Exact 2 get_u16_little
unfolding get_u16_little
Exact-le = Exact-map 2 from_le (Exact-vec 2)

pub Exact-masked : (mask : ℕ) → Exact 1 (get_masked mask)
unfolding get_masked
Exact-masked mask = Exact-map 1 (λ b. bit_and b mask) (Exact-be 1)

pub Safe-counted : (k : ℕ) → Safe (counted_vec k)
unfolding counted_vec
Safe-counted k = Safe-bind _ (Safe-checked k (Exact-be k)) (λ n. Safe-checked n (Exact-vec n))

pub ruleset safe = (
  Safe-bind, Safe-pure, Safe-fail, Safe-need, Safe-checked, Safe-when, Safe-if, Safe-counted,
  Exact-be, Exact-vec, Exact-le, Exact-masked,
)

ne_fault {ℓ} : {A : Type ℓ} (o : Outcome (A × Cursor)) → Within o → finish o ≢ fault
unfolding finish
ne_fault (ok (a, c)) w = λ e. cc
ne_fault (err x) w = λ e. cc
ne_fault fault w = absurd w

-- A safe decode function never reads outside an information element that is in the memory.
pub run-Safe {ℓ} :
    {A : Type ℓ} {m : Decoder A} (bytes : List ℕ) (l : ℕ)
    → Safe m
    → l ≤ length bytes
    → l < 2 ^ 16
    → run m bytes l ≢ fault
unfolding run
run-Safe bytes l s h k =
    ne_fault _ (s.safe (record { bytes = bytes; length = l }) (record { there = h; is_u16 = k }))
