-- ===== src/Wire/Steps.antt =====
-- Decoders that do not take off `length` what they take off the input: the two are followed
-- separately.
use upg_vpp_tr.Base.{
  ℕ, ◌+◌, ◌-◌, ◌^◌, ◌<◌, ◌≤◌, ◌≡◌, refl, ap, arith, Bool, true, false, List, [], ◌++◌, append_assoc,
  append-nil, length, if◌then◌else◌,
}
use upg_vpp_tr.Wire.Defs.{
  ok, Decoder, ◌>>=◌, pure, need, get_length, sub_length, taken, checked, when, after, run, finish,
}
use upg_vpp_tr.Wire.Reads.{Gets, Reads}

-- `m` takes `xs` off the input and `length` from `p` to `q`.
pub record Steps {ℓ} {A : Type ℓ} (m : Decoder A) (p : ℕ) (xs : List ℕ) (a : A) (q : ℕ)
    : Type ℓ where
  pub steps :
      (rest : List ℕ)
      → m (record { bytes = xs ++ rest; length = p }) ≡ ok (a, record { bytes = rest; length = q })

module _ {ℓ κ} {A : Type ℓ} {B : Type κ} where
  pub Steps-bind :
      {m : Decoder A} (f : A → Decoder B) {p q r : ℕ} {xs ys : List ℕ} {a : A} {b : B}
      → Steps m p xs a q
      → Steps (f a) q ys b r
      → Steps (m >>= f) p (xs ++ ys) b r
  unfolding ◌>>=◌
  Steps-bind f {xs} {ys} g h = record {
    steps = λ rest. rw (append_assoc xs ys rest, g.steps (ys ++ rest), after) (h.steps rest);
  }

  -- A step that takes nothing off the input.
  pub Steps-silent :
      {m : Decoder A} (f : A → Decoder B) {p q r : ℕ} {ys : List ℕ} {a : A} {b : B}
      → Steps m p [] a q
      → Steps (f a) q ys b r
      → Steps (m >>= f) p ys b r
  Steps-silent f g h = Steps-bind f g h

module _ {ℓ} {A : Type ℓ} where
  pub Steps-pure : (p : ℕ) (a : A) → Steps (pure a) p [] a p
  unfolding pure
  Steps-pure p a = record { steps = λ rest. refl }

  pub Steps-Gets : (p : ℕ) {m : Decoder A} {xs : List ℕ} {a : A} → Gets m xs a → Steps m p xs a p
  Steps-Gets p g = record { steps = λ rest. g.gets rest p }

  pub Steps-Reads :
      (l : ℕ) {m : Decoder A} {xs : List ℕ} {a : A}
      → Reads m xs a
      → length xs + l < 2 ^ 16
      → Steps m (length xs + l) xs a l
  Steps-Reads l r h = record { steps = λ rest. r.reads rest l h }

  pub Steps-if :
      (b : Bool) {m : Decoder A} {p q : ℕ} {xs : List ℕ} {a : A} (k : Decoder A)
      → b ≡ true
      → Steps m p xs a q
      → Steps (if b then m else k) p xs a q
  Steps-if b k e s = rw e s

  pub Steps-else :
      (b : Bool) {m : Decoder A} {p q : ℕ} {xs : List ℕ} {a : A} (k : Decoder A)
      → b ≡ false
      → Steps m p xs a q
      → Steps (if b then k else m) p xs a q
  Steps-else b k e s = rw e s

pub Steps-need : (n p : ℕ) → n ≤ p → Steps (need n) p [] tt p
unfolding need
Steps-need n p h = record { steps = λ rest. ground arith }

pub Steps-sub : (n p : ℕ) → n ≤ p → p < 2 ^ 16 → Steps (sub_length n) p [] tt (p - n)
unfolding sub_length
Steps-sub n p h w = record { steps = λ rest. ground arith }

pub Steps-taken {ℓ} :
    {A : Type ℓ} (n k p : ℕ) {m : Decoder A} {xs : List ℕ} {a : A}
    → Gets m xs a
    → n ≤ p
    → k ≤ p
    → p < 2 ^ 16
    → Steps (taken n k m) p xs a (p - k)
unfolding taken
Steps-taken n k p {a = a} g h j w = Steps-silent _ (Steps-need n p h) (
    rw append-nil at (
      Steps-bind (λ x. sub_length k >>= λ _. pure x) (Steps-Gets p g)
        (Steps-silent (λ _. pure a) (Steps-sub k p j w) (Steps-pure (p - k) a))))

pub Steps-checked {ℓ} :
    {A : Type ℓ} (n p q : ℕ) {m : Decoder A} {xs : List ℕ} {a : A}
    → Gets m xs a
    → p ≡ q + n
    → p < 2 ^ 16
    → Steps (checked n m) p xs a q
unfolding checked taken
Steps-checked n p q g e h =
    let left : p - n ≡ q = omega arith in
    rw left at (Steps-taken n n p g (omega arith) (omega arith) h)

-- All that is left of the information element is read.
pub Steps-rest {ℓ} :
    {A : Type ℓ} (p : ℕ) {m : Decoder A} {xs : List ℕ} {a : A}
    → Reads m xs a
    → p ≡ length xs
    → p < 2 ^ 16
    → Steps m p xs a 0
Steps-rest p {m} {xs} {a} r e h =
    let total : length xs + 0 ≡ p = omega arith in rw total at (Steps-Reads 0 r (omega arith))

pub Steps-length : (p : ℕ) → Steps get_length p [] p p
unfolding get_length
Steps-length p = record { steps = λ rest. refl }

pub Steps-end {ℓ κ} :
    {A : Type ℓ} {B : Type κ} {m : Decoder A} (f : A → B) {p q : ℕ} {xs : List ℕ} {a : A}
    → Steps m p xs a q
    → Steps (m >>= λ x. pure (f x)) p xs (f a) q
Steps-end f {q = q} {a = a} s =
    rw append-nil at (Steps-bind (λ x. pure (f x)) s (Steps-pure q (f a)))

pub Steps-when {ℓ} :
    {A : Type ℓ} (b : Bool) {m : Decoder A} {p q : ℕ} {xs : List ℕ} {a : A} (old : A)
    → (b ≡ true → Steps m p xs a q)
    → Steps (when b old m) p (if b then xs else []) (if b then a else old) (if b then q else p)
unfolding when
Steps-when true old s = s refl
Steps-when false old s = Steps-pure _ old

-- A step that leaves `length` alone.
pub Steps-option {ℓ} :
    {A : Type ℓ} (b : Bool) {m : Decoder A} {p : ℕ} {xs : List ℕ} {a : A} (old : A)
    → (b ≡ true → Steps m p xs a p)
    → Steps (when b old m) p (if b then xs else []) (if b then a else old) p
unfolding when
Steps-option true old s = s refl
Steps-option false old s = Steps-pure _ old

pub run-Steps {ℓ} :
    {A : Type ℓ} {m : Decoder A} {p q : ℕ} {xs : List ℕ} {a : A} (rest : List ℕ)
    → Steps m p xs a q
    → run m (xs ++ rest) p ≡ ok a
unfolding run finish
run-Steps rest s = ap finish (s.steps rest)
