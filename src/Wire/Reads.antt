-- ===== src/Wire/Reads.antt =====
-- What a decoder does on the octets that an encoder wrote, whatever follows them.
use upg_vpp_tr.Base.{
  ℕ, zero, suc, ◌+◌, ◌*◌, ◌/◌, ◌%◌, ◌^◌, ◌<◌, ◌≡◌, refl, ap, arith, bit_and, Bool, true, false,
  List, [], ◌∷◌, ◌++◌, append_assoc, append-nil, length, length-append, take-append, drop-append,
  if◌then◌else◌,
}
use upg_vpp_tr.Wire.Defs.{
  ok, Decoder, ◌>>=◌, pure, need, sub_length, get_vec, map_result, from_be, octets, get_be, from_le,
  get_u16_little, put_u16_little, checked, when, after, run, finish, get_masked, counted_vec,
  put_u8,
}
use native.Mathlib.Nat.{pow-suc, add-zero}

module _ {ℓ} {A : Type ℓ} where
  -- `m` takes `xs` off the input, and leaves `length` alone.
  pub record Gets (m : Decoder A) (xs : List ℕ) (a : A) : Type ℓ where
    pub gets :
        (rest : List ℕ) (l : ℕ)
        → m (record { bytes = xs ++ rest; length = l })
          ≡ ok (a, record { bytes = rest; length = l })

  -- `m` takes `xs` off the input, and its length off `length`.
  pub record Reads (m : Decoder A) (xs : List ℕ) (a : A) : Type ℓ where
    pub reads :
        (rest : List ℕ) (l : ℕ)
        → length xs + l < 2 ^ 16
        → m (record { bytes = xs ++ rest; length = length xs + l })
          ≡ ok (a, record { bytes = rest; length = l })

pub Gets-vec : (xs : List ℕ) → Gets (get_vec (length xs)) xs xs
unfolding get_vec
Gets-vec xs = record {
  gets = λ rest l. ground (arith, length-append xs rest, take-append xs rest, drop-append xs rest);
}

-- A length that is only known to be right.
pub Gets-vec_of : (n : ℕ) (xs : List ℕ) → length xs ≡ n → Gets (get_vec n) xs xs
Gets-vec_of n xs e = rw (← e) (Gets-vec xs)

module _ {ℓ κ} {A : Type ℓ} {B : Type κ} where
  pub Gets-bind :
      {m : Decoder A} (f : A → Decoder B) {xs ys : List ℕ} {a : A} {b : B}
      → Gets m xs a
      → Gets (f a) ys b
      → Gets (m >>= f) (xs ++ ys) b
  unfolding ◌>>=◌
  Gets-bind f {xs} {ys} g h = record {
    gets = λ rest l. rw (append_assoc xs ys rest, g.gets (ys ++ rest) l, after) (h.gets rest l);
  }

  pub Reads-bind :
      {m : Decoder A} (f : A → Decoder B) {xs ys : List ℕ} {a : A} {b : B}
      → Reads m xs a
      → Reads (f a) ys b
      → Reads (m >>= f) (xs ++ ys) b
  unfolding ◌>>=◌
  Reads-bind f {xs} {ys} g h = record {
    reads = λ rest l fits.
        rw
          (
            append_assoc xs ys rest,
            total l,
            g.reads (ys ++ rest) (length ys + l) (bound l fits),
            after,
          )
          (h.reads rest l (omega (arith, length-append xs ys)));
  }
    where
      total : (l : ℕ) → length (xs ++ ys) + l ≡ length xs + (length ys + l)
      total l = omega (arith, length-append xs ys)

      bound : (l : ℕ) → length (xs ++ ys) + l < 2 ^ 16 → length xs + (length ys + l) < 2 ^ 16
      bound l h = omega (arith, length-append xs ys)

module _ {ℓ} {A : Type ℓ} where
  pub Gets-pure : (a : A) → Gets (pure a) [] a
  unfolding pure
  Gets-pure a = record { gets = λ rest l. refl }

  pub Reads-pure : (a : A) → Reads (pure a) [] a
  unfolding pure
  Reads-pure a = record { reads = λ rest l fits. ground arith }

  pub Reads-checked :
      (n : ℕ) {m : Decoder A} {xs : List ℕ} {a : A}
      → Gets m xs a
      → length xs ≡ n
      → Reads (checked n m) xs a
  unfolding checked ◌>>=◌ need sub_length pure after
  Reads-checked n {m} {xs} {a} g e = record {
    reads = λ rest l fits. ground (arith, g.gets rest (length xs + l));
  }

  pub Reads-when :
      (b : Bool) {m : Decoder A} {xs : List ℕ} {a : A} (old : A)
      → Reads m xs a
      → Reads (when b old m) (if b then xs else []) (if b then a else old)
  unfolding when
  Reads-when true old r = r
  Reads-when false old r = Reads-pure old

  pub Reads-when_if :
      (b : Bool) {m : Decoder A} {xs : List ℕ} {a : A} (old : A)
      → (b ≡ true → Reads m xs a)
      → Reads (when b old m) (if b then xs else []) (if b then a else old)
  unfolding when
  Reads-when_if true old r = r refl
  Reads-when_if false old r = Reads-pure old

  pub Gets-when :
      (b : Bool) {m : Decoder A} {xs : List ℕ} {a : A} (old : A)
      → Gets m xs a
      → Gets (when b old m) (if b then xs else []) (if b then a else old)
  unfolding when
  Gets-when true old r = r
  Gets-when false old r = Gets-pure old

pub Gets-map {ℓ κ} :
    {A : Type ℓ} {B : Type κ} (f : A → B) {m : Decoder A} {xs : List ℕ} {a : A}
    → Gets m xs a
    → Gets (map_result f m) xs (f a)
unfolding map_result
Gets-map f {m} {xs} {a} g = rw append-nil at (Gets-bind (λ x. pure (f x)) g (Gets-pure (f a)))

pub Gets-end {ℓ κ} :
    {A : Type ℓ} {B : Type κ} {m : Decoder A} (f : A → B) {xs : List ℕ} {a : A}
    → Gets m xs a
    → Gets (m >>= λ x. pure (f x)) xs (f a)
Gets-end f {a = a} r = rw append-nil at (Gets-bind (λ x. pure (f x)) r (Gets-pure (f a)))

from_be-append :
    (acc : ℕ) (bs : List ℕ) (b : ℕ) → from_be acc (bs ++ (b ∷ [])) ≡ from_be acc bs * 256 + b
unfolding from_be
from_be-append acc [] b = refl
from_be-append acc (x ∷ bs) b = from_be-append (acc * 256 + x) bs b

pub length-octets : (k x : ℕ) → length (octets k x) ≡ k
unfolding octets
length-octets zero x = refl
length-octets (suc k) x =
    omega (arith, length-append (octets k (x / 256)) (x % 256 ∷ []), length-octets k (x / 256))

pub from_be-octets : (k x : ℕ) → x < 256 ^ k → from_be 0 (octets k x) ≡ x
unfolding octets
from_be-octets zero x h = unfold from_be in omega arith
from_be-octets (suc k) x h = omega (
  arith,
  from_be-append 0 (octets k (x / 256)) (x % 256),
  from_be-octets k (x / 256) (shorter k x h),
)
  where
    shorter : (k x : ℕ) → x < 256 ^ suc k → x / 256 < 256 ^ k
    shorter k x h = omega (arith, pow-suc 256 k)

pub Gets-be : (k x : ℕ) → x < 256 ^ k → Gets (get_be k) (octets k x) x
unfolding get_be
Gets-be k x h =
    rw (from_be-octets k x h) at
      (Gets-map (from_be 0) (Gets-vec_of k (octets k x) (length-octets k x)))

pub Gets-le : (x : ℕ) → x < 2 ^ 16 → Gets get_u16_little (put_u16_little x) x
unfolding get_u16_little put_u16_little
Gets-le x h = rw value at (Gets-map from_le (Gets-vec (x % 256 ∷ x / 256 % 256 ∷ [])))
  where
    value : from_le (x % 256 ∷ x / 256 % 256 ∷ []) ≡ x
    value = unfold from_le in omega arith

pub Reads-be : (k x : ℕ) → x < 256 ^ k → Reads (checked k (get_be k)) (octets k x) x
Reads-be k x h = Reads-checked k (Gets-be k x h) (length-octets k x)

pub Reads-masked :
    (m x : ℕ) → x < 256 → bit_and x m ≡ x → Reads (checked 1 (get_masked m)) (put_u8 x) x
unfolding get_masked
Reads-masked m x h e =
    Reads-checked 1 (rw e at (Gets-map (λ b. bit_and b m) (Gets-be 1 x h))) (length-octets 1 x)

pub Reads-le : (x : ℕ) → x < 2 ^ 16 → Reads (checked 2 get_u16_little) (put_u16_little x) x
unfolding put_u16_little
Reads-le x h = Reads-checked 2 (Gets-le x h) refl

pub Reads-vec : (n : ℕ) (xs : List ℕ) → length xs ≡ n → Reads (checked n (get_vec n)) xs xs
Reads-vec n xs e = Reads-checked n (Gets-vec_of n xs e) e

pub Reads-counted :
    (k : ℕ) (xs : List ℕ)
    → length xs < 256 ^ k
    → Reads (counted_vec k) (octets k (length xs) ++ xs) xs
unfolding counted_vec
Reads-counted k xs h = Reads-bind _ (Reads-be k (length xs) h) (Reads-vec (length xs) xs refl)

-- The last step of a decode function.
pub Reads-end {ℓ κ} :
    {A : Type ℓ} {B : Type κ} {m : Decoder A} (f : A → B) {xs : List ℕ} {a : A}
    → Reads m xs a
    → Reads (m >>= λ x. pure (f x)) xs (f a)
Reads-end f {a = a} r = rw append-nil at (Reads-bind (λ x. pure (f x)) r (Reads-pure (f a)))

-- A decode function on what the encode function wrote, whatever lies in memory behind it.
pub run-Reads {ℓ} :
    {A : Type ℓ} {m : Decoder A} {xs : List ℕ} {a : A} (rest : List ℕ)
    → Reads m xs a
    → length xs < 2 ^ 16
    → run m (xs ++ rest) (length xs) ≡ ok a
unfolding run finish
run-Reads {m} {xs} {a} rest r h = rw add-zero at (ap finish (r.reads rest 0 (omega arith)))

pub Gets-masked : (m x : ℕ) → x < 256 → bit_and x m ≡ x → Gets (get_masked m) (put_u8 x) x
unfolding get_masked
Gets-masked m x h e = rw e at (Gets-map (λ b. bit_and b m) (Gets-be 1 x h))
