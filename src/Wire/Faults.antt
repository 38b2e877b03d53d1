-- ===== src/Wire/Faults.antt =====
-- Decoders that read past the end of the memory.
use upg_vpp_tr.Base.{ℕ, ◌<◌, ◌≡◌, arith, Bool, true, false, List, [], ◌++◌, length, ap}
use upg_vpp_tr.Wire.Defs.{
  fault, Decoder, ◌>>=◌, get_vec, get_be, map_result, when, after, run, finish,
}
use upg_vpp_tr.Wire.Steps.{Steps}

-- On the memory `ys`, with `p` octets declared, `m` reads past the end.
pub record Faults {ℓ} {A : Type ℓ} (m : Decoder A) (p : ℕ) (ys : List ℕ) : Type ℓ where
  pub faults : m (record { bytes = ys; length = p }) ≡ fault

module _ {ℓ κ} {A : Type ℓ} {B : Type κ} where
  pub Faults-later :
      {m : Decoder A} (f : A → Decoder B) {p q : ℕ} {xs ys : List ℕ} {a : A}
      → Steps m p xs a q
      → Faults (f a) q ys
      → Faults (m >>= f) p (xs ++ ys)
  unfolding ◌>>=◌
  Faults-later f {ys = ys} s h = record { faults = rw (s.steps ys, after) h.faults }

  pub Faults-silent :
      {m : Decoder A} (f : A → Decoder B) {p q : ℕ} {ys : List ℕ} {a : A}
      → Steps m p [] a q
      → Faults (f a) q ys
      → Faults (m >>= f) p ys
  Faults-silent f s h = Faults-later f s h

  pub Faults-now :
      {m : Decoder A} (f : A → Decoder B) {p : ℕ} {ys : List ℕ}
      → Faults m p ys
      → Faults (m >>= f) p ys
  unfolding ◌>>=◌
  Faults-now f h = record { faults = rw (h.faults, after) }

pub Faults-vec : (k p : ℕ) (ys : List ℕ) → length ys < k → Faults (get_vec k) p ys
unfolding get_vec
Faults-vec k p ys h = record { faults = ground arith }

pub run-Faults {ℓ} :
    {A : Type ℓ} {m : Decoder A} {p : ℕ} {ys : List ℕ} → Faults m p ys → run m ys p ≡ fault
unfolding run finish
run-Faults h = ap finish h.faults

pub Faults-be : (k p : ℕ) (ys : List ℕ) → length ys < k → Faults (get_be k) p ys
unfolding get_be map_result
Faults-be k p ys h = Faults-now _ (Faults-vec k p ys h)

pub Faults-when {ℓ} :
    {A : Type ℓ} (b : Bool) (old : A) {m : Decoder A} {p : ℕ} {ys : List ℕ}
    → b ≡ true
    → Faults m p ys
    → Faults (when b old m) p ys
unfolding when
Faults-when true old e h = h
Faults-when false old e h = cc
