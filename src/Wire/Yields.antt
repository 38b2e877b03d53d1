-- ===== src/Wire/Yields.antt =====
-- What holds of every value that a decoder returns, on any input.
use upg_vpp_tr.Base.{ℕ, ◌≤◌, ◌≡◌, refl, Bool, true, false, List, if◌then◌else◌}
use upg_vpp_tr.Base.Bits.{bit_and-le}
use upg_vpp_tr.Wire.Defs.{
  Outcome, ok, err, fault, Cause, Cursor, Decoder, ◌>>=◌, pure, fail, when, after, run, finish,
  map_result, get_masked, checked,
}
use mathlib.Core.Path.{subst}

pub record Yields {ℓ κ} {A : Type ℓ} (P : A → Type κ) (m : Decoder A) : Type (ℓ ⊔ κ) where
  pub yields : (c : Cursor) (a : A) (c' : Cursor) → m c ≡ ok (a, c') → P a

after_ok {ℓ κ} :
    {A : Type ℓ} {B : Type κ} (o : Outcome (A × Cursor)) (f : A → Decoder B) {b : B} {c' : Cursor}
    → after o f ≡ ok (b, c')
    → (a : A) × (d : Cursor) × (o ≡ ok (a, d)) × (f a d ≡ ok (b, c'))
unfolding after
after_ok (ok (a, d)) f e = (a, d, refl, e)
after_ok (err x) f e = cc
after_ok fault f e = cc

pub Yields-bind {ℓ κ λ1 λ2} :
    {A : Type ℓ} {B : Type κ} (Q : A → Type λ1) (P : B → Type λ2) {m : Decoder A}
    (f : A → Decoder B)
    → Yields Q m
    → ((a : A) → Q a → Yields P (f a))
    → Yields P (m >>= f)
unfolding ◌>>=◌
Yields-bind Q P {m} f g h = record {
  yields = λ c b c' e.
      let (a, d, e1, e2) = after_ok (m c) f e in (h a (g.yields c a d e1)).yields d b c' e2;
}

-- A step of which nothing is needed.
pub Yields-step {ℓ κ λ2} :
    {A : Type ℓ} {B : Type κ} (P : B → Type λ2) (m : Decoder A) (f : A → Decoder B)
    → ((a : A) → Yields P (f a))
    → Yields P (m >>= f)
unfolding ◌>>=◌
Yields-step P m f h = record {
  yields = λ c b c' e. let (a, d, e1, e2) = after_ok (m c) f e in (h a).yields d b c' e2;
}

module _ {ℓ κ} {A : Type ℓ} (P : A → Type κ) where
  pub Yields-pure : {a : A} → P a → Yields P (pure a)
  unfolding pure
  Yields-pure {a} p = record { yields = λ c b c' e. subst P (got c b c' e) p }
    where
      got :
          (c : Cursor) (b : A) (c' : Cursor)
          → ◌≡◌ {A = Outcome (A × Cursor)} (ok (a, c)) (ok (b, c'))
          → a ≡ b
      got c b c' e = cc

  pub Yields-fail : (e : Cause) → Yields P (fail e)
  unfolding fail
  Yields-fail x = record { yields = λ c b c' e. cc }

  pub Yields-if :
      (b : Bool) {m k : Decoder A}
      → (b ≡ true → Yields P m)
      → (b ≡ false → Yields P k)
      → Yields P (if b then m else k)
  Yields-if true h g = h refl
  Yields-if false h g = g refl

  pub Yields-when_not :
      (b : Bool) (m : Decoder A) {old : A} → b ≡ false → P old → Yields P (when b old m)
  unfolding when
  Yields-when_not b m e p = rw e (Yields-pure p)

pub Yields-map {ℓ κ λ1} :
    {A : Type ℓ} {B : Type κ} (P : B → Type λ1) (f : A → B) (m : Decoder A)
    → ((a : A) → P (f a))
    → Yields P (map_result f m)
unfolding map_result
Yields-map P f m h = Yields-step P _ _ (λ a. Yields-pure P (h a))

pub Yields-masked : (m : ℕ) → Yields (λ x. x ≤ m) (get_masked m)
unfolding get_masked
Yields-masked m = Yields-map (λ x. x ≤ m) _ _ (λ b. bit_and-le b m)

pub Yields-checked {ℓ κ} :
    {A : Type ℓ} (P : A → Type κ) (n : ℕ) {m : Decoder A} → Yields P m → Yields P (checked n m)
unfolding checked
Yields-checked P n h =
    Yields-step P _ _ (λ _. Yields-bind P P _ h (λ a p. Yields-step P _ _ (λ _. Yields-pure P p)))

finish_ok {ℓ} :
    {A : Type ℓ} (o : Outcome (A × Cursor)) {a : A}
    → finish o ≡ ok a
    → (c' : Cursor) × (o ≡ ok (a, c'))
unfolding finish
finish_ok (ok (b, c)) e = (c, cc)
finish_ok (err x) e = cc
finish_ok fault e = cc

pub run-Yields {ℓ κ} :
    {A : Type ℓ} (P : A → Type κ) {m : Decoder A} (bytes : List ℕ) (l : ℕ) {a : A}
    → Yields P m
    → run m bytes l ≡ ok a
    → P a
unfolding run
run-Yields P bytes l h e = let (c', e') = finish_ok _ e in h.yields _ _ c' e'
