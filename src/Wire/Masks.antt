-- ===== src/Wire/Masks.antt =====
-- The masks that the decode functions apply, on values that lie within them.
use upg_vpp_tr.Base.{ℕ, ◌<◌, ◌≡◌, refl, bit_and, eq_below, all_below}

pub mask_three : (x : ℕ) → x < 4 → bit_and x 0x03 ≡ x
unfolding all_below
mask_three = eq_below 4 _ (λ x. x) refl

pub mask_seven : (x : ℕ) → x < 8 → bit_and x 0x07 ≡ x
unfolding all_below
mask_seven = eq_below 8 _ (λ x. x) refl

pub mask_fifteen : (x : ℕ) → x < 16 → bit_and x 0x0f ≡ x
unfolding all_below
mask_fifteen = eq_below 16 _ (λ x. x) refl
