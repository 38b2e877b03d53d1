-- ===== src/Ie/Address/Octets.antt =====
-- An address as sixteen octets, the IPv4 address in the last four: one instance of the interface.
use upg_vpp_tr.Base.{ℕ, ◌≡◌, refl, sym, arith, Bool, true, ◌&&◌, ◌==◌, List, [], ◌∷◌, ◌++◌}
use upg_vpp_tr.Ie.Address.{Ip46}

pub record Quad : Type 0 where
  pub a : ℕ
  pub b : ℕ
  pub c : ℕ
  pub d : ℕ

pub record Sixteen : Type 0 where
  pub first : Quad
  pub second : Quad
  pub third : Quad
  pub last : Quad

abbrev pub quad : ℕ → ℕ → ℕ → ℕ → Quad
quad a b c d = record { a = a; b = b; c = c; d = d }

abbrev pub zeros : Quad
zeros = quad 0 0 0 0

abbrev pub of_last : Quad → Sixteen
of_last q = record { first = zeros; second = zeros; third = zeros; last = q }

abbrev pub octets_of : Quad → List ℕ
octets_of q = q.a ∷ q.b ∷ q.c ∷ q.d ∷ []

unfoldable pub first_quad : List ℕ → Quad
first_quad (a ∷ b ∷ c ∷ d ∷ xs) = quad a b c d
first_quad xs = zeros

unfoldable pub of_sixteen : List ℕ → Sixteen
of_sixteen (a ∷ b ∷ c ∷ d ∷ e ∷ f ∷ g ∷ h ∷ i ∷ j ∷ k ∷ l ∷ m ∷ n ∷ o ∷ p ∷ xs) = record {
  first = quad a b c d;
  second = quad e f g h;
  third = quad i j k l;
  last = quad m n o p;
}
of_sixteen xs = of_last zeros

abbrev pub is_zero : Quad → Bool
is_zero q = (q.a == 0) && (q.b == 0) && (q.c == 0) && (q.d == 0)

is_zero-zeros : (q : Quad) → is_zero q ≡ true → q ≡ zeros
is_zero-zeros q h = ground arith

abbrev pub is_mapped : Sixteen → Bool
is_mapped s = is_zero s.first && is_zero s.second && is_zero s.third

is_mapped-last : (s : Sixteen) → is_mapped s ≡ true → of_last s.last ≡ s
is_mapped-last s h =
    let x = is_zero-zeros s.first (ground arith) in
    let y = is_zero-zeros s.second (ground arith) in
    let z = is_zero-zeros s.third (ground arith) in
    λ i. record { first = (sym x) i; second = (sym y) i; third = (sym z) i; last = s.last }

abbrev pub sixteen_of : Sixteen → List ℕ
sixteen_of s = octets_of s.first ++ (octets_of s.second ++ (octets_of s.third ++ octets_of s.last))

pub mapped_back : (s : Sixteen) → is_mapped s ≡ true → of_last (first_quad (octets_of s.last)) ≡ s
unfolding first_quad
mapped_back s h = is_mapped-last s h

pub of_sixteen-octets : (s : Sixteen) → of_sixteen (sixteen_of s) ≡ s
unfolding of_sixteen
of_sixteen-octets s = refl

abbrev pub octets46 : Ip46
octets46 = record {
  Address = Sixteen;
  of_ip4 = λ xs. of_last (first_quad xs);
  ip4 = λ s. octets_of s.last;
  of_ip6 = of_sixteen;
  ip6 = sixteen_of;
  is_ip4 = is_mapped;
  length-ip4 = λ s. refl;
  length-ip6 = λ s. refl;
  of_ip4-ip4 = mapped_back;
  of_ip6-ip6 = of_sixteen-octets;
}
