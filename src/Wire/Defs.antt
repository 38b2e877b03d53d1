-- ===== src/Wire/Defs.antt =====
-- The cursor that every decode function of upf/pfcp.c moves over its input, and the put_* and
-- get_* macros (upf/pfcp.c:262-412).
--
-- `data` is all memory that may be read from the pointer on, and `length` the u16 variable that the
-- function tests. They are separate, as in the source: a read past the end of `data` is a `fault`.
use upg_vpp_tr.Base.{
  ℕ, zero, suc, ◌+◌, ◌-◌, ◌*◌, ◌/◌, ◌%◌, ◌^◌, bit_and, Bool, true, false, List, [], ◌∷◌, ◌++◌, ltb,
  length, take, drop, if◌then◌else◌,
}

-- What a decode function returns besides 0: one of the PFCP causes, or -1.
pub data Cause : Type 0 where
  request_rejected mandatory_ie_missing invalid_length failure : Cause

pub data Outcome {ℓ} (A : Type ℓ) : Type ℓ where
  ok : A → Outcome A
  err : Cause → Outcome A
  fault : Outcome A

pub record Cursor : Type 0 where
  pub bytes : List ℕ
  pub length : ℕ

abbrev pub Decoder {ℓ} : Type ℓ → Type ℓ
Decoder A = Cursor → Outcome (A × Cursor)

unfoldable pub after {ℓ κ} :
    {A : Type ℓ} {B : Type κ} → Outcome (A × Cursor) → (A → Decoder B) → Outcome (B × Cursor)
after (ok (a, c)) f = f a c
after (err e) f = err e
after fault f = fault

infixl 5 ◌>>=◌ ◌>>◌
unfoldable pub ◌>>=◌ {ℓ κ} : {A : Type ℓ} {B : Type κ} → Decoder A → (A → Decoder B) → Decoder B
unfolding after
◌>>=◌ m f c = after (m c) f

abbrev pub ◌>>◌ {ℓ κ} : {A : Type ℓ} {B : Type κ} → Decoder A → Decoder B → Decoder B
m >> k = m >>= λ _. k

unfoldable pub pure {ℓ} : {A : Type ℓ} → A → Decoder A
pure a c = ok (a, c)

unfoldable pub fail {ℓ} : {A : Type ℓ} → Cause → Decoder A
fail e c = err e

-- `return` of a decode function: its result, without the local cursor.
unfoldable pub finish {ℓ} : {A : Type ℓ} → Outcome (A × Cursor) → Outcome A
finish (ok (a, c)) = ok a
finish (err e) = err e
finish fault = fault

unfoldable pub run {ℓ} : {A : Type ℓ} → Decoder A → List ℕ → ℕ → Outcome A
unfolding finish
run m bytes len = finish (m (record { bytes = bytes; length = len }))

-- `if (length < n) return PFCP_CAUSE_INVALID_LENGTH;`
unfoldable pub need : ℕ → Decoder (Unit {0})
need n c = if ltb c.length n then err invalid_length else ok (tt, c)

-- `length -= n;` on a u16.
unfoldable pub sub_length : ℕ → Decoder (Unit {0})
sub_length n c = ok (tt, record c { length = (c.length + 2 ^ 16 - n) % 2 ^ 16 })

-- The current value of `length`.
unfoldable pub get_length : Decoder ℕ
get_length c = ok (c.length, c)

-- `get_vec (V, n, data)`, and `memcpy (V, data, n); data += n`.
unfoldable pub get_vec : ℕ → Decoder (List ℕ)
get_vec n c =
    if ltb (length c.bytes) n
    then fault
    else ok (take n c.bytes, record c { bytes = drop n c.bytes })

unfoldable pub map_result {ℓ κ} : {A : Type ℓ} {B : Type κ} → (A → B) → Decoder A → Decoder B
map_result f m = m >>= λ a. pure (f a)

-- The number that a big-endian string of octets stands for, behind what is read already.
unfoldable pub from_be : ℕ → List ℕ → ℕ
from_be acc [] = acc
from_be acc (b ∷ bs) = from_be (acc * 256 + b) bs

-- The `k` low octets of a number, the highest first.
unfoldable pub octets : ℕ → ℕ → List ℕ
octets zero x = []
octets (suc k) x = octets k (x / 256) ++ (x % 256 ∷ [])

unfoldable pub get_be : ℕ → Decoder ℕ
get_be k = map_result (from_be 0) (get_vec k)

-- `get_u8` to `get_u64`, `put_u8` to `put_u64`: what each put_* macro appends to the vector.
abbrev pub get_u8 : Decoder ℕ
get_u8 = get_be 1

abbrev pub get_u16 : Decoder ℕ
get_u16 = get_be 2

abbrev pub get_u24 : Decoder ℕ
get_u24 = get_be 3

abbrev pub get_u32 : Decoder ℕ
get_u32 = get_be 4

abbrev pub get_u40 : Decoder ℕ
get_u40 = get_be 5

abbrev pub get_u64 : Decoder ℕ
get_u64 = get_be 8

abbrev pub put_u8 : ℕ → List ℕ
put_u8 = octets 1

abbrev pub put_u16 : ℕ → List ℕ
put_u16 = octets 2

abbrev pub put_u24 : ℕ → List ℕ
put_u24 = octets 3

abbrev pub put_u32 : ℕ → List ℕ
put_u32 = octets 4

abbrev pub put_u40 : ℕ → List ℕ
put_u40 = octets 5

abbrev pub put_u64 : ℕ → List ℕ
put_u64 = octets 8

unfoldable pub from_le : List ℕ → ℕ
from_le [] = 0
from_le (b ∷ bs) = b + 256 * from_le bs

unfoldable pub get_u16_little : Decoder ℕ
get_u16_little = map_result from_le (get_vec 2)

unfoldable pub put_u16_little : ℕ → List ℕ
put_u16_little x = x % 256 ∷ x / 256 % 256 ∷ []

-- An address is its octets in the order of memory; `get_ip4` and `get_ip6` copy them.
abbrev pub get_ip4 : Decoder (List ℕ)
get_ip4 = get_vec 4

abbrev pub get_ip6 : Decoder (List ℕ)
get_ip6 = get_vec 16

-- `if (length < n) return PFCP_CAUSE_INVALID_LENGTH; x = m; length -= n;`
unfoldable pub checked {ℓ} : {A : Type ℓ} → ℕ → Decoder A → Decoder A
checked n m = do need n; a ← m; sub_length n; pure a

-- `get_u8 (data) & mask`
unfoldable pub get_masked : ℕ → Decoder ℕ
get_masked mask = map_result (λ b. bit_and b mask) get_u8

-- A `k`-octet length and as many octets:
-- `if (length < k) ...; len = get; length -= k; if (length < len) ...; get_vec; length -= len;`
unfoldable pub counted_vec : ℕ → Decoder (List ℕ)
counted_vec k = do len ← checked k (get_be k); checked len (get_vec len)

-- `if (test) { old = m; }`
unfoldable pub when {ℓ} : {A : Type ℓ} → Bool → A → Decoder A → Decoder A
when true old m = m
when false old m = pure old

-- `if (length < n) return PFCP_CAUSE_INVALID_LENGTH; x = m; length -= k;`
unfoldable pub taken {ℓ} : {A : Type ℓ} → ℕ → ℕ → Decoder A → Decoder A
taken n k m = do need n; a ← m; sub_length k; pure a

-- A name for the `unfolding` line of what runs a decoder on given octets.
unfoldable pub primitives : Unit {0}
unfolding ◌>>=◌ after pure fail finish run need sub_length get_length get_vec map_result from_be
    get_be from_le get_u16_little get_masked checked taken counted_vec when
primitives = tt
