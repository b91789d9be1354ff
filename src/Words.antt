-- ===== src/Words.antt =====
-- Machine words (`uint8_t`, `uint32_t`, `uint64_t`) as native numbers with their wrap-around, and
-- their images in memory on a little-endian machine, which `memcpy` copies
-- (c++/src/core/helpers.cpp calls no byte swap: `hostToNetworkUint64` is the identity).
use native.Mathlib.Nat.{pow-suc}
use shifupool.Base.{
  ℕ, zero, suc, ◌+◌, ◌-◌, ◌*◌, ◌/◌, ◌%◌, ◌^◌, ◌<◌, ◌≡◌, refl, [], ◌∷◌, ◌++◌, arith, Bytes, length,
  IsBytes,
}

abbrev pub u32_mod : ℕ
u32_mod = 2 ^ 32

abbrev pub u64_mod : ℕ
u64_mod = 2 ^ 64

-- `a + b`, `a - b` and `-a` on `uint64_t`.
abbrev pub add64 : ℕ → ℕ → ℕ
add64 a b = (a + b) % u64_mod

abbrev pub sub64 : ℕ → ℕ → ℕ
sub64 a b = (a + (u64_mod - b % u64_mod)) % u64_mod

abbrev pub neg64 : ℕ → ℕ
neg64 a = (u64_mod - a % u64_mod) % u64_mod

-- The bytes of a word in memory, the lowest first.
unfoldable pub le_bytes : ℕ → ℕ → Bytes
le_bytes zero x = []
le_bytes (suc n) x = x % 256 ∷ le_bytes n (x / 256)

-- A load of a word from `n` bytes of memory.
unfoldable pub of_le : ℕ → Bytes → ℕ
of_le zero bs = 0
of_le (suc n) [] = 0
of_le (suc n) (b ∷ bs) = b % 256 + 256 * of_le n bs

pub length-le_bytes : (n x : ℕ) → length (le_bytes n x) ≡ n
unfolding le_bytes
length-le_bytes zero x = refl
length-le_bytes (suc n) x = omega (arith, length-le_bytes n (x / 256))

pub le_bytes-IsBytes : (n x : ℕ) → IsBytes n (le_bytes n x)
unfolding le_bytes
le_bytes-IsBytes zero x = record { size = refl; small = tt }
le_bytes-IsBytes (suc n) x =
    let rest = le_bytes-IsBytes n (x / 256) in
    record { size = omega (arith, rest.size); small = (omega arith, rest.small) }

-- A load gives the word that was stored, cut to its width.
pub of_le-le_bytes4 : (x : ℕ) (bs : Bytes) → of_le 4 (le_bytes 4 x ++ bs) ≡ x % u32_mod
unfolding of_le le_bytes
of_le-le_bytes4 x bs = omega arith

pub of_le-le_bytes8 : (x : ℕ) (bs : Bytes) → of_le 8 (le_bytes 8 x ++ bs) ≡ x % u64_mod
unfolding of_le le_bytes
of_le-le_bytes8 x bs = omega arith

of_le-lt_pow : (n : ℕ) (bs : Bytes) → of_le n bs < 256 ^ n
unfolding of_le
of_le-lt_pow zero bs = omega arith
of_le-lt_pow (suc n) [] = omega (arith, pow-suc 256 n, of_le-lt_pow n [])
of_le-lt_pow (suc n) (b ∷ bs) = omega (arith, pow-suc 256 n, of_le-lt_pow n bs)

pub of_le-lt8 : (bs : Bytes) → of_le 8 bs < u64_mod
of_le-lt8 bs = of_le-lt_pow 8 bs
