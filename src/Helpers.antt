-- ===== src/Helpers.antt =====
-- c++/src/core/helpers.cpp: reading and writing a byte buffer through a moving pointer. A read
-- takes the buffer from the pointer on and returns the value with the rest; a write appends to what
-- stands before the pointer. A buffer that is too short is read as if zeros followed: the source
-- reads past its end there, which is undefined.
use shifupool.Base.{
  ℕ, ◌*◌, ◌/◌, ◌<◌, ◌≡◌, ◌++◌, arith, Bytes, length, take, drop, take-append, drop-append,
}
use shifupool.Words.{u32_mod, u64_mod, le_bytes, of_le, of_le-le_bytes4, of_le-le_bytes8}

-- `hostToNetworkUint64` and its three companions return their argument.
abbrev pub host_to_network : ℕ → ℕ
host_to_network x = x

abbrev pub network_to_host : ℕ → ℕ
network_to_host x = x

-- `BMB(amount)` at `amount` half coins: every call of the sources is at a multiple of 0.5, where
-- the product with `DECIMAL_SCALE_FACTOR` (10000) is exact in a double.
abbrev pub decimal_scale_factor : ℕ
decimal_scale_factor = 10000

abbrev pub bmb_halves : ℕ → ℕ
bmb_halves h = h * decimal_scale_factor / 2

unfoldable pub read_network_uint32 : Bytes → ℕ × Bytes
read_network_uint32 buffer = (network_to_host (of_le 4 buffer), drop 4 buffer)

unfoldable pub read_network_uint64 : Bytes → ℕ × Bytes
read_network_uint64 buffer = (network_to_host (of_le 8 buffer), drop 8 buffer)

unfoldable pub read_network_n_bytes : ℕ → Bytes → Bytes × Bytes
read_network_n_bytes n buffer = (take n buffer, drop n buffer)

unfoldable pub read_network_sha256 : Bytes → Bytes × Bytes
read_network_sha256 buffer = (take 32 buffer, drop 32 buffer)

unfoldable pub read_network_wallet : Bytes → Bytes × Bytes
read_network_wallet buffer = (take 25 buffer, drop 25 buffer)

unfoldable pub write_network_uint32 : Bytes → ℕ → Bytes
write_network_uint32 buffer x = buffer ++ le_bytes 4 (host_to_network x)

unfoldable pub write_network_uint64 : Bytes → ℕ → Bytes
write_network_uint64 buffer x = buffer ++ le_bytes 8 (host_to_network x)

unfoldable pub write_network_n_bytes : Bytes → Bytes → ℕ → Bytes
write_network_n_bytes buffer input n = buffer ++ take n input

unfoldable pub write_network_sha256 : Bytes → Bytes → Bytes
write_network_sha256 buffer x = buffer ++ x

unfoldable pub write_network_wallet : Bytes → Bytes → Bytes
write_network_wallet buffer x = buffer ++ x

-- What was written is read back, and the pointer stands behind it.
pub read-write_uint32 :
    (x : ℕ) (rest : Bytes) → x < u32_mod → read_network_uint32 (le_bytes 4 x ++ rest) ≡ (x, rest)
unfolding read_network_uint32 le_bytes
read-write_uint32 x rest h = λ i. (part i, rest)
  where
    part : of_le 4 (le_bytes 4 x ++ rest) ≡ x
    part = omega (arith, of_le-le_bytes4 x rest)

pub read-write_uint64 :
    (x : ℕ) (rest : Bytes) → x < u64_mod → read_network_uint64 (le_bytes 8 x ++ rest) ≡ (x, rest)
unfolding read_network_uint64 le_bytes
read-write_uint64 x rest h = λ i. (part i, rest)
  where
    part : of_le 8 (le_bytes 8 x ++ rest) ≡ x
    part = omega (arith, of_le-le_bytes8 x rest)

take-drop_exact :
    (n : ℕ) (xs rest : Bytes)
    → length xs ≡ n
    → ◌≡◌ {A = Bytes × Bytes} (take n (xs ++ rest), drop n (xs ++ rest)) (xs, rest)
take-drop_exact n xs rest e = rw (← e) (λ i. (take-append xs rest i, drop-append xs rest i))

pub read-write_n_bytes :
    (n : ℕ) (xs rest : Bytes) → length xs ≡ n → read_network_n_bytes n (xs ++ rest) ≡ (xs, rest)
unfolding read_network_n_bytes
read-write_n_bytes n xs rest e = take-drop_exact n xs rest e

pub read-write_sha256 :
    (xs rest : Bytes) → length xs ≡ 32 → read_network_sha256 (xs ++ rest) ≡ (xs, rest)
unfolding read_network_sha256
read-write_sha256 xs rest e = take-drop_exact 32 xs rest e

pub read-write_wallet :
    (xs rest : Bytes) → length xs ≡ 25 → read_network_wallet (xs ++ rest) ≡ (xs, rest)
unfolding read_network_wallet
read-write_wallet xs rest e = take-drop_exact 25 xs rest e
