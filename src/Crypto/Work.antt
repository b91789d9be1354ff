-- ===== src/Crypto/Work.antt =====
-- Proof of work: `checkLeadingZeroBits` and `addWork` of c++/src/core/crypto.cpp, and `zeros`, the
-- count that the pool's helper (c++/src/miningproblem/main.cpp) reports for a share.
use native.Mathlib.Decide.{dec_lt}
use shifupool.Base.{
  ℕ, zero, suc, ◌+◌, ◌-◌, ◌*◌, ◌/◌, ◌^◌, ◌%◌, ◌≤◌, ◌<◌, ◌≡◌, refl, Bool, true, false, ◌&&◌, ◌||◌,
  [], ◌∷◌, arith, Bytes, get_or, ltb, leb, ◌==◌, if◌then◌else◌, IsBytes, length, All,
}

-- `for (i = 0; i < bytes; i++) if (a[i] != 0) return false`: are the first bytes zero?
zero_prefix : ℕ → Bytes → Bool
zero_prefix zero a = true
zero_prefix (suc n) [] = true
zero_prefix (suc n) (b ∷ a) = b == 0 && zero_prefix n a

-- the test itself, on a challenge that was cut to a byte
leading_zero_bits : Bytes → ℕ → Bool
unfolding zero_prefix
leading_zero_bits hash challenge_size =
    let bytes = challenge_size / 8 in
    let remaining_bits = challenge_size - 8 * bytes in
    if zero_prefix bytes hash
    then (if ltb 0 remaining_bits
        then get_or hash bytes 0 / 2 ^ (8 - remaining_bits) == 0
        else true)
    else false

-- `challengeSize` is a `uint8_t`: a larger number loses its upper bits at the call.
unfoldable pub check_leading_zero_bits : Bytes → ℕ → Bool
unfolding leading_zero_bits
check_leading_zero_bits hash challenge_size = leading_zero_bits hash (challenge_size % 2 ^ 8)

-- `Bigint` is taken as the number that it stands for.
unfoldable pub add_work : ℕ → ℕ → ℕ
add_work previous_work challenge_size = previous_work + 2 ^ challenge_size

-- The ladder of tests on the first byte that is not zero.
zeros_of_byte : ℕ → ℕ
zeros_of_byte v =
    if ltb 127 v
    then 0
    else if ltb 63 v
    then 1
    else if ltb 31 v
    then 2
    else if ltb 15 v
    then 3
    else if ltb 7 v
    then 4
    else if ltb 3 v
    then 5
    else if ltb 1 v
    then 6
    else 7

-- `i` bytes have been passed; at the end of the 32 bytes the answer is 256.
zeros_from : ℕ → Bytes → ℕ
unfolding zeros_of_byte
zeros_from i [] = 256
zeros_from i (b ∷ rest) =
    let next = zeros_from (i + 1) rest in if b == 0 then next else i * 8 + zeros_of_byte b

unfoldable pub zeros : Bytes → ℕ
unfolding zeros_from
zeros hash = zeros_from 0 hash

-- One byte: the shifted byte is zero exactly if it has that many leading zero bits.
byte_test : ℕ → ℕ → Bool
byte_test n b = if ltb 0 n then b / 2 ^ (8 - n) == 0 else true

byte_test-zeros_of_byte :
    (n b : ℕ) → n < 8 → b < 256 → byte_test n b ≡ (b == 0 || leb n (zeros_of_byte b))
unfolding byte_test zeros_of_byte
byte_test-zeros_of_byte zero b h q = ground arith
byte_test-zeros_of_byte (suc zero) b h q = ground arith
byte_test-zeros_of_byte (suc (suc zero)) b h q = ground arith
byte_test-zeros_of_byte (suc (suc (suc zero))) b h q = ground arith
byte_test-zeros_of_byte (suc (suc (suc (suc zero)))) b h q = ground arith
byte_test-zeros_of_byte (suc (suc (suc (suc (suc zero))))) b h q = ground arith
byte_test-zeros_of_byte (suc (suc (suc (suc (suc (suc zero)))))) b h q = ground arith
byte_test-zeros_of_byte (suc (suc (suc (suc (suc (suc (suc zero))))))) b h q = ground arith
byte_test-zeros_of_byte (suc (suc (suc (suc (suc (suc (suc (suc n)))))))) b h q =
    absurd (omega arith)

check_first_byte : (b n : ℕ) (rest : Bytes) → n < 8 → leading_zero_bits (b ∷ rest) n ≡ byte_test n b
unfolding leading_zero_bits byte_test
check_first_byte b n rest h =
    let e : n / 8 ≡ 0 = omega arith in
    let f : n - 8 * 0 ≡ n = omega arith in rw (e, leading_zero_bits) (rw f)

check_next_bytes :
    (b m : ℕ) (rest : Bytes)
    → leading_zero_bits (b ∷ rest) (8 + m) ≡ (b == 0 && leading_zero_bits rest m)
unfolding leading_zero_bits
check_next_bytes b m rest =
    let e : (8 + m) / 8 ≡ suc (m / 8) = omega arith in
    let f : 8 + m - 8 * suc (m / 8) ≡ m - 8 * (m / 8) = omega arith in rw (e, f) (ground arith)

zeros_from-le : (i : ℕ) (bs : Bytes) → i + length bs ≡ 32 → 8 * i ≤ zeros_from i bs
unfolding zeros_from
zeros_from-le i [] e = omega arith
zeros_from-le i (b ∷ rest) e = ground (arith, zeros_from-le (i + 1) rest)

zeros_of_byte-lt : (b : ℕ) → zeros_of_byte b < 8
unfolding zeros_of_byte
zeros_of_byte-lt b = ground arith

check-zeros_from :
    (i n : ℕ) (bs : Bytes)
    → i + length bs ≡ 32
    → All (λ x. x < 256) bs
    → n ≤ 8 * length bs
    → leading_zero_bits bs n ≡ leb (8 * i + n) (zeros_from i bs)
unfolding zeros_from
check-zeros_from i n [] e s h = let z : n ≡ 0 = omega arith in rw z (nothing i (omega arith))
  where
    nothing : (i : ℕ) → i ≡ 32 → leading_zero_bits [] 0 ≡ leb (8 * i + 0) 256
    nothing i e = unfold leading_zero_bits in rw e refl
check-zeros_from i n (b ∷ rest) e s h = elim (dec_lt n 8) [
  | yes small ↦
      rw (check_first_byte b n rest small, byte_test-zeros_of_byte n b small s.0)
        (ground (arith, zeros_from-le (i + 1) rest))
  | no large ↦
      let m : n ≡ 8 + (n - 8) = omega arith in
      let rec = check-zeros_from (i + 1) (n - 8) rest (omega arith) s.1 (omega arith) in
      rw m (rw (check_next_bytes b (n - 8) rest) (ground (arith, rec, zeros_of_byte-lt b)))
]

-- For any challenge, a 32-byte hash passes checkLeadingZeroBits exactly if zeros of the mining
-- client counts at least as many zero bits as the lowest byte of the challenge.
pub check_leading_zero_bits-zeros :
    (hash : Bytes) (challenge_size : ℕ)
    → IsBytes 32 hash
    → check_leading_zero_bits hash challenge_size ≡ leb (challenge_size % 2 ^ 8) (zeros hash)
unfolding zeros check_leading_zero_bits
check_leading_zero_bits-zeros hash n h =
    rw (check-zeros_from 0 (n % 2 ^ 8) hash (omega arith) h.small (omega arith)) (ground arith)
