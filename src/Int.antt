-- ===== src/Int.antt =====
-- Signed integers over the native numbers, and `int32_t` arithmetic on them: `int` computations are
-- cut to 32 bits as two's complement machines do (signed overflow is undefined in the sources).
use shifupool.Base.{ℕ, suc, ◌+◌, ◌-◌, ◌*◌, ◌/◌, ◌%◌, ◌^◌, Bool, leb, ltb, if◌then◌else◌}

-- `negsuc n` is -(n + 1).
pub data ℤ : Type 0 where
  pos : ℕ → ℤ
  negsuc : ℕ → ℤ

abbrev pub pos_part : ℤ → ℕ
pos_part (pos n) = n
pos_part (negsuc n) = 0

abbrev pub neg_part : ℤ → ℕ
neg_part (pos n) = 0
neg_part (negsuc n) = suc n

-- a - b, as an integer.
abbrev pub sub_ℕ : ℕ → ℕ → ℤ
sub_ℕ a b = if leb b a then pos (a - b) else negsuc (b - a - 1)

infixl 65 ◌-ℤ◌
abbrev pub ◌-ℤ◌ : ℤ → ℤ → ℤ
a -ℤ b = sub_ℕ (pos_part a + neg_part b) (neg_part a + pos_part b)

abbrev pub abs : ℤ → ℕ
abs a = pos_part a + neg_part a

-- `a < b`, `a > b`
abbrev pub ltb_ℤ : ℤ → ℤ → Bool
ltb_ℤ a b = ltb (pos_part a + neg_part b) (pos_part b + neg_part a)

-- Division in C goes towards zero.
abbrev pub div_ℤ : ℤ → ℤ → ℤ
div_ℤ a (pos k) = sub_ℕ (pos_part a / k) (neg_part a / k)
div_ℤ a (negsuc k) = sub_ℕ (neg_part a / suc k) (pos_part a / suc k)

abbrev pub mul_ℤ : ℤ → ℤ → ℤ
mul_ℤ a b =
    sub_ℕ (pos_part a * pos_part b + neg_part a * neg_part b)
      (pos_part a * neg_part b + neg_part a * pos_part b)

-- The `int32_t` with this bit pattern, and the bit pattern of an integer.
abbrev pub signed32 : ℕ → ℤ
signed32 w = if ltb w (2 ^ 31) then pos w else negsuc (2 ^ 32 - w - 1)

abbrev pub bits32 : ℤ → ℕ
bits32 a = (pos_part a + (2 ^ 32 - neg_part a % 2 ^ 32)) % 2 ^ 32

abbrev pub int32 : ℤ → ℤ
int32 a = signed32 (bits32 a)
