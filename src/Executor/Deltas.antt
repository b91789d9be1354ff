-- ===== src/Executor/Deltas.antt =====
-- `LedgerState` (c++/src/core/common.hpp), a map from wallets to the change of their balance modulo
-- 2^64, as an association list. The code looks keys up, inserts them and walks over the map once, and
-- the walk does the same in any order.
use shifupool.Base.{
  ℕ, ◌+◌, ◌%◌, ◌≡◌, refl, Bool, false, ◌||◌, List, [], ◌∷◌, Bytes, bytes_eq, bytes_eq_iff, arith,
  if◌then◌else◌,
}
use shifupool.Words.{u64_mod, add64, sub64, neg64}

abbrev pub LedgerState : Type 0
LedgerState = List (Bytes × ℕ)

-- `receiverDelta->second += amt`, or the insertion of `amt`
unfoldable pub credit_delta : Bytes → ℕ → LedgerState → LedgerState
credit_delta to amt [] = (to, amt) ∷ []
credit_delta to amt ((w, x) ∷ d) =
    if bytes_eq to w then (w, add64 x amt) ∷ d else (w, x) ∷ credit_delta to amt d

-- `senderDelta->second -= amt`, or the insertion of `-amt`
unfoldable pub debit_delta : Bytes → ℕ → LedgerState → LedgerState
debit_delta from amt [] = (from, neg64 amt) ∷ []
debit_delta from amt ((w, x) ∷ d) =
    if bytes_eq from w then (w, sub64 x amt) ∷ d else (w, x) ∷ debit_delta from amt d

-- The change of a wallet, and whether there is an entry for it.
unfoldable pub delta : LedgerState → Bytes → ℕ
delta [] j = 0
delta ((w, x) ∷ d) j = if bytes_eq w j then x else delta d j

unfoldable pub touched : LedgerState → Bytes → Bool
touched [] j = false
touched ((w, x) ∷ d) j = bytes_eq w j || touched d j

-- The sum of all changes.
unfoldable pub total : LedgerState → ℕ
total [] = 0
total ((w, x) ∷ d) = x + total d

-- No wallet has two entries.
unfoldable pub IsMap : LedgerState → Type 0
IsMap [] = Unit
IsMap ((w, x) ∷ d) = (touched d w ≡ false) × IsMap d

pub touched-credit_delta :
    (w : Bytes) (x : ℕ) (d : LedgerState) (j : Bytes)
    → touched (credit_delta w x d) j ≡ (bytes_eq w j || touched d j)
unfolding touched credit_delta
touched-credit_delta w x [] j = refl
touched-credit_delta w x ((v, y) ∷ d) j =
    ground
      (arith, touched-credit_delta w x d j, bytes_eq_iff w v, bytes_eq_iff w j, bytes_eq_iff v j)

pub touched-debit_delta :
    (w : Bytes) (x : ℕ) (d : LedgerState) (j : Bytes)
    → touched (debit_delta w x d) j ≡ (bytes_eq w j || touched d j)
unfolding touched debit_delta
touched-debit_delta w x [] j = refl
touched-debit_delta w x ((v, y) ∷ d) j =
    ground
      (arith, touched-debit_delta w x d j, bytes_eq_iff w v, bytes_eq_iff w j, bytes_eq_iff v j)

pub credit_delta-IsMap :
    (w : Bytes) (x : ℕ) (d : LedgerState) → IsMap d → IsMap (credit_delta w x d)
unfolding IsMap credit_delta touched
credit_delta-IsMap w x [] h = (refl, tt)
credit_delta-IsMap w x ((v, y) ∷ d) h =
    ground (arith, credit_delta-IsMap w x d h.1, touched-credit_delta w x d v)

pub debit_delta-IsMap : (w : Bytes) (x : ℕ) (d : LedgerState) → IsMap d → IsMap (debit_delta w x d)
unfolding IsMap debit_delta touched
debit_delta-IsMap w x [] h = (refl, tt)
debit_delta-IsMap w x ((v, y) ∷ d) h =
    ground (arith, debit_delta-IsMap w x d h.1, touched-debit_delta w x d v)

-- A credit adds to the change of its wallet, and to the sum; a debit takes away.
pub delta-credit_delta :
    (w : Bytes) (x : ℕ) (d : LedgerState) (j : Bytes)
    → delta (credit_delta w x d) j % u64_mod
      ≡ (if bytes_eq w j then (delta d j + x) % u64_mod else delta d j % u64_mod)
unfolding delta credit_delta
delta-credit_delta w x [] j = ground arith
delta-credit_delta w x ((v, y) ∷ d) j =
    ground (arith, delta-credit_delta w x d j, bytes_eq_iff w v, bytes_eq_iff w j, bytes_eq_iff v j)

pub delta-debit_delta :
    (w : Bytes) (x : ℕ) (d : LedgerState) (j : Bytes)
    → (if bytes_eq w j
        then (delta (debit_delta w x d) j + x) % u64_mod
        else delta (debit_delta w x d) j % u64_mod)
      ≡ delta d j % u64_mod
unfolding delta debit_delta
delta-debit_delta w x [] j = ground arith
delta-debit_delta w x ((v, y) ∷ d) j =
    ground (arith, delta-debit_delta w x d j, bytes_eq_iff w v, bytes_eq_iff w j, bytes_eq_iff v j)

pub total-credit_delta :
    (w : Bytes) (x : ℕ) (d : LedgerState)
    → total (credit_delta w x d) % u64_mod ≡ (total d + x) % u64_mod
unfolding total credit_delta
total-credit_delta w x [] = ground arith
total-credit_delta w x ((v, y) ∷ d) = ground (arith, total-credit_delta w x d)

pub total-debit_delta :
    (w : Bytes) (x : ℕ) (d : LedgerState)
    → (total (debit_delta w x d) + x) % u64_mod ≡ total d % u64_mod
unfolding total debit_delta
total-debit_delta w x [] = ground arith
total-debit_delta w x ((v, y) ∷ d) = ground (arith, total-debit_delta w x d)
