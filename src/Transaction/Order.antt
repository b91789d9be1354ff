-- ===== src/Transaction/Order.antt =====
-- `<` of two arrays is a strict total order.
use shifupool.Base.{◌≡◌, refl, true, false, [], ◌∷◌, Bytes, arith}
use shifupool.Transaction.{bytes_lt}

pub bytes_lt_irrefl : (xs : Bytes) → bytes_lt xs xs ≡ false
unfolding bytes_lt
bytes_lt_irrefl [] = refl
bytes_lt_irrefl (x ∷ xs) = ground (arith, bytes_lt_irrefl xs)

pub bytes_lt_trans :
    (xs ys zs : Bytes) → bytes_lt xs ys ≡ true → bytes_lt ys zs ≡ true → bytes_lt xs zs ≡ true
unfolding bytes_lt
bytes_lt_trans xs ys [] h k = cc
bytes_lt_trans xs [] (z ∷ zs) h k = cc
bytes_lt_trans [] (y ∷ ys) (z ∷ zs) h k = refl
bytes_lt_trans (x ∷ xs) (y ∷ ys) (z ∷ zs) h k = ground (arith, bytes_lt_trans xs ys zs)

-- Two texts of which neither comes first are the same.
pub bytes_lt_connex : (xs ys : Bytes) → bytes_lt xs ys ≡ false → bytes_lt ys xs ≡ false → xs ≡ ys
unfolding bytes_lt
bytes_lt_connex [] [] h k = refl
bytes_lt_connex [] (y ∷ ys) h k = cc
bytes_lt_connex (x ∷ xs) [] h k = cc
bytes_lt_connex (x ∷ xs) (y ∷ ys) h k = ground (arith, bytes_lt_connex xs ys)
