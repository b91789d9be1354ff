-- ===== src/Transaction/Equality.antt =====
-- Equality and hashes of transactions (`operator==`, `getHash` and `hashContents`).
use shifupool.Base.{◌≡◌, ◌<◌, sym, ap, ◌∙◌, true, Bytes, arith, All, bytes_eq_iff}
use shifupool.Crypto.{Primitives}
use shifupool.Crypto.Hex.{hex_encode, hex_decode, hex_decode-hex_encode}
use shifupool.Transaction.{Transaction, transaction_eq, hash_contents, get_hash}

hex_encode-injective :
    (xs ys : Bytes)
    → All (λ x. x < 256) xs
    → All (λ x. x < 256) ys
    → hex_encode xs ≡ hex_encode ys
    → xs ≡ ys
hex_encode-injective xs ys h k e =
    sym (hex_decode-hex_encode xs h) ∙ ap hex_decode e ∙ hex_decode-hex_encode ys k

-- Transactions with signatures of bytes that operator== takes for equal have the same content
-- hash and the same hash.
pub get_hash-transaction_eq :
    (p : Primitives) (a b : Transaction)
    → All (λ x. x < 256) a.signature
    → All (λ x. x < 256) b.signature
    → transaction_eq a b ≡ true
    → (hash_contents p a ≡ hash_contents p b) × (get_hash p a ≡ get_hash p b)
unfolding transaction_eq get_hash hash_contents
get_hash-transaction_eq p a b h k e = ground (
  arith,
  bytes_eq_iff a.to b.to,
  bytes_eq_iff a.from b.from,
  bytes_eq_iff (hex_encode a.signature) (hex_encode b.signature),
  hex_encode-injective a.signature b.signature h k,
)
