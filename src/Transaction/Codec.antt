-- ===== src/Transaction/Codec.antt =====
-- The wire image of a transaction (`transactionInfoFromBuffer`, `transactionInfoToBuffer`).
use shifupool.Base.{
  ℕ, ◌+◌, ◌≡◌, ap, sym, ◌∙◌, drop, drop-append, ◌<◌, ◌^◌, refl, Bool, true, false, [], ◌++◌, Bytes,
  arith, length, take, append_assoc, append-nil, length-append, take-append, if◌then◌else◌, ltb,
}
use shifupool.Words.{le_bytes, length-le_bytes}
use shifupool.Helpers.{
  write_network_uint32, write_network_uint64, write_network_n_bytes, write_network_wallet,
  read-write_uint32, read-write_uint64, read-write_n_bytes, read-write_wallet,
}
use shifupool.Crypto.{Primitives}
use shifupool.Transaction.{
  TransactionInfo, IsTransactionInfo, transaction_info_from_buffer, transaction_info_to_buffer,
  transactioninfo_buffer_size, derived_from,
}

-- The fields in their order on the wire, before `rest`.
pub image : TransactionInfo → Bytes → Bytes
image t rest =
    t.signature
    ++ (t.signing_key
        ++ (le_bytes 8 t.timestamp
            ++ (t.to
                ++ (le_bytes 8 t.amount
                    ++ (le_bytes 8 t.fee
                        ++ (le_bytes 4 (if t.is_transaction_fee then 1 else 0) ++ rest))))))

take-all : (n : ℕ) (xs : Bytes) → length xs ≡ n → take n xs ≡ xs
take-all n xs e = rw (← e) (simp (append-nil) at (take-append xs []))

pub to_buffer-image :
    (t : TransactionInfo) (b rest : Bytes)
    → IsTransactionInfo t
    → transaction_info_to_buffer t b ++ rest ≡ b ++ image t rest
unfolding transaction_info_to_buffer image write_network_uint32 write_network_uint64
    write_network_n_bytes write_network_wallet
to_buffer-image t b rest h = simp (
  take-all 64 t.signature h.signature_size.size,
  take-all 32 t.signing_key h.key_size.size,
  append_assoc,
)

flag-lt : (b : Bool) → (if b then 1 else 0) < 2 ^ 32
flag-lt true = omega arith
flag-lt false = omega arith

flag-read : (b : Bool) → ltb 0 (if b then 1 else 0) ≡ b
flag-read true = refl
flag-read false = refl

pub from_buffer-image :
    (p : Primitives) (t : TransactionInfo) (rest : Bytes)
    → IsTransactionInfo t
    → transaction_info_from_buffer p (image t rest)
      ≡ record t { from = derived_from p t.signing_key t.is_transaction_fee }
unfolding transaction_info_from_buffer image
from_buffer-image p t rest h = rw (read-write_n_bytes 64 t.signature _ h.signature_size.size) (
    rw (read-write_n_bytes 32 t.signing_key _ h.key_size.size) (
      rw (read-write_uint64 t.timestamp _ h.timestamp_small) (
        rw (read-write_wallet t.to _ h.to_size.size) (
          rw (read-write_uint64 t.amount _ h.amount_small) (
            rw (read-write_uint64 t.fee _ h.fee_small) (
              rw
                (read-write_uint32 (if t.is_transaction_fee then 1 else 0) rest
                  (flag-lt t.is_transaction_fee))
                (λ i. record {
                  signature = t.signature;
                  signing_key = t.signing_key;
                  timestamp = t.timestamp;
                  to = t.to;
                  from = derived_from p t.signing_key (flag-read t.is_transaction_fee i);
                  amount = t.amount;
                  fee = t.fee;
                  is_transaction_fee = flag-read t.is_transaction_fee i;
                })))))))

-- A transaction of the sizes of its types that was written to a buffer is read back whatever
-- follows, with its sender computed anew from the key, or the null address for a mining fee.
pub transaction_info_from_buffer-to_buffer :
    (p : Primitives) (t : TransactionInfo) (rest : Bytes)
    → IsTransactionInfo t
    → transaction_info_from_buffer p (transaction_info_to_buffer t [] ++ rest)
      ≡ record t { from = derived_from p t.signing_key t.is_transaction_fee }
transaction_info_from_buffer-to_buffer p t rest h =
    rw (to_buffer-image t [] rest h) (from_buffer-image p t rest h)

pub length-image :
    (t : TransactionInfo) (rest : Bytes)
    → IsTransactionInfo t
    → length (image t rest) ≡ transactioninfo_buffer_size + length rest
unfolding image
length-image t rest h =
    simp (length-append, length-le_bytes, h.signature_size.size, h.key_size.size, h.to_size.size)
      (omega arith)

-- A transaction of the sizes of its types takes exactly TRANSACTIONINFO_BUFFER_SIZE bytes behind
-- what the buffer holds.
pub length-transaction_info_to_buffer :
    (t : TransactionInfo) (b : Bytes)
    → IsTransactionInfo t
    → length (transaction_info_to_buffer t b) ≡ length b + transactioninfo_buffer_size
length-transaction_info_to_buffer t b h =
    rw (← append-nil (transaction_info_to_buffer t b))
      (rw (to_buffer-image t b [] h, length-append) (omega (arith, length-image t [] h)))

image-append : (t : TransactionInfo) (rest : Bytes) → image t [] ++ rest ≡ image t rest
unfolding image
image-append t rest = simp append_assoc

-- The bytes behind an image.
pub drop-image :
    (t : TransactionInfo) (rest : Bytes)
    → IsTransactionInfo t
    → drop transactioninfo_buffer_size (image t rest) ≡ rest
drop-image t rest h =
    ap (λ n. drop n (image t rest)) size
    ∙ ap (drop (length (image t []))) (sym (image-append t rest))
    ∙ drop-append (image t []) rest
  where
    size : transactioninfo_buffer_size ≡ length (image t [])
    size = omega (arith, length-image t [] h)
