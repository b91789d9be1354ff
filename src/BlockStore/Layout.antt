-- ===== src/BlockStore/Layout.antt =====
-- The images in memory of `struct BlockHeader` (c++/src/core/block.hpp, 120 bytes) and
-- `struct TransactionInfo` (c++/src/core/transaction.hpp, 184 bytes) on a 64-bit machine.
use shifupool.Base.{
  ◌≡◌, refl, Bool, true, false, [], ◌∷◌, ◌++◌, Bytes, length, replicate, ltb, if◌then◌else◌,
}
use shifupool.Words.{le_bytes, of_le}
use shifupool.Helpers.{
  read_network_uint32, read_network_uint64, read_network_n_bytes, read-write_uint32,
  read-write_uint64, read-write_n_bytes,
}
use shifupool.Transaction.{TransactionInfo, IsTransactionInfo}
use shifupool.Block.{BlockHeader, IsBlockHeader}

unfoldable pub header_image : BlockHeader → Bytes
header_image b =
    le_bytes 4 b.id
    ++ (replicate 4 0
        ++ (le_bytes 8 b.timestamp
            ++ (le_bytes 4 b.difficulty
                ++ (le_bytes 4 b.num_transactions
                    ++ (b.last_block_hash ++ (b.merkle_root ++ (b.nonce ++ [])))))))

unfoldable pub header_of_image : Bytes → BlockHeader
header_of_image b0 =
    let (id, b1) = read_network_uint32 b0 in
    let (_, b2) = read_network_n_bytes 4 b1 in
    let (timestamp, b3) = read_network_uint64 b2 in
    let (difficulty, b4) = read_network_uint32 b3 in
    let (num_transactions, b5) = read_network_uint32 b4 in
    let (last_block_hash, b6) = read_network_n_bytes 32 b5 in
    let (merkle_root, b7) = read_network_n_bytes 32 b6 in
    let (nonce, b8) = read_network_n_bytes 32 b7 in
    record {
      id = id;
      timestamp = timestamp;
      difficulty = difficulty;
      num_transactions = num_transactions;
      last_block_hash = last_block_hash;
      merkle_root = merkle_root;
      nonce = nonce;
    }

unfoldable pub info_image : TransactionInfo → Bytes
info_image t =
    t.signature
    ++ (t.signing_key
        ++ (le_bytes 8 t.timestamp
            ++ (t.to
                ++ (t.from
                    ++ (replicate 6 0
                        ++ (le_bytes 8 t.amount
                            ++ (le_bytes 8 t.fee
                                ++ ((if t.is_transaction_fee then 1 else 0) ∷ replicate 7 0))))))))

unfoldable pub info_of_image : Bytes → TransactionInfo
info_of_image b0 =
    let (signature, b1) = read_network_n_bytes 64 b0 in
    let (signing_key, b2) = read_network_n_bytes 32 b1 in
    let (timestamp, b3) = read_network_uint64 b2 in
    let (to, b4) = read_network_n_bytes 25 b3 in
    let (from, b5) = read_network_n_bytes 25 b4 in
    let (_, b6) = read_network_n_bytes 6 b5 in
    let (amount, b7) = read_network_uint64 b6 in
    let (fee, b8) = read_network_uint64 b7 in
    let (flag, b9) = read_network_n_bytes 1 b8 in
    record {
      signature = signature;
      signing_key = signing_key;
      timestamp = timestamp;
      to = to;
      from = from;
      amount = amount;
      fee = fee;
      is_transaction_fee = ltb 0 (of_le 1 flag);
    }

pub header_of_image-header_image :
    (b : BlockHeader) → IsBlockHeader b → header_of_image (header_image b) ≡ b
unfolding header_of_image header_image
header_of_image-header_image b h =
    rw
      (
        read-write_uint32 b.id _ h.id_small,
        read-write_n_bytes 4 (replicate 4 0) _ refl,
        read-write_uint64 b.timestamp _ h.timestamp_small,
        read-write_uint32 b.difficulty _ h.difficulty_small,
        read-write_uint32 b.num_transactions _ h.count_small,
        read-write_n_bytes 32 b.last_block_hash _ h.last_block_hash_size.size,
        read-write_n_bytes 32 b.merkle_root _ h.merkle_root_size.size,
        read-write_n_bytes 32 b.nonce _ h.nonce_size.size,
      )
      refl

read_flag :
    (b : Bool)
    → ltb 0 (of_le 1 (read_network_n_bytes 1 ((if b then 1 else 0) ∷ replicate 7 0)).0) ≡ b
unfolding of_le read_network_n_bytes
read_flag true = refl
read_flag false = refl

-- A transaction as it is stored: of an info, also the sender has its size.
pub info_of_image-info_image :
    (t : TransactionInfo)
    → IsTransactionInfo t
    → length t.from ≡ 25
    → info_of_image (info_image t) ≡ t
unfolding info_of_image info_image
info_of_image-info_image t h from_size =
    rw
      (
        read-write_n_bytes 64 t.signature _ h.signature_size.size,
        read-write_n_bytes 32 t.signing_key _ h.key_size.size,
        read-write_uint64 t.timestamp _ h.timestamp_small,
        read-write_n_bytes 25 t.to _ h.to_size.size,
        read-write_n_bytes 25 t.from _ from_size,
        read-write_n_bytes 6 (replicate 6 0) _ refl,
        read-write_uint64 t.amount _ h.amount_small,
        read-write_uint64 t.fee _ h.fee_small,
        read_flag t.is_transaction_fee,
      )
      refl
