-- ===== src/Examples/Wire.antt =====
-- The theorems on bytes and single blocks, transactions and hashes, applied.
use shifupool.Base.{◌%◌, ◌^◌, ◌≡◌, refl, false, some, [], ◌∷◌, ◌++◌, arith, replicate, leb}
use mathlib.Core.List.{Permᴰ}
use shifupool.Crypto.Work.{check_leading_zero_bits, zeros, check_leading_zero_bits-zeros}
use shifupool.Crypto.Hex.{hex_encode, hex_decode, hex_decode-hex_encode}
use shifupool.Transaction.{
  TransactionInfo, IsTransactionInfo, transaction_info_from_buffer, transaction_info_to_buffer,
  derived_from,
}
use shifupool.Transaction.Codec.{transaction_info_from_buffer-to_buffer}
use shifupool.Block.{
  Block, BlockHeader, IsBlockHeader, block_header_from_buffer, block_header_to_buffer,
}
use shifupool.Block.Codec.{block_header_from_buffer-to_buffer}
use shifupool.MerkleTree.{HashTree, set_items}
use shifupool.MerkleTree.Order.{set_items-perm, set_items-total}
use shifupool.Examples.{toy, toy-PrimitiveSizes, replicate-IsBytes, alice, bob, fee, payment}

check_leading_zero_bits-zeros_example :
    check_leading_zero_bits (0 ∷ 7 ∷ replicate 30 9) 269
    ≡ leb (269 % 2 ^ 8) (zeros (0 ∷ 7 ∷ replicate 30 9))
check_leading_zero_bits-zeros_example =
    check_leading_zero_bits-zeros (0 ∷ 7 ∷ replicate 30 9) 269 (record {
      size = refl;
      small = (omega arith, (omega arith, (replicate-IsBytes 30 9 (omega arith)).small));
    })

hex_decode-hex_encode_example : hex_decode (hex_encode (0 ∷ 171 ∷ 255 ∷ [])) ≡ 0 ∷ 171 ∷ 255 ∷ []
hex_decode-hex_encode_example =
    hex_decode-hex_encode (0 ∷ 171 ∷ 255 ∷ []) (omega arith, (omega arith, (omega arith, tt)))

abbrev paid : TransactionInfo
paid = record {
  signature = replicate 64 7;
  signing_key = replicate 32 3;
  timestamp = 10;
  to = bob;
  from = alice;
  amount = 30000;
  fee = 10;
  is_transaction_fee = false;
}

paid-IsTransactionInfo : IsTransactionInfo paid
paid-IsTransactionInfo = record {
  signature_size = replicate-IsBytes 64 7 (omega arith);
  key_size = replicate-IsBytes 32 3 (omega arith);
  to_size = replicate-IsBytes 25 2 (omega arith);
  timestamp_small = omega arith;
  amount_small = omega arith;
  fee_small = omega arith;
}

transaction_info_from_buffer-to_buffer_example :
    transaction_info_from_buffer toy (transaction_info_to_buffer paid [] ++ (1 ∷ []))
    ≡ record paid { from = derived_from toy (replicate 32 3) false }
transaction_info_from_buffer-to_buffer_example =
    transaction_info_from_buffer-to_buffer toy paid (1 ∷ []) paid-IsTransactionInfo

abbrev header : BlockHeader
header = record {
  id = 3;
  timestamp = 20;
  difficulty = 16;
  num_transactions = 1;
  last_block_hash = replicate 32 1;
  merkle_root = replicate 32 2;
  nonce = replicate 32 3;
}

header-IsBlockHeader : IsBlockHeader header
header-IsBlockHeader = record {
  id_small = omega arith;
  timestamp_small = omega arith;
  difficulty_small = omega arith;
  count_small = omega arith;
  last_block_hash_size = replicate-IsBytes 32 1 (omega arith);
  merkle_root_size = replicate-IsBytes 32 2 (omega arith);
  nonce_size = replicate-IsBytes 32 3 (omega arith);
}

block_header_from_buffer-to_buffer_example :
    block_header_from_buffer (block_header_to_buffer header [] ++ (5 ∷ [])) ≡ header
block_header_from_buffer-to_buffer_example =
    block_header_from_buffer-to_buffer header (5 ∷ []) header-IsBlockHeader

abbrev sample : Block
sample = record {
  id = 3;
  timestamp = 20;
  difficulty = 16;
  transactions = fee ∷ payment ∷ [];
  merkle_root = replicate 32 2;
  last_block_hash = replicate 32 1;
  nonce = replicate 32 3;
}

set_items-perm_example :
    (set_items toy (fee ∷ payment ∷ [])).1 ≡ (set_items toy (payment ∷ fee ∷ [])).1
set_items-perm_example = set_items-perm toy toy-PrimitiveSizes (Permᴰ.swap {l = []} refl refl)

set_items-total_example : (root : HashTree) × ((set_items toy (fee ∷ payment ∷ [])).1 ≡ some root)
set_items-total_example = set_items-total toy (fee ∷ payment ∷ []) (omega arith)
