-- ===== src/Block/Codec.antt =====
-- The wire image of a block header (`blockHeaderFromBuffer`, `blockHeaderToBuffer`), and blocks
-- taken apart into a header and transactions (`Block::serialize`) and put together again.
use shifupool.Base.{
  ◌+◌, ◌≡◌, ap, sym, ◌∙◌, drop, drop-append, List, [], ◌∷◌, ◌++◌, Bytes, arith, length,
  append_assoc, append-nil, length-append,
}
use shifupool.Words.{le_bytes, length-le_bytes}
use shifupool.Helpers.{
  write_network_uint32, write_network_uint64, write_network_sha256, read-write_uint32,
  read-write_uint64, read-write_sha256,
}
use shifupool.Transaction.{Transaction}
use shifupool.Block.{
  BlockHeader, IsBlockHeader, Block, blockheader_buffer_size, block_header_from_buffer,
  block_header_to_buffer, of_block_header, add_all, serialize,
}

-- The fields in their order on the wire, before `rest`.
pub image : BlockHeader → Bytes → Bytes
image b rest =
    le_bytes 4 b.id
    ++ (le_bytes 8 b.timestamp
        ++ (le_bytes 4 b.difficulty
            ++ (le_bytes 4 b.num_transactions
                ++ (b.last_block_hash ++ (b.merkle_root ++ (b.nonce ++ rest))))))

pub to_buffer-image :
    (b : BlockHeader) (c rest : Bytes) → block_header_to_buffer b c ++ rest ≡ c ++ image b rest
unfolding block_header_to_buffer image write_network_uint32 write_network_uint64
    write_network_sha256
to_buffer-image b c rest = simp append_assoc

pub from_buffer-image :
    (b : BlockHeader) (rest : Bytes) → IsBlockHeader b → block_header_from_buffer (image b rest) ≡ b
unfolding block_header_from_buffer image
from_buffer-image b rest h = rw (read-write_uint32 b.id _ h.id_small) (
    rw (read-write_uint64 b.timestamp _ h.timestamp_small) (
      rw (read-write_uint32 b.difficulty _ h.difficulty_small) (
        rw (read-write_uint32 b.num_transactions _ h.count_small) (
          rw (read-write_sha256 b.last_block_hash _ h.last_block_hash_size.size) (
            rw (read-write_sha256 b.merkle_root _ h.merkle_root_size.size)
              (rw (read-write_sha256 b.nonce rest h.nonce_size.size)))))))

-- A header of the sizes of its types that was written to a buffer is read back whatever follows.
pub block_header_from_buffer-to_buffer :
    (b : BlockHeader) (rest : Bytes)
    → IsBlockHeader b
    → block_header_from_buffer (block_header_to_buffer b [] ++ rest) ≡ b
block_header_from_buffer-to_buffer b rest h =
    rw (to_buffer-image b [] rest) (from_buffer-image b rest h)

pub length-image :
    (b : BlockHeader) (rest : Bytes)
    → IsBlockHeader b
    → length (image b rest) ≡ blockheader_buffer_size + length rest
unfolding image
length-image b rest h =
    simp
      (
        length-append, length-le_bytes, h.last_block_hash_size.size, h.merkle_root_size.size,
        h.nonce_size.size,
      )
      (omega arith)

-- A header of the sizes of its types takes exactly BLOCKHEADER_BUFFER_SIZE bytes behind what the
-- buffer holds.
pub length-block_header_to_buffer :
    (b : BlockHeader) (c : Bytes)
    → IsBlockHeader b
    → length (block_header_to_buffer b c) ≡ length c + blockheader_buffer_size
length-block_header_to_buffer b c h =
    rw (← append-nil (block_header_to_buffer b c))
      (rw (to_buffer-image b c [], length-append) (omega (arith, length-image b [] h)))

add_all-append :
    (b : Block) (ts : List Transaction)
    → add_all b ts ≡ record b { transactions = b.transactions ++ ts }
unfolding add_all shifupool.Block.add_transaction
add_all-append b [] = simp append-nil
add_all-append b (t ∷ ts) = add_all-append _ ts ∙ simp append_assoc

-- A block put together from the header of another has the transactions that it is given.
pub of_block_header_lem :
    (b : Block) (ts : List Transaction)
    → of_block_header (serialize b) ts ≡ record b { transactions = ts }
unfolding of_block_header serialize
of_block_header_lem b ts = add_all-append _ ts

-- A block made of the header that serialize gives and of the block's transactions is the block.
pub of_block_header-serialize : (b : Block) → of_block_header (serialize b) b.transactions ≡ b
unfolding of_block_header serialize
of_block_header-serialize b = add_all-append _ b.transactions

pub id-of_block_header :
    (b : BlockHeader) (ts : List Transaction) → (of_block_header b ts).id ≡ b.id
unfolding of_block_header
id-of_block_header b ts = ap (λ c. c.id) (add_all-append _ ts)

image-append : (b : BlockHeader) (rest : Bytes) → image b [] ++ rest ≡ image b rest
unfolding image
image-append b rest = simp append_assoc

-- The bytes behind an image.
pub drop-image :
    (b : BlockHeader) (rest : Bytes)
    → IsBlockHeader b
    → drop blockheader_buffer_size (image b rest) ≡ rest
drop-image b rest h =
    ap (λ n. drop n (image b rest)) size
    ∙ ap (drop (length (image b []))) (sym (image-append b rest))
    ∙ drop-append (image b []) rest
  where
    size : blockheader_buffer_size ≡ length (image b [])
    size = omega (arith, length-image b [] h)
