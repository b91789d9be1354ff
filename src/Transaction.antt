-- ===== src/Transaction.antt =====
-- c++/src/core/transaction.hpp and transaction.cpp: transactions, their wire image, hashes, order and
-- equality. A member that a constructor leaves uninitialised keeps what `stale` holds. The
-- conversions from and to JSON are not modelled.
pub mod Codec
pub mod Equality
pub mod Order
use shifupool.Base.{
  ℕ, ◌+◌, ◌≡◌, ◌<◌, Bool, true, false, not, List, [], ◌∷◌, ◌++◌, Bytes, bytes_eq, ltb, ◌==◌,
  if◌then◌else◌, IsBytes, ◌||◌,
}
use shifupool.Words.{u64_mod, le_bytes}
use shifupool.Helpers.{
  read_network_uint32, read_network_uint64, read_network_n_bytes, read_network_wallet,
  write_network_uint32, write_network_uint64, write_network_n_bytes, write_network_wallet,
}
use shifupool.Crypto.{
  Primitives, null_address, wallet_address_from_public_key, check_signature, sign_with_private_key,
}
use shifupool.Crypto.Hex.{hex_encode}

pub record TransactionInfo : Type 0 where
  pub signature : Bytes
  pub signing_key : Bytes
  pub timestamp : ℕ
  pub to : Bytes
  pub from : Bytes
  pub amount : ℕ
  pub fee : ℕ
  pub is_transaction_fee : Bool

pub record Transaction : Type 0 where
  pub signature : Bytes
  pub signing_key : Bytes
  pub timestamp : ℕ
  pub to : Bytes
  pub from : Bytes
  pub amount : ℕ
  pub fee : ℕ
  pub is_transaction_fee : Bool

-- The sizes that the C++ types give: arrays of 64, 32 and 25 bytes, and `uint64_t`.
pub record IsTransactionInfo (t : TransactionInfo) : Type 0 where
  pub signature_size : IsBytes 64 t.signature
  pub key_size : IsBytes 32 t.signing_key
  pub to_size : IsBytes 25 t.to
  pub timestamp_small : t.timestamp < u64_mod
  pub amount_small : t.amount < u64_mod
  pub fee_small : t.fee < u64_mod

module _ (p : Primitives) where
  -- the sender is not on the wire: it is computed from the key
  unfoldable pub derived_from : Bytes → Bool → Bytes
  derived_from signing_key is_fee =
      if not is_fee then wallet_address_from_public_key p signing_key else null_address

  -- `transactionInfoFromBuffer`
  unfoldable pub transaction_info_from_buffer : Bytes → TransactionInfo
  unfolding derived_from
  transaction_info_from_buffer b0 =
      let (signature, b1) = read_network_n_bytes 64 b0 in
      let (signing_key, b2) = read_network_n_bytes 32 b1 in
      let (timestamp, b3) = read_network_uint64 b2 in
      let (to, b4) = read_network_wallet b3 in
      let (amount, b5) = read_network_uint64 b4 in
      let (fee, b6) = read_network_uint64 b5 in
      let (flag, b7) = read_network_uint32 b6 in
      record {
        signature = signature;
        signing_key = signing_key;
        timestamp = timestamp;
        to = to;
        from = derived_from signing_key (ltb 0 flag);
        amount = amount;
        fee = fee;
        is_transaction_fee = ltb 0 flag;
      }

-- `transactionInfoToBuffer`, behind what `b0` holds already
unfoldable pub transaction_info_to_buffer : TransactionInfo → Bytes → Bytes
transaction_info_to_buffer t b0 =
    let b1 = write_network_n_bytes b0 t.signature 64 in
    let b2 = write_network_n_bytes b1 t.signing_key 32 in
    let b3 = write_network_uint64 b2 t.timestamp in
    let b4 = write_network_wallet b3 t.to in
    let b5 = write_network_uint64 b4 t.amount in
    let b6 = write_network_uint64 b5 t.fee in
    write_network_uint32 b6 (if t.is_transaction_fee then 1 else 0)

-- `TRANSACTIONINFO_BUFFER_SIZE`
abbrev pub transactioninfo_buffer_size : ℕ
transactioninfo_buffer_size = 149

-- The constructors. `now` is `std::time(0)`.
unfoldable pub new_transaction : Transaction → Bytes → Bytes → ℕ → Bytes → ℕ → ℕ → Transaction
new_transaction stale from to amount signing_key fee timestamp = record {
  signature = stale.signature;
  signing_key = signing_key;
  timestamp = timestamp;
  to = to;
  from = from;
  amount = amount;
  fee = fee;
  is_transaction_fee = false;
}

unfoldable pub new_mining_fee : Transaction → Bytes → ℕ → ℕ → Transaction
new_mining_fee stale to fee now = record {
  signature = stale.signature;
  signing_key = stale.signing_key;
  timestamp = now;
  to = to;
  from = stale.from;
  amount = fee;
  fee = 0;
  is_transaction_fee = true;
}

-- `Transaction(const TransactionInfo&)`: the sender of a mining fee stays uninitialised.
unfoldable pub of_transaction_info : Bytes → TransactionInfo → Transaction
of_transaction_info stale_from t = record {
  signature = t.signature;
  signing_key = t.signing_key;
  timestamp = t.timestamp;
  to = t.to;
  from = if not t.is_transaction_fee then t.from else stale_from;
  amount = t.amount;
  fee = t.fee;
  is_transaction_fee = t.is_transaction_fee;
}

-- `Transaction::serialize`
unfoldable pub serialize : Transaction → TransactionInfo
serialize t = record {
  signature = t.signature;
  signing_key = t.signing_key;
  timestamp = t.timestamp;
  to = t.to;
  from = t.from;
  amount = t.amount;
  fee = t.fee;
  is_transaction_fee = t.is_transaction_fee;
}

module _ (p : Primitives) where
  open p use {sha256}

  -- The integers are hashed as they lie in memory.
  unfoldable pub hash_contents : Transaction → Bytes
  hash_contents t = sha256 (
      t.to
      ++ ((if not t.is_transaction_fee then t.from else [])
          ++ (le_bytes 8 t.fee ++ (le_bytes 8 t.amount ++ le_bytes 8 t.timestamp))))

  -- `Transaction::getHash`
  unfoldable pub get_hash : Transaction → Bytes
  get_hash t = sha256 (hash_contents t ++ (if not t.is_transaction_fee then t.signature else []))

  unfoldable pub signature_valid : Transaction → Bool
  signature_valid t =
      if t.is_transaction_fee
      then true
      else check_signature p (hash_contents t) t.signature t.signing_key

  unfoldable pub sign : Transaction → Bytes → Bytes → Transaction
  sign t pub_key signing_key = record t {
    signature = sign_with_private_key p (hash_contents t) pub_key signing_key;
  }

-- `<` of two arrays: lexicographic.
unfoldable pub bytes_lt : Bytes → Bytes → Bool
bytes_lt xs [] = false
bytes_lt [] (y ∷ ys) = true
bytes_lt (x ∷ xs) (y ∷ ys) =
    let rest = bytes_lt xs ys in if ltb x y then true else if ltb y x then false else rest

-- `operator<`, which orders the sets of transactions
unfoldable pub transaction_lt : Transaction → Transaction → Bool
transaction_lt a b = bytes_lt a.signature b.signature

bool_eq : Bool → Bool → Bool
bool_eq true b = b
bool_eq false b = not b

-- `operator==`
unfoldable pub transaction_eq : Transaction → Transaction → Bool
unfolding bool_eq
transaction_eq a b =
    if not (a.timestamp == b.timestamp)
    then false
    else if not (bytes_eq a.to b.to)
    then false
    else if not (a.fee == b.fee)
    then false
    else if not (a.amount == b.amount)
    then false
    else if not (bool_eq a.is_transaction_fee b.is_transaction_fee)
    then false
    else if not a.is_transaction_fee
    then (if not (bytes_eq a.from b.from)
        then false
        else if not (bytes_eq (hex_encode a.signature) (hex_encode b.signature))
        then false
        else if not (bytes_eq (hex_encode a.signing_key) (hex_encode b.signing_key))
        then false
        else true)
    else true
