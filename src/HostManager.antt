-- ===== src/HostManager.antt =====
-- c++/src/core/host_manager.hpp and host_manager.cpp: the known hosts, and the peers whose header
-- chains are followed. The clock, the answers of hosts and the random samples are parameters; the
-- files, the threads, the requests that only tell others about a peer and the host lists that are
-- downloaded are not modelled. Maps are association lists.
pub mod Best
use shifupool.Base.{
  ℕ, zero, suc, ◌+◌, ◌-◌, ◌*◌, ◌/◌, ◌%◌, Bool, true, false, not, ◌||◌, ◌&&◌, Option, none, some,
  List, [], ◌∷◌, ◌++◌, map, Bytes, bytes_eq, ltb, leb, ◌==◌, if◌then◌else◌, length, get_or,
}
use shifupool.Words.{u64_mod, add64, sub64}
use shifupool.Int.{ℤ, pos, negsuc, sub_ℕ, ltb_ℤ, div_ℤ, int32, pos_part, neg_part}
use shifupool.Crypto.{null_sha256_hash}
use shifupool.HeaderChain.{
  HeaderChain, new_header_chain, get_total_work, get_chain_length, get_block_hash,
}

-- `HOST_MIN_FRESHNESS`, `RANDOM_GOOD_HOST_COUNT`
abbrev pub host_min_freshness : ℕ
host_min_freshness = 180 * 60

abbrev pub random_good_host_count : ℕ
random_good_host_count = 9

pub record HostManager : Type 0 where
  pub curr_peers : List HeaderChain
  pub host_ping_times : List (Bytes × ℕ)
  pub peer_clock_deltas : List (Bytes × ℤ)
  pub hosts : List Bytes
  pub blacklist : List Bytes
  pub whitelist : List Bytes
  pub address : Bytes
  pub version : Bytes

-- `map[key] = value`
unfoldable pub assign : {V : Type 0} → Bytes → V → List (Bytes × V) → List (Bytes × V)
assign k v [] = (k, v) ∷ []
assign k v ((j, w) ∷ d) =
    let rest = assign k v d in if bytes_eq k j then (j, v) ∷ d else (j, w) ∷ rest

-- `peerClockDeltas[host]`; an entry that it creates holds the 0 that a missing one is read as.
unfoldable pub clock_delta : Bytes → List (Bytes × ℤ) → ℤ
clock_delta k [] = pos 0
clock_delta k ((j, v) ∷ d) = let rest = clock_delta k d in if bytes_eq k j then v else rest

unfoldable pub member : Bytes → List Bytes → Bool
member k [] = false
member k (j ∷ js) = bytes_eq k j || member k js

-- The hosts that pinged lately: `std::time(0) - pair.second < HOST_MIN_FRESHNESS` on `uint64_t`.
unfoldable pub fresh_hosts : ℕ → List (Bytes × ℕ) → List Bytes
fresh_hosts now [] = []
fresh_hosts now ((host, pinged) ∷ d) =
    let rest = fresh_hosts now d in
    if ltb (sub64 now pinged) host_min_freshness then host ∷ rest else rest

unfoldable pub get_hosts : ℕ → Bool → HostManager → List Bytes
get_hosts now include_self hm =
    let fresh = fresh_hosts now hm.host_ping_times in
    if include_self then fresh ++ (hm.address ∷ []) else fresh

insert_delta : ℤ → List ℤ → List ℤ
insert_delta x [] = x ∷ []
insert_delta x (y ∷ ys) = let rest = insert_delta x ys in if ltb_ℤ y x then y ∷ rest else x ∷ y ∷ ys

unfoldable pub sort_deltas : List ℤ → List ℤ
unfolding insert_delta
sort_deltas [] = []
sort_deltas (x ∷ xs) = insert_delta x (sort_deltas xs)

-- `std::time(0) + delta` on `uint64_t`
unfoldable pub shift_time : ℕ → ℤ → ℕ
shift_time now d = sub64 (add64 now (pos_part d)) (neg_part d)

-- `a + b` on `int32_t`
abbrev pub add_int32 : ℤ → ℤ → ℤ
add_int32 a b = int32 (sub_ℕ (pos_part a + pos_part b) (neg_part a + neg_part b))

-- The local time, moved by the median of the clock differences of the hosts that pinged lately.
unfoldable pub get_network_timestamp : ℕ → HostManager → ℕ
get_network_timestamp now hm =
    let deltas =
      sort_deltas
        (map (λ h. clock_delta h hm.peer_clock_deltas) (fresh_hosts now hm.host_ping_times)) in
    let n = length deltas in
    if n == 0
    then now
    else if n % 2 == 0
    then shift_time now (
        div_ℤ (add_int32 (get_or deltas (n / 2) (pos 0)) (get_or deltas (n / 2 - 1) (pos 0)))
          (pos 2))
    else shift_time now (get_or deltas (n / 2) (pos 0))

-- The variables of the loops over the peers.
pub record BestPeer : Type 0 where
  pub work : ℕ
  pub host : Bytes
  pub count : ℕ

-- `if (h->getTotalWork() > bestWork) { … }`
unfoldable pub better : HeaderChain → BestPeer → BestPeer
better h b =
    if ltb b.work (get_total_work h)
    then record { work = get_total_work h; host = h.host; count = get_chain_length h }
    else b

unfoldable pub best_of : List HeaderChain → BestPeer → BestPeer
best_of [] b = b
best_of (h ∷ hs) b = best_of hs (better h b)

unfoldable pub get_good_host : HostManager → Bytes
get_good_host hm = elim hm.curr_peers [
  | [] ↦ []
  | h ∷ hs ↦ (best_of (h ∷ hs) (record { work = 0; host = h.host; count = 0 })).host
]

unfoldable pub get_block_count : HostManager → ℕ
get_block_count hm = (best_of hm.curr_peers (record { work = 0; host = []; count = 0 })).count

unfoldable pub get_best_work : HostManager → ℕ
get_best_work hm = (best_of hm.curr_peers (record { work = 0; host = []; count = 0 })).work

-- `getBlockHash`: of the first peer with this name
hash_in : List HeaderChain → Bytes → ℕ → Bytes
hash_in [] host block_id = null_sha256_hash
hash_in (h ∷ hs) host block_id =
    let rest = hash_in hs host block_id in
    if bytes_eq h.host host then get_block_hash h block_id else rest

unfoldable pub get_host_block_hash : HostManager → Bytes → ℕ → Bytes
unfolding hash_in
get_host_block_hash hm host block_id = hash_in hm.curr_peers host block_id

-- `addPeer` at the time `now`; `reachable` tells whether the new host answers, and `check_point` is the
-- hash that the constructor of a header chain sets.
unfoldable pub add_peer : ℕ → Bool → Bytes → Bytes → ℕ → Bytes → HostManager → HostManager
add_peer now reachable check_point addr time version hm =
    if not (bytes_eq version hm.version)
    then hm
    else if member addr hm.blacklist
    then hm
    else if member addr hm.hosts
    then record hm {
      host_ping_times = assign addr now hm.host_ping_times;
      peer_clock_deltas = assign addr (int32 (sub_ℕ now time)) hm.peer_clock_deltas;
    }
    else if not reachable
    then hm
    else if not (length hm.whitelist == 0 || member addr hm.whitelist)
    then hm
    else record hm {
      hosts = hm.hosts ++ (addr ∷ []);
      curr_peers =
          if ltb (length hm.curr_peers) random_good_host_count
          then hm.curr_peers ++ (new_header_chain addr check_point ∷ [])
          else hm.curr_peers;
    }

-- `syncHeadersWithPeers` with the sample that it draws: the vector of the old peers, which are deleted,
-- is not cleared (`empty` only asks), so that they stay in it.
unfoldable pub sync_headers_with_peers : Bytes → List Bytes → HostManager → HostManager
sync_headers_with_peers check_point sample hm = record hm {
  curr_peers = hm.curr_peers ++ map (λ h. new_header_chain h check_point) sample;
}
