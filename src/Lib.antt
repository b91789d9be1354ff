-- ===== src/Lib.antt =====
-- A model of the node of the shifupool repository (c++/src/core and c++/src/server) and of the block
-- building of its mining client (c++/src/miningproblem/main.cpp), with what makes them correct.
--
-- The program. A node keeps a chain of blocks (server/blockchain.cpp) over four stores: the balances
-- (ledger.cpp), the blocks (block_store.cpp) and the transactions that are in a block (tx_store.cpp),
-- each a LevelDB database (data_store.cpp), and in memory the transactions that wait (mempool.cpp). A
-- block is checked, executed on the ledger (executor.cpp) and either appended or undone. Blocks come
-- from the host with the most work, which the node knows by the header chains of its peers
-- (core/host_manager.cpp, core/header_chain.cpp). Requests come in through request_manager.cpp and are
-- limited (rate_limiter.cpp); requests to other hosts are in core/api.cpp.
--
-- The files. Base has lists, tests and the monad `Action` of a state and exceptions: what was written
-- before an exception stays written. Words, Int: machine words with their wrap-around. Helpers:
-- core/helpers.cpp. Crypto, Crypto/Hex, Crypto/Work, Crypto/Mine: core/crypto.cpp. Transaction,
-- Block: the classes of core, with their wire images (Codec) and equality (Equality). MerkleTree:
-- core/merkle_tree.cpp. HeaderChain, HostManager: the peers. DataStore: LevelDB as an interface, with
-- the laws that a database on a sound disk has (`IsReliable`), and a table in memory that has them
-- (DataStore/Table).
-- Ledger, TxStore, BlockStore: the stores. Executor: execution and rollback, with the record of changes
-- (Deltas); what a block adds to the wallets and takes from them (Effect) is undone by the rollback
-- (Undo), on the chain by BlockChain/Undone. Difficulty: `computeDifficulty`. BlockChain: reading
-- the chain; BlockChain/Changes: adding and popping blocks, BlockChain/Sync: `startChainSync`.
-- MemPool: the waiting transactions, with the chain behind the interface `Chain`. RateLimiter:
-- request limits. RequestManager: the requests that a node answers. Api: what a node asks other
-- hosts for, with the wire formats read back (Api/Wire) from what a node serves (Api/Wire/Served).
-- MiningProblem: the blocks that the mining client builds. BlockChain/Stored: the chain that the
-- stores hold, with the runs of a node (Stored/Steps) and its restart (Stored/Restart). Examples:
-- the theorems at concrete data.
--
-- Names follow the source in snake case: `Executor::ExecuteBlock` is Executor.execute_block,
-- `BlockChain::addBlock` is BlockChain.Changes.add_block. A member function takes the state of its
-- object and returns the new one; a lock makes a call one step, so that a sequence of calls is a
-- sequence of steps.
--
-- Parameters. OpenSSL's hashes, ed25519 and pufferfish (`Crypto.Primitives`), LevelDB
-- (`DataStore.LevelDb`), the text of big integers (`BlockStore.BigintText`), HTTP and JSON
-- (`Api.Http`), the clock, what other hosts answer, and the values that uninitialised variables hold
-- (`stale`).
--
-- Fuel. `computeDifficulty` changes the difficulty by one in each round, between 16 and 254, so that as
-- many rounds as the difficulty, or 254, are enough; running out of them is an outcome of its own. A
-- Merkle queue gets shorter by one in each round, and gives no tree when the rounds do not suffice.
-- `mineHash` counts eight bytes up, so that 2^64 rounds see every value. The batches of `load` and of
-- `startChainSync` move on by at least one block in each round, so that as many rounds as there are
-- blocks are enough. All else is structural.
--
-- Not modelled. JSON and HTTP (user.cpp, config.cpp and the text of all answers), logging, threads
-- (worker.cpp and the loops that call `load`, `startChainSync` and the sender of the pool again and
-- again), the random samples of hosts, the libraries below external, and the
-- Elixir pool (shifupool/).
pub mod Api
pub mod Base
pub mod Block
pub mod BlockChain
pub mod BlockStore
pub mod Crypto
pub mod DataStore
pub mod Difficulty
pub mod Examples
pub mod Executor
pub mod HeaderChain
pub mod Helpers
pub mod HostManager
pub mod Int
pub mod Ledger
pub mod MemPool
pub mod MerkleTree
pub mod MiningProblem
pub mod RateLimiter
pub mod RequestManager
pub mod Transaction
pub mod TxStore
pub mod Words
