-- ===== src/Lib.antt =====
-- Frustum, a sharded blockchain in Go: the nodes of a shard, and the leaders of all shards, agree on
-- blocks by PBFT votes within the shard and among the leaders.
--
-- The parts and how they interact. A consensus node (BlockChain/Consensus/frustum) takes messages
-- from its server one at a time. Its handlers count votes with the counters of
-- BlockChain/Consensus/PBFT, read and fill the node table of BlockChain/NetWork/NodeTable.go, take
-- transactions from the pool of BlockChain/TxPool, and hand messages and blocks to other goroutines.
-- The seed node (BlockChain/SeedNode) registers the others, elects the leaders, starts and stops a run.
-- The server counts traffic and transactions (Statistic of BlockChain/NetWork/Server.go).
--
-- Which file models what:
--   Prelude    what all parts share: tests on numbers, lists, integers, bytes, association lists,
--              and the outcome of a call: a value, a panic, or waiting for ever
--   Float      the float64 product in Handle of BlockChain/Consensus/PBFT/Quorum.go
--   Message    BlockChain/Message/Message.go with the transactions and blocks it carries
--   Id         BlockChain/ID/ID.go: String is to_string, StringToID is string_to_id
--   Quorum     BlockChain/Consensus/PBFT/Quorum.go: NewQuorum, ResetCount, Handle
--   Peers      BlockChain/NetWork/NodeTable.go; Peers/Members is the type Shard
--   Pool       BlockChain/TxPool/TxPool.go: NewTxPool, ChLength, AddTx, CommitTrs, LengthCompare
--   Block      SetHash of BlockChain/DB/BlockChain.go
--   Store      the type BlockChain of BlockChain/DB/BlockChain.go and its iterator
--   Node       BlockChain/Consensus/frustum: Node/Types is the state, Node/Send the senders, and
--              Node itself the handlers of MSGHandle
--   Seed       BlockChain/SeedNode: MSGHandle is seed_msg_handle, CLIHandle is seed_cli_handle; with
--              Random of BlockChain/Log/Log.go
--   Statistic  the type Statistic of BlockChain/NetWork/Server.go
--   Raft       BlockChain/Consensus/SS-Raft: the votes and confirmations of NodeMethod.go; Raft/Blocks
--              is RaftStartMining, SSRaftStartMining, RaftCheckCommit and the case block of HandleMsg,
--              Raft/SeedNode is SeedNode.go
--   SsPbft     BlockChain/Consensus/SS-PBFT-V1: SsPbft/Send are its senders and the making of a block,
--              SsPbft/Handle is MsgHandle and CLIHandle
--   Sim        myBlockChain, the simulations: Sim/Setup and Sim/Main are main before its loop, Sim/Round
--              is receivePre turn by turn, Sim/Round/Access and Sim/Round/Race by single loads and
--              stores, Sim/Pbft and Sim/Rounds are PBFT, the rounds and main's loop in the folders
--              frustum, elastico, SS-PBFT and time, Sim/Cross is the folder Rapidchain
--
-- Conventions. A method that changes its receiver returns the new one. A Go map is an association
-- list in the order in which `range` visits it, which the code leaves open: a list in any order is an
-- argument. A nil pointer that is followed, an index out of range and a channel closed twice are
-- `panic`; a receive from a channel that stays empty is `blocked`. Messages that are sent, and
-- goroutines that are started, are listed as effects. A map that is nil reads as an empty
-- one and is modelled so: no code writes to one that came in a message. The PBFTs that a round
-- of a simulation starts with `go` run one after another, and the further SSPBFT that frustum starts
-- so has not run. The code is Go on a 64-bit machine: heights wrap at 2^64, and an int that counts
-- votes or members is below 2^63.
--
-- Fuel. The digits of a number n are made with n + 1 rounds and the rounding of a product with 128,
-- more than either loop takes. CommitTrs calls itself until the pool holds something: the
-- transactions that arrive meanwhile are an argument, and it is `blocked` if none do. The loop of main
-- in a simulation has a number of rounds, and the members of a committee have a list of turns: it is
-- proved how many are enough.
--
-- Parameters: SHA-256 and gob (Codec in Block), the time, the transactions that arrive (Env in
-- Node), JSON and random numbers (SeedEnv in Seed), what SS-PBFT-V1 uses of packages in versions
-- that are not here (Counter and Server in SsPbft), the chain that SS-Raft keeps (ChainOps in
-- Raft/Blocks) and its tables of members (Members in Raft/SeedNode), the hashes of a simulation
-- (SimEnv), its random numbers and the order of its goroutines (Draws, Call and Plan), bolt and the
-- gob encoding of a block (Bolt and Gob in Store). Not modelled: HTTP, logging, mutexes (but for
-- those of the simulations), the command line, the timers of SS-Raft, and the reading of transaction
-- files.
pub mod Prelude
pub mod Float
pub mod Message
pub mod Id
pub mod Quorum
pub mod Peers
pub mod Pool
pub mod Block
pub mod Store
pub mod Node
pub mod Seed
pub mod Statistic
pub mod Raft
pub mod Sim
pub mod SsPbft
