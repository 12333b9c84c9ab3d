-- ===== src/Sim.antt =====
-- myBlockChain: five simulations of sharded protocols, in the folders frustum, SS-PBFT, Rapidchain,
-- elastico and time: what their files datastructures.go and defaults.go declare. The functions that
-- the folders share word for word are modelled once. A hash is a list of 32 bytes; JSON with
-- SHA-256, the random numbers and the order in which goroutines run are parameters.
pub mod Round
pub mod Setup
pub mod Pbft
pub mod Rounds
pub mod Cross
pub mod Main
mod Tests
use frustum.Prelude.{ℕ, ◌+◌, ◌/◌, List, Bool, ℤ, Bytes}

-- FlagArgs, without CPUs, which only the Go runtime reads.
pub record Flags : Type 0 where
  pub n : ℕ
  pub total_f : ℕ
  pub tx_num : ℕ
  pub tx_per_block : ℕ
  pub commit_num : ℕ
  pub n_per_commitee : ℕ
  pub c : ℕ

-- The constants that the others are computed from, and the arguments that main sets from them.
abbrev pub new_flags : ℕ → ℕ → ℕ → ℕ → Flags
new_flags n commit_num tx_num tx_per_block = record {
  n = n;
  total_f = n / commit_num / 4;
  tx_num = tx_num;
  tx_per_block = tx_per_block;
  commit_num = commit_num;
  n_per_commitee = n / commit_num;
  c = 10;
}

abbrev pub frustum_flags : Flags
frustum_flags = new_flags 120 16 1024 64

abbrev pub ss_pbft_flags : Flags
ss_pbft_flags = new_flags 128 16 1024 8

abbrev pub rapidchain_flags : Flags
rapidchain_flags = new_flags 128 2 1024 8

abbrev pub elastico_flags : Flags
elastico_flags = new_flags 128 4 1000 10

abbrev pub time_flags : Flags
time_flags = new_flags 128 8 1000 10

-- A transaction of Rapidchain. The other folders' have no field OriginalHash: theirs is zero.
pub record Transaction : Type 0 where
  pub hash : Bytes
  pub original_hash : Bytes
  pub inputs : ℕ
  pub outputs : ℕ
  pub value : ℕ

pub record ProposedBlock : Type 0 where
  pub previous_block_hash : Bytes
  pub iteration : ℕ
  pub leader_ip : Bytes
  pub transactions : List Transaction

pub record FinalBlock : Type 0 where
  pub hash : Bytes
  pub proposed_block : ProposedBlock

abbrev pub Blockchain : Type 0
Blockchain = List FinalBlock

-- A node, without the two fields that no code reads: committeeList and commiteeMembers.
pub record Node : Type 0 where
  pub ip : Bytes
  pub committee_id : ℤ
  pub is_honest : Bool
  pub prepare_num : ℕ
  pub commit_num : ℕ
  pub sig : Bool
  pub block_chain : Blockchain
