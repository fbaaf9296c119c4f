-- ===== src/Raft/Types.antt =====
-- raft/node.go and proto/raftkv.proto: the data of the Raft package. Indexes, terms and offsets
-- are `uint64` in the source; each grows by one for an entry, an election or a byte, and is a plain
-- natural number here.
pub mod Peers
pub use distributed_key_value_st.Base.{Bytes}
use distributed_key_value_st.Base.{ℕ, String, List, [], ◌∷◌, Option, Bool, if◌then◌else◌, str_eq}

pub data Role : Type 0 where
  follower candidate leader : Role

pub data EntryType : Type 0 where
  entry_normal entry_config : EntryType

-- pb.LogEntry; the field `data` of the source is `payload`.
pub record LogEntry : Type 0 where
  pub index : ℕ
  pub term : ℕ
  pub payload : Bytes
  pub entry_type : EntryType

-- ApplyMsg: exactly one of CommandValid and SnapshotValid is set by its producers.
pub data ApplyMsg : Type 0 where
  command : LogEntry → ApplyMsg
  snapshot : Bytes → ℕ → ℕ → ApplyMsg

pub record SnapshotRecvState : Type 0 where
  pub last_included_index : ℕ
  pub last_included_term : ℕ
  pub received : Bytes

-- A Go map with string keys and uint64 values; a missing key reads as 0.
abbrev pub PeerMap : Type 0
PeerMap = List (String × ℕ)

unfoldable pub peer_get : PeerMap → String → ℕ
peer_get [] k = 0
peer_get ((j, v) ∷ m) k = if str_eq j k then v else peer_get m k

unfoldable pub peer_set : PeerMap → String → ℕ → PeerMap
peer_set [] k v = (k, v) ∷ []
peer_set ((j, w) ∷ m) k v = if str_eq j k then (j, v) ∷ m else (j, w) ∷ peer_set m k v

-- Config: this node's ID and the gRPC addresses of all the other nodes.
pub record Config : Type 0 where
  pub id : String
  pub peers : List (String × String)

pub record RequestVoteRequest : Type 0 where
  pub term : ℕ
  pub candidate_id : String
  pub last_log_index : ℕ
  pub last_log_term : ℕ

pub record RequestVoteResponse : Type 0 where
  pub term : ℕ
  pub vote_granted : Bool

pub record AppendEntriesRequest : Type 0 where
  pub term : ℕ
  pub leader_id : String
  pub prev_log_index : ℕ
  pub prev_log_term : ℕ
  pub entries : List LogEntry
  pub leader_commit : ℕ

pub record AppendEntriesResponse : Type 0 where
  pub term : ℕ
  pub success : Bool
  pub match_index : ℕ
  pub conflict_term : ℕ
  pub conflict_index : ℕ

pub record InstallSnapshotRequest : Type 0 where
  pub term : ℕ
  pub leader_id : String
  pub last_included_index : ℕ
  pub last_included_term : ℕ
  pub offset : ℕ
  pub chunk : Bytes
  pub done : Bool

pub record InstallSnapshotResponse : Type 0 where
  pub term : ℕ
  pub success : Bool

-- time.Timer, without the durations: nil, running, or stopped.
pub data Timer : Type 0 where
  unset running stopped : Timer

-- A goroutine that a handler starts: replicateToPeer for a peer, or one RequestVote call.
pub data Task : Type 0 where
  replicate : String → Task
  canvass : String → RequestVoteRequest → Task

-- The interface PersistentState. A writing operation returns the new store and whether it
-- succeeded; a loading one returns `none` for an error.
pub record PersistentState (S : Type 0) : Type 0 where
  pub save_hard_state : ℕ → String → S → S × Bool
  pub load_hard_state : S → Option (ℕ × String)
  pub append_entries : List LogEntry → S → S × Bool
  pub load_entries : S → Option (List LogEntry)
  pub truncate_suffix : ℕ → S → S × Bool
  pub save_snapshot : Bytes → ℕ → ℕ → S → S × Bool
  pub load_snapshot : S → Option (Bytes × ℕ × ℕ)
  pub load_snapshot_meta : S → Option (ℕ × ℕ)
  pub truncate_prefix : ℕ → S → S × Bool

-- raft.Node over a store `S`. `apply_ch` holds what was sent on ApplyCh, oldest first, and
-- `spawned` the goroutines that were started.
pub record Node (S : Type 0) : Type 0 where
  pub cfg : Config
  pub current_term : ℕ
  pub voted_for : String
  pub log : List LogEntry
  pub last_included_index : ℕ
  pub last_included_term : ℕ
  pub role : Role
  pub leader_id : String
  pub commit_index : ℕ
  pub recv_snapshot : Option SnapshotRecvState
  pub next_index : PeerMap
  pub match_index : PeerMap
  pub storage : S
  pub election_timer : Timer
  pub heartbeat_timer : Timer
  pub apply_ch : List ApplyMsg
  pub spawned : List Task
