-- ===== src/Raft/Snapshot/Recover.antt =====
-- Start after a crash, from what the store holds.
use distributed_key_value_st.Raft.Log.{sentinel}
use distributed_key_value_st.Base.{
  if◌then◌else◌, ◌∷◌, ℕ, ◌≡◌, refl, Bool-cases, inl, inr, some, ltb, arith,
}
use distributed_key_value_st.Raft.Types.{Node, Config, follower}
use distributed_key_value_st.Raft.MemState.{MemState, mem_state}
use distributed_key_value_st.Raft.Election.{new_node, reset_election_timer}
use distributed_key_value_st.Raft.Snapshot.{start}

-- The term of the snapshot in the store, if there is one.
abbrev pub snapshot_term : MemState → ℕ
snapshot_term s = if ltb 0 s.last_included_index then s.last_included_term else 0

-- The restarted node has what the store holds: the hard state, the index and term of the snapshot,
-- and the log behind a sentinel of that index and term. It starts to commit at the snapshot. A store
-- without a snapshot has index and term 0.
pub record Recovered (s : MemState) (m : Node MemState) : Type 0 where
  pub term : m.current_term ≡ s.term
  pub vote : m.voted_for ≡ s.voted
  pub log : m.log ≡ sentinel s.last_included_index (snapshot_term s) ∷ s.entries
  pub base : m.last_included_index ≡ s.last_included_index
  pub base_term : m.last_included_term ≡ snapshot_term s
  pub commit : m.commit_index ≡ s.last_included_index
  pub role : m.role ≡ follower
  pub store : m.storage ≡ s

-- Starting a new node over the store in memory succeeds, and recovers what the store holds:
-- term, vote, log, and the index and term of the snapshot, if there is one.
pub start_recovers :
    (cfg : Config) (s : MemState)
    → (m : Node MemState) × (start (new_node cfg s) ≡ some m) × Recovered s m
unfolding start new_node reset_election_timer
start_recovers cfg s = elim (Bool-cases (ltb 0 s.last_included_index)) [
  | inl taken ↦ rw taken (_, refl, ground (arith, taken))
  | inr fresh ↦ rw fresh (_, refl, ground (arith, fresh))
]
