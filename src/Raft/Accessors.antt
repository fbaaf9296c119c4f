-- ===== src/Raft/Accessors.antt =====
-- raft/node.go: what other packages read of a node, LeaderID to MatchIndexes, and the lag that
-- server/metrics.go computes from it.
use distributed_key_value_st.Base.{◌-◌, ltb, ◌∷◌, false, true, [], ℕ, Bool, if◌then◌else◌, String}
use distributed_key_value_st.Raft.Log.{last_log_index}
use distributed_key_value_st.Raft.Types.{Node, Role, leader, PeerMap}

abbrev pub is_leader_role : Role → Bool
is_leader_role r = elim r [ leader ↦ true | _ ↦ false ]

module _ {S : Type 0} where
  unfoldable pub leader_id : Node S → String
  leader_id n = n.leader_id

  unfoldable pub is_leader : Node S → Bool
  is_leader n = is_leader_role n.role

  unfoldable pub get_state : Node S → ℕ × Bool
  get_state n = (n.current_term, is_leader_role n.role)

  unfoldable pub snapshot_index : Node S → ℕ
  snapshot_index n = n.last_included_index

  -- Empty on a node that is no leader.
  unfoldable pub match_indexes : Node S → PeerMap
  match_indexes n = elim n.role [ leader ↦ n.match_index | _ ↦ [] ]

-- The gap of each peer.
unfoldable pub lags : ℕ → PeerMap → PeerMap
lags last [] = []
lags last ((peer, matched) ∷ m) =
    let rest = lags last m in (peer, if ltb matched last then last - matched else 0) ∷ rest

module _ {S : Type 0} where
  -- One tick of startReplicationLagUpdater: the gauges that it sets.
  unfoldable pub replication_lag : Node S → PeerMap
  replication_lag n = if is_leader n then lags (last_log_index n) (match_indexes n) else []
