-- ===== src/Raft/Commit.antt =====
-- raft/node.go: the commit index (maybeAdvanceCommit, advanceCommitTo) and Propose.
pub mod Majority
pub mod Applied
pub mod Alone
use distributed_key_value_st.Base.{
  ℕ, zero, suc, ◌+◌, ◌-◌, Bool, true, false, List, [], ◌∷◌, ◌++◌, map, Option, none, some, leb,
  ◌==◌, if◌then◌else◌, ◌&&◌, String, str_eq, Bytes,
}
use distributed_key_value_st.Raft.Types.{
  Node, leader, command, PeerMap, LogEntry, PersistentState, entry_normal,
}
use distributed_key_value_st.Raft.Log.{log_at, last_log_index, quorum}
use distributed_key_value_st.Raft.Election.{send_heartbeats}

-- The peers other than `self` whose match index has reached `idx`.
unfoldable pub acked : String → ℕ → PeerMap → ℕ
acked self idx [] = 0
acked self idx ((peer, m) ∷ ms) =
    let rest = acked self idx ms in
    if str_eq peer self then rest else if leb idx m then suc rest else rest

module _ {S : Type 0} where
  -- The entries at indexes i, i + 1, …, of which there are `k`; an index that is not in memory is
  -- passed over.
  unfoldable pub entries_from : Node S → ℕ → ℕ → List LogEntry
  entries_from n i zero = []
  entries_from n i (suc k) =
      let rest = entries_from n (i + 1) k in elim (log_at n i) [ none ↦ rest | some e ↦ e ∷ rest ]

  unfoldable pub advance_commit_to : ℕ → Node S → Node S
  advance_commit_to new_commit n =
      let to_notify = entries_from n (n.commit_index + 1) (new_commit - n.commit_index) in
      record n { commit_index = new_commit; apply_ch = n.apply_ch ++ map command to_notify }

  -- The tests of maybeAdvanceCommit at one index.
  unfoldable pub can_commit : Node S → ℕ → Bool
  can_commit n idx = elim (log_at n idx) [
    | none ↦ false
    | some e ↦ e.term == n.current_term && leb (quorum n) (1 + acked n.cfg.id idx n.match_index)
  ]

  -- The highest index among the `k` above the commit index that can be committed.
  unfoldable pub commit_candidate : Node S → ℕ → Option ℕ
  commit_candidate n zero = none
  commit_candidate n (suc k) =
      let idx = n.commit_index + suc k in
      let lower = commit_candidate n k in if can_commit n idx then some idx else lower

  unfoldable pub maybe_advance_commit : Node S → Node S
  maybe_advance_commit n = elim (commit_candidate n (last_log_index n - n.commit_index)) [
    | none ↦ n
    | some idx ↦ advance_commit_to idx n
  ]

-- What Propose returns: the log index, the term, and whether this node is the leader.
pub record Proposal : Type 0 where
  pub index : ℕ
  pub term : ℕ
  pub is_leader : Bool

module _ {S : Type 0} where
  unfoldable pub own_entry : Bytes → Node S → LogEntry
  own_entry payload n = record {
    index = last_log_index n + 1;
    term = n.current_term;
    payload = payload;
    entry_type = entry_normal;
  }

module _ {S : Type 0} ⦃p : PersistentState S⦄ where
  unfoldable pub append_own : LogEntry → Node S → Node S
  append_own entry n = record n {
    log = n.log ++ entry ∷ [];
    storage = (p.append_entries (entry ∷ []) n.storage).0;
  }

  unfoldable pub propose : Bytes → Node S → Proposal × Node S
  propose payload n = elim n.role [
    | leader ↦
        let entry = own_entry payload n in
        (
          record { index = entry.index; term = entry.term; is_leader = true },
          maybe_advance_commit (send_heartbeats (append_own entry n)),
        )
    | _ ↦ (record { index = 0; term = 0; is_leader = false }, n)
  ]
