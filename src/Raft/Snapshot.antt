-- ===== src/Raft/Snapshot.antt =====
-- raft/node.go: snapshots (HandleInstallSnapshot, CompactLog) and recovery (Start).
pub mod Install
pub mod Transfer
pub mod Recover
use distributed_key_value_st.Base.{
  ℕ, zero, suc, ◌+◌, ◌-◌, Bool, true, false, List, [], ◌∷◌, ◌++◌, Option, none, some, ltb, leb,
  ◌==◌, if◌then◌else◌, ◌&&◌, String, drop, length, not, Bytes,
}
use distributed_key_value_st.Raft.Types.{
  Node, LogEntry, PersistentState, ApplyMsg, snapshot, SnapshotRecvState, InstallSnapshotRequest,
  InstallSnapshotResponse,
}
use distributed_key_value_st.Raft.Log.{log_pos, sentinel}
use distributed_key_value_st.Raft.Election.{reset_election_timer}
use distributed_key_value_st.Raft.Append.{accept_leader}

-- The transfer that a chunk belongs to: a chunk at offset 0 starts one.
unfoldable pub current_transfer :
    InstallSnapshotRequest → Option SnapshotRecvState → Option SnapshotRecvState
current_transfer req old =
    if req.offset == 0
    then some (record {
      last_included_index = req.last_included_index;
      last_included_term = req.last_included_term;
      received = [];
    })
    else old

-- The chunk continues the transfer.
unfoldable pub chunk_fits : InstallSnapshotRequest → SnapshotRecvState → Bool
chunk_fits req r =
    r.last_included_index == req.last_included_index && length r.received == req.offset

-- Why CompactLog refused.
pub data CompactError : Type 0 where
  past_commit save_failed truncate_failed : CompactError

module _ {S : Type 0} ⦃p : PersistentState S⦄ where
  -- The last part of HandleInstallSnapshot, when all chunks are there; the flag is resp.Success.
  unfoldable pub install_snapshot : SnapshotRecvState → Node S → Bool × Node S
  install_snapshot r n =
      let (s', saved) =
        p.save_snapshot r.received r.last_included_index r.last_included_term n.storage in
      let n' : Node S = record n { recv_snapshot = none; storage = s' } in
      if not saved then (false, n') else (
        true,
        record n' {
          storage = (p.truncate_prefix r.last_included_index s').0;
          log = sentinel r.last_included_index r.last_included_term ∷ [];
          last_included_index = r.last_included_index;
          last_included_term = r.last_included_term;
          commit_index =
              if ltb n.commit_index r.last_included_index
              then r.last_included_index
              else n.commit_index;
          apply_ch =
              n.apply_ch ++ snapshot r.received r.last_included_index r.last_included_term ∷ [];
        },
      )

  -- HandleInstallSnapshot from its offset test on.
  unfoldable pub receive_chunk : InstallSnapshotRequest → Node S → Bool × Node S
  receive_chunk req n =
      let transfer = current_transfer req n.recv_snapshot in
      elim transfer [
        | none ↦ (false, record n { recv_snapshot = none })
        | some r ↦
            if not (chunk_fits req r)
            then (false, record n { recv_snapshot = some r })
            else (let r' : SnapshotRecvState = record r { received = r.received ++ req.chunk } in
                if req.done
                then install_snapshot r' n
                else (true, record n { recv_snapshot = some r' }))
      ]

  unfoldable pub handle_install_snapshot :
      InstallSnapshotRequest → Node S → InstallSnapshotResponse × Node S
  handle_install_snapshot req n =
      if ltb req.term n.current_term
      then (record { term = n.current_term; success = false }, n)
      else (let n' = accept_leader req.term req.leader_id n in
          if leb req.last_included_index n'.last_included_index
          then (record { term = n'.current_term; success = true }, n')
          else (let (success, n'') = receive_chunk req n' in
              (record { term = n'.current_term; success = success }, n'')))

  -- `none` is a nil error. What SaveSnapshot wrote stays written when TruncatePrefix fails.
  unfoldable pub compact_log : Bytes → ℕ → ℕ → Node S → Option CompactError × Node S
  compact_log blob index term n =
      if leb index n.last_included_index
      then (none, n)
      else if ltb n.commit_index index
      then (some past_commit, n)
      else (let (s', saved) = p.save_snapshot blob index term n.storage in
          let (s'', cut) = p.truncate_prefix index s' in
          if not saved
          then (some save_failed, record n { storage = s' })
          else if not cut
          then (some truncate_failed, record n { storage = s'' })
          else (
            none,
            record n {
              storage = s'';
              log = elim (log_pos n index) [
                | some pos ↦ drop pos n.log
                | none ↦ sentinel index term ∷ []
              ];
              last_included_index = index;
              last_included_term = term;
            },
          ))

  -- Start, applied to what NewNode returned; `none` is an error of the store.
  unfoldable pub start : Node S → Option (Node S)
  start n = elim (p.load_snapshot_meta n.storage) [
    | none ↦ none
    | some (index, term) ↦
        let n' : Node S =
          if ltb 0 index
          then record n {
            last_included_index = index;
            last_included_term = term;
            log = sentinel index term ∷ [];
            commit_index = index;
          }
          else n in
        elim (p.load_hard_state n.storage) [
          | none ↦ none
          | some (hard_term, voted) ↦ elim (p.load_entries n.storage) [
            | none ↦ none
            | some entries ↦ some (
                reset_election_timer (record n' {
                  current_term = hard_term;
                  voted_for = voted;
                  log = n'.log ++ entries;
                }))
          ]
        ]
  ]
