-- ===== src/Raft/Log.antt =====
-- raft/node.go: the helpers through which the log is read (logPos, lastLogIndex, lastLogTerm,
-- quorum, candidateLogUpToDate).
pub mod Read
pub mod Indexed
use distributed_key_value_st.Base.{
  ℕ, ◌+◌, ◌-◌, ◌/◌, Bool, List, [], ◌∷◌, Option, none, some, ltb, leb, ◌==◌, if◌then◌else◌, length,
  get_elem?, not,
}
use distributed_key_value_st.Raft.Types.{LogEntry, entry_normal, Node}

-- The dummy entry that stands at log[0].
abbrev pub sentinel : ℕ → ℕ → LogEntry
sentinel i t = record { index = i; term = t; payload = []; entry_type = entry_normal }

abbrev pub last_term_or : ℕ → List LogEntry → ℕ
last_term_or d [] = d
last_term_or d (e ∷ es) = last_term_or e.term es

module _ {S : Type 0} where
  unfoldable pub log_pos : Node S → ℕ → Option ℕ
  log_pos n index =
      if ltb index n.last_included_index
      then none
      else (let pos = index - n.last_included_index in
          if leb (length n.log) pos then none else some pos)

  -- `if pos, ok := n.logPos(i); ok { … n.log[pos] … }`, the form of every read of the log.
  unfoldable pub log_at : Node S → ℕ → Option LogEntry
  unfolding log_pos
  log_at n index = elim (log_pos n index) [ none ↦ none | some pos ↦ get_elem? n.log pos ]

  -- The log always holds its sentinel, so that its length is at least one.
  unfoldable pub last_log_index : Node S → ℕ
  last_log_index n = n.last_included_index + length n.log - 1

  unfoldable pub last_log_term : Node S → ℕ
  last_log_term n = last_term_or n.last_included_term n.log

  unfoldable pub quorum : Node S → ℕ
  quorum n = (1 + length n.cfg.peers) / 2 + 1

  unfoldable pub candidate_log_up_to_date : Node S → ℕ → ℕ → Bool
  unfolding last_log_term last_log_index
  candidate_log_up_to_date n last_idx last_term =
      let my_last_term = last_log_term n in
      let my_last_idx = last_log_index n in
      if not (last_term == my_last_term)
      then ltb my_last_term last_term
      else leb my_last_idx last_idx
