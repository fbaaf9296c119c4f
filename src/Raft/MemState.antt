-- ===== src/Raft/MemState.antt =====
-- raft/memstate.go: the PersistentState that keeps everything in memory and never fails.
use distributed_key_value_st.Base.{
  ℕ, true, List, [], ◌∷◌, ◌++◌, some, leb, ltb, if◌then◌else◌, String, Bytes,
}
use distributed_key_value_st.Raft.Types.{LogEntry, PersistentState}

pub record MemState : Type 0 where
  pub term : ℕ
  pub voted : String
  pub entries : List LogEntry
  pub snapshot : Bytes
  pub last_included_index : ℕ
  pub last_included_term : ℕ

abbrev pub new_mem_state : MemState
new_mem_state = record {
  term = 0;
  voted = "";
  entries = [];
  snapshot = [];
  last_included_index = 0;
  last_included_term = 0;
}

-- The loops of TruncateSuffix and TruncatePrefix.
unfoldable pub keep_up_to : ℕ → List LogEntry → List LogEntry
keep_up_to k [] = []
keep_up_to k (e ∷ es) = let rest = keep_up_to k es in if leb e.index k then e ∷ rest else rest

unfoldable pub keep_after : ℕ → List LogEntry → List LogEntry
keep_after k [] = []
keep_after k (e ∷ es) = let rest = keep_after k es in if ltb k e.index then e ∷ rest else rest

instance abbrev pub mem_state : PersistentState MemState
mem_state = record {
  save_hard_state = λ t v m. (record m { term = t; voted = v }, true);
  load_hard_state = λ m. some (m.term, m.voted);
  append_entries = λ es m. (record m { entries = m.entries ++ es }, true);
  load_entries = λ m. some m.entries;
  truncate_suffix = λ k m. (record m { entries = keep_up_to k m.entries }, true);
  save_snapshot = λ blob i t m.
      (record m { snapshot = blob; last_included_index = i; last_included_term = t }, true);
  load_snapshot = λ m. some (m.snapshot, m.last_included_index, m.last_included_term);
  load_snapshot_meta = λ m. some (m.last_included_index, m.last_included_term);
  truncate_prefix = λ k m. (record m { entries = keep_after k m.entries }, true);
}
