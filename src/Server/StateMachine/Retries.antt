-- ===== src/Server/StateMachine/Retries.antt =====
-- server/statemachine.go: retried writes and the sequence numbers that tell them.
use distributed_key_value_st.Base.{
  List, ◌≤◌, ◌<◌, ◌≡◌, ◌≢◌, ◌⊎◌, inl, inr, refl, sym, ap, ◌∙◌, subst, true, false, Option, some,
  leb, String, str_eq, eq_iff, Bytes, arith, Bool-cases, Option-cases,
}
use distributed_key_value_st.Raft.Types.{LogEntry, peer_set}
use distributed_key_value_st.Storage.Engine.{Engine, put, delete}
use distributed_key_value_st.Server.StateMachine.{
  Command, StateMachine, ok, seq_of, notify_pending, already_applied, execute, record_success,
  apply_command, apply,
}
use distributed_key_value_st.Server.StateMachine.Stream.{apply_all}
use distributed_key_value_st.Server.StateMachine.Remembered.{apply_all-Remembers}
use distributed_key_value_st.Server.StateMachine.Clients.{
  Remembers, Remembers-already_applied, seq_of-peer_set,
}

-- The operation is one that the state machine knows.
abbrev pub KnownOp : Command → Type 0
KnownOp cmd = (str_eq cmd.op "put" ≡ true) ⊎ (str_eq cmd.op "delete" ≡ true)

is_named : (c : String) → c ≢ "" → str_eq c "" ≡ false
is_named c named = elim (Bool-cases (str_eq c "")) [
  | inl t ↦ absurd (named ((eq_iff c "").0 t))
  | inr f ↦ f
]

module _ {T : Type 0} where
  execute_ok :
      (cmd : Command) (e : Engine T) → KnownOp cmd → e.closed ≡ false → (execute cmd e).0 ≡ ok
  unfolding execute put delete
  execute_ok cmd e (inl p) open_ = rw (p, open_) refl
  execute_ok cmd e (inr d) open_ = elim (Bool-cases (str_eq cmd.op "put")) [
    | inl p ↦ rw (p, open_) refl
    | inr np ↦ rw (np, d, open_) refl
  ]

  apply_command-old :
      (entry : LogEntry) (cmd : Command) (sm : StateMachine T)
      → already_applied cmd sm ≡ true
      → ((apply_command entry cmd sm).last_seq ≡ sm.last_seq)
        × ((apply_command entry cmd sm).engine ≡ sm.engine)
  unfolding apply_command notify_pending
  apply_command-old entry cmd sm old = ground (arith, old)

  apply_command-new :
      (entry : LogEntry) (cmd : Command) (sm : StateMachine T)
      → already_applied cmd sm ≡ false
      → (execute cmd sm.engine).0 ≡ ok
      → str_eq cmd.client_id "" ≡ false
      → (apply_command entry cmd sm).last_seq ≡ peer_set sm.last_seq cmd.client_id cmd.seq_num
  unfolding apply_command record_success notify_pending
  apply_command-new entry cmd sm new done named = ground (arith, new, done, named)

  old-Remembers :
      (cmd : Command) (sm : StateMachine T)
      → already_applied cmd sm ≡ true
      → Remembers cmd.client_id cmd.seq_num sm
  unfolding already_applied
  old-Remembers cmd sm old = elim (Option-cases (seq_of sm.last_seq cmd.client_id)) [
    | inl n ↦ absurd (ground (arith, n, old))
    | inr (seq, n) ↦ (seq, n, ground (arith, n, old))
  ]

  apply_command-Remembers :
      (entry : LogEntry) (cmd : Command) (sm : StateMachine T)
      → cmd.client_id ≢ ""
      → KnownOp cmd
      → sm.engine.closed ≡ false
      → Remembers cmd.client_id cmd.seq_num (apply_command entry cmd sm)
  apply_command-Remembers entry cmd sm named known open_ =
      elim (Bool-cases (already_applied cmd sm)) [
        | inl old ↦
            let (seq, n, le) = old-Remembers cmd sm old in
            (seq, ap (λ l. seq_of l cmd.client_id) (apply_command-old entry cmd sm old).0 ∙ n, le)
        | inr new ↦
            let set =
              apply_command-new entry cmd sm new (execute_ok cmd sm.engine known open_)
                (is_named cmd.client_id named) in
            (
              cmd.seq_num,
              ap (λ l. seq_of l cmd.client_id) set
                  ∙ seq_of-peer_set sm.last_seq cmd.client_id cmd.seq_num,
              omega arith,
            )
      ]

  apply-command :
      (unmarshal : Bytes → Option Command) (entry : LogEntry) (cmd : Command) (sm : StateMachine T)
      → sm.last_applied < entry.index
      → unmarshal entry.payload ≡ some cmd
      → apply unmarshal entry sm ≡ apply_command entry cmd sm
  unfolding apply
  apply-command unmarshal entry cmd sm new decoded =
      let fresh : leb entry.index sm.last_applied ≡ false = ground arith in rw (fresh, decoded) refl

  apply_stale :
      (unmarshal : Bytes → Option Command) (entry : LogEntry) (sm : StateMachine T)
      → leb entry.index sm.last_applied ≡ true
      → (apply unmarshal entry sm).engine ≡ sm.engine
  unfolding apply notify_pending
  apply_stale unmarshal entry sm stale = ground (arith, stale)

  -- A retry changes nothing: once a client's write was applied, an entry with a write of the same
  -- client whose sequence number is not higher leaves the engine as it is, whatever other entries are
  -- applied between the two and at whatever index it was committed. No snapshot is installed between
  -- the two. The first entry is new, its operation known, its client named, the engine open.
  pub apply_twice :
      (unmarshal : Bytes → Option Command) (entry retry : LogEntry) (between : List LogEntry)
      (cmd cmd' : Command) (sm : StateMachine T)
      → sm.last_applied < entry.index
      → unmarshal entry.payload ≡ some cmd
      → unmarshal retry.payload ≡ some cmd'
      → cmd.client_id ≢ ""
      → KnownOp cmd
      → sm.engine.closed ≡ false
      → cmd'.client_id ≡ cmd.client_id
      → cmd'.seq_num ≤ cmd.seq_num
      → let sm' = apply_all unmarshal between (apply unmarshal entry sm) in
        (apply unmarshal retry sm').engine ≡ sm'.engine
  apply_twice unmarshal entry retry between cmd cmd' sm new d d' named known open_ same le =
      let sm' = apply_all unmarshal between (apply unmarshal entry sm) in
      let first = apply-command unmarshal entry cmd sm new d in
      let r : Remembers cmd.client_id cmd.seq_num sm' =
        apply_all-Remembers unmarshal cmd.client_id cmd.seq_num between (apply unmarshal entry sm) (
          subst (Remembers cmd.client_id cmd.seq_num) (sym first)
            (apply_command-Remembers entry cmd sm named known open_)) in
      let r' : Remembers cmd'.client_id cmd.seq_num sm' = rw same r in
      let named' : cmd'.client_id ≢ "" = rw same named in
      let old = Remembers-already_applied cmd' cmd.seq_num sm' named' le r' in
      elim (Bool-cases (leb retry.index sm'.last_applied)) [
        | inl stale ↦ apply_stale unmarshal retry sm' stale
        | inr fresh ↦
            ap (λ (s : StateMachine T). s.engine)
              (apply-command unmarshal retry cmd' sm' (ground (arith, fresh)) d')
            ∙ (apply_command-old retry cmd' sm' old).1
      ]
