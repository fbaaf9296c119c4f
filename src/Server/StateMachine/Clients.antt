-- ===== src/Server/StateMachine/Clients.antt =====
-- server/statemachine.go: the clients that wait for their writes.
use distributed_key_value_st.Base.{
  ℕ, ◌≤◌, ◌<◌, ◌≡◌, ◌≢◌, inl, inr, refl, subst, true, false, List, [], ◌∷◌, ◌++◌, Option, none,
  some, leb, ◌==◌, if◌then◌else◌, String, str_eq, eq_iff, eq_refl, Bytes, arith, Bool-cases,
  Option-cases,
}
use distributed_key_value_st.Raft.Types.{LogEntry, PeerMap, peer_set}
use distributed_key_value_st.Storage.Engine.{put}
use distributed_key_value_st.Server.StateMachine.{
  Command, StateMachine, PendingWrite, Result, ok, corrupt_entry, waiter, without, seq_of,
  notify_pending, already_applied, execute, record_success, apply_command, apply,
}

waiter-without : (idx : ℕ) (ps : List PendingWrite) → waiter idx (without idx ps) ≡ none
unfolding waiter without
waiter-without idx [] = refl
waiter-without idx (p ∷ ps) = elim (Bool-cases (p.log_index == idx)) [
  | inl t ↦ rw t (waiter-without idx ps)
  | inr f ↦ rw f (rw f (waiter-without idx ps))
]

module _ {T : Type 0} where
  -- The waiter of an index got one answer, and waits no more.
  abbrev pub Answered : ℕ → PendingWrite → Result → StateMachine T → StateMachine T → Type 0
  Answered idx pw r sm sm' =
      (sm'.delivered ≡ sm.delivered ++ (pw, r) ∷ []) × (waiter idx sm'.pending ≡ none)

  notify_pending-Answered :
      (idx : ℕ) (r : Result) (pw : PendingWrite) (sm : StateMachine T)
      → waiter idx sm.pending ≡ some pw
      → Answered idx pw r sm (notify_pending idx r sm)
  unfolding notify_pending
  notify_pending-Answered idx r pw sm h =
      rw (h, notify_pending) (refl, waiter-without idx sm.pending)

  -- What apply answers.
  abbrev pub reply_to : (Bytes → Option Command) → LogEntry → StateMachine T → Result
  reply_to unmarshal entry sm =
      if leb entry.index sm.last_applied then ok else elim (unmarshal entry.payload) [
        | none ↦ corrupt_entry
        | some cmd ↦ if already_applied cmd sm then ok else (execute cmd sm.engine).0
      ]

  apply_command-Answered :
      (entry : LogEntry) (cmd : Command) (pw : PendingWrite) (sm : StateMachine T)
      → waiter entry.index sm.pending ≡ some pw
      → Answered entry.index pw
          (if already_applied cmd sm then ok else (execute cmd sm.engine).0)
          sm
          (apply_command entry cmd sm)
  unfolding apply_command record_success notify_pending
  apply_command-Answered entry cmd pw sm h =
      ground (arith, h, waiter-without entry.index sm.pending)

  -- A client that waits for an index gets exactly one answer when the entry of that index is applied,
  -- on every branch: an entry applied before, one that cannot be decoded, a retry, and a write that
  -- the engine takes or refuses. The term of the entry plays no part in it.
  pub apply-Answered :
      (unmarshal : Bytes → Option Command) (entry : LogEntry) (pw : PendingWrite)
      (sm : StateMachine T)
      → waiter entry.index sm.pending ≡ some pw
      → Answered entry.index pw (reply_to unmarshal entry sm) sm (apply unmarshal entry sm)
  unfolding apply
  apply-Answered unmarshal entry pw sm h = elim (Bool-cases (leb entry.index sm.last_applied)) [
    | inl old ↦ rw old (notify_pending-Answered entry.index ok pw sm h)
    | inr new ↦ elim (Option-cases (unmarshal entry.payload)) [
      | inl n ↦
          rw (new, n)
            (notify_pending-Answered entry.index corrupt_entry pw
              (record sm { last_applied = entry.index }) h)
      | inr (cmd, n) ↦ rw (new, n) (apply_command-Answered entry cmd pw sm h)
    ]
  ]

  -- A client whose write was proposed in another term than that of the entry which was committed at
  -- its index is told that its write succeeded, when the engine takes that other write. The entry is
  -- new, holds a put of no named client, and the engine is open.
  pub other_write_answers_ok :
      (unmarshal : Bytes → Option Command) (entry : LogEntry) (cmd : Command) (pw : PendingWrite)
      (sm : StateMachine T)
      → waiter entry.index sm.pending ≡ some pw
      → pw.term ≢ entry.term
      → sm.last_applied < entry.index
      → unmarshal entry.payload ≡ some cmd
      → cmd.client_id ≡ ""
      → cmd.op ≡ "put"
      → sm.engine.closed ≡ false
      → Answered entry.index pw ok sm (apply unmarshal entry sm)
  unfolding already_applied execute put
  other_write_answers_ok unmarshal entry cmd pw sm h other new decoded anon is_put open_ =
      let fresh : leb entry.index sm.last_applied ≡ false = ground arith in
      let reply : reply_to unmarshal entry sm ≡ ok =
        rw (fresh, decoded) (rw (anon, is_put, open_) refl) in
      subst (λ r. Answered entry.index pw r sm (apply unmarshal entry sm)) reply
        (apply-Answered unmarshal entry pw sm h)

pub seq_of-peer_set : (m : PeerMap) (k : String) (v : ℕ) → seq_of (peer_set m k v) k ≡ some v
unfolding seq_of peer_set
seq_of-peer_set [] k v = rw (eq_refl k) refl
seq_of-peer_set ((j, w) ∷ m) k v = elim (Bool-cases (str_eq j k)) [
  | inl t ↦ rw t (rw t refl)
  | inr f ↦ rw f (rw f (seq_of-peer_set m k v))
]

module _ {T : Type 0} where
  -- The state machine remembers a sequence number of the client that is not below `s`.
  abbrev pub Remembers : String → ℕ → StateMachine T → Type 0
  Remembers c s sm = (seq : ℕ) × (seq_of sm.last_seq c ≡ some seq) × (s ≤ seq)

  pub Remembers-already_applied :
      (cmd : Command) (s : ℕ) (sm : StateMachine T)
      → cmd.client_id ≢ ""
      → cmd.seq_num ≤ s
      → Remembers cmd.client_id s sm
      → already_applied cmd sm ≡ true
  unfolding already_applied
  Remembers-already_applied cmd s sm named le (seq, h, le') =
      elim (Bool-cases (str_eq cmd.client_id "")) [
        | inl t ↦ absurd (named ((eq_iff cmd.client_id "").0 t))
        | inr f ↦ rw (f, already_applied, h) (ground arith)
      ]
