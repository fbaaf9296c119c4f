-- ===== src/Server/StateMachine/Remembered.antt =====
-- server/statemachine.go: the sequence number that is remembered of a client never falls, whatever
-- entries are applied.
use distributed_key_value_st.Raft.Types.{LogEntry, PeerMap, peer_set}
use distributed_key_value_st.Base.{
  refl, eq_iff, Option-cases, some, inr, [], leb, false, ◌∙◌, str_eq, arith, Bool-cases, ap, ◌⊎◌,
  if◌then◌else◌, ◌∷◌, ◌≡◌, inl, List, ℕ, Option, String, Bytes,
}
use distributed_key_value_st.Server.StateMachine.{
  corrupt_entry, Result, ok, record_success, notify_pending, StateMachine, already_applied, seq_of,
  apply_command, apply, Command,
}
use distributed_key_value_st.Server.StateMachine.Stream.{apply_all}
use distributed_key_value_st.Server.StateMachine.Clients.{Remembers}

seq_of-set :
    (m : PeerMap) (k j : String) (v : ℕ)
    → seq_of (peer_set m k v) j ≡ (if str_eq k j then some v else seq_of m j)
unfolding seq_of peer_set
seq_of-set [] k j v = ground arith
seq_of-set ((i, w) ∷ m) k j v =
    ground (arith, eq_iff k j, eq_iff i k, eq_iff i j, seq_of-set m k j v)

module _ {T : Type 0} where
  -- The sequence number of a command is taken down, or nothing is.
  SeqAfter : Command → StateMachine T → PeerMap → Type 0
  SeqAfter cmd sm m =
      (m ≡ sm.last_seq)
      ⊎ ((already_applied cmd sm ≡ false)
          × (str_eq cmd.client_id "" ≡ false)
          × (m ≡ peer_set sm.last_seq cmd.client_id cmd.seq_num))

  apply_command-seq :
      (entry : LogEntry) (cmd : Command) (sm : StateMachine T)
      → SeqAfter cmd sm (apply_command entry cmd sm).last_seq
  unfolding SeqAfter apply_command notify_pending record_success
  apply_command-seq entry cmd sm = ground arith

  SeqAfter-Remembers :
      (c : String) (s : ℕ) (cmd : Command) (sm sm' : StateMachine T)
      → SeqAfter cmd sm sm'.last_seq
      → Remembers c s sm
      → Remembers c s sm'
  unfolding SeqAfter already_applied
  SeqAfter-Remembers c s cmd sm sm' (inl e) (seq, h, le) = (seq, ap (λ l. seq_of l c) e ∙ h, le)
  SeqAfter-Remembers c s cmd sm sm' (inr (new, named, e)) (seq, h, le) =
      let set = ap (λ l. seq_of l c) e ∙ seq_of-set sm.last_seq cmd.client_id c cmd.seq_num in
      elim (Bool-cases (str_eq cmd.client_id c)) [
        | inl same ↦
            let is_c : cmd.client_id ≡ c = (eq_iff cmd.client_id c).0 same in
            let known : seq_of sm.last_seq cmd.client_id ≡ some seq = rw is_c h in
            (cmd.seq_num, set ∙ rw same refl, ground (arith, new, named, known, le))
        | inr other ↦ (seq, set ∙ rw other h, le)
      ]

  notify_pending-seq :
      (idx : ℕ) (r : Result) (sm : StateMachine T)
      → (notify_pending idx r sm).last_seq ≡ sm.last_seq
  unfolding notify_pending
  notify_pending-seq idx r sm = ground arith

  notify_pending-Remembers :
      (c : String) (s idx : ℕ) (r : Result) (sm : StateMachine T)
      → Remembers c s sm
      → Remembers c s (notify_pending idx r sm)
  notify_pending-Remembers c s idx r sm (seq, h, le) =
      (seq, ap (λ l. seq_of l c) (notify_pending-seq idx r sm) ∙ h, le)

  apply-Remembers :
      (unmarshal : Bytes → Option Command) (c : String) (s : ℕ) (entry : LogEntry)
      (sm : StateMachine T)
      → Remembers c s sm
      → Remembers c s (apply unmarshal entry sm)
  unfolding apply
  apply-Remembers unmarshal c s entry sm r = elim (Bool-cases (leb entry.index sm.last_applied)) [
    | inl old ↦ rw old (notify_pending-Remembers c s entry.index ok sm r)
    | inr new ↦ elim (Option-cases (unmarshal entry.payload)) [
      | inl n ↦
          rw (new, n)
            (notify_pending-Remembers c s entry.index corrupt_entry
              (record sm { last_applied = entry.index }) r)
      | inr (cmd, n) ↦
          rw (new, n)
            (SeqAfter-Remembers c s cmd sm (apply_command entry cmd sm)
              (apply_command-seq entry cmd sm) r)
    ]
  ]

  pub apply_all-Remembers :
      (unmarshal : Bytes → Option Command) (c : String) (s : ℕ) (es : List LogEntry)
      (sm : StateMachine T)
      → Remembers c s sm
      → Remembers c s (apply_all unmarshal es sm)
  apply_all-Remembers unmarshal c s [] sm r = r
  apply_all-Remembers unmarshal c s (e ∷ es) sm r =
      apply_all-Remembers unmarshal c s es (apply unmarshal e sm)
        (apply-Remembers unmarshal c s e sm r)
