-- ===== src/Server/StateMachine/Stream.antt =====
-- server/statemachine.go: the engine after a stream of committed entries.
use distributed_key_value_st.Base.{
  ℕ, ◌+◌, ◌<◌, ◌≡◌, inl, inr, refl, sym, ap, ◌∙◌, subst, false, List, [], ◌∷◌, Option, none, some,
  leb, if◌then◌else◌, str_eq, Bytes, bytes_eq, arith, length, Bool-cases, Option-cases,
}
use distributed_key_value_st.Raft.Types.{LogEntry}
use distributed_key_value_st.Raft.Log.Indexed.{Indexed}
use distributed_key_value_st.Storage.Engine.{Engine, Sstables, put, delete}
use distributed_key_value_st.Storage.Engine.View.{TableLaws, view, WellFormed}
use distributed_key_value_st.Storage.Engine.View.Writes.{put-view, delete-view}
use distributed_key_value_st.Server.StateMachine.{
  corrupt_entry, Command, StateMachine, Result, notify_pending, already_applied, execute,
  record_success, apply_command, apply,
}

abbrev pub ValueMap : Type 0
ValueMap = Bytes → Option Bytes

-- What a command does to a map.
abbrev pub on_map : Command → ValueMap → ValueMap
on_map cmd m q =
    if str_eq cmd.op "put"
    then if bytes_eq cmd.key q then some cmd.value else m q
    else if str_eq cmd.op "delete"
    then if bytes_eq cmd.key q then none else m q
    else m q

-- The entries in order; one that cannot be decoded does nothing.
abbrev pub replay : (Bytes → Option Command) → List LogEntry → ValueMap → ValueMap
replay unmarshal [] m = m
replay unmarshal (e ∷ es) m = elim (unmarshal e.payload) [
  | none ↦ replay unmarshal es m
  | some cmd ↦ replay unmarshal es (on_map cmd m)
]

-- No decoded command names a client.
abbrev pub Anonymous : (Bytes → Option Command) → List LogEntry → Type 0
Anonymous unmarshal [] = Unit {0}
Anonymous unmarshal (e ∷ es) =
    ((cmd : Command) → unmarshal e.payload ≡ some cmd → cmd.client_id ≡ "") × Anonymous unmarshal es

module _ {T : Type 0} where
  -- The apply loop on a stream of entries.
  abbrev pub apply_all : (Bytes → Option Command) → List LogEntry → StateMachine T → StateMachine T
  apply_all unmarshal [] sm = sm
  apply_all unmarshal (e ∷ es) sm = apply_all unmarshal es (apply unmarshal e sm)

  notify_pending-kept :
      (idx : ℕ) (r : Result) (sm : StateMachine T)
      → ((notify_pending idx r sm).engine ≡ sm.engine)
        × ((notify_pending idx r sm).last_applied ≡ sm.last_applied)
  unfolding notify_pending
  notify_pending-kept idx r sm = ground arith

  anonymous_new :
      (cmd : Command) (sm : StateMachine T) → cmd.client_id ≡ "" → already_applied cmd sm ≡ false
  unfolding already_applied
  anonymous_new cmd sm e = rw (e, already_applied) refl

  apply_command-parts :
      (entry : LogEntry) (cmd : Command) (sm : StateMachine T)
      → already_applied cmd sm ≡ false
      → ((apply_command entry cmd sm).engine ≡ (execute cmd sm.engine).1)
        × ((apply_command entry cmd sm).last_applied ≡ entry.index)
  unfolding apply_command record_success notify_pending
  apply_command-parts entry cmd sm new = ground (arith, new)

on_map-ext :
    (cmd : Command) (m m' : ValueMap) (q : Bytes) → m q ≡ m' q → on_map cmd m q ≡ on_map cmd m' q
on_map-ext cmd m m' q h =
    ap
      (λ o.
        if str_eq cmd.op "put"
        then if bytes_eq cmd.key q then some cmd.value else o
        else if str_eq cmd.op "delete"
        then if bytes_eq cmd.key q then none else o
        else o)
      h

replay-ext :
    (unmarshal : Bytes → Option Command) (es : List LogEntry) (m m' : ValueMap)
    → ((q : Bytes) → m q ≡ m' q)
    → (q : Bytes) → replay unmarshal es m q ≡ replay unmarshal es m' q
replay-ext unmarshal [] m m' h q = h q
replay-ext unmarshal (e ∷ es) m m' h q = elim (Option-cases (unmarshal e.payload)) [
  | inl n ↦ rw (n, replay) (replay-ext unmarshal es m m' h q)
  | inr (cmd, n) ↦
      rw (n, replay)
        (replay-ext unmarshal es (on_map cmd m) (on_map cmd m') (λ k. on_map-ext cmd m m' k (h k))
          q)
]

put_open :
    {T : Type 0} (k v : Bytes) (e : Engine T) → e.closed ≡ false → (put k v e).1.closed ≡ false
unfolding put
put_open k v e h = ground (arith, h)

delete_open :
    {T : Type 0} (k : Bytes) (e : Engine T) → e.closed ≡ false → (delete k e).1.closed ≡ false
unfolding delete
delete_open k e h = ground (arith, h)

module _ {T : Type 0} ⦃files : Sstables T⦄ (laws : TableLaws files) where
  -- The engine is open, its layers are sorted, and they stand for the map.
  pub record Holds (e : Engine T) (m : ValueMap) : Type 0 where
    pub open_ : e.closed ≡ false
    pub well_formed : WellFormed laws e
    pub viewed : (q : Bytes) → view laws q e ≡ m q

  execute-Holds :
      (cmd : Command) (e : Engine T) (m : ValueMap)
      → Holds e m
      → Holds (execute cmd e).1 (on_map cmd m)
  unfolding execute
  execute-Holds cmd e m h = elim (Bool-cases (str_eq cmd.op "put")) [
    | inl p ↦
        let w = λ (q : Bytes). put-view laws cmd.key cmd.value q e h.open_ h.well_formed in
        rw p (record {
          open_ = put_open cmd.key cmd.value e h.open_;
          well_formed = (w []).1;
          viewed = λ q.
              rw p
                ((w q).2 ∙ ap (λ o. if bytes_eq cmd.key q then some cmd.value else o) (h.viewed q));
        })
    | inr np ↦ elim (Bool-cases (str_eq cmd.op "delete")) [
      | inl d ↦
          let w = λ (q : Bytes). delete-view laws cmd.key q e h.open_ h.well_formed in
          rw (np, d)
            (record {
              open_ = delete_open cmd.key e h.open_;
              well_formed = (w []).1;
              viewed = λ q.
                  rw (np, d)
                    ((w q).2 ∙ ap (λ o. if bytes_eq cmd.key q then none else o) (h.viewed q));
            })
      | inr nd ↦
          rw (np, nd)
            (record {
              open_ = h.open_;
              well_formed = h.well_formed;
              viewed = λ q. rw (np, nd) (h.viewed q);
            })
    ]
  ]

  -- One entry: what the state machine holds, and how far it has come.
  apply-Holds :
      (unmarshal : Bytes → Option Command) (entry : LogEntry) (sm : StateMachine T) (m : ValueMap)
      → sm.last_applied < entry.index
      → ((cmd : Command) → unmarshal entry.payload ≡ some cmd → cmd.client_id ≡ "")
      → Holds sm.engine m
      → Holds (apply unmarshal entry sm).engine (replay unmarshal (entry ∷ []) m)
        × ((apply unmarshal entry sm).last_applied ≡ entry.index)
  unfolding apply
  apply-Holds unmarshal entry sm m new anon h =
      let fresh : leb entry.index sm.last_applied ≡ false = ground arith in
      elim (Option-cases (unmarshal entry.payload)) [
        | inl n ↦
            let k =
              notify_pending-kept entry.index corrupt_entry
                (record sm { last_applied = entry.index }) in
            rw (fresh, n, replay) (rw (k.0, k.1) (h, refl))
        | inr (cmd, n) ↦
            let k = apply_command-parts entry cmd sm (anonymous_new cmd sm (anon cmd n)) in
            rw (fresh, n, replay) (rw (k.0, k.1) (execute-Holds cmd sm.engine m h, refl))
      ]

  replay-cons :
      (unmarshal : Bytes → Option Command) (e : LogEntry) (es : List LogEntry) (m : ValueMap)
      → replay unmarshal (e ∷ es) m ≡ replay unmarshal es (replay unmarshal (e ∷ []) m)
  replay-cons unmarshal e es m = elim (Option-cases (unmarshal e.payload)) [
    | inl n ↦ rw (n, replay) refl
    | inr (cmd, n) ↦ rw (n, replay) refl
  ]

  -- Applying committed entries with consecutive indexes, the first of which is the next one to apply,
  -- leaves the engine standing for the map that replaying their commands in order gives, and leaves
  -- the index of the last entry as the last applied one. No command names a client, the engine is
  -- open with sorted layers, and an entry that cannot be decoded changes nothing.
  pub apply_all-replay :
      (unmarshal : Bytes → Option Command) (es : List LogEntry) (sm : StateMachine T) (m : ValueMap)
      → Indexed (sm.last_applied + 1) es
      → Anonymous unmarshal es
      → Holds sm.engine m
      → Holds (apply_all unmarshal es sm).engine (replay unmarshal es m)
        × ((apply_all unmarshal es sm).last_applied ≡ sm.last_applied + length es)
  apply_all-replay unmarshal [] sm m i a h = (h, omega arith)
  apply_all-replay unmarshal (e ∷ es) sm m (at, i) (anon, a) h =
      let (h', last) = apply-Holds unmarshal e sm m (omega arith) anon h in
      let next : sm.last_applied + 1 + 1 ≡ (apply unmarshal e sm).last_applied + 1 = omega arith in
      let (r, count) =
        apply_all-replay unmarshal es (apply unmarshal e sm) (replay unmarshal (e ∷ []) m)
          (subst (λ b. Indexed b es) next i) a h' in
      (
        subst (Holds (apply_all unmarshal (e ∷ es) sm).engine) (sym (replay-cons unmarshal e es m))
            r,
        omega (arith, count, last, at),
      )
