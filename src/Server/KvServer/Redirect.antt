-- ===== src/Server/KvServer/Redirect.antt =====
-- server/kvserver.go: what a client learns from a node that is not the leader.
use distributed_key_value_st.Raft.Append.Follows.{handle_append_entries-Follows}
use mathlib.Core.List.{Memᴰ}
use mathlib.Core.List.Memᴰ
use distributed_key_value_st.Raft.Commit.{propose}
use distributed_key_value_st.Base.{
  ◌∙◌, [], sym, ap, eq_refl, if◌then◌else◌, ◌≤◌, str_eq, Bool-cases, eq_iff, ◌≢◌, true, refl, ◌+◌,
  inr, inl, length, suc, ◌%◌, ℕ, ◌∷◌, some, Option, List, arith, none, false, ◌≡◌, Bytes, String,
}
use distributed_key_value_st.Raft.Accessors.{leader_id, is_leader}
use distributed_key_value_st.Raft.Types.{AppendEntriesRequest, leader, Node, PersistentState}
use distributed_key_value_st.Storage.Engine.{Sstables}
use distributed_key_value_st.Server.StateMachine.{Command, propose_write}
use native.Mathlib.Nat.{zero-mod, mod-eq_of_lt}
use distributed_key_value_st.Client.{
  GetResponse, address_of, write_loop, get_loop, WriteResponse, do_get, do_write,
}
use distributed_key_value_st.Server.KvServer.{
  on_append_entries, peer_addr, waiting, Reply, Reply, replied, is_leader, KvServer, handle_get,
  handle_write, read_value, leader_hint_addr,
}

-- The response that a request for a write gets at once, if it does.
abbrev pub answer : Reply → Option WriteResponse
answer (replied resp) = some resp
answer (waiting pw) = none

-- The peers have this address, and no other, for the node `id`.
abbrev pub HasAddress : String → String → List (String × String) → Type 0
HasAddress id addr peers = Memᴰ (id, addr) peers × ((a : String) → Memᴰ (id, a) peers → a ≡ addr)

peer_addr-HasAddress :
    (id addr : String) (peers : List (String × String))
    → HasAddress id addr peers
    → peer_addr id peers ≡ addr
unfolding peer_addr
peer_addr-HasAddress id addr [] (m, only) = elim m [ ]
peer_addr-HasAddress id addr ((x, a) ∷ ps) (m, only) = elim (Bool-cases (str_eq x id)) [
  | inl same ↦
      let here : (id, a) ≡ (x, a) = ap (λ y. (y, a)) (sym ((eq_iff x id).0 same)) in
      rw same (only a (Memᴰ.head here))
  | inr other ↦ elim (Memᴰ.cases_cons m) [
    | inl first ↦
        let same : x ≡ id = ap (λ e. e.0) (sym first) in absurd (cc ((eq_iff x id).1 same, other))
    | inr later ↦ rw other (peer_addr-HasAddress id addr ps (later, λ b k. only b (Memᴰ.tail k)))
  ]
]

-- A read ends at the first answer without a hint.
read_ends :
    (rpc : ℕ → String → Option GetResponse) (addr : String) (addrs : List String)
    → rpc 0 addr ≡ some (record { value = none; leader_hint = "" })
    → do_get rpc (addr ∷ addrs) ≡ some none
unfolding do_get get_loop address_of
read_ends rpc addr addrs h =
    let start : 0 % length (addr ∷ addrs) ≡ 0 = zero-mod (length (addr ∷ addrs)) in
    let first : address_of 0 (addr ∷ addrs) ≡ some addr = rw (address_of, start) refl in
    rw (do_get, first, get_loop, h) refl

write_again :
    (rpc : ℕ → String → Option WriteResponse) (left attempt : ℕ) (addr : String)
    (addrs : List String)
    → address_of attempt addrs ≡ some addr
    → rpc attempt addr ≡ some (record { success = false; leader_hint = "" })
    → write_loop rpc (suc left) attempt addrs ≡ write_loop rpc left (attempt + 1) addrs
unfolding write_loop
write_again rpc left attempt addr addrs at h = rw (at, h, write_loop) refl

write_done :
    (rpc : ℕ → String → Option WriteResponse) (left attempt : ℕ) (addr : String)
    (addrs : List String)
    → address_of attempt addrs ≡ some addr
    → rpc attempt addr ≡ some (record { success = true; leader_hint = "" })
    → write_loop rpc (suc left) attempt addrs ≡ true
unfolding write_loop
write_done rpc left attempt addr addrs at h = rw (at, h, write_loop) refl

-- A write goes on after a refusal without a hint.
write_goes_on :
    (rpc : ℕ → String → Option WriteResponse) (addr next : String) (addrs : List String)
    → rpc 0 addr ≡ some (record { success = false; leader_hint = "" })
    → rpc 1 next ≡ some (record { success = true; leader_hint = "" })
    → do_write rpc (addr ∷ next ∷ addrs) ≡ true
unfolding do_write address_of
write_goes_on rpc addr next addrs h g =
    let start : 0 % length (addr ∷ next ∷ addrs) ≡ 0 = zero-mod (length (addr ∷ next ∷ addrs)) in
    let first : address_of 0 (addr ∷ next ∷ addrs) ≡ some addr = rw (address_of, start) refl in
    let after : 1 % length (addr ∷ next ∷ addrs) ≡ 1 = mod-eq_of_lt (omega arith) in
    let second : address_of 1 (addr ∷ next ∷ addrs) ≡ some next = rw (address_of, after) refl in
    write_again rpc 9 0 addr (addr ∷ next ∷ addrs) first h
    ∙ write_done rpc 8 1 next (addr ∷ next ∷ addrs) second g

module _ {S : Type 0} where
  no_leader : (n : Node S) → n.role ≢ leader → is_leader n ≡ false
  unfolding is_leader
  no_leader n h = ground (arith, h)

module _ {T S : Type 0} ⦃files : Sstables T⦄ ⦃store : PersistentState S⦄ where
  follower_proposes :
      (marshal : Command → Bytes) (cmd : Command) (s : KvServer T S)
      → is_leader s.node ≡ false
      → propose_write marshal cmd (s.sm, s.node) ≡ none
  unfolding propose_write propose is_leader
  follower_proposes marshal cmd s idle = ground (arith, idle)

  refuses :
      (marshal : Command → Bytes) (cmd : Command) (key : Bytes) (s : KvServer T S)
      → s.node.role ≢ leader
      → (handle_get key s ≡ record { value = none; leader_hint = leader_hint_addr s })
        × (handle_write marshal cmd s
            ≡ (replied (record { success = false; leader_hint = leader_hint_addr s }), s))
  unfolding handle_get handle_write read_value
  refuses marshal cmd key s h =
      let idle = no_leader s.node h in
      (rw (idle, handle_get) refl, rw (follower_proposes marshal cmd s idle, handle_write) refl)

  hint_of_peer :
      (id addr : String) (s : KvServer T S)
      → s.node.leader_id ≡ id
      → id ≢ ""
      → id ≢ s.cfg.node_id
      → HasAddress id addr s.cfg.peers
      → leader_hint_addr s ≡ addr
  unfolding leader_hint_addr leader_id
  hint_of_peer id addr s e named other known = ground (
    arith,
    e,
    named,
    other,
    eq_iff id "",
    eq_iff id s.cfg.node_id,
    peer_addr-HasAddress id addr s.cfg.peers known,
  )

  -- A server that has just heard AppendEntries of a leader, in a term not below its own, sends its
  -- clients to that leader, whether it took the entries or not, and whatever it was before: it answers
  -- a read and a write with the address that its configuration has for the sender, gives no value, and
  -- a write leaves it as it is. The sender has a name and is not the server itself, and its name has
  -- just one address among the peers of the configuration.
  pub follower_redirects :
      (marshal : Command → Bytes) (cmd : Command) (key : Bytes) (addr : String)
      (req : AppendEntriesRequest) (s : KvServer T S)
      → s.node.current_term ≤ req.term
      → req.leader_id ≢ ""
      → req.leader_id ≢ s.cfg.node_id
      → HasAddress req.leader_id addr s.cfg.peers
      → let s' = (on_append_entries req s).1 in
        (handle_get key s' ≡ record { value = none; leader_hint = addr })
        × (handle_write marshal cmd s'
            ≡ (replied (record { success = false; leader_hint = addr }), s'))
  unfolding on_append_entries
  follower_redirects marshal cmd key addr req s current named other known =
      let s' = (on_append_entries req s).1 in
      let (r, l) = handle_append_entries-Follows req s.node current in
      let idle : s'.node.role ≢ leader = λ e. absurd (cc (r, e)) in
      let hint = hint_of_peer req.leader_id addr s' l named other known in
      let (read, write) = refuses marshal cmd key s' idle in (rw hint at read, rw hint at write)

  -- A node that is not the leader and knows none answers a read as if the key had no value. The
  -- client that asks it first reports the key as not found, whatever any other node would have
  -- answered. A write is not so: the client goes on, and succeeds if the node that it asks next, at
  -- another address, takes the write.
  pub unknown_leader_reads_as_missing :
      (marshal : Command → Bytes) (cmd : Command) (key : Bytes) (s : KvServer T S)
      (addr next : String) (addrs : List String) (others : ℕ → String → Option GetResponse)
      → s.node.role ≢ leader
      → s.node.leader_id ≡ ""
      → next ≢ addr
      → (do_get
            (λ attempt a. if str_eq a addr then some (handle_get key s) else others attempt a)
            (addr ∷ next ∷ addrs)
          ≡ some none)
        × (do_write
              (λ attempt a.
                if str_eq a addr
                then answer (handle_write marshal cmd s).0
                else some (record { success = true; leader_hint = "" }))
              (addr ∷ next ∷ addrs)
            ≡ true)
  unfolding leader_hint_addr leader_id
  unknown_leader_reads_as_missing marshal cmd key s addr next addrs others idle unknown apart =
      let (read, write) = refuses marshal cmd key s idle in
      let no_hint : leader_hint_addr s ≡ "" = rw unknown refl in
      let differs : str_eq next addr ≡ false = ground (arith, apart, eq_iff next addr) in
      (
        read_ends _ addr (next ∷ addrs) (rw (eq_refl addr, read, no_hint) refl),
        write_goes_on _ addr next addrs (rw (eq_refl addr, write, no_hint) refl) (rw differs refl),
      )
