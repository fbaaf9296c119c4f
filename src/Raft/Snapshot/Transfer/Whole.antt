-- ===== src/Raft/Snapshot/Transfer/Whole.antt =====
-- A whole snapshot transfer, with a transport that loses nothing.
use distributed_key_value_st.Base.{
  ◌*◌, ℕ, zero, suc, ◌+◌, ◌≤◌, ◌<◌, ◌≡◌, refl, ap, ◌∙◌, true, false, if◌then◌else◌, length, arith,
  String, Bool-cases, inl, inr, Bytes,
}
use distributed_key_value_st.Raft.Types.{Node, PersistentState, leader}
use distributed_key_value_st.Raft.Replicate.{
  snapshot_chunk, snapshot_chunk_size, record_match, on_snapshot_response,
}
use distributed_key_value_st.Raft.Snapshot.{handle_install_snapshot}
use distributed_key_value_st.Raft.Snapshot.Install.{Installed}
use distributed_key_value_st.Raft.Snapshot.Transfer.{Transfer, chunk_at, send_chunks}
use distributed_key_value_st.Raft.Snapshot.Transfer.Chunk.{
  chunk_end, short_end, more_end, Ready, accepted, accepted_facts, next_chunk, last_chunk,
  Installed-from,
}

module _ {S : Type 0} ⦃p : PersistentState S⦄ where
  leader_continues :
      (peer : String) (t : Transfer) (offset : ℕ) (n : Node S)
      → n.role ≡ leader
      → n.current_term ≡ t.term
      → on_snapshot_response peer (chunk_at t offset) (record { term = t.term; success = true }) n
        ≡ (if (chunk_at t offset).done then (false, record_match peer t.index n) else (true, n))
  unfolding on_snapshot_response chunk_at snapshot_chunk
  leader_continues peer t offset n l e = ground (arith, l)

  leader_stops :
      (peer : String) (t : Transfer) (offset : ℕ) (n : Node S)
      → n.role ≡ leader
      → n.current_term ≡ t.term
      → (chunk_at t offset).done ≡ true
      → on_snapshot_response peer (chunk_at t offset) (record { term = t.term; success = true }) n
        ≡ (false, record_match peer t.index n)
  leader_stops peer t offset n l e last =
      leader_continues peer t offset n l e
      ∙ ap (λ b. if b then (false, record_match peer t.index n) else (true, n)) last

  leader_goes_on :
      (peer : String) (t : Transfer) (offset : ℕ) (n : Node S)
      → n.role ≡ leader
      → n.current_term ≡ t.term
      → (chunk_at t offset).done ≡ false
      → on_snapshot_response peer (chunk_at t offset) (record { term = t.term; success = true }) n
        ≡ (true, n)
  leader_goes_on peer t offset n l e more =
      leader_continues peer t offset n l e
      ∙ ap (λ b. if b then (false, record_match peer t.index n) else (true, n)) more

  module _ (saves : (b : Bytes) (i s : ℕ) (store : S) → (p.save_snapshot b i s store).1 ≡ true)
      (peer : String) (t : Transfer) where
    -- What a finished transfer leaves of the leader and of the follower.
    abbrev pub Finished : Node S → Node S → Node S × Node S → Type 0
    Finished n f r =
        (r.0 ≡ record_match peer t.index n) × Installed t.blob t.index t.snap_term f r.1

    finish :
        (fuel offset : ℕ) (n f : Node S)
        → n.role ≡ leader
        → n.current_term ≡ t.term
        → Ready t offset f
        → (chunk_at t offset).done ≡ true
        → Finished n f (send_chunks (suc fuel) peer t offset (n, f))
    unfolding send_chunks
    finish fuel offset n f l e r last =
        let (a, b, c, d, g) = accepted_facts t f r.current in
        let (ok, i) = last_chunk t offset f r saves last in
        rw (ok, leader_stops peer t offset n l e last)
          (refl, Installed-from _ _ _ f (accepted t f) _ d g i)

    finishes :
        (fuel offset : ℕ) (n f : Node S)
        → n.role ≡ leader
        → n.current_term ≡ t.term
        → Ready t offset f
        → length t.blob ≤ offset + suc fuel * snapshot_chunk_size
        → Finished n f (send_chunks (suc fuel) peer t offset (n, f))
    unfolding send_chunks
    finishes zero offset n f l e r enough =
        finish zero offset n f l e r (short_end t offset (omega arith))
    finishes (suc fuel) offset n f l e r enough = elim (Bool-cases (chunk_at t offset).done) [
      | inl last ↦ finish (suc fuel) offset n f l e r last
      | inr more ↦
          let (ok, r', d, g) = next_chunk t offset f r more in
          let f' = (handle_install_snapshot (chunk_at t offset) f).1 in
          let (same, i) =
            finishes fuel (chunk_end t offset) n f' l e r'
              (omega (arith, more_end t offset more)) in
          rw (ok, leader_goes_on peer t offset n l e more) (same, Installed-from _ _ _ f f' _ d g i)
    ]

    -- A transfer to a follower of no later term whose snapshot is older ends with the follower
    -- having installed exactly the bytes that the leader sent, with the leader having recorded the
    -- snapshot's index for the peer, after one round for each chunk, when no message is lost and the
    -- store of the follower can save.
    pub send_chunks_installs :
        (fuel : ℕ) (n f : Node S)
        → n.role ≡ leader
        → n.current_term ≡ t.term
        → f.current_term ≤ t.term
        → f.last_included_index < t.index
        → length t.blob ≤ suc fuel * snapshot_chunk_size
        → Finished n f (send_chunks (suc fuel) peer t 0 (n, f))
    send_chunks_installs fuel n f l e current older enough =
        finishes fuel 0 n f l e
          (record { current = current; older = older; inside = omega arith; so_far = inl refl })
          (omega arith)
