-- ===== src/Raft/Snapshot/Transfer/Chunk.antt =====
-- The follower on one chunk of a snapshot transfer.
use distributed_key_value_st.Base.{
  subst, ◌⊎◌, ℕ, zero, suc, ◌+◌, ◌-◌, ◌≤◌, ◌<◌, ◌≡◌, refl, ap, ◌∙◌, true, false, [], ◌∷◌, ◌++◌, max,
  min, Option, some, if◌then◌else◌, length, take, take-all, take-add, length-take, arith, inl, inr,
  Bytes,
}
use distributed_key_value_st.Raft.Types.{Node, PersistentState, SnapshotRecvState, snapshot}
use distributed_key_value_st.Raft.Election.{become_follower}
use distributed_key_value_st.Raft.Append.{accept_leader}
use distributed_key_value_st.Raft.Replicate.{snapshot_chunk, snapshot_chunk_size}
use distributed_key_value_st.Raft.Snapshot.{
  current_transfer, chunk_fits, install_snapshot, receive_chunk, handle_install_snapshot,
}
use distributed_key_value_st.Raft.Snapshot.Install.{Installed, install_snapshot-Installed}
use distributed_key_value_st.Raft.Snapshot.Transfer.{Transfer, chunk_at}

-- The first `offset` bytes of the transfer, as the follower keeps them.
abbrev pub received_up_to : Transfer → ℕ → SnapshotRecvState
received_up_to t offset = record {
  last_included_index = t.index;
  last_included_term = t.snap_term;
  received = take offset t.blob;
}

abbrev pub chunk_end : Transfer → ℕ → ℕ
chunk_end t offset = min (offset + snapshot_chunk_size) (length t.blob)

transfer_at :
    (t : Transfer) (offset : ℕ) (r : Option SnapshotRecvState)
    → (offset ≡ 0) ⊎ (r ≡ some (received_up_to t offset))
    → current_transfer (chunk_at t offset) r ≡ some (received_up_to t offset)
unfolding current_transfer chunk_at snapshot_chunk
transfer_at t zero r h = refl
transfer_at t (suc k) r (inl e) = absurd (omega arith)
transfer_at t (suc k) r (inr e) = ground (arith, e)

fits_at :
    (t : Transfer) (offset : ℕ)
    → offset ≤ length t.blob
    → chunk_fits (chunk_at t offset) (received_up_to t offset) ≡ true
unfolding chunk_fits chunk_at snapshot_chunk
fits_at t offset h = ground (arith, length-take offset t.blob)

grown :
    (t : Transfer) (offset : ℕ)
    → offset ≤ length t.blob
    → take offset t.blob ++ (chunk_at t offset).chunk ≡ take (chunk_end t offset) t.blob
unfolding chunk_at snapshot_chunk
grown t offset h =
    take-add offset (chunk_end t offset - offset) t.blob ∙ ap (λ k. take k t.blob) (omega arith)

last_end :
    (t : Transfer) (offset : ℕ)
    → (chunk_at t offset).done ≡ true
    → length t.blob ≤ chunk_end t offset
unfolding chunk_at snapshot_chunk
last_end t offset h = ground arith

pub short_end :
    (t : Transfer) (offset : ℕ)
    → length t.blob ≤ offset + snapshot_chunk_size
    → (chunk_at t offset).done ≡ true
unfolding chunk_at snapshot_chunk
short_end t offset h = ground arith

pub more_end :
    (t : Transfer) (offset : ℕ)
    → (chunk_at t offset).done ≡ false
    → chunk_end t offset ≡ offset + snapshot_chunk_size
unfolding chunk_at snapshot_chunk
more_end t offset h = ground arith

module _ {S : Type 0} ⦃p : PersistentState S⦄ where
  receive_chunk_at :
      (t : Transfer) (offset : ℕ) (f : Node S)
      → offset ≤ length t.blob
      → (offset ≡ 0) ⊎ (f.recv_snapshot ≡ some (received_up_to t offset))
      → receive_chunk (chunk_at t offset) f ≡ (
          if (chunk_at t offset).done
          then install_snapshot (received_up_to t (chunk_end t offset)) f
          else (true, record f { recv_snapshot = some (received_up_to t (chunk_end t offset)) }))
  unfolding receive_chunk
  receive_chunk_at t offset f h r =
      rw (transfer_at t offset f.recv_snapshot r, receive_chunk)
        (rw (fits_at t offset h, grown t offset h))

  -- The follower is ready for the chunk at `offset`.
  pub record Ready (t : Transfer) (offset : ℕ) (f : Node S) : Type 0 where
    pub current : f.current_term ≤ t.term
    pub older : f.last_included_index < t.index
    pub inside : offset ≤ length t.blob
    pub so_far : (offset ≡ 0) ⊎ (f.recv_snapshot ≡ some (received_up_to t offset))

  pub accepted : Transfer → Node S → Node S
  accepted t f = accept_leader t.term t.leader_id f

  pub accepted_facts :
      (t : Transfer) (f : Node S)
      → f.current_term ≤ t.term
      → ((accepted t f).current_term ≡ t.term)
        × ((accepted t f).last_included_index ≡ f.last_included_index)
        × ((accepted t f).recv_snapshot ≡ f.recv_snapshot)
        × ((accepted t f).commit_index ≡ f.commit_index)
        × ((accepted t f).apply_ch ≡ f.apply_ch)
  unfolding accepted accept_leader become_follower
  accepted_facts t f h = ground arith

  handle_chunk :
      (t : Transfer) (offset : ℕ) (f : Node S)
      → Ready t offset f
      → handle_install_snapshot (chunk_at t offset) f ≡ (
          let r = receive_chunk (chunk_at t offset) (accepted t f) in
          (record { term = t.term; success = r.0 }, r.1))
  unfolding handle_install_snapshot chunk_at snapshot_chunk accepted
  handle_chunk t offset f r = ground (arith, accepted_facts t f r.current, r.current, r.older)

  -- A chunk that is not the last leaves the follower ready for the next one.
  pub next_chunk :
      (t : Transfer) (offset : ℕ) (f : Node S)
      → Ready t offset f
      → (chunk_at t offset).done ≡ false
      → let (resp, f') = handle_install_snapshot (chunk_at t offset) f in
        (resp ≡ record { term = t.term; success = true })
        × Ready t (chunk_end t offset) f'
        × (f'.commit_index ≡ f.commit_index)
        × (f'.apply_ch ≡ f.apply_ch)
  next_chunk t offset f r more =
      let (a, b, c, d, e) = accepted_facts t f r.current in
      let so_far : (offset ≡ 0) ⊎ ((accepted t f).recv_snapshot ≡ some (received_up_to t offset)) =
        rw c r.so_far in
      rw (handle_chunk t offset f r, receive_chunk_at t offset (accepted t f) r.inside so_far, more)
        (
          refl,
          record {
            current = omega (arith, a);
            older = omega (arith, b, r.older);
            inside = omega arith;
            so_far = inr refl;
          },
          d,
          e,
        )

  pub last_chunk :
      (t : Transfer) (offset : ℕ) (f : Node S)
      → Ready t offset f
      → ((b : Bytes) (i s : ℕ) (store : S) → (p.save_snapshot b i s store).1 ≡ true)
      → (chunk_at t offset).done ≡ true
      → let (resp, f') = handle_install_snapshot (chunk_at t offset) f in
        (resp ≡ record { term = t.term; success = true })
        × Installed t.blob t.index t.snap_term (accepted t f) f'
  last_chunk t offset f r saves last =
      let (a, b, c, d, e) = accepted_facts t f r.current in
      let so_far : (offset ≡ 0) ⊎ ((accepted t f).recv_snapshot ≡ some (received_up_to t offset)) =
        rw c r.so_far in
      let whole = take-all (chunk_end t offset) t.blob (last_end t offset last) in
      let (i, success) =
        install_snapshot-Installed (received_up_to t (chunk_end t offset)) (accepted t f)
          (saves _ _ _ _) in
      rw (handle_chunk t offset f r, receive_chunk_at t offset (accepted t f) r.inside so_far, last)
        (
          rw success refl,
          subst
              (λ b.
                Installed b t.index t.snap_term (accepted t f)
                  (install_snapshot (received_up_to t (chunk_end t offset)) (accepted t f)).1)
              whole i,
        )

  pub Installed-from :
      (b : Bytes) (i s : ℕ) (n n' m : Node S)
      → n'.commit_index ≡ n.commit_index
      → n'.apply_ch ≡ n.apply_ch
      → Installed b i s n' m
      → Installed b i s n m
  Installed-from b i s n n' m c a h = record {
    base = h.base;
    base_term = h.base_term;
    held = h.held;
    last = h.last;
    commit = h.commit ∙ ap (λ k. max k i) c;
    sent = h.sent ∙ ap (λ l. l ++ snapshot b i s ∷ []) a;
    done = h.done;
  }
