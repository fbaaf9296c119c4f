-- ===== src/Raft/Commit/Majority.antt =====
-- When and how far maybeAdvanceCommit moves the commit index.
use distributed_key_value_st.Base.{
  leb, eq_iff, ◌≢◌, eq_refl, str_eq, ◌∷◌, [], String, ℕ, zero, suc, ◌+◌, ◌-◌, ◌*◌, ◌≤◌, ◌<◌, ◌≡◌,
  ◌⊎◌, inl, inr, refl, true, false, none, some, ◌==◌, length, arith, Option-cases, Bool-cases,
  ==_iff,
}
use distributed_key_value_st.Raft.Types.{PeerMap, Node, LogEntry}
use distributed_key_value_st.Raft.Log.{log_at, last_log_index, quorum}
use distributed_key_value_st.Raft.Commit.{
  acked, can_commit, commit_candidate, advance_commit_to, maybe_advance_commit,
}

-- Of the peers in a map of match indexes, `k` others than `self` are known to hold the entry at `idx`
-- and all before it.
pub data HeldBy (self : String) (idx : ℕ) : PeerMap → ℕ → Type 0 where
  nobody : HeldBy self idx [] 0
  itself :
      {peer : String} {m k : ℕ} {ms : PeerMap}
      → peer ≡ self
      → HeldBy self idx ms k
      → HeldBy self idx ((peer, m) ∷ ms) k
  holds :
      {peer : String} {m k : ℕ} {ms : PeerMap}
      → peer ≢ self
      → idx ≤ m
      → HeldBy self idx ms k
      → HeldBy self idx ((peer, m) ∷ ms) (suc k)
  lacks :
      {peer : String} {m k : ℕ} {ms : PeerMap}
      → m < idx
      → HeldBy self idx ms k
      → HeldBy self idx ((peer, m) ∷ ms) k

acked-HeldBy : (self : String) (idx : ℕ) (ms : PeerMap) → HeldBy self idx ms (acked self idx ms)
unfolding acked
acked-HeldBy self idx [] = nobody
acked-HeldBy self idx ((peer, m) ∷ ms) =
    let rest = acked-HeldBy self idx ms in
    elim (Bool-cases (str_eq peer self)) [
      | inl e ↦ rw e (itself ((eq_iff peer self).0 e) rest)
      | inr e ↦ elim (Bool-cases (leb idx m)) [
        | inl le ↦
            rw (e, le)
              (holds (λ same. absurd (cc ((eq_iff peer self).1 same, e))) (ground (arith, le)) rest)
        | inr gt ↦ rw (e, gt) (lacks (ground (arith, gt)) rest)
      ]
    ]

HeldBy-acked :
    (self : String) (idx k : ℕ) (ms : PeerMap) → HeldBy self idx ms k → acked self idx ms ≡ k
unfolding acked
HeldBy-acked self idx k [] nobody = refl
HeldBy-acked self idx k ((peer, m) ∷ ms) (itself e h) =
    rw (e, eq_refl self) (HeldBy-acked self idx k ms h)
HeldBy-acked self idx _ ((peer, m) ∷ ms) (holds {k = k} ne le h) =
    let rest = HeldBy-acked self idx k ms h in
    elim (Bool-cases (str_eq peer self)) [
      | inl e ↦ absurd (ne ((eq_iff peer self).0 e))
      | inr e ↦ ground (arith, e, le, rest)
    ]
HeldBy-acked self idx k ((peer, m) ∷ ms) (lacks lt h) =
    ground (arith, lt, HeldBy-acked self idx k ms h)

module _ {S : Type 0} where
  -- A majority of the cluster, this node included, is known to hold an entry of the current term.
  pub record OnMajority (n : Node S) (idx : ℕ) : Type 0 where
    pub entry : LogEntry
    pub held : log_at n idx ≡ some entry
    pub current : entry.term ≡ n.current_term
    pub holders : ℕ
    pub counted : HeldBy n.cfg.id idx n.match_index holders
    pub majority : 1 + length n.cfg.peers < 2 * (1 + holders)

  can_commit-OnMajority : (n : Node S) (idx : ℕ) → can_commit n idx ≡ true → OnMajority n idx
  unfolding can_commit quorum
  can_commit-OnMajority n idx h = elim (Option-cases (log_at n idx)) [
    | inl e ↦ absurd (ground (arith, e))
    | inr (x, e) ↦ record {
      entry = x;
      held = e;
      current = ground (arith, e);
      holders = acked n.cfg.id idx n.match_index;
      counted = acked-HeldBy n.cfg.id idx n.match_index;
      majority = ground (arith, e);
    }
  ]

  OnMajority-can_commit : (n : Node S) (idx : ℕ) → OnMajority n idx → can_commit n idx ≡ true
  unfolding can_commit quorum
  OnMajority-can_commit n idx h =
      rw (h.held, can_commit)
        (ground (
          arith,
          h.current,
          h.majority,
          HeldBy-acked n.cfg.id idx h.holders n.match_index h.counted,
        ))

  one_lower :
      (n : Node S) (k idx : ℕ)
      → can_commit n (n.commit_index + suc k) ≡ false
      → ((j : ℕ) → idx < j → j ≤ n.commit_index + k → can_commit n j ≡ false)
      → (j : ℕ) → idx < j
      → j ≤ n.commit_index + suc k
      → can_commit n j ≡ false
  one_lower n k idx miss below j a b = elim (Bool-cases (j == n.commit_index + suc k)) [
    | inl e ↦ rw ((==_iff j (n.commit_index + suc k)).0 e) miss
    | inr e ↦ below j a (ground arith)
  ]

  -- The scan finds the highest index that can be committed, if there is one.
  commit_candidate_found :
      (n : Node S) (k idx : ℕ)
      → commit_candidate n k ≡ some idx
      → (n.commit_index < idx)
        × (idx ≤ n.commit_index + k)
        × (can_commit n idx ≡ true)
        × ((j : ℕ) → idx < j → j ≤ n.commit_index + k → can_commit n j ≡ false)
  unfolding commit_candidate
  commit_candidate_found n zero idx h = cc
  commit_candidate_found n (suc k) idx h =
      elim (Bool-cases (can_commit n (n.commit_index + suc k))) [
        | inl hit ↦
            let e : n.commit_index + suc k ≡ idx = ground (arith, hit) in
            (omega arith, omega arith, rw e at hit, λ j above below. absurd (omega arith))
        | inr miss ↦
            let (a, b, c, d) = commit_candidate_found n k idx (ground (arith, miss)) in
            (a, omega arith, c, λ j above below. one_lower n k idx miss d j above below)
      ]

  commit_candidate_missed :
      (n : Node S) (k : ℕ)
      → commit_candidate n k ≡ none
      → (j : ℕ) → n.commit_index < j
      → j ≤ n.commit_index + k
      → can_commit n j ≡ false
  unfolding commit_candidate
  commit_candidate_missed n zero h j above below = absurd (omega arith)
  commit_candidate_missed n (suc k) h j above below =
      elim (Bool-cases (can_commit n (n.commit_index + suc k))) [
        | inl hit ↦
            let bad : commit_candidate n (suc k) ≡ some (n.commit_index + suc k) =
              ground (arith, hit) in
            cc (bad, h)
        | inr miss ↦
            one_lower n k n.commit_index miss (commit_candidate_missed n k (ground (arith, miss))) j
              above below
      ]

  not-OnMajority : (n : Node S) (j : ℕ) → can_commit n j ≡ false → ¬ OnMajority n j
  not-OnMajority n j h o = let e = OnMajority-can_commit n j o in cc (h, e)

  -- The node did not move, and no index above its commit index is on a majority.
  abbrev pub Waits : Node S → Node S → Type 0
  Waits n m = (m ≡ n) × ((j : ℕ) → n.commit_index < j → j ≤ last_log_index n → ¬ OnMajority n j)

  -- The commit index moved up to the highest index that is on a majority.
  abbrev pub Commits : Node S → Node S → Type 0
  Commits n m =
      (n.commit_index < m.commit_index)
      × (m.commit_index ≤ last_log_index n)
      × OnMajority n m.commit_index
      × ((j : ℕ) → m.commit_index < j → j ≤ last_log_index n → ¬ OnMajority n j)

  -- maybeAdvanceCommit commits exactly up to the highest index above the commit index whose entry is
  -- of the current term and is held by a majority of the cluster, as far as the leader knows: by
  -- itself and by the other peers whose match index has reached it. If there is none it changes
  -- nothing.
  pub maybe_advance_commit_lem :
      (n : Node S) → Waits n (maybe_advance_commit n) ⊎ Commits n (maybe_advance_commit n)
  unfolding maybe_advance_commit advance_commit_to
  maybe_advance_commit_lem n =
      let k = last_log_index n - n.commit_index in
      elim (Option-cases (commit_candidate n k)) [
        | inl e ↦
            rw (e, maybe_advance_commit)
              (inl (
                refl,
                λ j above below.
                    not-OnMajority n j (commit_candidate_missed n k e j above (omega arith)),
              ))
        | inr (idx, e) ↦
            let (a, b, c, d) = commit_candidate_found n k idx e in
            rw (e, maybe_advance_commit)
              (inr (
                a,
                omega arith,
                can_commit-OnMajority n idx c,
                λ j above below. not-OnMajority n j (d j above (omega arith)),
              ))
      ]
