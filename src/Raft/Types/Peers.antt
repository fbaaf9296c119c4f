-- ===== src/Raft/Types/Peers.antt =====
-- The maps from peers to indexes.
use distributed_key_value_st.Base.{
  ℕ, ◌≡◌, refl, [], ◌∷◌, if◌then◌else◌, String, str_eq, eq_iff, eq_refl, arith,
}
use distributed_key_value_st.Raft.Types.{PeerMap, peer_get, peer_set}

pub peer_get-set :
    (m : PeerMap) (k j : String) (v : ℕ)
    → peer_get (peer_set m k v) j ≡ (if str_eq k j then v else peer_get m j)
unfolding peer_get peer_set
peer_get-set [] k j v = refl
peer_get-set ((i, w) ∷ m) k j v =
    ground (arith, eq_iff k j, eq_iff i k, eq_iff i j, peer_get-set m k j v)

pub peer_get-set_self : (m : PeerMap) (k : String) (v : ℕ) → peer_get (peer_set m k v) k ≡ v
peer_get-set_self m k v = simp (peer_get-set, eq_refl)
