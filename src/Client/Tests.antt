-- ===== src/Client/Tests.antt =====
-- The theorems about leader hints at a concrete cluster.
use distributed_key_value_st.Base.{ℕ, ◌≡◌, ◌≢◌, ap, true, false, Option, none, some, String, str_eq}
use distributed_key_value_st.Client.{GetResponse}

abbrev to_leader : GetResponse
to_leader = record { value = none; leader_hint = "h3" }

-- Every node sends the client to h3.
abbrev rpc : ℕ → String → Option GetResponse
rpc attempt addr = some to_leader

hint_given : to_leader.leader_hint ≢ ""
hint_given e = let same : true ≡ false = ap (λ s. str_eq s "h3") e in absurd (cc same)

abbrev h1 : String
h1 = "h1"

hint_elsewhere : to_leader.leader_hint ≢ h1
hint_elsewhere e = let same : true ≡ false = ap (λ s. str_eq s "h3") e in absurd (cc same)
