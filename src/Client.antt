-- ===== src/Client.antt =====
-- client/main.go: the command line client's retry loop and its use of leader hints.
pub mod Redirect
pub mod Tests
use distributed_key_value_st.Base.{
  ℕ, zero, suc, ◌+◌, ◌%◌, Bool, true, false, List, [], ◌∷◌, ◌++◌, Option, none, some, not,
  if◌then◌else◌, length, get_elem?, String, str_eq, Bytes,
}

abbrev pub max_retries : ℕ
max_retries = 10

-- pb.GetResponse; `value` is none when Found is false.
pub record GetResponse : Type 0 where
  pub value : Option Bytes
  pub leader_hint : String

-- pb.PutResponse and pb.DeleteResponse.
pub record WriteResponse : Type 0 where
  pub success : Bool
  pub leader_hint : String

-- The address without the hint, if the hint is in the list: what stands before it, and what behind.
unfoldable pub split_at_hint : String → List String → Option (List String × List String)
split_at_hint hint [] = none
split_at_hint hint (a ∷ addrs) =
    let rest = split_at_hint hint addrs in
    if str_eq a hint
    then some ([], addrs)
    else elim rest [ none ↦ none | some (before, after) ↦ some (a ∷ before, after) ]

unfoldable pub redirect_first : List String → String → List String
redirect_first addrs hint = elim (split_at_hint hint addrs) [
  | none ↦ hint ∷ addrs
  | some (before, after) ↦ hint ∷ before ++ after
]

-- The address of an attempt.
unfoldable pub address_of : ℕ → List String → Option String
address_of attempt addrs = get_elem? addrs (attempt % length addrs)

-- doGet's loop with `left` attempts left; `rpc` is what a call at an attempt returns, where `none` is
-- an error of the dial or of the call. The result `none` is a failure after all attempts.
unfoldable pub get_loop :
    (ℕ → String → Option GetResponse) → ℕ → ℕ → List String → Option (Option Bytes)
get_loop rpc zero attempt addrs = none
get_loop rpc (suc left) attempt addrs =
    let again = get_loop rpc left (attempt + 1) addrs in
    elim (address_of attempt addrs) [
      | none ↦ none
      | some addr ↦ elim (rpc attempt addr) [
        | none ↦ again
        | some resp ↦
            let redirected =
              get_loop rpc left (attempt + 1) (redirect_first addrs resp.leader_hint) in
            if str_eq resp.leader_hint "" then some resp.value else redirected
      ]
    ]

unfoldable pub do_get : (ℕ → String → Option GetResponse) → List String → Option (Option Bytes)
do_get rpc addrs = get_loop rpc max_retries 0 addrs

-- doPut's loop, and doDelete's; the flag says whether the write succeeded.
unfoldable pub write_loop : (ℕ → String → Option WriteResponse) → ℕ → ℕ → List String → Bool
write_loop rpc zero attempt addrs = false
write_loop rpc (suc left) attempt addrs =
    let again = write_loop rpc left (attempt + 1) addrs in
    elim (address_of attempt addrs) [
      | none ↦ false
      | some addr ↦ elim (rpc attempt addr) [
        | none ↦ again
        | some resp ↦
            let redirected =
              write_loop rpc left (attempt + 1) (redirect_first addrs resp.leader_hint) in
            if not (str_eq resp.leader_hint "")
            then redirected
            else if resp.success
            then true
            else again
      ]
    ]

unfoldable pub do_write : (ℕ → String → Option WriteResponse) → List String → Bool
do_write rpc addrs = write_loop rpc max_retries 0 addrs
