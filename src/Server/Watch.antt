-- ===== src/Server/Watch.antt =====
-- server/watch.go: the fan-out of applied writes to subscribers.
pub mod Delivery
use distributed_key_value_st.Base.{
  ℕ, suc, ◌+◌, Bool, true, false, List, [], ◌∷◌, ◌++◌, ltb, ◌==◌, not, ◌&&◌, if◌then◌else◌, length,
  Bytes,
}

pub data OpType : Type 0 where
  op_put op_delete : OpType

pub record ChangeEvent : Type 0 where
  pub index : ℕ
  pub term : ℕ
  pub op : OpType
  pub key : Bytes
  pub value : Bytes

abbrev pub watch_subscriber_buffer : ℕ
watch_subscriber_buffer = 256

-- `ch` holds the events in the channel, oldest first; `token` stands for the pointer that tells
-- subscribers apart.
pub record WatchSubscriber : Type 0 where
  pub token : ℕ
  pub key_prefix : Bytes
  pub ch : List ChangeEvent

-- The channels of those in `closed` have been closed.
pub record ChangeBroadcaster : Type 0 where
  pub subs : List WatchSubscriber
  pub closed : List WatchSubscriber

abbrev pub new_change_broadcaster : ChangeBroadcaster
new_change_broadcaster = record { subs = []; closed = [] }

-- strings.HasPrefix.
unfoldable pub has_prefix : Bytes → Bytes → Bool
has_prefix s [] = true
has_prefix [] (p ∷ ps) = false
has_prefix (c ∷ cs) (p ∷ ps) = let rest = has_prefix cs ps in if c == p then rest else false

unfoldable pub subscribe : ℕ → Bytes → ChangeBroadcaster → WatchSubscriber × ChangeBroadcaster
subscribe token key_prefix b =
    let sub : WatchSubscriber = record { token = token; key_prefix = key_prefix; ch = [] } in
    (sub, record b { subs = sub ∷ b.subs })

unfoldable pub unsubscribe_from : ℕ → List WatchSubscriber → ChangeBroadcaster → ChangeBroadcaster
unsubscribe_from token [] b = record b { subs = [] }
unsubscribe_from token (s ∷ ss) b =
    let rest = unsubscribe_from token ss b in
    if s.token == token
    then record rest { closed = s ∷ rest.closed }
    else record rest { subs = s ∷ rest.subs }

-- The function that subscribe returns.
unfoldable pub unsubscribe : ℕ → ChangeBroadcaster → ChangeBroadcaster
unsubscribe token b = unsubscribe_from token b.subs b

-- The subscriber did not ask for the key.
unfoldable pub skips : ChangeEvent → WatchSubscriber → Bool
skips event s = ltb 0 (length s.key_prefix) && not (has_prefix event.key s.key_prefix)

-- publish's loop; the subscribers with a full channel are disconnected.
unfoldable pub publish_to :
    ChangeEvent → List WatchSubscriber → ChangeBroadcaster → ChangeBroadcaster
publish_to event [] b = record b { subs = [] }
publish_to event (s ∷ ss) b =
    let rest = publish_to event ss b in
    if skips event s
    then record rest { subs = s ∷ rest.subs }
    else if ltb (length s.ch) watch_subscriber_buffer
    then record rest { subs = record s { ch = s.ch ++ event ∷ [] } ∷ rest.subs }
    else record rest { closed = s ∷ rest.closed }

unfoldable pub publish : ChangeEvent → ChangeBroadcaster → ChangeBroadcaster
publish event b = publish_to event b.subs b
