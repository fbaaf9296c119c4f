-- ===== src/Server/Watch/Delivery.antt =====
-- server/watch.go: what a publish does to the subscribers.
use distributed_key_value_st.Base.{◌<◌, Bytes, ◌≤◌, ◌≡◌, ◌⊎◌, List, [], ◌∷◌, ◌++◌, length}
use distributed_key_value_st.Server.Watch.{
  ChangeEvent, WatchSubscriber, ChangeBroadcaster, watch_subscriber_buffer,
}

pub data Mem (s : WatchSubscriber) : List WatchSubscriber → Type 0 where
  first : {ss : List WatchSubscriber} → Mem s (s ∷ ss)
  later : {x : WatchSubscriber} {ss : List WatchSubscriber} → Mem s ss → Mem s (x ∷ ss)

-- No channel holds more events than it has room for.
abbrev pub Bounded : List WatchSubscriber → Type 0
Bounded [] = Unit {0}
Bounded (s ∷ ss) = (length s.ch ≤ watch_subscriber_buffer) × Bounded ss

-- The subscriber asked for the event's key: the key starts with its prefix.
abbrev pub Asked : ChangeEvent → WatchSubscriber → Type 0
Asked event s = (rest : Bytes) × (event.key ≡ s.key_prefix ++ rest)

-- What becomes of a subscriber: it did not ask for the key and stays as it is; or it asked, and has
-- the event behind those that it had if there was room; or it asked, and its channel was full and is
-- closed.
abbrev pub Served : ChangeEvent → WatchSubscriber → ChangeBroadcaster → Type 0
Served event s b =
    ((¬ Asked event s) × Mem s b.subs)
    ⊎ (Asked event s
        × (((length s.ch < watch_subscriber_buffer)
              × Mem (record s { ch = s.ch ++ event ∷ [] }) b.subs)
            ⊎ ((length s.ch ≡ watch_subscriber_buffer) × Mem s b.closed)))
