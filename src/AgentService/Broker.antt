-- ===== src/AgentService/Broker.antt =====
-- The event broker (internal/agentservice/broker.go). A channel has a buffer of one token; the
-- subscriber of a channel holds it also after it left the map. Sending on a closed channel and
-- closing one twice panic in Go: here `publish` marks the broker as panicked.
pub mod Wakeups
use ai_web_testing.Prelude.{
  ℕ, ◌+◌, ◌%◌, ◌^◌, String, Bool, true, false, none, some, List, [], ◌∷◌, nat_eq, if◌then◌else◌,
  Dict, lookup, insert, delete,
}

pub record Channel : Type 0 where
  pub woken : Bool
  pub closed : Bool

-- `subscribers[runID]` is the set of subscription ids; `channels` is the heap of their channels.
pub record EventBroker : Type 0 where
  pub next_id : ℕ
  pub subscribers : Dict (List ℕ)
  pub channels : ℕ → Channel
  pub panicked : Bool

abbrev pub new_event_broker : EventBroker
new_event_broker = record {
  next_id = 0;
  subscribers = [];
  channels = λ id. record { woken = false; closed = false };
  panicked = false;
}

abbrev pub update : (ℕ → Channel) → ℕ → Channel → ℕ → Channel
update channels id c j = if nat_eq j id then c else channels j

-- `b.subscribers[runID]`
unfoldable pub subscriptions : String → EventBroker → List ℕ
subscriptions run_id b = elim (lookup run_id b.subscribers) [ none ↦ [] | some ids ↦ ids ]

-- the select of Publish: a full buffer is left as it is
unfoldable pub send : ℕ → EventBroker → EventBroker
send id b =
    if (b.channels id).closed
    then record b { panicked = true }
    else record b { channels = update b.channels id (record (b.channels id) { woken = true }) }

unfoldable pub send_all : List ℕ → EventBroker → EventBroker
send_all [] b = b
send_all (id ∷ ids) b = send_all ids (send id b)

unfoldable pub publish : String → EventBroker → EventBroker
unfolding send_all send subscriptions
publish run_id b = send_all (subscriptions run_id b) b

unfoldable pub subscribe : String → EventBroker → ℕ × EventBroker
unfolding subscriptions
subscribe run_id b =
    let id = (b.next_id + 1) % 2 ^ 64 in
    (
      id,
      record b {
        next_id = id;
        channels = update b.channels id (record { woken = false; closed = false });
        subscribers = insert run_id (id ∷ subscriptions run_id b) b.subscribers;
      },
    )

unfoldable pub without : ℕ → List ℕ → List ℕ
without id [] = []
without id (j ∷ ids) = let rest = without id ids in if nat_eq j id then rest else j ∷ rest

abbrev is_nil : List ℕ → Bool
is_nil [] = true
is_nil _ = false

-- The function that Subscribe returns. `sync.Once` runs its body once: the body closes the channel,
-- and nothing else does, so the channel is closed exactly if the body has run.
unfoldable pub cancel : String → ℕ → EventBroker → EventBroker
unfolding subscriptions without
cancel run_id id b =
    if (b.channels id).closed
    then b
    else let left = without id (subscriptions run_id b) in
      record b {
        subscribers =
            if is_nil left then delete run_id b.subscribers else insert run_id left b.subscribers;
        channels = update b.channels id (record (b.channels id) { closed = true });
      }
