-- ===== src/AgentService/Broker/Wakeups.antt =====
-- The event broker (internal/agentservice/broker.go) never panics and loses no wake-up.
use ai_web_testing.Prelude.{
  ℕ, ◌+◌, ◌%◌, ◌^◌, ◌≤◌, ◌<◌, String, ◌≡◌, refl, ◌⊎◌, Bool, true, false, ◌||◌, List, [], ◌∷◌,
  nat_eq, if◌then◌else◌, ◌==◌, eq_iff, eq_refl, lookup, ◌∙◌, sym, ◌&&◌, lookup-insert,
  lookup-delete, any, arith, inl, inr,
}
use ai_web_testing.AgentService.Broker.{
  EventBroker, new_event_broker, subscriptions, send, send_all, publish, subscribe, without, cancel,
}

-- `id` is subscribed to `run_id`
abbrev pub subscribed : EventBroker → String → ℕ → Bool
subscribed b run_id id = any (nat_eq id) (subscriptions run_id b)

-- No panic so far; every subscription in the map has an open channel, was given out, and belongs to
-- one run.
pub record IsSound (b : EventBroker) : Type 0 where
  pub calm : b.panicked ≡ false
  pub open_channels :
      (k : String) (id : ℕ) → subscribed b k id ≡ true → (b.channels id).closed ≡ false
  pub given_out : (k : String) (id : ℕ) → subscribed b k id ≡ true → id ≤ b.next_id
  pub exclusive :
      (k j : String) (id : ℕ) → subscribed b k id ≡ true → subscribed b j id ≡ true → k ≡ j

send_facts :
    (i : ℕ) (b : EventBroker)
    → (b.channels i).closed ≡ false
    → ((send i b).panicked ≡ b.panicked)
      × ((send i b).subscribers ≡ b.subscribers)
      × ((send i b).next_id ≡ b.next_id)
      × ((id : ℕ) → ((send i b).channels id).closed ≡ (b.channels id).closed)
      × ((id : ℕ) → ((send i b).channels id).woken ≡ (nat_eq id i || (b.channels id).woken))
unfolding send
send_facts i b h =
    (ground arith, ground arith, ground arith, λ id. ground arith, λ id. ground arith)

-- What a round of sends does when all its channels are open.
send_all_facts :
    (ids : List ℕ) (b : EventBroker)
    → ((id : ℕ) → any (nat_eq id) ids ≡ true → (b.channels id).closed ≡ false)
    → let b' = send_all ids b in
      (b'.panicked ≡ b.panicked)
      × (b'.subscribers ≡ b.subscribers)
      × (b'.next_id ≡ b.next_id)
      × ((id : ℕ) → (b'.channels id).closed ≡ (b.channels id).closed)
      × ((id : ℕ) → (b'.channels id).woken ≡ (any (nat_eq id) ids || (b.channels id).woken))
unfolding send_all
send_all_facts [] b h = (refl, refl, refl, λ id. refl, λ id. refl)
send_all_facts (i ∷ ids) b h =
    let f = send_facts i b (h i (ground arith)) in
    let g = send_all_facts ids (send i b) (λ id m. f.3 id ∙ h id (ground arith)) in
    (g.0 ∙ f.0, g.1 ∙ f.1, g.2 ∙ f.2, λ id. g.3 id ∙ f.3 id, λ id. ground (arith, f.4 id, g.4 id))

-- What Publish does to a sound broker: it does not panic, the subscriptions stay, and of the channels
-- exactly those subscribed to the run get a token.
publish_facts :
    (run_id : String) (b : EventBroker)
    → IsSound b
    → let b' = publish run_id b in
      (b'.panicked ≡ false)
      × (b'.subscribers ≡ b.subscribers)
      × (b'.next_id ≡ b.next_id)
      × ((id : ℕ) → (b'.channels id).closed ≡ (b.channels id).closed)
      × ((id : ℕ) → (b'.channels id).woken ≡ (subscribed b run_id id || (b.channels id).woken))
unfolding publish
publish_facts run_id b h =
    let f = send_all_facts (subscriptions run_id b) b (h.open_channels run_id) in
    (f.0 ∙ h.calm, f.1, f.2, f.3, f.4)

publish-subscribed :
    (run_id : String) (b : EventBroker) (h : IsSound b) (k : String) (id : ℕ)
    → subscribed (publish run_id b) k id ≡ subscribed b k id
unfolding subscriptions
publish-subscribed run_id b h k id = rw (publish_facts run_id b h).1

pub publish-IsSound : (run_id : String) (b : EventBroker) → IsSound b → IsSound (publish run_id b)
publish-IsSound run_id b h =
    let f = publish_facts run_id b h in
    let same = publish-subscribed run_id b h in
    record {
      calm = f.0;
      open_channels = λ k id m. f.3 id ∙ h.open_channels k id (sym (same k id) ∙ m);
      given_out = λ k id m. rw f.2 (h.given_out k id (sym (same k id) ∙ m));
      exclusive = λ k j id m n. h.exclusive k j id (sym (same k id) ∙ m) (sym (same j id) ∙ n);
    }

subscribe-subscribed :
    (run_id : String) (b : EventBroker) (k : String) (id : ℕ)
    → subscribed (subscribe run_id b).1 k id ≡ (
        if run_id == k
        then nat_eq id ((b.next_id + 1) % 2 ^ 64) || subscribed b run_id id
        else subscribed b k id)
unfolding subscribe
subscribe-subscribed run_id b k id = ground (
  arith,
  lookup-insert run_id k (((b.next_id + 1) % 2 ^ 64) ∷ subscriptions run_id b) b.subscribers,
)

pub subscribe-IsSound :
    (run_id : String) (b : EventBroker)
    → b.next_id + 1 < 2 ^ 64
    → IsSound b
    → IsSound (subscribe run_id b).1
subscribe-IsSound run_id b room h = record {
  calm = unfold subscribe in h.calm;
  open_channels = λ k id m.
      let new = rw (subscribe-subscribed run_id b k id) at m in
      unfold subscribe in ground (arith, new, h.open_channels k id, h.open_channels run_id id);
  given_out = λ k id m.
      let new = rw (subscribe-subscribed run_id b k id) at m in
      unfold subscribe in ground (arith, new, room, h.given_out k id, h.given_out run_id id);
  exclusive = λ k j id m n.
      let new = rw (subscribe-subscribed run_id b k id) at m in
      let new' = rw (subscribe-subscribed run_id b j id) at n in
      ground (
        arith,
        new,
        new',
        room,
        eq_iff run_id k,
        eq_iff run_id j,
        h.given_out k id,
        h.given_out run_id id,
        h.given_out j id,
        h.exclusive k j id,
        h.exclusive run_id j id,
        h.exclusive k run_id id,
      );
}

without-any :
    (i id : ℕ) (ids : List ℕ)
    → any (nat_eq id) (without i ids) ≡ (if nat_eq id i then false else any (nat_eq id) ids)
unfolding without
without-any i id [] = ground arith
without-any i id (j ∷ ids) = ground (arith, without-any i id ids)

cancel-subscribed :
    (run_id : String) (i : ℕ) (b : EventBroker) (k : String) (id : ℕ)
    → (b.channels i).closed ≡ false
    → subscribed (cancel run_id i b) k id
      ≡ (if (run_id == k) && nat_eq id i then false else subscribed b k id)
unfolding cancel
cancel-subscribed run_id i b k id h = ground (
  arith,
  eq_iff run_id k,
  lookup-delete run_id k b.subscribers,
  lookup-insert run_id k (without i (subscriptions run_id b)) b.subscribers,
  without-any i id (subscriptions run_id b),
)

cancel-closed :
    (run_id : String) (i : ℕ) (b : EventBroker)
    → (b.channels i).closed ≡ true
    → cancel run_id i b ≡ b
unfolding cancel
cancel-closed run_id i b closed = rw closed

-- The cancel function of a subscription to `run_id`, before its first call.
pub cancel-IsSound :
    (run_id : String) (i : ℕ) (b : EventBroker)
    → (subscribed b run_id i ≡ true) ⊎ ((b.channels i).closed ≡ true)
    → IsSound b
    → IsSound (cancel run_id i b)
cancel-IsSound run_id i b (inr closed) h = unfold cancel in rw closed h
cancel-IsSound run_id i b (inl mine) h =
    let live = h.open_channels run_id i mine in
    record {
      calm = unfold cancel in rw live h.calm;
      open_channels = λ k id m.
          let old = rw (cancel-subscribed run_id i b k id live) at m in
          unfold cancel in
          ground
            (arith, live, old, eq_iff run_id k, h.exclusive run_id k i mine, h.open_channels k id);
      given_out = λ k id m.
          let old = rw (cancel-subscribed run_id i b k id live) at m in
          unfold cancel in ground (arith, live, old, h.given_out k id);
      exclusive = λ k j id m n.
          let old = rw (cancel-subscribed run_id i b k id live) at m in
          let old' = rw (cancel-subscribed run_id i b j id live) at n in
          ground (arith, old, old', h.exclusive k j id);
    }

-- The brokers that calls can lead to. A cancel function belongs to a subscription: it is in the map
-- until the first call, and closed after it. Fewer than 2 ^ 64 subscriptions are made.
pub data Reachable : EventBroker → Type 0 where
  fresh : Reachable new_event_broker
  published : (run_id : String) (b : EventBroker) → Reachable b → Reachable (publish run_id b)
  subscribed_to :
      (run_id : String) (b : EventBroker)
      → b.next_id + 1 < 2 ^ 64
      → Reachable b
      → Reachable (subscribe run_id b).1
  left :
      (run_id : String) (i : ℕ) (b : EventBroker)
      → (subscribed b run_id i ≡ true) ⊎ ((b.channels i).closed ≡ true)
      → Reachable b
      → Reachable (cancel run_id i b)

pub Reachable-IsSound : {b : EventBroker} → Reachable b → IsSound b
unfolding subscriptions lookup
Reachable-IsSound fresh = record {
  calm = refl;
  open_channels = λ k id m. cc;
  given_out = λ k id m. cc;
  exclusive = λ k j id m n. cc;
}
Reachable-IsSound (published run_id b r) = publish-IsSound run_id b (Reachable-IsSound r)
Reachable-IsSound (subscribed_to run_id b room r) =
    subscribe-IsSound run_id b room (Reachable-IsSound r)
Reachable-IsSound (left run_id i b had r) = cancel-IsSound run_id i b had (Reachable-IsSound r)

-- After any publications, subscriptions and cancellations, Publish sends on no closed channel, that
-- is, it does not panic; it leaves the subscriptions as they are, and afterwards a channel holds a
-- token exactly if it held one before or is subscribed to the run.
pub publish_wakes :
    (run_id : String) (b : EventBroker)
    → Reachable b
    → ((publish run_id b).panicked ≡ false)
      × ((publish run_id b).subscribers ≡ b.subscribers)
      × ((id : ℕ)
          → ((publish run_id b).channels id).woken
            ≡ (subscribed b run_id id || (b.channels id).woken))
publish_wakes run_id b r = let f = publish_facts run_id b (Reachable-IsSound r) in (f.0, f.1, f.4)

-- A subscription that was just made gets its own number, is woken by the next publication for its run,
-- and after its cancel function it is in no set of subscriptions and its channel is closed; calling
-- that function again changes nothing.
pub subscription_life :
    (run_id : String) (b : EventBroker)
    → b.next_id + 1 < 2 ^ 64
    → Reachable b
    → let (i, b1) = subscribe run_id b in
      let b2 = cancel run_id i b1 in
      (((k : String) → subscribed b k i ≡ false))
      × (((publish run_id b1).channels i).woken ≡ true)
      × ((k : String) → subscribed b2 k i ≡ false)
      × ((b2.channels i).closed ≡ true)
      × (cancel run_id i b2 ≡ b2)
subscription_life run_id b room r =
    let h = Reachable-IsSound r in
    let (i, b1) = subscribe run_id b in
    let r1 = subscribed_to run_id b room r in
    let mine : subscribed b1 run_id i ≡ true =
      rw (subscribe-subscribed run_id b run_id i)
        (rw (eq_refl run_id) (unfold subscribe in ground arith)) in
    let live = (Reachable-IsSound r1).open_channels run_id i mine in
    let shut : ((cancel run_id i b1).channels i).closed ≡ true =
      unfold cancel in rw live (ground arith) in
    (
      λ k. unfold subscribe in ground (arith, room, h.given_out k i),
      (publish_facts run_id b1 (Reachable-IsSound r1)).4 i ∙ rw mine,
      λ k.
          cancel-subscribed run_id i b1 k i live
          ∙ ground (arith, eq_iff run_id k, (Reachable-IsSound r1).exclusive run_id k i mine),
      shut,
      cancel-closed run_id i (cancel run_id i b1) shut,
    )
