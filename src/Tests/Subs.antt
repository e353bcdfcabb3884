-- ===== src/Tests/Subs.antt =====
-- The theorems on subscriptions and on the scan of the log, at concrete registries.
use fossic.Prelude.{
  ℕ, ◌<◌, ◌≡◌, ◌⊎◌, refl, Bool, true, false, List, [], ◌∷◌, ◌++◌, none, some, ltb, length, All, In,
  inl, inr, if◌then◌else◌, arith,
}
use fossic.Text.{codes}
use fossic.Reducers.{returned}
use fossic.Tables.{StoredEvent}
use fossic.Subscriptions.{
  Channels, Sent, accepted, full, disconnected, SubscribeQuery, post_commit_mode,
  SubscriptionHandler, SubscriberEntry, SubscriptionRegistry, StreamCursor, post_commit, new,
  accepts, dispatch_post_commit, is_past, effective_cursor,
}
use fossic.Subscriptions.Runs.{
  Op, subscribing, dispatching, receiving, Signal, handled, queued, degraded_id, Before, IsOrdered,
  run,
}
use fossic.Subscriptions.Keeps.{new-IsValid}
use fossic.Subscriptions.Order.{run-IsOrdered}
use fossic.Subscriptions.Seed.{subscribe_store, subscribe_store-Before}
use fossic.WalWatch.{scan}
use fossic.WalWatch.Scan.{scan-finds}
use fossic.WalWatch.Missed.{scan-above}
use fossic.Tests.{notes, first_row, second_row, one_event, two_events}

-- A queue with its capacity.
abbrev Queue : Type 0
Queue = ℕ × List StoredEvent

abbrev push : Queue → StoredEvent → Sent Queue
push (n, es) e = if ltb (length es) n then accepted (n, es ++ e ∷ []) else full

abbrev queues : Channels Queue
queues = record {
  bounded = λ n. (n, []);
  try_send = push;
  len = λ q. length q.1;
  capacity = λ q. some q.0;
}

abbrev quiet : SubscriptionHandler
quiet e = returned tt

abbrev all_notes : SubscribeQuery
all_notes = record { stream_pattern = notes; branch = codes "main"; include_system = false }

-- The second event comes while the queue is full, and again after it is emptied.
abbrev ops : List (Op Queue)
ops =
    subscribing all_notes (post_commit_mode 1) none [] quiet
    ∷ dispatching first_row
    ∷ dispatching first_row
    ∷ dispatching second_row
    ∷ receiving 1 (1, []) first_row
    ∷ dispatching second_row
    ∷ []

run-ops : run queues ops new ≡ queued 1 first_row ∷ degraded_id 1 ∷ handled 1 first_row ∷ []
unfolding run dispatch_post_commit fossic.Subscriptions.subscribe new accepts
    fossic.Prelude.Lex.same fossic.Text.starts_with fossic.Glob.matches
    fossic.Subscriptions.Runs.set_channel
run-ops = refl

run-IsOrdered_example : IsOrdered (run queues ops new)
run-IsOrdered_example = run-IsOrdered queues ops

notes_match : fossic.Glob.matches notes notes ≡ true
unfolding fossic.Glob.matches fossic.Prelude.Lex.same
notes_match = refl

-- A subscription after the first event.
abbrev later_ops : List (Op Queue)
later_ops = dispatching first_row ∷ dispatching second_row ∷ []

subscribe_store-Before_example :
    (let (id, registry) =
        subscribe_store queues one_event new all_notes (post_commit_mode 1) quiet in
      All (Before (queued id first_row)) (run queues later_ops registry))
subscribe_store-Before_example =
    subscribe_store-Before queues one_event new all_notes (post_commit_mode 1) quiet later_ops
      first_row new-IsValid (inl refl) refl notes_match

abbrev entry : SubscriberEntry Queue
entry = record {
  stream_pattern = notes;
  branch = codes "main";
  include_system = false;
  degraded = false;
  kind = post_commit (1, []) (some 0) [];
}

abbrev one_subscriber : SubscriptionRegistry Queue
one_subscriber = record { entries = (1, entry) ∷ []; next_id = 2 }

takes_second : accepts entry second_row ≡ true
unfolding accepts fossic.Prelude.Lex.same fossic.Text.starts_with fossic.Glob.matches
takes_second = refl

is_declared :
    fossic.Prelude.any
      (fossic.Prelude.Lex.same notes)
      (fossic.WalWatch.stream_ids two_events.streams)
    ≡ true
unfolding fossic.Prelude.Lex.same
is_declared = refl

scan-finds_example : In second_row (scan two_events one_subscriber)
scan-finds_example =
    scan-finds two_events one_subscriber 1 entry (1, []) (some 0) [] second_row (inl refl) refl
      (inr (inl refl)) is_declared takes_second refl (inl refl)

abbrev other : StreamCursor
other = record { stream_id = codes "other"; branch = codes "main"; position = some 0 }

-- A subscription to all streams that has met version 0 of another stream.
abbrev all_streams : SubscriberEntry Queue
all_streams = record {
  stream_pattern = codes "**";
  branch = codes "main";
  include_system = false;
  degraded = false;
  kind = post_commit (1, []) none (other ∷ []);
}

abbrev one_glob : SubscriptionRegistry Queue
one_glob = record { entries = (1, all_streams) ∷ []; next_id = 2 }

-- The first event of `notes` is not found.
scan-one_glob : scan two_events one_glob ≡ second_row ∷ []
unfolding scan fossic.Glob.matches fossic.Prelude.Lex.same fossic.Prelude.Order.order_by
scan-one_glob = refl

scan-above_example : All (λ (e : StoredEvent). 0 < e.version) (scan two_events one_glob)
unfolding fossic.WalWatch.min_cursor
scan-above_example =
    scan-above two_events one_glob 1 all_streams (1, []) none other [] 0 refl refl refl refl refl
