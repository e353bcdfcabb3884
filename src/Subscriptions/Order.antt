-- ===== src/Subscriptions/Order.antt =====
-- The order in which the subscriptions of src/subscriptions.rs get events, over runs of the registry.
use fossic.Prelude.{List, [], ◌∷◌, All, All-mono, All-append}
use fossic.Subscriptions.{Channels, SubscriptionRegistry, new}
use fossic.Subscriptions.Runs.{Signal, Before, IsOrdered, Op, step, run}
use fossic.Subscriptions.Dispatches.{step-Keeps}
use fossic.Subscriptions.Keeps.{IsOrdered-append, IsValid, Knows, new-IsValid}

module _ {Chan : Type 0} (channels : Channels Chan) where
  pub run-Before :
      (ops : List (Op Chan)) (registry : SubscriptionRegistry Chan) (x : Signal)
      → IsValid registry
      → Knows registry x
      → All (Before x) (run channels ops registry)
  unfolding run
  run-Before [] registry x v k = tt
  run-Before (op ∷ ops) registry x v k =
      let kept = step-Keeps channels op registry v in
      All-append (Before x) (step channels op registry).1 _ (kept.after x k)
        (run-Before ops (step channels op registry).0 x kept.valid (kept.knows x k))

  run_from-IsOrdered :
      (ops : List (Op Chan)) (registry : SubscriptionRegistry Chan)
      → IsValid registry
      → IsOrdered (run channels ops registry)
  unfolding run
  run_from-IsOrdered [] registry v = tt
  run_from-IsOrdered (op ∷ ops) registry v =
      let kept = step-Keeps channels op registry v in
      let rest = (step channels op registry).0 in
      IsOrdered-append (step channels op registry).1 (run channels ops rest) kept.ordered
        (run_from-IsOrdered ops rest kept.valid)
        (All-mono (Knows rest) _ (step channels op registry).1
          (λ x k. run-Before ops rest x kept.valid k) kept.learns)

  -- In every run of a new registry, whatever the channels and handlers do: a subscription's channel gets
  -- the events of one stream and branch in strictly ascending order of version, and so none twice; and after
  -- a subscription is reported as degraded, no dispatch calls its handler or puts an event into its channel,
  -- and it is not reported again. The thread of its handler may go on with events that are in the channel.
  pub run-IsOrdered : (ops : List (Op Chan)) → IsOrdered (run channels ops new)
  run-IsOrdered ops = run_from-IsOrdered ops new new-IsValid
