-- ===== src/Runtime/Run.antt =====
-- src/runtime.rs: the dispatcher's loop, as the states that its rounds reach.
use rp2350_keymouse_bridge_f.Common.{◌≡◌, some, List, subst}
use rp2350_keymouse_bridge_f.Common.Heapless.{Heapless, IsHeapless}
use rp2350_keymouse_bridge_f.Runtime.{Output, Dispatcher, start}
use rp2350_keymouse_bridge_f.Runtime.Round.{Wake, dispatcher_step}
use rp2350_keymouse_bridge_f.Runtime.Open.{IsDispatcher, Kept}
use rp2350_keymouse_bridge_f.Runtime.Step.{IsWake, start-IsDispatcher, dispatcher_step-Kept}

-- What the loop of `dispatcher_task` has reached after some rounds.
pub data Reaches (v : Heapless) : Dispatcher → Type 0 where
  at_start : Reaches v start
  after_round :
      (d d' : Dispatcher) (wake : Wake) (outputs : List Output)
      → Reaches v d
      → IsWake v d wake
      → dispatcher_step v wake d ≡ some (outputs, d')
      → Reaches v d'

module _ (v : Heapless) (laws : IsHeapless v) where
  pub Reaches-IsDispatcher : (d : Dispatcher) → Reaches v d → IsDispatcher d
  Reaches-IsDispatcher d at_start = start-IsDispatcher
  Reaches-IsDispatcher _ (after_round d d' wake outputs r w e) =
      (subst (Kept d.stop_core.emergency_in_flight) e
        (dispatcher_step-Kept v laws d (Reaches-IsDispatcher d r) wake w)).0

  -- However the dispatcher's loop went since its start, as long as its requests are as the receiver
  -- makes them and its safety events found a session generation left, such a round does not panic
  -- again and leaves a valid dispatcher: the coordinator has at most 64 entries with tokens older
  -- than the next one, and the dispatcher holds a batch exactly when the coordinator is collecting
  -- one. While an emergency release is on its way, the round sends the executor no other work.
  pub Reaches-Kept :
      (d : Dispatcher)
      → Reaches v d
      → (wake : Wake) → IsWake v d wake
      → Kept d.stop_core.emergency_in_flight (dispatcher_step v wake d)
  Reaches-Kept d r = dispatcher_step-Kept v laws d (Reaches-IsDispatcher d r)
