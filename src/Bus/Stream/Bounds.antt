-- ===== src/Bus/Stream/Bounds.antt =====
-- The buffer of a stream stays bounded (namisync/dispatcher/event_bus.py).
use Prim.Native.Nat.{max}
use nami_sync.Base.{List, [], ◌∷◌, ◌≤◌, arith}
use nami_sync.Base.Lists.{length, length-append}
use nami_sync.Events.{Envelope}
use nami_sync.Bus.Stream.{EventStream, drop_last_progress, offer}

pub length-drop_last_progress :
    (items : List Envelope) → length (drop_last_progress items) ≤ length items
unfolding drop_last_progress
length-drop_last_progress [] = omega arith
length-drop_last_progress (e ∷ items) = ground (arith, length-drop_last_progress items)

-- However full a stream is, an offer leaves it within its capacity or no longer than it was.
pub length-offer :
    (e : Envelope) (s : EventStream)
    → 1 ≤ s.capacity
    → length (offer e s).items ≤ max s.capacity (length s.items)
unfolding offer
length-offer e s h = ground (
  arith,
  length-drop_last_progress s.items,
  length-append (drop_last_progress s.items) (e ∷ []),
  length-append s.items (e ∷ []),
)
