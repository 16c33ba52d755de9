-- ===== src/Bus/Stream/Reading.antt =====
-- What a consumer reads comes in strictly increasing sequence (namisync/dispatcher/event_bus.py).
use mathlib.Core.List.{append_assoc}
use nami_sync.Base.{◌≡◌, refl, List, [], ◌∷◌, ◌++◌, ℕ, ◌<◌, arith, inl, inr, ◌⊎◌}
use nami_sync.Events.{Envelope, EventBody}
use nami_sync.Bus.Order.{Rising, Rising-lower, Rising-raise, Rising-prefix, Rising-end}
use nami_sync.Bus.Stream.{EventStream, drop_last_progress, offer, next, first_missed}
use nami_sync.Bus.Stream.Delivery.{Action, offered, taken, drive, receive, receive-next, InOrder}

pub drop_last_progress-Rising :
    (low high : ℕ) (got items : List Envelope)
    → Rising low high (got ++ items)
    → Rising low high (got ++ drop_last_progress items)
unfolding drop_last_progress
drop_last_progress-Rising low high [] [] h = h
drop_last_progress-Rising low high [] (e ∷ items) h =
    ground
      (arith, drop_last_progress-Rising e.seq high [] items h.1, Rising-lower e.seq low high items)
drop_last_progress-Rising low high (e ∷ got) items h =
    (h.0, drop_last_progress-Rising e.seq high got items h.1)

-- The items after an offer, on each of its branches.
offer_items :
    (e : Envelope) (s : EventStream)
    → ((offer e s).items ≡ s.items)
      ⊎ ((offer e s).items ≡ drop_last_progress s.items)
      ⊎ ((offer e s).items ≡ drop_last_progress s.items ++ e ∷ [])
      ⊎ ((offer e s).items ≡ record e { body = EventBody.gap (first_missed e.seq s.items) } ∷ [])
      ⊎ ((offer e s).items ≡ s.items ++ e ∷ [])
unfolding offer
offer_items e s = ground arith

offer-Rising :
    (low last : ℕ) (e : Envelope) (s : EventStream) (got : List Envelope)
    → last < e.seq
    → Rising low last (got ++ s.items)
    → Rising low e.seq (got ++ (offer e s).items)
offer-Rising low last e s got lt h =
    let dropped = drop_last_progress-Rising low last got s.items h in
    elim (offer_items e s) [
      | inl same ↦ rw same (Rising-raise low last e.seq _ (omega arith) h)
      | inr (inl lossy) ↦ rw lossy (Rising-raise low last e.seq _ (omega arith) dropped)
      | inr (inr (inl fresh)) ↦
          rw (fresh, ← append_assoc got (drop_last_progress s.items) (e ∷ []))
            (Rising-end low last (got ++ drop_last_progress s.items) e dropped lt)
      | inr (inr (inr (inl missed))) ↦
          rw missed (Rising-end low last got _ (Rising-prefix low last got s.items h) lt)
      | inr (inr (inr (inr added))) ↦
          rw (added, ← append_assoc got s.items (e ∷ []))
            (Rising-end low last (got ++ s.items) e h lt)
    ]

drive_end : ℕ → List Action → ℕ
drive_end last [] = last
drive_end last (offered e ∷ actions) = drive_end e.seq actions
drive_end last (taken ∷ actions) = drive_end last actions

drive-Rising :
    (low last : ℕ) (actions : List Action) (s : EventStream) (got : List Envelope)
    → InOrder last actions
    → Rising low last (got ++ s.items)
    → let (s', got') = drive actions s got in Rising low (drive_end last actions) (got' ++ s'.items)
unfolding drive drive_end
drive-Rising low last [] s got o h = h
drive-Rising low last (offered e ∷ actions) s got (lt, o) h =
    drive-Rising low e.seq actions (offer e s) got o (offer-Rising low last e s got lt h)
drive-Rising low last (taken ∷ actions) s got o h =
    let (s', got') = receive got (next s) in
    drive-Rising low last actions s' got' o (rw ((receive-next s got s.items refl).0) h)

-- From a stream whose items rise up to `last`, any interleaving of offers in increasing sequence
-- with reads gives the consumer envelopes in strictly increasing sequence, gaps included.
pub drive_reads-Rising :
    (low last : ℕ) (actions : List Action) (s : EventStream)
    → InOrder last actions
    → Rising low last s.items
    → let got = (drive actions s []).1 in (high : ℕ) × Rising low high got
drive_reads-Rising low last actions s o h =
    let (s', got) = drive actions s [] in
    (
      drive_end last actions,
      Rising-prefix low _ got s'.items (drive-Rising low last actions s [] o h),
    )
