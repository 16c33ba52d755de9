-- ===== src/Bus/Stream/Delivery.antt =====
-- Nothing reliable is lost in silence: what a consumer of an `EventStream` has read or still can
-- read accounts for every reliable event that was offered (namisync/dispatcher/event_bus.py).
use Prim.Native.Nat.{min}
use mathlib.Core.List.{append_assoc}
use nami_sync.Base.{
  ◌≡◌, refl, Bool, true, false, ◌&&◌, List, [], ◌∷◌, ◌++◌, ℕ, ◌≤◌, ◌<◌, arith, leb, if◌then◌else◌,
  Bool-cases, inl, inr,
}
use nami_sync.Base.Lists.{All, All-append, All-split, All-map, any, any-append}
use nami_sync.Events.{EventBody, Envelope}
use nami_sync.Bus.Stream.{
  EventStream, Next, item, drop_last_progress, first_missed, missed_seq, offer, next,
}

-- An envelope accounts for the sequence number `n`: its own, or one from its gap on.
abbrev pub accounts : ℕ → Envelope → Bool
accounts n e = elim e.body [
  | EventBody.gap first ↦ leb first n
  | EventBody.progress p ↦ false
  | _ ↦ leb n e.seq && leb e.seq n
]

abbrev pub covers : ℕ → List Envelope → Bool
covers n = any (accounts n)

-- A gap that starts at or before `n`.
abbrev pub gap_by : ℕ → Envelope → Bool
gap_by n e = elim e.body [ EventBody.gap first ↦ leb first n | _ ↦ false ]

-- The reliable events that a workflow can cause; gaps are the stream's own.
abbrev pub is_due : EventBody → Bool
is_due (EventBody.gap first) = false
is_due (EventBody.progress p) = false
is_due _ = true

abbrev pub due : Envelope → List ℕ
due e = if is_due e.body then e.seq ∷ [] else []

-- What happens to a stream: the hub offers, the consumer reads.
pub data Action : Type 0 where
  offered : Envelope → Action
  taken : Action

abbrev pub receive : List Envelope → EventStream × Next → EventStream × List Envelope
receive got (s, item e) = (s, got ++ e ∷ [])
receive got (s, _) = (s, got)

unfoldable pub drive : List Action → EventStream → List Envelope → EventStream × List Envelope
drive [] s got = (s, got)
drive (offered e ∷ actions) s got = drive actions (offer e s) got
drive (taken ∷ actions) s got = let (s', got') = receive got (next s) in drive actions s' got'

covers-drop_last_progress :
    (n : ℕ) (items : List Envelope) → covers n (drop_last_progress items) ≡ covers n items
unfolding drop_last_progress
covers-drop_last_progress n [] = refl
covers-drop_last_progress n (e ∷ items) = ground (arith, covers-drop_last_progress n items)

gap_by-drop_last_progress :
    (n : ℕ) (items : List Envelope)
    → any (gap_by n) (drop_last_progress items) ≡ any (gap_by n) items
unfolding drop_last_progress
gap_by-drop_last_progress n [] = refl
gap_by-drop_last_progress n (e ∷ items) = ground (arith, gap_by-drop_last_progress n items)

first_missed-le : (least : ℕ) (items : List Envelope) → first_missed least items ≤ least
unfolding first_missed
first_missed-le least [] = omega arith
first_missed-le least (e ∷ items) =
    omega (arith, first_missed-le (min least (missed_seq e.body e.seq)) items)

accounts-missed_seq : (n : ℕ) (e : Envelope) → accounts n e ≡ true → missed_seq e.body e.seq ≤ n
accounts-missed_seq n e h = ground arith

first_missed-covers :
    (n least : ℕ) (items : List Envelope) → covers n items ≡ true → first_missed least items ≤ n
unfolding first_missed
first_missed-covers n least [] h = cc
first_missed-covers n least (e ∷ items) h = ground (
  arith,
  accounts-missed_seq n e,
  first_missed-le (min least (missed_seq e.body e.seq)) items,
  first_missed-covers n (min least (missed_seq e.body e.seq)) items,
)

-- What a stream has promised after events up to `last`, for the reliable ones among them.
pub record Accounted (promised : List ℕ) (last : ℕ) (s : EventStream) (got : List Envelope)
    : Type 0 where
  pub covered : All (λ n. covers n (got ++ s.items) ≡ true) promised
  pub closed_gap : s.closed ≡ true → any (gap_by last) (got ++ s.items) ≡ true

gap_by-covers :
    (last n : ℕ) (xs : List Envelope) → last ≤ n → any (gap_by last) xs ≡ true → covers n xs ≡ true
gap_by-covers last n [] h g = cc
gap_by-covers last n (e ∷ xs) h g = ground (arith, gap_by-covers last n xs h)

gap_by_mono :
    (last n : ℕ) (xs : List Envelope)
    → last ≤ n
    → any (gap_by last) xs ≡ true
    → any (gap_by n) xs ≡ true
gap_by_mono last n [] h g = cc
gap_by_mono last n (e ∷ xs) h g = ground (arith, gap_by_mono last n xs h)

-- An offer keeps what is covered, and covers its own event.
offer-covers :
    (n : ℕ) (e : Envelope) (s : EventStream) (got : List Envelope)
    → covers n (got ++ s.items) ≡ true
    → covers n (got ++ (offer e s).items) ≡ true
unfolding offer
offer-covers n e s got h = ground (
  arith,
  any-append (accounts n) got s.items,
  any-append (accounts n) got (offer e s).items,
  any-append (accounts n) (drop_last_progress s.items) (e ∷ []),
  any-append (accounts n) s.items (e ∷ []),
  covers-drop_last_progress n s.items,
  first_missed-covers n e.seq s.items,
)

offer-covers_seq :
    (last : ℕ) (e : Envelope) (s : EventStream) (got : List Envelope)
    → last < e.seq
    → (s.closed ≡ true → any (gap_by last) (got ++ s.items) ≡ true)
    → is_due e.body ≡ true
    → covers e.seq (got ++ (offer e s).items) ≡ true
unfolding offer
offer-covers_seq last e s got h g d = ground (
  arith,
  g,
  gap_by-covers last e.seq (got ++ s.items),
  any-append (accounts e.seq) got (offer e s).items,
  any-append (accounts e.seq) s.items (e ∷ []),
  first_missed-le e.seq s.items,
)

offer-covers-due :
    (last : ℕ) (e : Envelope) (s : EventStream) (got : List Envelope)
    → last < e.seq
    → (s.closed ≡ true → any (gap_by last) (got ++ s.items) ≡ true)
    → All (λ n. covers n (got ++ (offer e s).items) ≡ true) (due e)
offer-covers-due last e s got h g = elim (Bool-cases (is_due e.body)) [
  | inl d ↦ rw d (offer-covers_seq last e s got h g d, tt)
  | inr d ↦ rw d tt
]

offer_closed_gap :
    (last : ℕ) (e : Envelope) (s : EventStream) (got : List Envelope)
    → last < e.seq
    → (s.closed ≡ true → any (gap_by last) (got ++ s.items) ≡ true)
    → (offer e s).closed ≡ true
    → any (gap_by e.seq) (got ++ (offer e s).items) ≡ true
unfolding offer
offer_closed_gap last e s got h g c = ground (
  arith,
  g,
  gap_by_mono last e.seq (got ++ s.items),
  any-append (gap_by e.seq) got (offer e s).items,
  first_missed-le e.seq s.items,
)

offer-Accounted :
    (promised : List ℕ) (last : ℕ) (e : Envelope) (s : EventStream) (got : List Envelope)
    → last < e.seq
    → Accounted promised last s got
    → Accounted (due e ++ promised) e.seq (offer e s) got
offer-Accounted promised last e s got h a = record {
  covered =
      All-append _ (due e) promised (offer-covers-due last e s got h a.closed_gap)
        (All-map _ _ (λ n. offer-covers n e s got) promised a.covered);
  closed_gap = offer_closed_gap last e s got h a.closed_gap;
}

-- A read moves the first item from the stream to the consumer.
pub receive-next :
    (s : EventStream) (got items : List Envelope)
    → s.items ≡ items
    → let (s', got') = receive got (next s) in
      (got' ++ s'.items ≡ got ++ s.items) × (s'.closed ≡ s.closed)
unfolding next
receive-next s got [] h = ground arith
receive-next s got (e ∷ items) h = ground (arith, append_assoc got (e ∷ []) items)

next-Accounted :
    (promised : List ℕ) (last : ℕ) (s : EventStream) (got : List Envelope)
    → Accounted promised last s got
    → let (s', got') = receive got (next s) in Accounted promised last s' got'
next-Accounted promised last s got a =
    let (same, closed) = receive-next s got s.items refl in
    record { covered = rw same a.covered; closed_gap = rw (same, closed) a.closed_gap }

-- The reliable events among the offers.
abbrev pub promises : List Action → List ℕ
promises [] = []
promises (offered e ∷ actions) = due e ++ promises actions
promises (taken ∷ actions) = promises actions

-- Offers carry ever larger sequence numbers, as those of one hub do.
abbrev pub InOrder : ℕ → List Action → Type 0
InOrder last [] = Unit
InOrder last (offered e ∷ actions) = (last < e.seq) × InOrder e.seq actions
InOrder last (taken ∷ actions) = InOrder last actions

pub drive-Accounted :
    (promised : List ℕ) (last : ℕ) (actions : List Action) (s : EventStream) (got : List Envelope)
    → InOrder last actions
    → Accounted promised last s got
    → let (s', got') = drive actions s got in
      All (λ n. covers n (got' ++ s'.items) ≡ true) promised
      × All (λ n. covers n (got' ++ s'.items) ≡ true) (promises actions)
unfolding drive
drive-Accounted promised last [] s got o a = (a.covered, tt)
drive-Accounted promised last (offered e ∷ actions) s got (later, o) a =
    let (before, after) =
      drive-Accounted (due e ++ promised) e.seq actions (offer e s) got o
        (offer-Accounted promised last e s got later a) in
    let (own, older) = All-split _ (due e) promised before in
    (older, All-append _ (due e) (promises actions) own after)
drive-Accounted promised last (taken ∷ actions) s got o a =
    let (s', got') = receive got (next s) in
    drive-Accounted promised last actions s' got' o (next-Accounted promised last s got a)

-- Take an open stream, with any items and any capacity, and any interleaving of offers in
-- increasing sequence with reads. Each reliable event that was offered, gaps aside, is accounted
-- for by what the consumer has read and what it still can read: by the event itself, or by a gap
-- that starts at or before it.
pub drive_accounts :
    (last : ℕ) (actions : List Action) (s : EventStream)
    → s.closed ≡ false
    → InOrder last actions
    → let (s', got) = drive actions s [] in
      All (λ n. covers n (got ++ s'.items) ≡ true) (promises actions)
drive_accounts last actions s h o =
    (drive-Accounted [] last actions s [] o (record { covered = tt; closed_gap = λ c. cc })).1
