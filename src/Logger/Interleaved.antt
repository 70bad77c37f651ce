-- ===== src/Logger/Interleaved.antt =====
-- The broadcaster with the sends of Broadcast apart from its locked part.
use pantau.Common.{
  ℕ, ◌+◌, ◌-◌, ◌≡◌, refl, Bool, List, [], ◌∷◌, ◌++◌, ◌==◌, map, arith, Bool-cases, if◌then◌else◌,
  All, All-append, Option, none, some, inl, inr, Option-cases,
}
use mathlib.Core.Path.{subst}
use mathlib.Core.Option.{some-injective}
use pantau.Common.Map.{Map, number_key}
use pantau.Common.Int.{ℤ}
use pantau.Logger.{
  Event, Broadcaster, new_broadcaster, send, stamp, broadcast, record_event, subscribe, unsubscribe,
  receive, drop_first, Call, step, run,
}
use pantau.Logger.Redaction.{
  CleanEvent, CleanChan, IsSound, stamp-CleanEvent, broadcast-IsSound, send-CleanChan,
  map-drop_first, step-IsSound, run-new_broadcaster,
}

-- Broadcast where nothing comes between its parts.
broadcast_parts :
    (e : Event) (b : Broadcaster)
    → broadcast e b ≡ (record (record_event e b) {
      subscribers = map (send (stamp (b.next_id + 1) e)) b.subscribers;
    })
unfolding broadcast record_event
broadcast_parts e b = refl

-- A broadcaster, the channels that are no longer subscribed, and the sends that are still to come.
pub record System : Type 0 where
  pub broadcaster : Broadcaster
  pub detached : Map ℕ (List Event)
  pub pending : List (ℕ × Event)

-- What can happen: the locked part of a Broadcast, a send of one that has given up the mutex, and the
-- calls and reads of subscribers.
pub data Move : Type 0 where
  records : Event → Move
  sends : ℕ → Move
  subscribes unsubscribes reads : ℕ → Move

abbrev send_to : ℕ → Event → ℕ × List Event → ℕ × List Event
send_to ch e (c, q) = if c == ch then send e (c, q) else (c, q)

abbrev is_of : ℕ → ℕ × List Event → Bool
is_of ch (c, q) = c == ch

abbrev chans_of : ℕ → Map ℕ (List Event) → Map ℕ (List Event)
chans_of ch [] = []
chans_of ch (p ∷ m) = let rest = chans_of ch m in if is_of ch p then p ∷ rest else rest

-- the pending send at this place, and the others
abbrev pick : ℕ → List (ℕ × Event) → Option (ℕ × Event) × List (ℕ × Event)
pick k [] = (none, [])
pick k (p ∷ ps) =
    let rest = pick (k - 1) ps in if k == 0 then (some p, ps) else (rest.0, p ∷ rest.1)

deliver : ℕ → Event → System → System
deliver ch e s = record s {
  broadcaster = record s.broadcaster { subscribers = map (send_to ch e) s.broadcaster.subscribers };
  detached = map (send_to ch e) s.detached;
}

unfoldable pub move : Move → System → System
unfolding deliver
move (records e) s = record s {
  broadcaster = record_event e s.broadcaster;
  pending =
      s.pending ++ map (λ p. (p.0, stamp (s.broadcaster.next_id + 1) e)) s.broadcaster.subscribers;
}
move (sends k) s =
    let r = pick k s.pending in
    elim r.0 [ none ↦ s | some (ch, e) ↦ deliver ch e (record s { pending = r.1 }) ]
move (subscribes ch) s = record s { broadcaster = subscribe ch s.broadcaster }
move (unsubscribes ch) s = record s {
  broadcaster = unsubscribe ch s.broadcaster;
  detached = chans_of ch s.broadcaster.subscribers ++ s.detached;
}
move (reads ch) s = record s {
  broadcaster = receive ch s.broadcaster;
  detached = map (drop_first ch) s.detached;
}

unfoldable pub move_all : List Move → System → System
unfolding move
move_all [] s = s
move_all (m ∷ ms) s = move_all ms (move m s)

abbrev CleanSend : ℕ × Event → Type 0
CleanSend (ch, e) = CleanEvent e

-- The broadcaster is sound, and so are the other channels and the sends that are still to come.
pub record IsClean (s : System) : Type 0 where
  pub sound : IsSound s.broadcaster
  pub detached : All CleanChan s.detached
  pub pending : All CleanSend s.pending

recorded-IsSound : (e : Event) (b : Broadcaster) → IsSound b → IsSound (record_event e b)
unfolding record_event broadcast
recorded-IsSound e b s =
    let whole = broadcast-IsSound e b s in
    record {
      ring_ok = record { room = whole.ring_ok.room; bounded = whole.ring_ok.bounded };
      ring_clean = whole.ring_clean;
      chans = s.chans;
    }

map-CleanSend :
    (e : Event) (m : Map ℕ (List Event)) → CleanEvent e → All CleanSend (map (λ p. (p.0, e)) m)
map-CleanSend e [] c = tt
map-CleanSend e (p ∷ m) c = (c, map-CleanSend e m c)

map-send_to :
    (ch : ℕ) (e : Event) (m : Map ℕ (List Event))
    → CleanEvent e
    → All CleanChan m
    → All CleanChan (map (send_to ch e) m)
map-send_to ch e [] c h = tt
map-send_to ch e (p ∷ m) c h = elim (Bool-cases (p.0 == ch)) [
  | inl hit ↦ rw (hit) (send-CleanChan e p c h.0, map-send_to ch e m c h.1)
  | inr miss ↦ rw (miss) (h.0, map-send_to ch e m c h.1)
]

chans_of-All : (ch : ℕ) (m : Map ℕ (List Event)) → All CleanChan m → All CleanChan (chans_of ch m)
chans_of-All ch [] h = tt
chans_of-All ch (p ∷ m) h = elim (Bool-cases (p.0 == ch)) [
  | inl hit ↦ rw (hit) (h.0, chans_of-All ch m h.1)
  | inr miss ↦ rw (miss) (chans_of-All ch m h.1)
]

pick-All :
    (k : ℕ) (ps : List (ℕ × Event))
    → All CleanSend ps
    → All CleanSend (pick k ps).1
      × ((ch : ℕ) (e : Event) → (pick k ps).0 ≡ some (ch, e) → CleanEvent e)
pick-All k [] h = (tt, λ ch e q. ground (arith, q))
pick-All k (p ∷ ps) h =
    let more = pick-All (k - 1) ps h.1 in
    elim (Bool-cases (k == 0)) [
      | inl first ↦ rw (first) (h.1, λ ch e q. subst CleanSend (some-injective p (ch, e) q) h.0)
      | inr later ↦ rw (later) ((h.0, more.0), more.1)
    ]

deliver-IsClean :
    (ch : ℕ) (e : Event) (s : System) → CleanEvent e → IsClean s → IsClean (deliver ch e s)
unfolding deliver
deliver-IsClean ch e s c h = record {
  sound = record {
    ring_ok = record { room = h.sound.ring_ok.room; bounded = h.sound.ring_ok.bounded };
    ring_clean = h.sound.ring_clean;
    chans = map-send_to ch e s.broadcaster.subscribers c h.sound.chans;
  };
  detached = map-send_to ch e s.detached c h.detached;
  pending = h.pending;
}

sends-IsClean : (k : ℕ) (s : System) → IsClean s → IsClean (move (sends k) s)
unfolding move
sends-IsClean k s h =
    let rest = pick-All k s.pending h.pending in
    elim (Option-cases (pick k s.pending).0) [
      | inl n ↦ rw (move, n) h
      | inr ((ch, e), f) ↦
          rw (move, f)
            (deliver-IsClean ch e (record s { pending = (pick k s.pending).1 }) (rest.1 ch e f)
              (record { sound = h.sound; detached = h.detached; pending = rest.0 }))
    ]

move-IsClean : (m : Move) (s : System) → IsClean s → IsClean (move m s)
unfolding move subscribe unsubscribe receive step
move-IsClean (records e) s h = record {
  sound = recorded-IsSound e s.broadcaster h.sound;
  detached = h.detached;
  pending = All-append CleanSend s.pending _ h.pending (
      map-CleanSend (stamp (s.broadcaster.next_id + 1) e) s.broadcaster.subscribers
        (stamp-CleanEvent (s.broadcaster.next_id + 1) e));
}
move-IsClean (sends k) s h = sends-IsClean k s h
move-IsClean (subscribes ch) s h = record {
  sound = step-IsSound (Call.subscribes ch) s.broadcaster h.sound;
  detached = h.detached;
  pending = h.pending;
}
move-IsClean (unsubscribes ch) s h = record {
  sound = step-IsSound (Call.unsubscribes ch) s.broadcaster h.sound;
  detached =
      All-append CleanChan (chans_of ch s.broadcaster.subscribers) s.detached
        (chans_of-All ch s.broadcaster.subscribers h.sound.chans) h.detached;
  pending = h.pending;
}
move-IsClean (reads ch) s h = record {
  sound = step-IsSound (Call.receives ch) s.broadcaster h.sound;
  detached = map-drop_first ch s.detached h.detached;
  pending = h.pending;
}

move_all-IsClean : (ms : List Move) (s : System) → IsClean s → IsClean (move_all ms s)
unfolding move_all
move_all-IsClean [] s h = h
move_all-IsClean (m ∷ ms) s h = move_all-IsClean ms (move m s) (move-IsClean m s h)

-- A broadcaster that is new.
abbrev pub new_system : ℤ → System
new_system capacity = record { broadcaster = new_broadcaster capacity; detached = []; pending = [] }

-- After any broadcasts, subscriptions, reads and cancellations, with the sends of the broadcasts in any
-- order among them: the ring holds at most `ring_cap` events and each channel, subscribed or not, at
-- most 64; in every event that either of them holds, or that is still to be sent, a sensitive key shows
-- "[REDACTED]", and the message and each other text value of an attribute either lack the words PRIVATE
-- KEY or are the notice that replaces them.
pub move_all-new_system :
    (capacity : ℤ) (ms : List Move) → IsClean (move_all ms (new_system capacity))
move_all-new_system capacity ms =
    move_all-IsClean ms (new_system capacity) (record {
      sound = unfold run in run-new_broadcaster capacity [];
      detached = tt;
      pending = tt;
    })
