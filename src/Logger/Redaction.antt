-- ===== src/Logger/Redaction.antt =====
-- What may be in the ring buffer and in the channels of the broadcaster, after any calls.
use pantau.Common.{
  ℕ, ◌+◌, ◌≤◌, ◌≡◌, refl, ◌⊎◌, inl, inr, Bool, true, false, List, [], ◌∷◌, ◌++◌, ◌==◌, leb,
  length-drop, map, ltb, length, length-append, arith, Bool-cases, if◌then◌else◌, All, All-append,
  All-drop,
}
use pantau.Common.Text.{Text, contains}
use pantau.Common.Map.{Map, number_key, delete, store}
use pantau.Common.Int.{ℤ}
use pantau.Logger.{
  Value, text, other, Attrs, Event, Broadcaster, Call, broadcasts, subscribes, unsubscribes,
  receives, new_broadcaster, is_sensitive_key, private_key_mark, redacted_private_key, redacted,
  redact_string, redact_value, redact_attr, redact_attrs, copy, shift_in, chan_cap, send, stamp,
  broadcast, step, run, subscribe, unsubscribe, receive, drop_first,
}
use pantau.Logger.Ring.{RingOk, new_broadcaster-RingOk, broadcast-RingOk, shift_in-drop}

-- A text without key material: it lacks the mark, or is the notice put in its place.
abbrev pub CleanText : Text → Type 0
CleanText s = (contains s private_key_mark ≡ false) ⊎ (s ≡ redacted_private_key)

abbrev pub CleanValue : Value → Type 0
CleanValue (text s) = CleanText s
CleanValue (other s) = Unit

-- A sensitive key shows no value, and no other text value shows a private key.
abbrev pub CleanAttr : Text × Value → Type 0
CleanAttr (k, v) = (is_sensitive_key k ≡ true → v ≡ redacted) × CleanValue v

pub record CleanEvent (e : Event) : Type 0 where
  pub message : CleanText e.message
  pub attrs : All CleanAttr e.attrs

redact_string-CleanText : (s : Text) → CleanText (redact_string s)
unfolding redact_string
redact_string-CleanText s = elim (Bool-cases (contains s private_key_mark)) [
  | inl marked ↦ rw marked (inr refl)
  | inr clean ↦ rw clean (inl clean)
]

redacted_value-CleanValue : CleanValue redacted
unfolding contains
redacted_value-CleanValue = inl refl

redact_value-CleanValue : (v : Value) → CleanValue (redact_value v)
unfolding redact_value
redact_value-CleanValue (text s) = redact_string-CleanText s
redact_value-CleanValue (other s) = tt

redact_attr-CleanAttr : (a : Text × Value) → CleanAttr (redact_attr a)
unfolding redact_attr
redact_attr-CleanAttr (k, v) = elim (Bool-cases (is_sensitive_key k)) [
  | inl hidden ↦ rw hidden (λ _. refl, redacted_value-CleanValue)
  | inr shown ↦ rw shown (λ h. cc, redact_value-CleanValue v)
]

map-redact_attr : (m : Attrs) → All CleanAttr (map redact_attr m)
map-redact_attr [] = tt
map-redact_attr (a ∷ m) = (redact_attr-CleanAttr a, map-redact_attr m)

redact_attrs-CleanAttr : (m : Attrs) → All CleanAttr (redact_attrs m)
unfolding redact_attrs
redact_attrs-CleanAttr [] = tt
redact_attrs-CleanAttr (a ∷ m) = map-redact_attr (a ∷ m)

pub stamp-CleanEvent : (n : ℕ) (e : Event) → CleanEvent (stamp n e)
unfolding stamp
stamp-CleanEvent n e = record {
  message = redact_string-CleanText e.message;
  attrs = redact_attrs-CleanAttr e.attrs;
}

abbrev pub CleanChan : ℕ × List Event → Type 0
CleanChan (ch, q) = (length q ≤ chan_cap) × All CleanEvent q

-- What holds of a broadcaster between two calls.
pub record IsSound (b : Broadcaster) : Type 0 where
  pub ring_ok : RingOk b
  pub ring_clean : All CleanEvent b.ring_buffer
  pub chans : All CleanChan b.subscribers

shift_in-All :
    (e : Event) (ring : List Event)
    → CleanEvent e
    → All CleanEvent ring
    → All CleanEvent (shift_in e ring)
shift_in-All e [] c h = unfold shift_in copy in tt
shift_in-All e (x ∷ xs) c h =
    rw (shift_in-drop e x xs) (All-append CleanEvent xs (e ∷ []) h.1 (c, tt))

pub send-CleanChan :
    (e : Event) (p : ℕ × List Event) → CleanEvent e → CleanChan p → CleanChan (send e p)
unfolding send
send-CleanChan e (ch, q) c h = elim (Bool-cases (ltb (length q) chan_cap)) [
  | inl free ↦
      rw free (
        ground (arith, length-append q (e ∷ []), free),
        All-append CleanEvent q (e ∷ []) h.1 (c, tt),
      )
  | inr full ↦ rw full h
]

map-send :
    (e : Event) (m : Map ℕ (List Event))
    → CleanEvent e
    → All CleanChan m
    → All CleanChan (map (send e) m)
map-send e [] c h = tt
map-send e (p ∷ m) c h = (send-CleanChan e p c h.0, map-send e m c h.1)

pub broadcast-IsSound : (e : Event) (b : Broadcaster) → IsSound b → IsSound (broadcast e b)
broadcast-IsSound e b s = record {
  ring_ok = broadcast-RingOk b e s.ring_ok;
  ring_clean = unfold broadcast in ring_clean (leb b.ring_cap (length b.ring_buffer));
  chans = unfold broadcast in map-send sent b.subscribers clean s.chans;
}
  where
    sent : Event
    sent = stamp (b.next_id + 1) e

    clean : CleanEvent sent
    clean = stamp-CleanEvent (b.next_id + 1) e

    ring_clean :
        (full : Bool)
        → All CleanEvent (if full then shift_in sent b.ring_buffer else b.ring_buffer ++ sent ∷ [])
    ring_clean true = shift_in-All sent b.ring_buffer clean s.ring_clean
    ring_clean false = All-append CleanEvent b.ring_buffer (sent ∷ []) s.ring_clean (clean, tt)

pub delete-chans : (ch : ℕ) (m : Map ℕ (List Event)) → All CleanChan m → All CleanChan (delete ch m)
unfolding delete
delete-chans ch [] h = tt
delete-chans ch ((c, q) ∷ m) h = elim (Bool-cases (c == ch)) [
  | inl gone ↦ rw gone (delete-chans ch m h.1)
  | inr stays ↦ rw stays (h.0, delete-chans ch m h.1)
]

drop_first-CleanChan : (ch : ℕ) (p : ℕ × List Event) → CleanChan p → CleanChan (drop_first ch p)
drop_first-CleanChan ch (c, q) h = elim (Bool-cases (c == ch)) [
  | inl hit ↦ rw hit (omega (arith, length-drop 1 q), All-drop CleanEvent 1 q h.1)
  | inr miss ↦ rw miss h
]

pub map-drop_first :
    (ch : ℕ) (m : Map ℕ (List Event)) → All CleanChan m → All CleanChan (map (drop_first ch) m)
map-drop_first ch [] h = tt
map-drop_first ch (p ∷ m) h = (drop_first-CleanChan ch p h.0, map-drop_first ch m h.1)

pub step-IsSound : (c : Call) (b : Broadcaster) → IsSound b → IsSound (step c b)
unfolding step subscribe unsubscribe receive store
step-IsSound (broadcasts e) b s = broadcast-IsSound e b s
step-IsSound (subscribes ch) b s = record {
  ring_ok = record { room = s.ring_ok.room; bounded = s.ring_ok.bounded };
  ring_clean = s.ring_clean;
  chans = ((omega arith, tt), delete-chans ch b.subscribers s.chans);
}
step-IsSound (unsubscribes ch) b s = record {
  ring_ok = record { room = s.ring_ok.room; bounded = s.ring_ok.bounded };
  ring_clean = s.ring_clean;
  chans = delete-chans ch b.subscribers s.chans;
}
step-IsSound (receives ch) b s = record {
  ring_ok = record { room = s.ring_ok.room; bounded = s.ring_ok.bounded };
  ring_clean = s.ring_clean;
  chans = map-drop_first ch b.subscribers s.chans;
}

run-IsSound : (cs : List Call) (b : Broadcaster) → IsSound b → IsSound (run cs b)
unfolding run
run-IsSound [] b s = s
run-IsSound (c ∷ cs) b s = run-IsSound cs (step c b) (step-IsSound c b s)

-- After any broadcasts, subscriptions, reads and cancellations, in any order: the ring holds at most
-- `ring_cap` events and each channel at most 64; in every event that either of them holds a
-- sensitive key shows "[REDACTED]", and the message and each other text value of an attribute
-- either lack the words PRIVATE KEY or are the notice that replaces them.
pub run-new_broadcaster :
    (capacity : ℤ) (cs : List Call) → IsSound (run cs (new_broadcaster capacity))
run-new_broadcaster capacity cs = run-IsSound cs (new_broadcaster capacity) (record {
  ring_ok = new_broadcaster-RingOk capacity;
  ring_clean = unfold new_broadcaster in tt;
  chans = unfold new_broadcaster in tt;
})
