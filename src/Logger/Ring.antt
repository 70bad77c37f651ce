-- ===== src/Logger/Ring.antt =====
-- The ring buffer of the broadcaster against the list of all events.
use pantau.Common.{
  ℕ, suc, ◌+◌, ◌-◌, ◌≤◌, ◌<◌, ◌≡◌, refl, ap, ◌∙◌, inl, inr, List, [], ◌∷◌, ◌++◌, leb, length, drop,
  set, take_last, sym, leb→le, length-append, length-drop, drop-append, drop-drop, append_assoc,
  append-nil, arith, Bool-cases, if◌then◌else◌,
}
use pantau.Common.Int.{ℤ}
use pantau.Logger.{
  Event, Broadcaster, new_broadcaster, copy, shift_in, stamp, broadcast, broadcast_all, history,
}

set-copy {ℓ} :
    {A : Type ℓ} (x e : A) (xs : List A) → set (copy (x ∷ xs) xs) (length xs) e ≡ xs ++ e ∷ []
unfolding copy
set-copy x e [] = refl
set-copy x e (y ∷ ys) = ap (◌∷◌ y) (set-copy y e ys)

pub shift_in-drop {ℓ} : {A : Type ℓ} (e x : A) (xs : List A) → shift_in e (x ∷ xs) ≡ xs ++ e ∷ []
unfolding shift_in
shift_in-drop e x xs =
    let n : suc (length xs) - 1 ≡ length xs = omega arith in rw n (set-copy x e xs)

module _ {ℓ} {A : Type ℓ} where
  take_last_all : (c : ℕ) (xs : List A) → length xs ≤ c → take_last c xs ≡ xs
  take_last_all c xs h = let n : length xs - c ≡ 0 = omega arith in rw n

  take_last-take_last :
      (c : ℕ) (xs ys : List A) → take_last c (take_last c xs ++ ys) ≡ take_last c (xs ++ ys)
  take_last-take_last c xs ys =
      let fits : length xs - c ≤ length xs = omega arith in
      let size : length (drop (length xs - c) (xs ++ ys)) ≡ length (xs ++ ys) - (length xs - c) =
        length-drop (length xs - c) (xs ++ ys) in
      let amount : length xs - c + (length (drop (length xs - c) (xs ++ ys)) - c)
          ≡ length (xs ++ ys) - c =
        omega (arith, length-append xs ys) in
      rw (← drop-append (length xs - c) xs ys fits) (
        drop-drop (length (drop (length xs - c) (xs ++ ys)) - c) (length xs - c) (xs ++ ys)
        ∙ ap (λ (k : ℕ). drop k (xs ++ ys)) amount)

  length-take_last : (c : ℕ) (xs : List A) → length (take_last c xs) ≤ c
  length-take_last c xs = omega (arith, length-drop (length xs - c) xs)

-- Between two events the ring has at most `ring_cap` events, and room for one.
pub record RingOk (b : Broadcaster) : Type 0 where
  pub room : 0 < b.ring_cap
  pub bounded : length b.ring_buffer ≤ b.ring_cap

-- A ring that is full shifts down by one.
shift_full :
    (c : ℕ) (e : Event) (ring : List Event)
    → 0 < c
    → c ≤ length ring
    → length ring ≤ c
    → shift_in e ring ≡ take_last c (ring ++ e ∷ [])
shift_full c e [] room h k = absurd (omega arith)
shift_full c e (x ∷ xs) room h k =
    let n : length (x ∷ xs ++ e ∷ []) - c ≡ 1 = omega (arith, length-append xs (e ∷ [])) in
    rw n (shift_in-drop e x xs)

ring_step :
    (c : ℕ) (e : Event) (ring : List Event)
    → 0 < c
    → length ring ≤ c
    → (if leb c (length ring) then shift_in e ring else ring ++ e ∷ [])
      ≡ take_last c (ring ++ e ∷ [])
ring_step c e ring room h = elim (Bool-cases (leb c (length ring))) [
  | inl full ↦ rw full (shift_full c e ring room (leb→le _ _ full) h)
  | inr free ↦ rw free (
      let n : length (ring ++ e ∷ []) - c ≡ 0 = ground (arith, length-append ring (e ∷ []), free) in
      rw n)
]

-- Broadcasting adds the stamped event at the end and forgets all but the last `ring_cap` events.
pub ring-broadcast :
    (b : Broadcaster) (e : Event)
    → RingOk b
    → (broadcast e b).ring_buffer
      ≡ take_last b.ring_cap (b.ring_buffer ++ stamp (b.next_id + 1) e ∷ [])
unfolding broadcast
ring-broadcast b e ok =
    ring_step b.ring_cap (stamp (b.next_id + 1) e) b.ring_buffer ok.room ok.bounded

pub broadcast-RingOk : (b : Broadcaster) (e : Event) → RingOk b → RingOk (broadcast e b)
broadcast-RingOk b e ok = record {
  room = unfold broadcast in ok.room;
  bounded = rw (ring-broadcast b e ok) (unfold broadcast in length-take_last b.ring_cap _);
}

pub new_broadcaster-RingOk : (capacity : ℤ) → RingOk (new_broadcaster capacity)
unfolding new_broadcaster
new_broadcaster-RingOk capacity = ground arith

-- The events as a log without a bound would hold them: numbered from n + 1, and redacted.
unfoldable pub stamp_all : ℕ → List Event → List Event
stamp_all n [] = []
stamp_all n (e ∷ es) = stamp (n + 1) e ∷ stamp_all (n + 1) es

ring-broadcast_all :
    (b : Broadcaster) (es : List Event)
    → RingOk b
    → (broadcast_all es b).ring_buffer
      ≡ take_last b.ring_cap (b.ring_buffer ++ stamp_all b.next_id es)
unfolding broadcast_all stamp_all broadcast
ring-broadcast_all b [] ok = rw append-nil (sym (take_last_all b.ring_cap b.ring_buffer ok.bounded))
ring-broadcast_all b (e ∷ es) ok =
    ring-broadcast_all (broadcast e b) es (broadcast-RingOk b e ok)
    ∙ rw (ring-broadcast b e ok) (join_steps b.ring_cap b.ring_buffer _ _)
  where
    join_steps :
        (c : ℕ) (ring : List Event) (x : Event) (later : List Event)
        → take_last c (take_last c (ring ++ x ∷ []) ++ later) ≡ take_last c (ring ++ x ∷ later)
    join_steps c ring x later =
        take_last-take_last c (ring ++ x ∷ []) later
        ∙ ap (take_last c) (append_assoc ring (x ∷ []) later)

-- After any events the history is the last `ring_cap` events of the unbounded log, in order.
pub history-broadcast_all :
    (capacity : ℤ) (es : List Event)
    → history (broadcast_all es (new_broadcaster capacity))
      ≡ take_last (new_broadcaster capacity).ring_cap (stamp_all 0 es)
unfolding history new_broadcaster
history-broadcast_all capacity es =
    ring-broadcast_all (new_broadcaster capacity) es (new_broadcaster-RingOk capacity)
