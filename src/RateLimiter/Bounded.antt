-- ===== src/RateLimiter/Bounded.antt =====
-- The size of a shard's map, and what the reaper leaves in it.
use mathlib.Core.Path.{subst}
use pantau.Common.{
  ℕ, ◌⊎◌, zero, suc, ◌-◌, ◌≤◌, ◌<◌, ◌≡◌, refl, ◌∙◌, false, none, some, List, [], ◌∷◌, map, ltb, leb,
  length, get_or, set, inl, inr, arith, Bool-cases, Option-cases, All, get_or-map,
}
use pantau.Common.Text.{Text, teq, teq_iff, teq_refl}
use pantau.Common.Map.{text_key, lookup, store, delete, length-delete, lookup-delete}
use pantau.RateLimiter.{
  Bucket, Shard, Limiter, token, idle_limit, shard_idx, shard, put, refill, allow, reap_key,
  reap_keys, reap_shard, reap, key_of, empty_shards, new_limiter,
}
use pantau.RateLimiter.Credit.{Event, call, tick, apply, bucket, Reaped, reap_keys-lookup}

-- No shard holds more buckets than its bound.
abbrev pub IsBounded : Limiter → Type 0
IsBounded l = All (λ m. length m ≤ l.max_per_map) l.shards

All-set :
    (n : ℕ) (xs : List Shard) (i : ℕ) (v : Shard)
    → All (λ m. length m ≤ n) xs
    → length v ≤ n
    → All (λ m. length m ≤ n) (set xs i v)
All-set n [] i v h k = h
All-set n (x ∷ xs) zero v h k = (k, h.1)
All-set n (x ∷ xs) (suc i) v h k = (h.0, All-set n xs i v h.1 k)

All-get_or :
    (n : ℕ) (xs : List Shard) (i : ℕ) → All (λ m. length m ≤ n) xs → length (get_or xs i []) ≤ n
All-get_or n [] i h = omega arith
All-get_or n (x ∷ xs) zero h = h.0
All-get_or n (x ∷ xs) (suc i) h = All-get_or n xs i h.1

-- Deleting a key that is there makes a map shorter.
length-delete_there :
    (ip : Text) (b : Bucket) (m : Shard) → lookup ip m ≡ some b → length (delete ip m) < length m
unfolding lookup delete
length-delete_there ip b [] h = absurd (ground (arith, h))
length-delete_there ip b ((j, c) ∷ m) h = elim (Bool-cases (teq j ip)) [
  | inl same ↦ ground (arith, same, length-delete ip m)
  | inr other ↦ ground (arith, other, h, length-delete_there ip b m)
]

length-reap_keys : (now : ℕ) (ips : List Text) (m : Shard) → length (reap_keys now ips m) ≤ length m
unfolding reap_keys reap_key
length-reap_keys now [] m = omega arith
length-reap_keys now (ip ∷ ips) m =
    let rest = length-reap_keys now ips (reap_key now ip m) in
    let less : length (reap_key now ip m) ≤ length m = ground (arith, length-delete ip m) in
    omega (arith, rest, less)

All-reap :
    (n now : ℕ) (xs : List Shard)
    → All (λ m. length m ≤ n) xs
    → All (λ m. length m ≤ n) (map (reap_shard now) xs)
unfolding reap_shard
All-reap n now [] h = h
All-reap n now (x ∷ xs) h =
    (omega (arith, h.0, length-reap_keys now (map key_of x) x), All-reap n now xs h.1)

put-IsBounded :
    (ip : Text) (b : Bucket) (l : Limiter)
    → IsBounded l
    → suc (length (delete ip (shard ip l))) ≤ l.max_per_map
    → IsBounded (put ip b l)
unfolding put store
put-IsBounded ip b l h k =
    All-set l.max_per_map l.shards (shard_idx ip) (store ip b (shard ip l)) h k

allow-IsBounded : (ip : Text) (now : ℕ) (l : Limiter) → IsBounded l → IsBounded (allow ip now l).0
unfolding allow
allow-IsBounded ip now l h = elim (Option-cases (lookup ip (shard ip l))) [
  | inl new ↦ elim (Bool-cases (leb l.max_per_map (length (shard ip l)))) [
    | inl full ↦ rw (new, full, allow) h
    | inr room ↦
        rw (new, room, allow)
          (put-IsBounded ip _ l h (ground (arith, room, length-delete ip (shard ip l))))
  ]
  | inr (b, there) ↦
      let less : suc (length (delete ip (shard ip l))) ≤ l.max_per_map = omega (
        arith,
        length-delete_there ip b (shard ip l) there,
        All-get_or l.max_per_map l.shards (shard_idx ip) h,
      ) in
      elim (Bool-cases (leb token (refill l.rate l.burst now b))) [
        | inl pays ↦ rw (there, pays, allow) (put-IsBounded ip _ l h less)
        | inr poor ↦ rw (there, poor, allow) (put-IsBounded ip _ l h less)
      ]
]

-- An event keeps every shard within its bound, and the bound as it is.
apply-IsBounded :
    (e : Event) (l : Limiter)
    → IsBounded l
    → IsBounded (apply e l) × ((apply e l).max_per_map ≡ l.max_per_map)
unfolding reap allow put
apply-IsBounded (tick now) l h = (All-reap l.max_per_map now l.shards h, refl)
apply-IsBounded (call ip now) l h = (allow-IsBounded ip now l h, same_max)
  where
    same_max : (allow ip now l).0.max_per_map ≡ l.max_per_map
    same_max = ground arith

unfoldable pub apply_all : List Event → Limiter → Limiter
apply_all [] l = l
apply_all (e ∷ es) l = apply_all es (apply e l)

apply_all-IsBounded :
    (es : List Event) (l : Limiter)
    → IsBounded l
    → All (λ m. length m ≤ l.max_per_map) (apply_all es l).shards
unfolding apply_all
apply_all-IsBounded [] l h = h
apply_all-IsBounded (e ∷ es) l h =
    let (bounded, same) = apply-IsBounded e l h in
    subst (λ n. All (λ m. length m ≤ n) (apply_all es (apply e l)).shards) same
      (apply_all-IsBounded es (apply e l) bounded)

empty_bounded : (n : ℕ) → All (λ m. length m ≤ 5000) (empty_shards n)
empty_bounded zero = tt
empty_bounded (suc n) = (omega arith, empty_bounded n)

-- Whatever is called, and however the clock goes, no shard's map ever holds more than 5000 buckets.
pub new_limiter-bounded :
    (rate burst : ℕ) (es : List Event)
    → All (λ m. length m ≤ 5000) (apply_all es (new_limiter rate burst)).shards
unfolding new_limiter
new_limiter-bounded rate burst es =
    apply_all-IsBounded es (new_limiter rate burst) (empty_bounded 16)

-- Only the entries of the other keys are left alone by a pass over the keys of a map.
reap_keys-none :
    (now : ℕ) (ips : List Text) (ip : Text) (m : Shard)
    → lookup ip m ≡ none
    → lookup ip (reap_keys now ips m) ≡ none
unfolding reap_keys reap_key
reap_keys-none now [] ip m h = h
reap_keys-none now (j ∷ ips) ip m h =
    reap_keys-none now ips ip (reap_key now j m) (ground (arith, h, lookup-delete j ip m))

key_at :
    (now : ℕ) (ip : Text) (n : Shard)
    → (lookup ip (reap_key now ip n) ≡ none)
      ⊎ ((b : Bucket) × (lookup ip (reap_key now ip n) ≡ some b) × (now - b.last_seen ≤ idle_limit))
unfolding reap_key
key_at now ip n = elim (Option-cases (lookup ip n)) [
  | inl gone ↦ inl (ground (arith, gone))
  | inr (b, there) ↦ elim (Bool-cases (ltb idle_limit (now - b.last_seen))) [
    | inl idle ↦ inl (ground (arith, there, idle, lookup-delete ip ip n, teq_refl ip))
    | inr busy ↦ inr (b, ground (arith, there, busy), ground (arith, busy))
  ]
]

key_other :
    (now : ℕ) (j ip : Text) (n : Shard)
    → teq j ip ≡ false
    → lookup ip (reap_key now j n) ≡ lookup ip n
unfolding reap_key
key_other now j ip n other = ground (arith, other, lookup-delete j ip n)

-- What is left of an address after a pass over a list of keys that has it.
reap_keys-fresh :
    (now : ℕ) (src : Shard) (ip : Text) (n : Shard) (b : Bucket)
    → (lookup ip src ≡ none → lookup ip n ≡ none)
    → lookup ip (reap_keys now (map key_of src) n) ≡ some b
    → now - b.last_seen ≤ idle_limit
unfolding reap_keys lookup Reaped
reap_keys-fresh now [] ip n b h k = absurd (ground (arith, h refl, k))
reap_keys-fresh now ((j, c) ∷ src) ip n b h k = elim (Bool-cases (teq j ip)) [
  | inl same ↦ visited ((teq_iff j ip).0 same)
  | inr other ↦
      reap_keys-fresh now src ip (reap_key now j n) b
        (λ e. key_other now j ip n other ∙ h (ground (arith, other, e))) k
]
  where
    passed :
        (m : Shard)
        → lookup ip (reap_keys now (map key_of src) m) ≡ some b
        → (d : Bucket) → lookup ip m ≡ some d
        → now - d.last_seen ≤ idle_limit
        → now - b.last_seen ≤ idle_limit
    passed m e d there busy = elim (reap_keys-lookup now (map key_of src) ip m) [
      | inl still ↦ ground (arith, still, e, there, busy)
      | inr (x, had, late, gone) ↦ absurd (ground (arith, gone, e))
    ]

    visited : j ≡ ip → now - b.last_seen ≤ idle_limit
    visited same = elim (key_at now ip n) [
      | inl gone ↦
          absurd (
            ground
              (arith, same, k, reap_keys-none now (map key_of src) ip (reap_key now ip n) gone))
      | inr (d, there, busy) ↦
          passed (reap_key now ip n)
            (subst (λ i. lookup ip (reap_keys now (map key_of src) (reap_key now i n)) ≡ some b)
              same k)
            d there busy
    ]

-- A tick forgets every address that was idle for more than ten minutes: a bucket that it leaves was
-- seen within them.
pub reap-fresh :
    (now : ℕ) (l : Limiter) (ip : Text) (b : Bucket)
    → bucket ip (reap now l) ≡ some b
    → now - b.last_seen ≤ idle_limit
unfolding reap reap_shard
reap-fresh now l ip b h =
    reap_keys-fresh now (shard ip l) ip (shard ip l) b (λ e. e)
      (subst (λ m. lookup ip m ≡ some b) (get_or-map (reap_shard now) l.shards (shard_idx ip) []) h)
