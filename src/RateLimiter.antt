-- ===== src/RateLimiter.antt =====
-- internal/web/rate_limiter.go: the sharded token buckets of the public endpoints.
-- A token is 10^9 units and time is in nanoseconds, so that a rate of whole tokens a second adds
-- `elapsed * rate` units: floats are exact numbers here. The lock of a shard makes a call one step,
-- and the clock that the calls read does not run backwards.
pub mod Credit
pub mod Bounded
mod Examples
use pantau.Common.{
  ℕ, zero, suc, ◌+◌, ◌-◌, ◌*◌, ◌/◌, ◌%◌, ◌^◌, Bool, true, false, ◌||◌, ◌&&◌, Option, none, some,
  List, [], ◌∷◌, map, ltb, leb, if◌then◌else◌, length, get_or, set,
}
use pantau.Common.Text.{Text, split, trim_space}
use pantau.Common.Map.{Map, text_key, lookup, store, delete}

pub record Bucket : Type 0 where
  pub tokens : ℕ
  pub last_seen : ℕ

abbrev pub Shard : Type 0
Shard = Map Text Bucket

pub record Limiter : Type 0 where
  pub shards : List Shard
  pub rate : ℕ
  pub burst : ℕ
  pub max_per_map : ℕ

-- one token, in units
abbrev pub token : ℕ
token = 1000000000

-- `none` buckets in each of `n` shards
abbrev empty_shards : ℕ → List Shard
empty_shards zero = []
empty_shards (suc n) = [] ∷ empty_shards n

-- rate and burst in whole tokens
unfoldable pub new_limiter : ℕ → ℕ → Limiter
new_limiter rate burst = record {
  shards = empty_shards 16;
  rate = rate;
  burst = burst * token;
  max_per_map = 5000;
}

-- a ^ b on the lowest `w` bits
xor : ℕ → ℕ → ℕ → ℕ
xor zero a b = 0
xor (suc w) a b = (a + b) % 2 + 2 * xor w (a / 2) (b / 2)

hash_from : ℕ → Text → ℕ
unfolding xor
hash_from h [] = h
hash_from h (c ∷ ip) = hash_from (xor 32 h c * 16777619 % 2 ^ 32) ip

unfoldable pub hash_ip : Text → ℕ
unfolding hash_from
hash_ip ip = hash_from 2166136261 ip

abbrev pub shard_idx : Text → ℕ
shard_idx ip = hash_ip ip % 16

abbrev pub shard : Text → Limiter → Shard
shard ip l = get_or l.shards (shard_idx ip) []

-- shard.buckets[ip] = b
unfoldable pub put : Text → Bucket → Limiter → Limiter
put ip b l = record l { shards = set l.shards (shard_idx ip) (store ip b (shard ip l)) }

-- the bucket after its refill
unfoldable pub refill : ℕ → ℕ → ℕ → Bucket → ℕ
refill rate burst now b =
    let tokens = b.tokens + (now - b.last_seen) * rate in if ltb burst tokens then burst else tokens

unfoldable pub allow : Text → ℕ → Limiter → Limiter × Bool
unfolding put refill
allow ip now l = elim (lookup ip (shard ip l)) [
  | none ↦
      if leb l.max_per_map (length (shard ip l))
      then (l, false)
      else (put ip (record { tokens = l.burst - token; last_seen = now }) l, true)
  | some b ↦
      let tokens = refill l.rate l.burst now b in
      if leb token tokens
      then (put ip (record { tokens = tokens - token; last_seen = now }) l, true)
      else (put ip (record { tokens = tokens; last_seen = now }) l, false)
]

-- 10*time.Minute
abbrev pub idle_limit : ℕ
idle_limit = 600 * token

-- one round of the loop over a shard's map
unfoldable pub reap_key : ℕ → Text → Shard → Shard
reap_key now ip m = elim (lookup ip m) [
  | none ↦ m
  | some b ↦ if ltb idle_limit (now - b.last_seen) then delete ip m else m
]

unfoldable pub reap_keys : ℕ → List Text → Shard → Shard
reap_keys now [] m = m
reap_keys now (ip ∷ ips) m = reap_keys now ips (reap_key now ip m)

abbrev key_of : Text × Bucket → Text
key_of (ip, b) = ip

unfoldable pub reap_shard : ℕ → Shard → Shard
unfolding reap_keys reap_key
reap_shard now m = reap_keys now (map key_of m) m

-- what a tick of StartReaper does
unfoldable pub reap : ℕ → Limiter → Limiter
unfolding reap_shard
reap now l = record l { shards = map (reap_shard now) l.shards }

-- An IP address as package net reads it, and a request's remote address and headers.
pub record Net : Type 0 where
  pub split_host_port : Text → Option Text
  pub parses : Text → Bool
  pub is_loopback : Text → Bool
  pub is_private : Text → Bool

-- a header that is not empty and whose entry is an address
header_ip : Net → Text → Option Text
header_ip net entry = if net.parses (trim_space entry) then some (trim_space entry) else none

first_part : List Text → Text
first_part [] = []
first_part (p ∷ ps) = p

forwarded : Net → Text → Option Text
unfolding header_ip first_part
forwarded net [] = none
forwarded net (c ∷ xff) = header_ip net (first_part (split b',' (c ∷ xff)))

real_ip : Net → Text → Option Text
unfolding header_ip
real_ip net [] = none
real_ip net (c ∷ xri) = header_ip net (c ∷ xri)

abbrev or_else : Option Text → Text → Text
or_else none d = d
or_else (some t) d = t

unfoldable pub resolve_client_ip : Net → Text → Text → Text → Text
unfolding forwarded real_ip
resolve_client_ip net remote_addr xff xri =
    let remote_host = or_else (net.split_host_port remote_addr) remote_addr in
    if net.parses remote_host && (net.is_loopback remote_host || net.is_private remote_host)
    then or_else (forwarded net xff) (or_else (real_ip net xri) remote_host)
    else remote_host
