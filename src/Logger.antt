-- ===== src/Logger.antt =====
-- internal/logger/logger.go: the event broadcaster, its redaction filter and the slog handler.
-- The mutex makes each method one step, but Broadcast sends after it has given up the mutex: `broadcast`
-- is a call that nothing interrupts, and Interleaved takes its two parts apart. A channel is the list of its buffered events; its identity
-- is a number. The primary handler, which only prints, is left out.
pub mod Ring
pub mod Fanout
pub mod Redaction
pub mod Interleaved
mod Examples
use pantau.Common.{
  ℕ, zero, suc, ◌+◌, ◌-◌, ◌≤◌, ◌<◌, Bool, true, false, ◌||◌, List, [], ◌∷◌, ◌++◌, map, ltb, leb,
  ◌==◌, if◌then◌else◌, length, drop, set, some_of,
}
use pantau.Common.Text.{Text, codes, teq, contains, to_lower, trim_space}
use pantau.Common.Map.{Map, number_key, text_key, store, delete}
use pantau.Common.Int.{ℤ, pos, negsuc, pos_part}

-- `any`: a string, or another value, of which only the text form is ever looked at
pub data Value : Type 0 where
  text : Text → Value
  other : Text → Value

abbrev pub Attrs : Type 0
Attrs = List (Text × Value)

pub record Event : Type 0 where
  pub id : ℕ
  pub timestamp : ℕ
  pub level : ℤ
  pub module_name : Text
  pub host : Text
  pub message : Text
  pub attrs : Attrs

pub record Broadcaster : Type 0 where
  pub subscribers : Map ℕ (List Event)
  pub ring_buffer : List Event
  pub ring_cap : ℕ
  pub next_id : ℕ

unfoldable pub new_broadcaster : ℤ → Broadcaster
new_broadcaster capacity = record {
  subscribers = [];
  ring_buffer = [];
  ring_cap = if ltb 0 (pos_part capacity) then pos_part capacity else 100;
  next_id = 0;
}

abbrev pub sensitive_key_prefixes : List Text
sensitive_key_prefixes =
    codes "password"
    ∷ codes "passphrase"
    ∷ codes "secret"
    ∷ codes "token"
    ∷ codes "private_key"
    ∷ codes "privkey"
    ∷ codes "auth"
    ∷ codes "session"
    ∷ codes "recovery"
    ∷ codes "totp"
    ∷ []

unfoldable pub is_sensitive_key : Text → Bool
is_sensitive_key key = some_of (contains (to_lower key)) sensitive_key_prefixes

abbrev pub private_key_mark : Text
private_key_mark = codes "PRIVATE KEY"

abbrev pub redacted_private_key : Text
redacted_private_key = codes "[REDACTED PRIVATE KEY]"

unfoldable pub redact_string : Text → Text
redact_string s = if contains s private_key_mark then redacted_private_key else s

abbrev pub redacted : Value
redacted = text (codes "[REDACTED]")

unfoldable pub redact_value : Value → Value
unfolding redact_string
redact_value (text s) = text (redact_string s)
redact_value (other s) = other s

-- one round of the loop of RedactAttrs
unfoldable pub redact_attr : Text × Value → Text × Value
unfolding redact_value is_sensitive_key
redact_attr (k, v) = if is_sensitive_key k then (k, redacted) else (k, redact_value v)

unfoldable pub redact_attrs : Attrs → Attrs
redact_attrs [] = []
redact_attrs (a ∷ rest) = map redact_attr (a ∷ rest)

-- the builtin copy(dst, src)
unfoldable pub copy {ℓ} : {A : Type ℓ} → List A → List A → List A
copy [] src = []
copy (d ∷ dst) [] = d ∷ dst
copy (d ∷ dst) (s ∷ src) = s ∷ copy dst src

-- copy(b, b[1:]); b[len(b)-1] = evt
unfoldable pub shift_in {ℓ} : {A : Type ℓ} → A → List A → List A
unfolding copy
shift_in evt b = set (copy b (drop 1 b)) (length b - 1) evt

abbrev pub chan_cap : ℕ
chan_cap = 64

-- the non-blocking send: `select { case ch <- evt: default: }`
unfoldable pub send : Event → ℕ × List Event → ℕ × List Event
send evt (ch, buffered) =
    if ltb (length buffered) chan_cap then (ch, buffered ++ evt ∷ []) else (ch, buffered)

-- the event as it is stored: numbered and redacted
unfoldable pub stamp : ℕ → Event → Event
stamp n evt = record evt {
  id = n;
  message = redact_string evt.message;
  attrs = redact_attrs evt.attrs;
}

unfoldable pub broadcast : Event → Broadcaster → Broadcaster
unfolding shift_in
broadcast evt b =
    let e = stamp (b.next_id + 1) evt in
    record b {
      next_id = b.next_id + 1;
      ring_buffer =
          if leb b.ring_cap (length b.ring_buffer)
          then shift_in e b.ring_buffer
          else b.ring_buffer ++ e ∷ [];
      subscribers = map (send e) b.subscribers;
    }

-- the part of Broadcast under the mutex, without the sends
unfoldable pub record_event : Event → Broadcaster → Broadcaster
unfolding shift_in
record_event evt b =
    let e = stamp (b.next_id + 1) evt in
    record b {
      next_id = b.next_id + 1;
      ring_buffer =
          if leb b.ring_cap (length b.ring_buffer)
          then shift_in e b.ring_buffer
          else b.ring_buffer ++ e ∷ [];
    }

unfoldable pub broadcast_all : List Event → Broadcaster → Broadcaster
broadcast_all [] b = b
broadcast_all (e ∷ es) b = broadcast_all es (broadcast e b)

unfoldable pub subscribe : ℕ → Broadcaster → Broadcaster
subscribe ch b = record b { subscribers = store ch [] b.subscribers }

unfoldable pub unsubscribe : ℕ → Broadcaster → Broadcaster
unsubscribe ch b = record b { subscribers = delete ch b.subscribers }

unfoldable pub history : Broadcaster → List Event
history b = b.ring_buffer

-- what a subscriber does: `<-ch` takes the oldest buffered event
abbrev pub drop_first : ℕ → ℕ × List Event → ℕ × List Event
drop_first ch (c, buffered) = if c == ch then (c, drop 1 buffered) else (c, buffered)

unfoldable pub receive : ℕ → Broadcaster → Broadcaster
receive ch b = record b { subscribers = map (drop_first ch) b.subscribers }

-- Everything that can happen to a broadcaster, one call after another.
pub data Call : Type 0 where
  broadcasts : Event → Call
  subscribes unsubscribes receives : ℕ → Call

unfoldable pub step : Call → Broadcaster → Broadcaster
step (broadcasts e) b = broadcast e b
step (subscribes ch) b = subscribe ch b
step (unsubscribes ch) b = unsubscribe ch b
step (receives ch) b = receive ch b

unfoldable pub run : List Call → Broadcaster → Broadcaster
run [] b = b
run (c ∷ cs) b = run cs (step c b)

-- slog.Attr
abbrev value_string : Value → Text
value_string (text s) = s
value_string (other s) = s

pub record Labels : Type 0 where
  pub module_name : Text
  pub host : Text

-- one round of the two attribute loops of Handle
label : Labels → Text × Value → Labels
label l (k, v) =
    if teq k (codes "module")
    then record l { module_name = value_string v }
    else if teq k (codes "host") || teq k (codes "host_name")
    then record l { host = value_string v }
    else l

label_all : Labels → Attrs → Labels
unfolding label
label_all l [] = l
label_all l (a ∷ rest) = label_all (label l a) rest

-- attrs[a.Key] = a.Value.Any()
put_all : Attrs → Attrs → Attrs
put_all m [] = m
put_all m ((k, v) ∷ rest) = put_all (store k v m) rest

-- broadcastHandler.Handle, over the handler's attributes and the record's
unfoldable pub handle : Attrs → Attrs → ℕ → ℤ → Text → Broadcaster → Broadcaster
unfolding label_all put_all broadcast
handle handler_attrs record_attrs time level message b =
    let start : Labels = record { module_name = codes "system"; host = [] } in
    let l = label_all (label_all start handler_attrs) record_attrs in
    broadcast
      (record {
        id = 0;
        timestamp = time;
        level = level;
        module_name = l.module_name;
        host = l.host;
        message = message;
        attrs = put_all (put_all [] handler_attrs) record_attrs;
      })
      b

-- toString: the text of a string, and "" for any other value
abbrev to_string : Value → Text
to_string (text s) = s
to_string (other s) = []

-- the loop over keyvals in steps of two: an odd one at the end is dropped
key_attrs : List Value → Attrs
key_attrs (k ∷ v ∷ rest) = (trim_space (to_string k), v) ∷ key_attrs rest
key_attrs _ = []

emit_attrs : Text → Text → List Value → Attrs
unfolding key_attrs
emit_attrs module_name [] keyvals = (codes "module", text module_name) ∷ key_attrs keyvals
emit_attrs module_name (c ∷ host) keyvals =
    (codes "module", text module_name) ∷ (codes "host", text (c ∷ host)) ∷ key_attrs keyvals

-- Emit through the global logger, whose handler has no attributes of its own
unfoldable pub emit : ℕ → ℤ → Text → Text → Text → List Value → Broadcaster → Broadcaster
unfolding emit_attrs handle
emit time level module_name host message keyvals b =
    handle [] (emit_attrs module_name host keyvals) time level message b

-- slog's levels: Debug -4, Info 0, Warn 4, Error 8; 999 is off
unfoldable pub parse_level : Text → ℤ
parse_level s =
    let l = to_lower (trim_space s) in
    if teq l (codes "debug")
    then negsuc 3
    else if teq l (codes "info")
    then pos 0
    else if teq l (codes "warn") || teq l (codes "warning")
    then pos 4
    else if teq l (codes "error")
    then pos 8
    else if teq l (codes "off") || teq l (codes "none") || teq l (codes "silent")
    then pos 999
    else pos 8
