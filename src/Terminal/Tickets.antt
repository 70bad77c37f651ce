-- ===== src/Terminal/Tickets.antt =====
-- internal/web/handlers_native_terminal.go: the tickets of the native terminal and the handlers that
-- issue and redeem them. Times are Unix seconds. The texts of the Windows scripts are left out.
pub mod Single
use pantau.Common.{
  ℕ, suc, ◌+◌, Bool, true, false, not, ◌&&◌, ◌||◌, Option, none, some, List, [], ◌∷◌, ◌++◌, ltb,
  leb, ◌==◌, if◌then◌else◌, some_of,
}
use mathlib.Core.List.{reverse}
use pantau.Common.Text.{Text, codes, teq, contains, to_lower}
use pantau.Common.Map.{Map, number_key, text_key, lookup, store, delete}
use pantau.Terminal.{NativeTicket, or_22, is_name_byte, sanitize_filename, generate_unix_script}
use pantau.Terminal.Keys.{public_line, inject_key}

-- the part of the server: the tickets, and the authorized_keys of each host
pub record Terminals : Type 0 where
  pub native_tickets : Map Text NativeTicket
  pub authorized_keys : Map ℕ (List Text)

-- storeNativeTicket; its timer is `ticket_timer`
unfoldable pub store_native_ticket : NativeTicket → Terminals → Terminals
store_native_ticket t s = record s { native_tickets = store t.token t s.native_tickets }

-- 65 seconds later
unfoldable pub ticket_timer : Text → Terminals → Terminals
ticket_timer token s = record s { native_tickets = delete token s.native_tickets }

-- getAndBurnNativeTicket
unfoldable pub get_and_burn : Text → ℕ → Terminals → Option NativeTicket × Terminals
get_and_burn token now s =
    let burnt = record s { native_tickets = delete token s.native_tickets } in
    if teq token [] then (none, s) else elim (lookup token s.native_tickets) [
      | none ↦ (none, burnt)
      | some t ↦ (if ltb t.expires_at now then none else some t, burnt)
    ]

pub record TerminalHost : Type 0 where
  pub id : ℕ
  pub name : Text
  pub address : Text
  pub port : ℕ
  pub user : Text

abbrev all_bytes : (ℕ → Bool) → Text → Bool
all_bytes p [] = true
all_bytes p (c ∷ s) = p c && all_bytes p s

-- safeHostRegex
unfoldable pub is_safe_host : Text → Bool
is_safe_host s =
    not (teq s []) && all_bytes (λ c. is_name_byte c || c == b':' || c == b'[' || c == b']') s

-- safeUserRegex
unfoldable pub is_safe_user : Text → Bool
is_safe_user s = not (teq s []) && all_bytes is_name_byte s

-- What the handlers take from outside: the time, the hosts of the store, whether the host is reached,
-- and what is drawn at random, with the size of an expiry.
pub record TicketEnv : Type 0 where
  pub now : ℕ
  pub get_host : ℕ → Option TerminalHost
  pub reaches : Bool
  pub key_id : Text
  pub pub_bytes : Text
  pub private_key : Text
  pub new_token : Text

pub record TicketBody : Type 0 where
  pub host_id : ℕ
  pub path : Text
  pub initial_dir : Text

pub data Response : Type 0 where
  not_allowed bad_request no_host unsafe_host not_injected gone : Response
  issued : Text → Response
  script : NativeTicket → Text → Text → Response
  windows_script : NativeTicket → Text → Response

abbrev keys_of : ℕ → Terminals → List Text
keys_of id s = elim (lookup id s.authorized_keys) [ none ↦ [] | some ls ↦ ls ]

-- the ticket of handleNativeTerminalTicket
unfoldable pub new_ticket : TicketEnv → TicketBody → TerminalHost → NativeTicket
new_ticket e b h = record {
  token = e.new_token;
  host_id = h.id;
  host_name = h.name;
  host_address = h.address;
  host_port = or_22 h.port;
  host_user = h.user;
  initial_dir = if teq b.path [] then b.initial_dir else b.path;
  private_key = e.private_key;
  expires_at = e.now + 60;
}

-- handleNativeTerminalTicket, of a POST with a body that decodes
unfoldable pub handle_ticket : TicketEnv → TicketBody → Terminals → Response × Terminals
unfolding store_native_ticket new_ticket is_safe_host is_safe_user
handle_ticket e b s = elim (e.get_host b.host_id) [
  | none ↦ (no_host, s)
  | some h ↦
      let line = public_line e.pub_bytes e.key_id (e.now + 300) in
      let keys = inject_key e.now line (keys_of h.id s) in
      let injected = record s { authorized_keys = store h.id keys s.authorized_keys } in
      if not (is_safe_host h.address) || not (is_safe_user h.user)
      then (unsafe_host, s)
      else if not e.reaches
      then (not_injected, s)
      else (issued e.new_token, store_native_ticket (new_ticket e b h) injected)
]

-- strings.TrimRight(s, "/")
abbrev strip_slashes : Text → Text
strip_slashes [] = []
strip_slashes (c ∷ s) = let rest = strip_slashes s in if c == b'/' then rest else c ∷ s

unfoldable pub trim_right_slashes : Text → Text
trim_right_slashes s = reverse (strip_slashes (reverse s))

abbrev is_one_of : Text → List Text → Bool
is_one_of s ts = some_of (teq s) ts

-- the script of a download and its file name
unfoldable pub download_of : Text → NativeTicket → Response
download_of os t =
    let file : Text → Text = λ ext. codes "pantau-" ++ sanitize_filename t.host_name ++ ext in
    if is_one_of os (codes "windows" ∷ codes "win" ∷ [])
    then windows_script t (file (codes ".cmd"))
    else if is_one_of os (codes "macos" ∷ codes "mac" ∷ codes "darwin" ∷ [])
    then script t (generate_unix_script t true) (file (codes ".command"))
    else script t (generate_unix_script t false) (file (codes ".sh"))

-- handleNativeTerminalDownload, of a GET
unfoldable pub handle_download : ℕ → Text → Text → Terminals → Response × Terminals
unfolding get_and_burn download_of
handle_download now token os s =
    let r = get_and_burn (trim_right_slashes token) now s in
    elim r.0 [ none ↦ (gone, r.1) | some t ↦ (download_of (to_lower os) t, r.1) ]

-- the script that is streamed to a user agent
unfoldable pub run_of : Text → NativeTicket → Response
run_of ua t =
    if contains ua (codes "powershell") || contains ua (codes "windows")
    then windows_script t []
    else script t
        (generate_unix_script t (contains ua (codes "macintosh") || contains ua (codes "darwin")))
        []

-- handleNativeTerminalRun, of a GET
unfoldable pub handle_run : ℕ → Text → Text → Terminals → Response × Terminals
unfolding get_and_burn run_of
handle_run now token ua s =
    let r = get_and_burn (trim_right_slashes token) now s in
    elim r.0 [ none ↦ (gone, r.1) | some t ↦ (run_of (to_lower ua) t, r.1) ]
