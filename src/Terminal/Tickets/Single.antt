-- ===== src/Terminal/Tickets/Single.antt =====
-- A ticket is good for one script.
use pantau.Common.{
  ℕ, suc, ◌+◌, ◌≤◌, ◌≡◌, Bool, true, false, Option, none, some, List, [], ◌∷◌, arith, if◌then◌else◌,
  inl, inr, Option-cases, Bool-cases,
}
use pantau.Common.Text.{Text, teq, teq_iff, to_lower}
use pantau.Common.Map.{text_key, lookup, lookup-store, lookup-delete}
use pantau.Terminal.{NativeTicket}
use pantau.Terminal.Tickets.{
  Terminals, ticket_timer, get_and_burn, TicketEnv, TicketBody, Response, script, windows_script,
  issued, handle_ticket, handle_download, handle_run, download_of, run_of, trim_right_slashes,
  store_native_ticket, new_ticket,
}

-- What reaches the server.
pub data Call : Type 0 where
  asks : TicketEnv → TicketBody → Call
  downloads : ℕ → Text → Text → Call
  runs : ℕ → Text → Text → Call
  timer : Text → Call

unfoldable pub serve : Call → Terminals → Option Response × Terminals
unfolding handle_ticket handle_download handle_run ticket_timer
serve (asks e b) s = let r = handle_ticket e b s in (some r.0, r.1)
serve (downloads now token os) s = let r = handle_download now token os s in (some r.0, r.1)
serve (runs now token ua) s = let r = handle_run now token ua s in (some r.0, r.1)
serve (timer token) s = (none, ticket_timer token s)

-- The responses, in order.
unfoldable pub serve_all : List Call → Terminals → List (Option Response)
unfolding serve
serve_all [] s = []
serve_all (c ∷ cs) s = let r = serve c s in r.0 ∷ serve_all cs r.1

abbrev one_if : Bool → ℕ
one_if true = 1
one_if false = 0

-- Whether a response hands out a script of a ticket with this token, and whether it issues one.
abbrev pub redeems : Text → Option Response → Bool
redeems token none = false
redeems token (some r) = elim r [
  | script t content file ↦ teq t.token token
  | windows_script t file ↦ teq t.token token
  | _ ↦ false
]

abbrev pub issues : Text → Option Response → Bool
issues token none = false
issues token (some r) = elim r [ issued tok ↦ teq tok token | _ ↦ false ]

abbrev pub total_of : (Option Response → Bool) → List (Option Response) → ℕ
total_of p [] = 0
total_of p (r ∷ rs) = let rest = total_of p rs in if p r then suc rest else rest

-- 1 while the ticket can be redeemed.
abbrev held : Text → Terminals → ℕ
held token s = elim (lookup token s.native_tickets) [ none ↦ 0 | some t ↦ 1 ]

-- A ticket is stored under its token.
abbrev IsKeyed : Terminals → Type 0
IsKeyed s =
    (token : Text) (t : NativeTicket) → lookup token s.native_tickets ≡ some t → t.token ≡ token

abbrev has_token : Text → Option NativeTicket → Bool
has_token token none = false
has_token token (some t) = teq t.token token

burn-held :
    (key token : Text) (now : ℕ) (s : Terminals)
    → IsKeyed s
    → one_if (has_token token (get_and_burn key now s).0) + held token (get_and_burn key now s).1
      ≤ held token s
unfolding get_and_burn
burn-held key token now s k = elim (Option-cases (lookup key s.native_tickets)) [
  | inl n ↦ ground (arith, n, lookup-delete key token s.native_tickets)
  | inr (t, e) ↦
      let name = k key t e in
      elim (Bool-cases (teq key token)) [
        | inl same ↦
            let one = (teq_iff key token).0 same in
            ground (arith, e, name, same, one, lookup-delete key token s.native_tickets)
        | inr other ↦ ground (arith, e, name, other, lookup-delete key token s.native_tickets)
      ]
]

burn-IsKeyed :
    (key : Text) (now : ℕ) (s : Terminals) → IsKeyed s → IsKeyed (get_and_burn key now s).1
unfolding get_and_burn
burn-IsKeyed key now s k = λ token t e. ground (
  arith,
  e,
  k token t,
  lookup-delete key token s.native_tickets,
  Option-cases (lookup key s.native_tickets),
)

redeems-download :
    (os token : Text) (t : NativeTicket)
    → redeems token (some (download_of os t)) ≡ teq t.token token
unfolding download_of
redeems-download os token t = ground arith

issues-download :
    (os token : Text) (t : NativeTicket) → issues token (some (download_of os t)) ≡ false
unfolding download_of
issues-download os token t = ground arith

redeems-run :
    (ua token : Text) (t : NativeTicket) → redeems token (some (run_of ua t)) ≡ teq t.token token
unfolding run_of
redeems-run ua token t = ground arith

-- No response takes more than the server holds and the call issues.
abbrev IsPaid : Text → Terminals → Option Response × Terminals → Type 0
IsPaid token s r =
    one_if (redeems token r.0) + held token r.1 ≤ held token s + one_if (issues token r.0)

asked-IsPaid :
    (token : Text) (e : TicketEnv) (b : TicketBody) (s : Terminals)
    → IsPaid token s (serve (asks e b) s)
unfolding serve handle_ticket store_native_ticket
asked-IsPaid token e b s = elim (Option-cases (e.get_host b.host_id)) [
  | inl n ↦ ground (arith, n)
  | inr (h, g) ↦
      ground (arith, g, lookup-store e.new_token token (new_ticket e b h) s.native_tickets)
]

served-IsPaid : (token : Text) (c : Call) (s : Terminals) → IsKeyed s → IsPaid token s (serve c s)
unfolding serve handle_download handle_run ticket_timer
served-IsPaid token (asks e b) s k = asked-IsPaid token e b s
served-IsPaid token (timer key) s k = ground (arith, lookup-delete key token s.native_tickets)
served-IsPaid token (downloads now key os) s k =
    let name = trim_right_slashes key in
    let paid = burn-held name token now s k in
    elim (Option-cases (get_and_burn name now s).0) [
      | inl n ↦ ground (arith, n, paid)
      | inr (t, e) ↦ ground (arith, e, paid, redeems-download (to_lower os) token t)
    ]
served-IsPaid token (runs now key ua) s k =
    let name = trim_right_slashes key in
    let paid = burn-held name token now s k in
    elim (Option-cases (get_and_burn name now s).0) [
      | inl n ↦ ground (arith, n, paid)
      | inr (t, e) ↦ ground (arith, e, paid, redeems-run (to_lower ua) token t)
    ]

asked-IsKeyed :
    (e : TicketEnv) (b : TicketBody) (s : Terminals) → IsKeyed s → IsKeyed (serve (asks e b) s).1
unfolding serve handle_ticket store_native_ticket new_ticket
asked-IsKeyed e b s k = λ token t f. elim (Option-cases (e.get_host b.host_id)) [
  | inl n ↦ ground (arith, n, f, k token t)
  | inr (h, g) ↦ ground (
    arith,
    g,
    f,
    k token t,
    teq_iff e.new_token token,
    lookup-store e.new_token token (new_ticket e b h) s.native_tickets,
  )
]

served-IsKeyed : (c : Call) (s : Terminals) → IsKeyed s → IsKeyed (serve c s).1
unfolding serve handle_download handle_run ticket_timer
served-IsKeyed (asks e b) s k = asked-IsKeyed e b s k
served-IsKeyed (timer key) s k =
    λ token t e. ground (arith, e, k token t, lookup-delete key token s.native_tickets)
served-IsKeyed (downloads now key os) s k =
    λ token t e. ground (arith, e, burn-IsKeyed (trim_right_slashes key) now s k token t)
served-IsKeyed (runs now key ua) s k =
    λ token t e. ground (arith, e, burn-IsKeyed (trim_right_slashes key) now s k token t)

paid_in_full :
    (token : Text) (cs : List Call) (s : Terminals)
    → IsKeyed s
    → total_of (redeems token) (serve_all cs s)
      ≤ held token s + total_of (issues token) (serve_all cs s)
unfolding serve_all
paid_in_full token [] s k = omega arith
paid_in_full token (c ∷ cs) s k =
    let first = served-IsPaid token c s k in
    let later = paid_in_full token cs (serve c s).1 (served-IsKeyed c s k) in
    ground (arith, first, later)

abbrev pub no_tickets : Terminals
no_tickets = record { native_tickets = []; authorized_keys = [] }

-- In any sequence of requests and timers from the start of the server, at most as many scripts are
-- handed out for a token as tickets were issued with it: a ticket is good for one script.
pub redeemed-le :
    (token : Text) (cs : List Call)
    → total_of (redeems token) (serve_all cs no_tickets)
      ≤ total_of (issues token) (serve_all cs no_tickets)
unfolding lookup
redeemed-le token cs =
    let start : IsKeyed no_tickets = λ k t e. ground (arith, e) in
    omega (arith, paid_in_full token cs no_tickets start)
