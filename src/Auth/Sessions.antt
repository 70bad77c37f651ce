-- ===== src/Auth/Sessions.antt =====
-- Who gets a session: nobody without a password that the stored hash accepts.
use pantau.Common.{ℕ, ◌+◌, ◌≤◌, ◌≡◌, ◌≢◌, ◌↔◌, refl, false, none, some, List, [], ◌∷◌, arith, All}
use pantau.Common.Text.{Text}
use pantau.Common.Map.{text_key, lookup, delete, lookup-store_self, lookup-delete_self}
use pantau.Auth.{
  Server, Env, session_ttl, auth_middleware, issue_session, handle_login, handle_login_2fa,
  handle_logout,
}
use pantau.Auth.Requests.{
  Request, login, login_2fa, enable, disable, logout, serve, run, setup, change_password,
}

-- A request that shows no password which the hash accepts.
abbrev pub ShowsNoPassword : Env → Text → Request → Type 0
ShowsNoPassword env hash (login (some password) now token) =
    env.compare_password hash password ≡ false
ShowsNoPassword env hash _ = Unit

pub record IsLocked (hash : Text) (s : Server) : Type 0 where
  pub password_hash : s.settings.admin_password_hash ≡ hash
  pub sessions : s.sessions ≡ []
  pub challenges : s.challenges ≡ []

serve-IsLocked :
    (env : Env) (hash : Text) (r : Request) (s : Server)
    → ShowsNoPassword env hash r
    → IsLocked hash s
    → IsLocked hash (serve env r s).0
unfolding serve lookup delete handle_login handle_login_2fa auth_middleware
serve-IsLocked env hash (login none now token) s h k = k
serve-IsLocked env hash (login (some p) now token) s h k = ground arith
serve-IsLocked env hash (login_2fa none now token) s h k = k
serve-IsLocked env hash (login_2fa (some (t, code)) now token) s h k = ground arith
serve-IsLocked env hash (enable [] body now) s h k = ground arith
serve-IsLocked env hash (enable (c ∷ cs) body now) s h k = ground arith
serve-IsLocked env hash (disable [] body now) s h k = ground arith
serve-IsLocked env hash (disable (c ∷ cs) body now) s h k = ground arith
serve-IsLocked env hash (setup [] fresh now) s h k = ground arith
serve-IsLocked env hash (setup (c ∷ cs) fresh now) s h k = ground arith
serve-IsLocked env hash (change_password [] body new_hash now) s h k = ground arith
serve-IsLocked env hash (change_password (c ∷ cs) body new_hash now) s h k = ground arith
serve-IsLocked env hash (logout none) s h k = k
serve-IsLocked env hash (logout (some cookie)) s h k = ground arith

run-IsLocked :
    (env : Env) (hash : Text) (rs : List Request) (s : Server)
    → All (ShowsNoPassword env hash) rs
    → IsLocked hash s
    → IsLocked hash (run env rs s)
unfolding run
run-IsLocked env hash [] s h k = k
run-IsLocked env hash (r ∷ rs) s h k =
    run-IsLocked env hash rs (serve env r s).0 h.1 (serve-IsLocked env hash r s h.0 k)

IsLocked-refuses :
    (hash : Text) (s : Server) (cookie : Text) (now : ℕ)
    → IsLocked hash s
    → (auth_middleware cookie now s).1 ≢ none
unfolding auth_middleware lookup
IsLocked-refuses hash s [] now k = ground arith
IsLocked-refuses hash s (c ∷ cookie) now k = ground arith

-- With no session and no challenge to start from, no requests to the handlers of login and account,
-- in any order, lead past the middleware, unless a login among them shows a password that the stored hash accepts.
pub no_password_no_session :
    (env : Env) (rs : List Request) (s : Server) (cookie : Text) (now : ℕ)
    → s.sessions ≡ []
    → s.challenges ≡ []
    → All (ShowsNoPassword env s.settings.admin_password_hash) rs
    → (auth_middleware cookie now (run env rs s)).1 ≢ none
no_password_no_session env rs s cookie now sessions challenges h =
    IsLocked-refuses s.settings.admin_password_hash (run env rs s) cookie now (
      run-IsLocked env s.settings.admin_password_hash rs s h
        (record { password_hash = refl; sessions = sessions; challenges = challenges }))

-- A session issued at `now` is admitted until a week later and no longer, if nothing ends it.
pub issue_session_admits :
    (c : ℕ) (cookie : Text) (now later : ℕ) (s : Server)
    → ((auth_middleware (c ∷ cookie) later (issue_session (c ∷ cookie) now s)).1 ≡ none)
      ↔ (later ≤ now + session_ttl)
unfolding auth_middleware issue_session
issue_session_admits c cookie now later s = (
  λ h. ground (arith, h, lookup-store_self (c ∷ cookie) (now + session_ttl) s.sessions),
  λ h. ground (arith, h, lookup-store_self (c ∷ cookie) (now + session_ttl) s.sessions),
)

-- Logging out ends a session for good: the middleware refuses its cookie at any time.
pub logout_ends :
    (cookie : Text) (now : ℕ) (s : Server)
    → (auth_middleware cookie now (handle_logout (some cookie) s).0).1 ≢ none
unfolding auth_middleware handle_logout
logout_ends [] now s = ground arith
logout_ends (c ∷ cookie) now s = ground (arith, lookup-delete_self (c ∷ cookie) s.sessions)
