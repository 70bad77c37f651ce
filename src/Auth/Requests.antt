-- ===== src/Auth/Requests.antt =====
-- internal/web/server.go: the remaining handlers of the account, and any sequence of requests.
use pantau.Common.{
  ℕ, Bool, true, false, Option, none, some, List, [], ◌∷◌, ltb, if◌then◌else◌, length,
}
use pantau.Common.Text.{Text}
use pantau.Common.Map.{text_key, store}
use pantau.Auth.{
  PendingSetup, Server, Response, Env, CodeBody, method_not_allowed, bad_request, server_error,
  invalid_password, password_too_short, password_updated, setup_started, auth_middleware,
  handle_login, handle_login_2fa, handle_2fa_enable, handle_2fa_disable, handle_logout,
}

-- A secret and recovery codes that were generated, or `none` if that failed.
unfoldable pub handle_2fa_setup : Bool → Text → Option PendingSetup → Server → Server × Response
handle_2fa_setup false cookie fresh s = (s, method_not_allowed)
handle_2fa_setup true cookie none s = (s, server_error)
handle_2fa_setup true cookie (some setup) s =
    (record s { pending = store cookie setup s.pending }, setup_started)

-- old_password, new_password
abbrev pub PasswordBody : Type 0
PasswordBody = Text × Text

-- bcrypt.GenerateFromPassword of the new password, or `none` if it failed, is an argument.
unfoldable pub handle_change_password :
    Env → Bool → Option PasswordBody → Option Text → Server → Server × Response
handle_change_password env false body new_hash s = (s, method_not_allowed)
handle_change_password env true none new_hash s = (s, bad_request)
handle_change_password env true (some (old_password, new_password)) new_hash s =
    if ltb (length new_password) 4
    then (s, password_too_short)
    else if env.compare_password s.settings.admin_password_hash old_password
    then elim new_hash [
      | none ↦ (s, server_error)
      | some h ↦
          (record s { settings = record s.settings { admin_password_hash = h } }, password_updated)
    ]
    else (s, invalid_password)

-- s.authMiddleware(handler): the handler runs for a live session only
unfoldable pub guarded : Text → ℕ → (Server → Server × Response) → Server → Server × Response
unfolding auth_middleware
guarded cookie now handler s = elim (auth_middleware cookie now s).1 [
  | none ↦ handler s
  | some refusal ↦ ((auth_middleware cookie now s).0, refusal)
]

-- A request of a client: its cookie or body, the time of its handling, and the fresh token that it
-- may be given.
pub data Request : Type 0 where
  login : Option Text → ℕ → Text → Request
  login_2fa : Option CodeBody → ℕ → Text → Request
  enable : Text → Option Text → ℕ → Request
  disable : Text → Option CodeBody → ℕ → Request
  logout : Option Text → Request
  setup : Text → Option PendingSetup → ℕ → Request
  change_password : Text → Option PasswordBody → Option Text → ℕ → Request

unfoldable pub serve : Env → Request → Server → Server × Response
unfolding handle_login handle_login_2fa handle_2fa_enable handle_2fa_disable handle_logout guarded
    handle_2fa_setup handle_change_password
serve env (login body now token) s = handle_login env true body now token s
serve env (login_2fa body now token) s = handle_login_2fa env true body now token s
serve env (enable cookie body now) s =
    guarded cookie now (handle_2fa_enable env true cookie body now) s
serve env (disable cookie body now) s = guarded cookie now (handle_2fa_disable env true body now) s
serve env (logout cookie) s = handle_logout cookie s
serve env (setup cookie fresh now) s = guarded cookie now (handle_2fa_setup true cookie fresh) s
serve env (change_password cookie body new_hash now) s =
    guarded cookie now (handle_change_password env true body new_hash) s

unfoldable pub run : Env → List Request → Server → Server
run env [] s = s
run env (r ∷ rs) s = run env rs (serve env r s).0
