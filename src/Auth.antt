-- ===== src/Auth.antt =====
-- internal/web/server.go: sessions, the login handlers and the switching of the second factor.
-- A request is handled with one clock reading, and no two requests overlap. The settings hold the
-- list of hashes and the last step as values: their JSON and decimal forms are read back as written.
-- A fresh random token is an argument; `none` for a body is one that does not decode.
pub mod Requests
pub mod Sessions
pub mod Lockout
pub mod Replay
mod Examples
use pantau.Common.{
  ℕ, suc, ◌+◌, ◌-◌, ◌*◌, Bool, true, false, ◌||◌, Option, none, some, List, [], ◌∷◌, ltb, leb,
  if◌then◌else◌,
}
use pantau.Common.Text.{Text, codes, teq, trim_space}
use pantau.Common.Map.{Map, text_key, lookup, store, delete}
use pantau.Totp.{Crypto, validate_totp, validate_recovery_code}

-- temp2FAChallenge
pub record Challenge : Type 0 where
  pub expiry : ℕ
  pub attempts : ℕ

-- pending2FASetupData
pub record PendingSetup : Type 0 where
  pub secret : Text
  pub hashed_codes : List Text

-- the settings of the administrator's account
pub record Settings : Type 0 where
  pub admin_password_hash : Text
  pub totp_enabled : Text
  pub totp_secret : Text
  pub last_totp_step : ℕ
  pub totp_recovery_codes : List Text

pub record Server : Type 0 where
  pub settings : Settings
  pub sessions : Map Text ℕ
  pub challenges : Map Text Challenge
  pub pending : Map Text PendingSetup

pub data Response : Type 0 where
  method_not_allowed bad_request server_error unauthorized session_expired : Response
  invalid_password password_too_short ok recovery_used password_updated : Response
  require_2fa : Text → Response
  invalid_or_expired_token too_many_attempts : Response
  invalid_code : ℕ → Response
  code_refused : Response
  no_pending_setup setup_started enabled disabled logged_out : Response

-- What the handlers call: package bcrypt's comparison, and the functions of the second factor.
pub record Env : Type 0 where
  pub crypto : Crypto
  pub compare_password : Text → Text → Bool

-- 24 * 7 * time.Hour, 5 * time.Minute, in seconds
abbrev pub session_ttl : ℕ
session_ttl = 604800

abbrev pub challenge_ttl : ℕ
challenge_ttl = 300

abbrev pub max_attempts : ℕ
max_attempts = 5

-- authMiddleware: `none` lets the request through
unfoldable pub auth_middleware : Text → ℕ → Server → Server × Option Response
auth_middleware [] now s = (s, some unauthorized)
auth_middleware (c ∷ cookie) now s =
    let expired : Server × Option Response =
      (record s { sessions = delete (c ∷ cookie) s.sessions }, some session_expired) in
    elim (lookup (c ∷ cookie) s.sessions) [
      | none ↦ expired
      | some exp_time ↦ if ltb exp_time now then expired else (s, none)
    ]

unfoldable pub issue_session : Text → ℕ → Server → Server
issue_session token now s = record s { sessions = store token (now + session_ttl) s.sessions }

unfoldable pub handle_login : Env → Bool → Option Text → ℕ → Text → Server → Server × Response
unfolding issue_session
handle_login env false body now token s = (s, method_not_allowed)
handle_login env true none now token s = (s, bad_request)
handle_login env true (some password) now token s =
    if teq s.settings.admin_password_hash []
    then (s, server_error)
    else if env.compare_password s.settings.admin_password_hash password
    then (if teq s.settings.totp_enabled (codes "true")
        then (
          record s {
            challenges =
                store token (record { expiry = now + challenge_ttl; attempts = 0 }) s.challenges;
          },
          require_2fa token,
        )
        else (issue_session token now s, ok))
    else (s, invalid_password)

-- the part of handleLogin2FA after the checks on the challenge
unfoldable pub verify_2fa : Env → Text → Text → ℕ → Text → Challenge → Server → Server × Response
unfolding issue_session
verify_2fa env temp_token code now token ch s =
    let attempts = ch.attempts + 1 in
    let consumed = delete temp_token s.challenges in
    let clean_code = trim_space code in
    let set = s.settings in
    elim (validate_totp env.crypto set.totp_secret clean_code set.last_totp_step now) [
      | some matched_step ↦ (
        issue_session token now (record s {
          settings = record set { last_totp_step = matched_step };
          challenges = consumed;
        }),
        ok,
      )
      | none ↦ elim (validate_recovery_code env.crypto clean_code set.totp_recovery_codes) [
        | some remaining ↦ (
          issue_session token now (record s {
            settings = record set { totp_recovery_codes = remaining };
            challenges = consumed;
          }),
          recovery_used,
        )
        | none ↦ (
          record s {
            challenges =
                if leb max_attempts attempts
                then consumed
                else store temp_token (record ch { attempts = attempts }) s.challenges;
          },
          invalid_code (max_attempts - attempts),
        )
      ]
    ]

-- temp_token, code
abbrev pub CodeBody : Type 0
CodeBody = Text × Text

unfoldable pub handle_login_2fa :
    Env → Bool → Option CodeBody → ℕ → Text → Server → Server × Response
unfolding verify_2fa
handle_login_2fa env false body now token s = (s, method_not_allowed)
handle_login_2fa env true none now token s = (s, bad_request)
handle_login_2fa env true (some (temp_token, code)) now token s =
    elim (lookup temp_token s.challenges) [
      | none ↦ (s, invalid_or_expired_token)
      | some ch ↦
          if ltb ch.expiry now
          then (record s { challenges = delete temp_token s.challenges }, invalid_or_expired_token)
          else if leb max_attempts ch.attempts
          then (record s { challenges = delete temp_token s.challenges }, too_many_attempts)
          else verify_2fa env temp_token code now token ch s
    ]

unfoldable pub handle_2fa_enable : Env → Bool → Text → Option Text → ℕ → Server → Server × Response
handle_2fa_enable env false cookie body now s = (s, method_not_allowed)
handle_2fa_enable env true [] body now s = (s, unauthorized)
handle_2fa_enable env true (c ∷ cookie) body now s = elim (lookup (c ∷ cookie) s.pending) [
  | none ↦ (s, no_pending_setup)
  | some setup ↦ elim body [
    | none ↦ (s, bad_request)
    | some code ↦ elim (validate_totp env.crypto setup.secret code 0 now) [
      | none ↦ (s, code_refused)
      | some _ ↦ (
        record s {
          settings = record s.settings {
            totp_enabled = codes "true";
            totp_secret = setup.secret;
            totp_recovery_codes = setup.hashed_codes;
            last_totp_step = 0;
          };
          pending = delete (c ∷ cookie) s.pending;
        },
        enabled,
      )
    ]
  ]
]

-- the second factor is checked by a code or a recovery code, which is not used up here
unfoldable pub second_factor : Env → Text → ℕ → Settings → Bool
second_factor env code now set =
    elim (validate_totp env.crypto set.totp_secret code set.last_totp_step now) [
      | some _ ↦ true
      | none ↦ elim (validate_recovery_code env.crypto code set.totp_recovery_codes) [
        | some _ ↦ true
        | none ↦ false
      ]
    ]

-- password, code
unfoldable pub handle_2fa_disable : Env → Bool → Option CodeBody → ℕ → Server → Server × Response
unfolding second_factor
handle_2fa_disable env false body now s = (s, method_not_allowed)
handle_2fa_disable env true none now s = (s, bad_request)
handle_2fa_disable env true (some (password, code)) now s =
    if teq s.settings.admin_password_hash []
    then (s, server_error)
    else if env.compare_password s.settings.admin_password_hash password
    then (if second_factor env (trim_space code) now s.settings
        then (
          record s {
            settings = record s.settings {
              totp_enabled = codes "false";
              totp_secret = [];
              totp_recovery_codes = [];
              last_totp_step = 0;
            };
          },
          disabled,
        )
        else (s, code_refused))
    else (s, invalid_password)

unfoldable pub handle_logout : Option Text → Server → Server × Response
handle_logout none s = (s, logged_out)
handle_logout (some cookie) s = (record s { sessions = delete cookie s.sessions }, logged_out)
