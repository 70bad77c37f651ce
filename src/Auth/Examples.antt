-- ===== src/Auth/Examples.antt =====
-- Logins and codes on concrete requests, with an HMAC of twenty zero bytes.
use pantau.Common.{ℕ, ◌≤◌, ◌<◌, ◌+◌, ◌≡◌, ◌≢◌, refl, some, none, true, false, List, [], ◌∷◌, arith}
use pantau.Common.Text.{Text, codes, teq, trim_space, to_upper, contains}
use pantau.Common.Map.{text_key, lookup}
use pantau.Totp.{
  Crypto, IsCrypto, binary_code, six_digits, decode_secret, generate_otp, otp_matches, scan_steps,
  validate_totp, hash_recovery_code, matched_idx, without_idx, validate_recovery_code,
}
use pantau.Totp.Codes.{validate_totp_sound, validate_totp_complete, InWindow}
use pantau.Auth.{
  Server, Env, ok, enabled, auth_middleware, handle_login_2fa, handle_2fa_enable, second_factor,
}
use pantau.Auth.Requests.{
  Request, login, login_2fa, enable, disable, logout, run, setup, change_password,
}
use pantau.Auth.Lockout.{Guess, try, try_all, try_all_lockout}
use pantau.Auth.Sessions.{no_password_no_session}
use pantau.Auth.Replay.{CodeLogin, answer, accepted, answer_all, accepted-le, enable_code_replays}

abbrev zero_mac : List ℕ
zero_mac = 0 ∷ 0 ∷ 0 ∷ 0 ∷ 0 ∷ 0 ∷ 0 ∷ 0 ∷ 0 ∷ 0 ∷ 0 ∷ 0 ∷ 0 ∷ 0 ∷ 0 ∷ 0 ∷ 0 ∷ 0 ∷ 0 ∷ 0 ∷ []

abbrev toy : Crypto
toy = record {
  decode_padded = λ s. some s;
  decode_raw = λ s. some s;
  hmac_sha1 = λ key message. zero_mac;
  sha256_hex = λ s. s;
}

abbrev env : Env
env = record { crypto = toy; compare_password = λ hash password. teq hash password }

toy-IsCrypto : IsCrypto toy
toy-IsCrypto = record { mac_length = λ key message. refl }

abbrev zeros : Text
zeros = codes "000000"

abbrev server : Server
server = record {
  settings = record {
    admin_password_hash = codes "secret";
    totp_enabled = codes "true";
    totp_secret = codes "AB";
    last_totp_step = 40;
    totp_recovery_codes = codes "1111" ∷ codes "2222" ∷ [];
  };
  sessions = [];
  challenges = (codes "t", record { expiry = 1400; attempts = 0 }) ∷ [];
  pending = (codes "c", record { secret = codes "AB"; hashed_codes = [] }) ∷ [];
}

validate_totp_example : validate_totp toy (codes "AB") (codes " 000000 ") 40 1230 ≡ some 41
unfolding validate_totp scan_steps generate_otp decode_secret otp_matches teq trim_space contains
    to_upper six_digits binary_code
validate_totp_example = refl

validate_totp_sound_example :
    InWindow 1230 41
    × (40 < 41)
    × (generate_otp toy (codes "AB") 41 ≡ some (trim_space (codes " 000000 ")))
validate_totp_sound_example =
    validate_totp_sound toy (codes "AB") (codes " 000000 ") 40 1230 41 validate_totp_example

validate_totp_refused : validate_totp toy (codes "AB") (codes "000000") 42 1230 ≡ none
unfolding validate_totp trim_space scan_steps
validate_totp_refused = refl

validate_totp_short : validate_totp toy (codes "AB") (codes "12345") 40 1230 ≡ none
unfolding validate_totp trim_space
validate_totp_short = refl

one_used :
    validate_recovery_code toy (codes "11-11") (codes "1111" ∷ codes "2222" ∷ [])
    ≡ some (codes "2222" ∷ [])
unfolding validate_recovery_code matched_idx teq hash_recovery_code to_upper trim_space without_idx
one_used = refl

abbrev guess : Guess
guess = record { code = codes "999999"; now = 1230; token = codes "x" }

abbrev guesses : List Guess
guesses = guess ∷ guess ∷ guess ∷ guess ∷ guess ∷ []

guess_wrong : second_factor env (trim_space guess.code) guess.now server.settings ≡ false
unfolding second_factor validate_totp trim_space scan_steps otp_matches generate_otp decode_secret
    contains to_upper teq six_digits binary_code validate_recovery_code matched_idx
    hash_recovery_code
guess_wrong = refl

abbrev right : Guess
right = record { code = zeros; now = 1230; token = codes "x" }

try_all_lockout_example :
    ((try env (codes "t") right (try_all env (codes "t") guesses server)).settings
      ≡ server.settings)
    × ((try env (codes "t") right (try_all env (codes "t") guesses server)).sessions
        ≡ server.sessions)
try_all_lockout_example =
    try_all_lockout env (codes "t") guesses server right
      (guess_wrong, (guess_wrong, (guess_wrong, (guess_wrong, (guess_wrong, tt))))) (omega arith)

abbrev locked : Server
locked = record server { challenges = [] }

abbrev attack : List Request
attack =
    login (some (codes "admin")) 1000 (codes "a")
    ∷ login_2fa (some (codes "t", zeros)) 1230 (codes "b")
    ∷ enable (codes "c") (some zeros) 1230
    ∷ disable (codes "c") none 1230
    ∷ setup (codes "c") none 1230
    ∷ change_password (codes "c") (some (codes "old", codes "new!")) (some (codes "h")) 1230
    ∷ logout none
    ∷ []

admin_refused : env.compare_password (codes "secret") (codes "admin") ≡ false
unfolding teq
admin_refused = refl

no_password_no_session_example : (auth_middleware (codes "b") 1231 (run env attack locked)).1 ≢ none
no_password_no_session_example =
    no_password_no_session env attack locked (codes "b") 1231 refl refl
      (admin_refused, (tt, (tt, (tt, (tt, (tt, (tt, tt)))))))

abbrev code_login : CodeLogin
code_login = record { body = (codes "t", zeros); now = 1230; token = codes "x" }

accepted-le_example :
    40 + accepted env (code_login ∷ code_login ∷ []) server
    ≤ (answer_all env (code_login ∷ code_login ∷ []) server).settings.last_totp_step
accepted-le_example = accepted-le env (code_login ∷ code_login ∷ []) server

code_login_ok : (answer env code_login server).1 ≡ ok
unfolding handle_login_2fa lookup teq validate_totp trim_space scan_steps otp_matches generate_otp
    decode_secret contains to_upper six_digits binary_code
code_login_ok = refl

enabling : (handle_2fa_enable env true (codes "c") (some zeros) 1230 server).1 ≡ enabled
unfolding handle_2fa_enable lookup teq validate_totp trim_space scan_steps otp_matches generate_otp
    decode_secret contains to_upper six_digits binary_code
enabling = refl

challenge_there :
    lookup (codes "t") server.challenges ≡ some (record { expiry = 1400; attempts = 0 })
unfolding lookup teq
challenge_there = refl

zeros_bare : trim_space zeros ≡ zeros
unfolding trim_space
zeros_bare = refl

enable_code_replays_example :
    (handle_login_2fa env true
      (some (codes "t", zeros))
      1259
      (codes "x")
      (handle_2fa_enable env true (codes "c") (some zeros) 1230 server).0).1
    ≡ ok
enable_code_replays_example =
    enable_code_replays env (codes "c") zeros (codes "t") 1230 1259 (codes "x") server
      (record { expiry = 1400; attempts = 0 }) zeros_bare enabling refl challenge_there
      (omega arith) (omega arith)

wrong_refused : validate_totp toy (codes "AB") (codes "000001") 40 1230 ≡ none
unfolding validate_totp trim_space scan_steps otp_matches generate_otp decode_secret contains
    to_upper teq six_digits binary_code
wrong_refused = refl

validate_totp_complete_example :
    generate_otp toy (codes "AB") 41 ≢ some (trim_space (codes "000001"))
validate_totp_complete_example =
    validate_totp_complete toy (codes "AB") (codes "000001") 40 1230 41 (omega arith) wrong_refused
      (omega arith) (omega arith)
