-- ===== src/Auth/Replay.antt =====
-- Codes of the second factor against replay.
use pantau.Common.{
  refl, ◌∙◌, ◌/◌, ℕ, ◌+◌, ◌≤◌, ◌<◌, ◌≡◌, ◌⊎◌, inl, inr, true, none, some, List, [], ◌∷◌, arith,
  Option-cases,
}
use pantau.Common.Text.{Text, trim_space}
use pantau.Common.Map.{text_key, lookup, lookup-delete_self}
use pantau.Auth.{
  Challenge, Server, Env, Response, CodeBody, ok, recovery_used, max_attempts, enabled,
  handle_login_2fa, verify_2fa, issue_session, handle_2fa_enable,
}
use pantau.Totp.{validate_totp}
use pantau.Totp.Codes.{validate_totp_sound}

-- A login with a code: the body, the time and the fresh token.
pub record CodeLogin : Type 0 where
  pub body : CodeBody
  pub now : ℕ
  pub token : Text

abbrev pub answer : Env → CodeLogin → Server → Server × Response
answer env l s = handle_login_2fa env true (some l.body) l.now l.token s

abbrev count_ok : Response → ℕ
count_ok ok = 1
count_ok _ = 0

-- The logins among a sequence that a time-based code has let in.
unfoldable pub accepted : Env → List CodeLogin → Server → ℕ
accepted env [] s = 0
accepted env (l ∷ ls) s = count_ok (answer env l s).1 + accepted env ls (answer env l s).0

unfoldable pub answer_all : Env → List CodeLogin → Server → Server
answer_all env [] s = s
answer_all env (l ∷ ls) s = answer_all env ls (answer env l s).0

verify_step :
    (env : Env) (t code : Text) (now : ℕ) (token : Text) (ch : Challenge) (s : Server)
    → let r = verify_2fa env t code now token ch s in
      s.settings.last_totp_step + count_ok r.1 ≤ r.0.settings.last_totp_step
unfolding verify_2fa
verify_step env t code now token ch s =
    elim (Option-cases (
      validate_totp env.crypto s.settings.totp_secret (trim_space code) s.settings.last_totp_step
        now)) [
          | inl refused ↦ ground (arith, refused)
          | inr (step, good) ↦ ground (
            arith,
            good,
            (validate_totp_sound env.crypto s.settings.totp_secret (trim_space code)
                s.settings.last_totp_step now step good).1,
          )
        ]

answer_step :
    (env : Env) (l : CodeLogin) (s : Server)
    → s.settings.last_totp_step + count_ok (answer env l s).1
      ≤ (answer env l s).0.settings.last_totp_step
unfolding handle_login_2fa
answer_step env l s = elim (Option-cases (lookup l.body.0 s.challenges)) [
  | inl gone ↦ ground (arith, gone)
  | inr (ch, there) ↦ ground (arith, there, verify_step env l.body.0 l.body.1 l.now l.token ch s)
]

-- Each time-based code that lets a login in uses up time steps for good: over any sequence of code
-- logins the stored step grows by at least the number of codes accepted.
pub accepted-le :
    (env : Env) (ls : List CodeLogin) (s : Server)
    → s.settings.last_totp_step + accepted env ls s ≤ (answer_all env ls s).settings.last_totp_step
unfolding accepted answer_all
accepted-le env [] s = omega arith
accepted-le env (l ∷ ls) s =
    omega (arith, answer_step env l s, accepted-le env ls (answer env l s).0)

-- A code login that gets a session answers a challenge that is stored, not expired and has tries
-- left, and the challenge is gone afterwards.
pub login_2fa_needs_challenge :
    (env : Env) (l : CodeLogin) (s : Server)
    → ((answer env l s).1 ≡ ok) ⊎ ((answer env l s).1 ≡ recovery_used)
    → (ch : Challenge) × (lookup l.body.0 s.challenges ≡ some ch)
      × (l.now ≤ ch.expiry)
      × (ch.attempts < max_attempts)
      × (lookup l.body.0 (answer env l s).0.challenges ≡ none)
unfolding handle_login_2fa verify_2fa issue_session
login_2fa_needs_challenge env l s h = elim (Option-cases (lookup l.body.0 s.challenges)) [
  | inl gone ↦ absurd (ground (arith, gone, h))
  | inr (ch, there) ↦ (
    ch,
    there,
    ground (arith, there, h),
    ground (arith, there, h),
    ground (arith, there, h, lookup-delete_self l.body.0 s.challenges),
  )
]

-- Within one half minute the answer to a code does not change.
validate_totp_same_step :
    (env : Env) (secret code : Text) (last_step now later : ℕ)
    → later / 30 ≡ now / 30
    → validate_totp env.crypto secret code last_step later
      ≡ validate_totp env.crypto secret code last_step now
unfolding validate_totp
validate_totp_same_step env secret code last_step now later same = rw same refl

-- Enabling the second factor forgets the step of the code that enabled it: that code, if it has no
-- blanks around it, also answers any live login challenge, at every later time of the same half minute
-- since the epoch.
pub enable_code_replays :
    (env : Env) (cookie code t : Text) (now later : ℕ) (token : Text) (s : Server) (ch : Challenge)
    → trim_space code ≡ code
    → (handle_2fa_enable env true cookie (some code) now s).1 ≡ enabled
    → later / 30 ≡ now / 30
    → lookup t s.challenges ≡ some ch
    → later ≤ ch.expiry
    → ch.attempts < max_attempts
    → (handle_login_2fa env true
        (some (t, code))
        later
        token
        (handle_2fa_enable env true cookie (some code) now s).0).1
      ≡ ok
unfolding handle_2fa_enable handle_login_2fa verify_2fa
enable_code_replays env [] code t now later token s ch bare on same there live free =
    absurd (ground (arith, on))
enable_code_replays env (c ∷ cookie) code t now later token s ch bare on same there live free =
    elim (Option-cases (lookup (c ∷ cookie) s.pending)) [
      | inl gone ↦ absurd (ground (arith, gone, on))
      | inr (setup, waiting) ↦
          elim (Option-cases (validate_totp env.crypto setup.secret code 0 now)) [
            | inl refused ↦ absurd (ground (arith, waiting, refused, on))
            | inr (step, good) ↦
                let again : validate_totp env.crypto setup.secret (trim_space code) 0 later
                    ≡ some step =
                  rw bare (validate_totp_same_step env setup.secret code 0 now later same ∙ good) in
                ground (arith, waiting, good, there, live, free, again)
          ]
    ]
