-- ===== src/Auth/Lockout.antt =====
-- Guessing the second factor, and getting a session with no password.
use pantau.Common.{
  ℕ, ◌+◌, ◌-◌, ◌≤◌, ◌<◌, ◌≡◌, refl, sym, ◌∙◌, inl, inr, true, false, Option, none, some, List, [],
  ◌∷◌, length, arith, Option-cases, All,
}
use mathlib.Core.Path.{subst}
use pantau.Common.Text.{Text, trim_space}
use pantau.Common.Map.{text_key, lookup, lookup-delete_self, lookup-store_self}
use pantau.Auth.{
  Challenge, Settings, Server, Env, max_attempts, verify_2fa, handle_login_2fa, second_factor,
}

-- A guess: the code, the time and the token that a success would hand out.
pub record Guess : Type 0 where
  pub code : Text
  pub now : ℕ
  pub token : Text

abbrev pub try : Env → Text → Guess → Server → Server
try env temp_token g s = (handle_login_2fa env true (some (temp_token, g.code)) g.now g.token s).0

pub try_all : Env → Text → List Guess → Server → Server
try_all env temp_token [] s = s
try_all env temp_token (g ∷ gs) s = try_all env temp_token gs (try env temp_token g s)

-- Neither the code of an unused step nor a recovery code.
abbrev pub IsWrong : Env → Settings → Guess → Type 0
IsWrong env set g = second_factor env (trim_space g.code) g.now set ≡ false

-- The tries that a challenge has left.
abbrev tries_left : Option Challenge → ℕ
tries_left none = 0
tries_left (some ch) = max_attempts - ch.attempts

verify_wrong :
    (env : Env) (temp_token : Text) (g : Guess) (ch : Challenge) (s : Server)
    → IsWrong env s.settings g
    → ch.attempts < max_attempts
    → let r = (verify_2fa env temp_token g.code g.now g.token ch s).0 in
      (r.settings ≡ s.settings)
      × (r.sessions ≡ s.sessions)
      × (tries_left (lookup temp_token r.challenges) ≡ max_attempts - ch.attempts - 1)
unfolding verify_2fa second_factor
verify_wrong env temp_token g ch s wrong fresh = ground (
  arith,
  lookup-delete_self temp_token s.challenges,
  lookup-store_self temp_token (record ch { attempts = ch.attempts + 1 }) s.challenges,
)

-- One wrong guess keeps the settings and the sessions and costs the challenge one of its tries.
try_wrong :
    (env : Env) (temp_token : Text) (g : Guess) (s : Server)
    → IsWrong env s.settings g
    → ((try env temp_token g s).settings ≡ s.settings)
      × ((try env temp_token g s).sessions ≡ s.sessions)
      × (tries_left (lookup temp_token (try env temp_token g s).challenges)
          ≤ tries_left (lookup temp_token s.challenges) - 1)
unfolding handle_login_2fa
try_wrong env temp_token g s wrong = elim (Option-cases (lookup temp_token s.challenges)) [
  | inl gone ↦ ground (arith, gone)
  | inr (ch, there) ↦ ground (
    arith,
    there,
    lookup-delete_self temp_token s.challenges,
    verify_wrong env temp_token g ch s wrong,
  )
]

try_spent :
    (env : Env) (temp_token : Text) (g : Guess) (s : Server)
    → tries_left (lookup temp_token s.challenges) ≡ 0
    → ((try env temp_token g s).settings ≡ s.settings)
      × ((try env temp_token g s).sessions ≡ s.sessions)
unfolding handle_login_2fa
try_spent env temp_token g s spent = elim (Option-cases (lookup temp_token s.challenges)) [
  | inl gone ↦ ground (arith, gone)
  | inr (ch, there) ↦ ground (arith, there, spent)
]

try_all_spends :
    (env : Env) (temp_token : Text) (guesses : List Guess) (s : Server)
    → All (IsWrong env s.settings) guesses
    → ((try_all env temp_token guesses s).settings ≡ s.settings)
      × ((try_all env temp_token guesses s).sessions ≡ s.sessions)
      × (tries_left (lookup temp_token (try_all env temp_token guesses s).challenges)
          ≤ tries_left (lookup temp_token s.challenges) - length guesses)
unfolding try_all
try_all_spends env temp_token [] s wrong = (refl, refl, omega arith)
try_all_spends env temp_token (g ∷ gs) s wrong =
    let (same, kept, less) = try_wrong env temp_token g s wrong.0 in
    let later =
      try_all_spends env temp_token gs (try env temp_token g s)
        (subst (λ set. All (IsWrong env set) gs) (sym same) wrong.1) in
    (later.0 ∙ same, later.1 ∙ kept, omega arith)

tries_left_le : (o : Option Challenge) → tries_left o ≤ max_attempts
tries_left_le o = ground arith

-- Five wrong codes end a challenge: they change neither the settings nor the sessions, and after
-- them no guess under its token, be it right, changes the sessions or the settings.
pub try_all_lockout :
    (env : Env) (temp_token : Text) (guesses : List Guess) (s : Server) (g : Guess)
    → All (IsWrong env s.settings) guesses
    → max_attempts ≤ length guesses
    → ((try env temp_token g (try_all env temp_token guesses s)).settings ≡ s.settings)
      × ((try env temp_token g (try_all env temp_token guesses s)).sessions ≡ s.sessions)
try_all_lockout env temp_token guesses s g wrong many =
    let (same, kept, less) = try_all_spends env temp_token guesses s wrong in
    let final =
      try_spent env temp_token g (try_all env temp_token guesses s)
        (omega (arith, tries_left_le (lookup temp_token s.challenges))) in
    (final.0 ∙ same, final.1 ∙ kept)
