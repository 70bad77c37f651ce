-- ===== src/Snapshot/GitHub.antt =====
-- internal/snapshot/snapshot.go: the client of GitHub's contents API. The network is a parameter: what
-- a GET and a PUT of a file answer in a state of the outer world, and the state after a PUT.
use pantau.Common.{
  ℕ, Bool, false, not, ◌&&◌, ◌||◌, Option, none, some, [], ◌∷◌, ◌==◌, if◌then◌else◌, keep, length,
  drop,
}
use mathlib.Core.List.{reverse}
use pantau.Common.Text.{Text, codes, teq, trim_space, trim_prefix, has_suffix}

-- strings.TrimSuffix(s, t)
abbrev pub trim_suffix : Text → Text → Text
trim_suffix s t = if has_suffix s t then reverse (drop (length t) (reverse s)) else s

abbrev strip_slashes : Text → Text
strip_slashes [] = []
strip_slashes (c ∷ s) = let rest = strip_slashes s in if c == b'/' then rest else c ∷ s

-- CleanRepo
unfoldable pub clean_repo : Text → Text
clean_repo repo =
    let r =
      trim_suffix
        (trim_prefix (trim_prefix (trim_space repo) (codes "https://github.com/"))
          (codes "http://github.com/"))
        (codes ".git") in
    reverse (strip_slashes (reverse (strip_slashes r)))

-- the place of a file, with the token that opens it
pub record Place : Type 0 where
  pub repo : Text
  pub token : Text
  pub branch : Text
  pub file_path : Text

-- an answer to a GET: a status, and of a body that decodes the hash and the content
pub record Answer : Type 0 where
  pub status : ℕ
  pub body : Option (Text × Text)

pub record Network {ℓ} (W : Type ℓ) : Type ℓ where
  pub get : Place → W → Option Answer
  pub put : Place → Text → Text → Text → W → Option ℕ × W
  pub encode64 : Text → Text
  pub decode64 : Text → Option Text

pub data PullError : Type 0 where
  get_failed not_found undecodable not_base64 : PullError
  get_status : ℕ → PullError

pub data Pulled : Type 0 where
  no_pull : PullError → Pulled
  pulled : Text → Text → Pulled

-- the content without line ends
abbrev pub cleaned : Text → Text
cleaned s = keep (λ c. not (c == 13)) (keep (λ c. not (c == 10)) s)

abbrev pub or_default_path : Text → Text
or_default_path p = if teq p [] then codes "pantau-state.enc" else p

abbrev pub at_place : Place → Place
at_place p = record p {
  repo = clean_repo p.repo;
  token = trim_space p.token;
  file_path = or_default_path p.file_path;
}

abbrev pub is_accepted : Option ℕ → Bool
is_accepted none = false
is_accepted (some st) = st == 200 || st == 201

abbrev pub sha_of : Pulled → Text
sha_of (no_pull e) = []
sha_of (pulled file sha) = sha

abbrev pub is_conflict : Option ℕ → Bool
is_conflict none = false
is_conflict (some st) = st == 409

module _ {ℓ} {W : Type ℓ} where
  -- Pull: the content and the hash of the file
  unfoldable pub pull : Network W → Place → W → Pulled
  pull net p w = elim (net.get (at_place p) w) [
    | none ↦ no_pull get_failed
    | some a ↦
        if a.status == 404
        then no_pull not_found
        else if not (a.status == 200)
        then no_pull (get_status a.status)
        else elim a.body [
          | none ↦ no_pull undecodable
          | some (sha, content) ↦ elim (net.decode64 (cleaned content)) [
            | none ↦ no_pull not_base64
            | some file ↦ pulled file sha
          ]
        ]
  ]

  -- pushWithSHA without a retry: whether the file was accepted
  unfoldable pub push_once : Network W → Place → Text → Text → Text → W → Bool × W
  push_once net p file message sha w =
      let r = net.put (at_place p) (net.encode64 file) message sha w in (is_accepted r.0, r.1)

  -- pushWithSHA with one retry on a conflict
  unfoldable pub push_with_sha : Network W → Place → Text → Text → Text → W → Bool × W
  unfolding push_once pull
  push_with_sha net p file message sha w =
      let r = net.put (at_place p) (net.encode64 file) message sha w in
      let latest = sha_of (pull net p r.1) in
      let again = push_once net p file message latest r.1 in
      if is_conflict r.0 && not (teq latest []) then again else (is_accepted r.0, r.1)

  -- Push
  unfoldable pub push : Network W → Place → Text → Text → W → Bool × W
  unfolding push_with_sha pull
  push net p file message w = push_with_sha net p file message (sha_of (pull net p w)) w
