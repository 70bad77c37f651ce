-- ===== src/Snapshot/Backup/Restore.antt =====
-- What was backed up is restored.
use pantau.Common.{ℕ, ◌≤◌, ◌≡◌, true, some, length}
use pantau.Common.Text.{Text}
use pantau.Snapshot.{Codec, encrypt}
use pantau.Snapshot.GitHub.{Place, Network, cleaned, pulled, pull, is_accepted}
use pantau.Snapshot.Backup.{BackupEnv}

-- The size up to which GitHub's contents API answers with the content of a file: 1 MB. For a larger
-- file it answers with an empty content.
abbrev pub content_limit : ℕ
content_limit = 1000000

-- What is known of GitHub: a file of at most 1 MB that a PUT has stored is what a GET of its place
-- answers, up to the line ends in its content, and base 64 is read again.
pub record IsGitHub {κ} {W : Type κ} (net : Network W) : Type κ where
  pub keeps :
      (p : Place) (file message sha : Text) (w : W)
      → length file ≤ content_limit
      → is_accepted (net.put p (net.encode64 file) message sha w).0 ≡ true
      → (new_sha : Text) × (body : Text) × (net.get p
            (net.put p (net.encode64 file) message sha w).1
          ≡ some (record { status = 200; body = some (new_sha, body) }))
        × (cleaned body ≡ net.encode64 file)
  pub reads64 : (file : Text) → net.decode64 (net.encode64 file) ≡ some file

module _ {κ} {W : Type κ} (net : Network W) (github : IsGitHub net) where
  -- A pull gives this file.
  Holds : Place → Text → W → Type 0
  Holds p file w = (sha : Text) × (pull net p w ≡ pulled file sha)

-- The encrypted payload is a file of at most 1 MB.
abbrev pub IsSmall {ℓ} : {P : Type ℓ} → Codec P → BackupEnv P → P → Text → Type 0
IsSmall c e payload passphrase =
    (file : Text)
    → encrypt c e.salt e.nonce payload passphrase ≡ some file
    → length file ≤ content_limit
