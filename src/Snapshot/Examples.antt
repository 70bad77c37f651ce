-- ===== src/Snapshot/Examples.antt =====
-- A backup and its restore, with ciphers that leave the text as it is and a network of one file.
use pantau.Common.{
  ℕ, suc, ◌+◌, ◌-◌, ◌≡◌, refl, ◌∙◌, Bool, true, false, Option, none, some, List, [], ◌∷◌, ◌++◌, map,
  length, keep, ◌==◌, if◌then◌else◌,
}
use pantau.Common.Text.{Text, codes}
use pantau.Snapshot.{Codec, IsCodec, encrypt, decrypt, decrypted}
use pantau.Snapshot.RoundTrip.{decrypt-encrypt}
use pantau.Snapshot.GitHub.{Network, Answer, clean_repo}
use pantau.Snapshot.Backup.{Settings, BackupEnv}

abbrev plain : Codec Text
plain = record {
  derive = λ pass salt. pass ++ salt;
  seal = λ key nonce raw. raw;
  open_sealed = λ key nonce s. some s;
  marshal = λ p. p;
  unmarshal = λ s. some s;
}

plain-IsCodec : IsCodec plain
plain-IsCodec = record { opens = λ key nonce raw. refl; reads = λ p. refl }

-- base 64 by a code without line ends
abbrev shift : Text → Text
shift [] = []
shift (c ∷ s) = (c + 14) ∷ shift s

abbrev unshift : Text → Text
unshift [] = []
unshift (c ∷ s) = (c - 14) ∷ unshift s

abbrev one_file : Network (Option Text)
one_file = record {
  get = λ p w. elim w [
    | none ↦ some (record { status = 404; body = none })
    | some content ↦ some (record { status = 200; body = some (codes "sha", content) })
  ];
  put = λ p content message sha w. (some 201, some content);
  encode64 = shift;
  decode64 = λ s. some (unshift s);
}

abbrev payload : Text
payload = codes "{}"

abbrev salt : Text
salt = codes "0123456789abcdef"

abbrev nonce : Text
nonce = codes "0123456789ab"

abbrev pass : Text
pass = codes "secret"

abbrev or_empty : Option Text → Text
or_empty none = []
or_empty (some s) = s

abbrev file : Text
unfolding encrypt
file = or_empty (encrypt plain salt nonce payload pass)

decrypt-encrypt_example : decrypt plain file pass ≡ decrypted payload
unfolding encrypt pantau.Common.Text.teq pantau.Common.Text.trim_space
decrypt-encrypt_example =
    decrypt-encrypt plain salt nonce pass file payload plain-IsCodec refl refl refl

abbrev settings : Settings
settings =
    (codes "github_repo", codes "https://github.com/ops/state.git")
    ∷ (codes "github_token", codes "t")
    ∷ (codes "snapshot_passphrase", pass)
    ∷ []

abbrev env : BackupEnv Text
env = record {
  exported = some payload;
  salt = salt;
  nonce = nonce;
  message = codes "backup";
  now_text = codes "2026-01-01T00:00:00Z";
}

abbrev import_into : Text → Settings → Option Settings
import_into p s = some s

repo_of : clean_repo (codes " https://github.com/ops/state.git ") ≡ codes "ops/state"
unfolding clean_repo pantau.Common.Text.has_suffix pantau.Common.Text.trim_prefix
    pantau.Common.Text.trim_space
repo_of = refl
