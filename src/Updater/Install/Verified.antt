-- ===== src/Updater/Install/Verified.antt =====
-- What an update may leave as the executable.
use pantau.Common.{
  ◌≡◌, ◌⊎◌, inl, inr, refl, true, false, Option, none, some, List, [], ◌∷◌, arith, Option-cases,
  Bool-cases,
}
use pantau.Common.Text.{Text, codes, teq, equal_fold}
use pantau.Updater.Install.{
  not_installed, GitHubRelease, GitHubAsset, UpdateError, UpdateWorld, Choice, no_choice, fits,
  archive_ext, binary_name, choose_asset, choose_assets, parse_checksum, extract_binary,
  fetch_binary, Files, swap, install, apply_choice, apply_update,
}

-- The binary is in a download whose hash is the one that the downloaded listing of checksums says of
-- the asset.
abbrev pub IsVerified : UpdateWorld → Choice → Text → Type 0
IsVerified w c binary =
    (archive : Text) × (listing : Text) × (expected : Text) × (w.download c.checksums_url
      ≡ some listing)
    × (parse_checksum listing c.asset_name ≡ some expected)
    × (w.download c.asset_url ≡ some archive)
    × (equal_fold (w.sha256_hex archive) expected ≡ true)
    × (extract_binary w archive c.asset_name (binary_name w.goos) ≡ some binary)

-- What an update may end with: the executable as it was; or no error and a verified binary that passed
-- the smoke test; or, on Windows with a failed roll back, the executable put aside.
abbrev pub IsOutcome : UpdateWorld → Choice → Files → Option UpdateError × Files → Type 0
IsOutcome w c f r =
    (r.1.executable ≡ f.executable)
    ⊎ ((binary : Text) × (r.0 ≡ none)
        × (r.1.executable ≡ some binary)
        × (w.smoke_test binary ≡ true)
        × (fits w.goos w.goarch (archive_ext w.goos) c.asset_name ≡ true)
        × IsVerified w c binary)
    ⊎ ((teq w.goos (codes "windows") ≡ true)
        × (w.rename_new ≡ false)
        × (w.roll_back ≡ false)
        × (r.0 ≡ some not_installed)
        × (r.1.executable ≡ none)
        × (r.1.old_executable ≡ f.executable))

-- A binary that fetch_binary returns is verified.
fetch_binary-IsVerified :
    (w : UpdateWorld) (c : Choice) (binary : Text)
    → (fetch_binary w c).1 ≡ some binary
    → IsVerified w c binary
unfolding fetch_binary
fetch_binary-IsVerified w c binary e = elim (Option-cases (w.download c.checksums_url)) [
  | inl n ↦ ground arith
  | inr (listing, l) ↦ elim (Option-cases (parse_checksum listing c.asset_name)) [
    | inl n ↦ ground arith
    | inr (expected, x) ↦ elim (Option-cases (w.download c.asset_url)) [
      | inl n ↦ ground arith
      | inr (archive, d) ↦ elim (Bool-cases (equal_fold (w.sha256_hex archive) expected)) [
        | inl h ↦ (archive, listing, expected, l, x, d, h, ground arith)
        | inr h ↦ ground arith
      ]
    ]
  ]
]

install-IsOutcome :
    (w : UpdateWorld) (c : Choice) (binary : Text) (f : Files)
    → fits w.goos w.goarch (archive_ext w.goos) c.asset_name ≡ true
    → IsVerified w c binary
    → IsOutcome w c f (install w binary f)
unfolding install swap
install-IsOutcome w c binary f t v = ground arith

-- The asset that the loop chooses is the last that fits, if there is one.
abbrev pub IsFit : UpdateWorld → Choice → Type 0
IsFit w c = (c.asset_url ≡ []) ⊎ (fits w.goos w.goarch (archive_ext w.goos) c.asset_name ≡ true)

named_fits :
    (w : UpdateWorld) (c : Choice)
    → IsFit w c
    → teq c.asset_url [] ≡ false
    → fits w.goos w.goarch (archive_ext w.goos) c.asset_name ≡ true
unfolding teq
named_fits w c (inr t) n = t
named_fits w c (inl e) n = ground arith

choose_asset-IsFit :
    (w : UpdateWorld) (a : GitHubAsset) (c : Choice)
    → IsFit w c
    → IsFit w (choose_asset w.goos w.goarch (archive_ext w.goos) a c)
unfolding choose_asset
choose_asset-IsFit w a c h = elim (Bool-cases (fits w.goos w.goarch (archive_ext w.goos) a.name)) [
  | inl t ↦ inr (rw (t, t) refl)
  | inr t ↦ rw (t) h
]

choose_assets-IsFit :
    (w : UpdateWorld) (assets : List GitHubAsset) (c : Choice)
    → IsFit w c
    → IsFit w (choose_assets w.goos w.goarch (archive_ext w.goos) assets c)
unfolding choose_assets
choose_assets-IsFit w [] c h = h
choose_assets-IsFit w (a ∷ assets) c h = choose_assets-IsFit w assets _ (choose_asset-IsFit w a c h)

apply_choice-IsOutcome :
    (w : UpdateWorld) (c : Choice) (f : Files) → IsFit w c → IsOutcome w c f (apply_choice w c f)
unfolding apply_choice
apply_choice-IsOutcome w c f h = elim (Option-cases (fetch_binary w c).1) [
  | inl n ↦ ground arith
  | inr (binary, e) ↦ elim (Bool-cases (teq c.asset_url [])) [
    | inl a ↦ inl (ground arith)
    | inr a ↦ elim (Bool-cases (teq c.checksums_url [])) [
      | inl b ↦ inl (ground arith)
      | inr b ↦
          let v = fetch_binary-IsVerified w c binary e in
          rw (apply_choice, a, b, e) (install-IsOutcome w c binary f (named_fits w c h a) v)
    ]
  ]
]

-- An update leaves the executable as it was; or it returns no error, and the executable is the program
-- in a download of the last asset for this system and architecture, whose hash is the one that the
-- downloaded listing of checksums says of that asset, and which passed the smoke test; or, on Windows
-- where both the installation and the roll back fail, the executable is put aside. This holds of a host
-- that gets the release `r` from GitHub.
pub apply_update-IsOutcome :
    (w : UpdateWorld) (r : GitHubRelease) (f : Files)
    → w.release ≡ some r
    → IsOutcome w
        (choose_assets w.goos w.goarch (archive_ext w.goos) r.assets no_choice)
        f
        (apply_update w f)
unfolding apply_update
apply_update-IsOutcome w r f e = elim (Bool-cases w.is_docker) [
  | inl d ↦ inl (ground arith)
  | inr d ↦
      rw (apply_update, e, d)
        (apply_choice-IsOutcome w _ f (choose_assets-IsFit w r.assets no_choice (inl refl)))
]
