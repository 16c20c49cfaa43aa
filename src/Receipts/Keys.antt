-- ===== src/Receipts/Keys.antt =====
-- src/receipts.py: the keys of `ReceiptGenerator`, on disk and cached in the class. The cryptography
-- library and the file system's answers are arguments; a PEM file is its text.
pub mod Restart
use mathlib.Core.Option
use swift_route.Prelude.{String, Bool, true, false, ◌&&◌, ◌≡◌, Option, none, some, if◌then◌else◌}
use swift_route.Prelude.Dict.{lookup, insert, contains}
use swift_route.Config.{Settings}
use swift_route.Host.{Files}

-- Whether making the parent directories of a path returns, and whether writing a path does; else they raise.
pub record Disk : Type 0 where
  pub mkdir : String → Bool
  pub write : String → Bool

-- The calls of the cryptography library; loading a text that is no key raises, `none`.
pub record KeyLibrary (Private : Type 0) (Public : Type 0) : Type 0 where
  pub public_key : Private → Public
  pub private_pem : Private → String
  pub public_pem : Public → String
  pub load_private : String → Option Private
  pub load_public : String → Option Public

-- A key that was written as PEM is loaded again.
pub record IsKeyLibrary {Private Public : Type 0} (lib : KeyLibrary Private Public) : Type 0 where
  pub load_private-private_pem : (k : Private) → lib.load_private (lib.private_pem k) ≡ some k
  pub load_public-public_pem : (k : Public) → lib.load_public (lib.public_pem k) ≡ some k

-- The files, and the keys that the class holds.
pub record KeyStore (Private : Type 0) (Public : Type 0) : Type 0 where
  pub files : Files
  pub cached : Option (Private × Public)

module _ {W : Type 0} {Private Public : Type 0} where
  -- The two keys that are on disk, where both files exist.
  abbrev pub load_keys : KeyLibrary Private Public → Settings W → Files → Option (Private × Public)
  load_keys lib settings files = elim (lookup settings.receipt_private_key_path files) [
    | none ↦ none
    | some priv_pem ↦ elim (lookup settings.receipt_public_key_path files) [
      | none ↦ none
      | some pub_pem ↦ elim (lib.load_private priv_pem) [
        | none ↦ none
        | some private_key ↦ elim (lib.load_public pub_pem) [
          | none ↦ none
          | some public_key ↦ some (private_key, public_key)
        ]
      ]
    ]
  ]

  -- Ed25519PrivateKey.generate() gives `fresh`, and both keys are written.
  abbrev pub generate_keys :
      KeyLibrary Private Public
      → Disk
      → Settings W
      → Private
      → Files
      → Files × Option (Private × Public)
  generate_keys lib disk settings fresh files =
      let priv_path : String = settings.receipt_private_key_path in
      let pub_path : String = settings.receipt_public_key_path in
      let public_key : Public = lib.public_key fresh in
      let with_private : Files = insert priv_path (lib.private_pem fresh) files in
      if disk.mkdir priv_path && (disk.mkdir pub_path && disk.write priv_path)
      then (if disk.write pub_path
          then (insert pub_path (lib.public_pem public_key) with_private, some (fresh, public_key))
          else (with_private, none))
      else (files, none)

  -- _load_or_generate_keys; `none` is an exception.
  unfoldable pub load_or_generate_keys :
      KeyLibrary Private Public
      → Disk
      → Settings W
      → Private
      → Files
      → Files × Option (Private × Public)
  load_or_generate_keys lib disk settings fresh files =
      if contains settings.receipt_private_key_path files
        && contains settings.receipt_public_key_path files
      then (files, load_keys lib settings files)
      else generate_keys lib disk settings fresh files

  -- _get_keypair
  unfoldable pub get_keypair :
      KeyLibrary Private Public
      → Disk
      → Settings W
      → Private
      → KeyStore Private Public
      → KeyStore Private Public × Option (Private × Public)
  get_keypair lib disk settings fresh s = elim s.cached [
    | some keys ↦ (s, some keys)
    | none ↦
        let r : Files × Option (Private × Public) =
          load_or_generate_keys lib disk settings fresh s.files in
        (record { files = r.0; cached = r.1 }, r.1)
  ]

  unfoldable pub get_public_key_pem :
      KeyLibrary Private Public
      → Disk
      → Settings W
      → Private
      → KeyStore Private Public
      → KeyStore Private Public × Option String
  get_public_key_pem lib disk settings fresh s =
      let r : KeyStore Private Public × Option (Private × Public) =
        get_keypair lib disk settings fresh s in
      (r.0, Option.map (λ keys. lib.public_pem (keys.1)) (r.1))

-- The class of a new process, with the same files.
abbrev pub restart : {Private Public : Type 0} → KeyStore Private Public → KeyStore Private Public
restart s = record s { cached = none }
