-- ===== src/Receipts/Keys/Restart.antt =====
-- The keys of src/receipts.py in a new process.
use swift_route.Prelude.{
  String, false, ◌≡◌, ◌≢◌, refl, sym, ap, ◌∙◌, some, arith, eq_iff, str_eq, Bool-cases,
  Option-cases, inl, inr,
}
use swift_route.Prelude.Dict.{insert, lookup-insert, lookup-insert_self}
use swift_route.Config.{Settings}
use swift_route.Host.{Files}
use swift_route.Receipts.Keys.{
  Disk, KeyLibrary, IsKeyLibrary, KeyStore, load_keys, generate_keys, load_or_generate_keys,
  get_keypair, get_public_key_pem, restart,
}

str_eq_apart : (s t : String) → s ≢ t → str_eq t s ≡ false
str_eq_apart s t apart = elim (Bool-cases (str_eq t s)) [
  | inl e ↦ absurd (apart (sym ((eq_iff t s).0 e)))
  | inr e ↦ e
]

module _ {W : Type 0} {Private Public : Type 0} (lib : KeyLibrary Private Public)
    (settings : Settings W) where
  -- Keys that the class holds are the ones on disk.
  abbrev pub IsSaved : KeyStore Private Public → Type 0
  IsSaved s =
      (keys : Private × Public) → s.cached ≡ some keys → load_keys lib settings s.files ≡ some keys

  load_keys-insert :
      (fresh : Private) (files : Files)
      → IsKeyLibrary lib
      → settings.receipt_private_key_path ≢ settings.receipt_public_key_path
      → load_keys lib settings (
          insert settings.receipt_public_key_path
            (lib.public_pem (lib.public_key fresh))
            (insert settings.receipt_private_key_path (lib.private_pem fresh) files))
        ≡ some (fresh, lib.public_key fresh)
  load_keys-insert fresh files laws apart =
      rw
        (
          load_keys,
          lookup-insert settings.receipt_public_key_path settings.receipt_private_key_path
              (lib.public_pem (lib.public_key fresh))
              (insert settings.receipt_private_key_path (lib.private_pem fresh) files),
          str_eq_apart settings.receipt_private_key_path settings.receipt_public_key_path apart,
          lookup-insert_self settings.receipt_private_key_path (lib.private_pem fresh) files,
          lookup-insert_self settings.receipt_public_key_path
              (lib.public_pem (lib.public_key fresh))
              (insert settings.receipt_private_key_path (lib.private_pem fresh) files),
          laws.load_private-private_pem fresh,
          laws.load_public-public_pem (lib.public_key fresh),
        )
        refl

  generate_keys-load :
      (disk : Disk) (fresh : Private) (files : Files) (keys : Private × Public)
      → IsKeyLibrary lib
      → settings.receipt_private_key_path ≢ settings.receipt_public_key_path
      → (generate_keys lib disk settings fresh files).1 ≡ some keys
      → load_keys lib settings (generate_keys lib disk settings fresh files).0 ≡ some keys
  generate_keys-load disk fresh files keys laws apart made =
      ground (arith, made, load_keys-insert fresh files laws apart)

  load_or_generate_keys-load :
      (disk : Disk) (fresh : Private) (files : Files) (keys : Private × Public)
      → IsKeyLibrary lib
      → settings.receipt_private_key_path ≢ settings.receipt_public_key_path
      → (load_or_generate_keys lib disk settings fresh files).1 ≡ some keys
      → load_keys lib settings (load_or_generate_keys lib disk settings fresh files).0 ≡ some keys
  unfolding load_or_generate_keys
  load_or_generate_keys-load disk fresh files keys laws apart made =
      ground (arith, made, generate_keys-load disk fresh files keys laws apart)

  -- Keys that are on disk are loaded, and nothing is written.
  load_or_generate_keys_again :
      (disk : Disk) (fresh : Private) (files : Files) (keys : Private × Public)
      → load_keys lib settings files ≡ some keys
      → load_or_generate_keys lib disk settings fresh files ≡ (files, some keys)
  unfolding load_or_generate_keys
  load_or_generate_keys_again disk fresh files keys loads = ground (arith, loads)

  -- The keys that a process gets are held, and on disk.
  get_keypair-load :
      (disk : Disk) (fresh : Private) (s : KeyStore Private Public) (keys : Private × Public)
      → IsKeyLibrary lib
      → settings.receipt_private_key_path ≢ settings.receipt_public_key_path
      → IsSaved s
      → (get_keypair lib disk settings fresh s).1 ≡ some keys
      → let s' = (get_keypair lib disk settings fresh s).0 in
        (s'.cached ≡ some keys) × (load_keys lib settings s'.files ≡ some keys)
  unfolding get_keypair
  get_keypair-load disk fresh s keys laws apart saved = elim (Option-cases s.cached) [
    | inl e ↦ rw e (λ got. (got, load_or_generate_keys-load disk fresh s.files keys laws apart got))
    | inr (k, e) ↦ rw e (λ got. (got, saved keys (e ∙ got)))
  ]

  get_keypair_again :
      (disk : Disk) (fresh : Private) (s : KeyStore Private Public) (keys : Private × Public)
      → s.cached ≡ some keys
      → load_keys lib settings s.files ≡ some keys
      → get_keypair lib disk settings fresh (restart s) ≡ (s, some keys)
  unfolding get_keypair
  get_keypair_again disk fresh s keys cached loads =
      rw (load_or_generate_keys_again disk fresh s.files keys loads)
        (ap (λ c. (record { files = s.files; cached = c }, some keys)) (sym cached))

  -- Where the two paths differ, a process that loads or generates its keys holds the pair that a later
  -- process loads, whatever key is fresh then, and shows the same public key: nothing is written again. The keys that are held stay
  -- the ones on disk.
  pub get_keypair-restart :
      (disk : Disk) (fresh fresh' : Private) (s : KeyStore Private Public) (keys : Private × Public)
      → IsKeyLibrary lib
      → settings.receipt_private_key_path ≢ settings.receipt_public_key_path
      → IsSaved s
      → (get_keypair lib disk settings fresh s).1 ≡ some keys
      → let s' = (get_keypair lib disk settings fresh s).0 in
        IsSaved s'
        × (get_keypair lib disk settings fresh' (restart s') ≡ (s', some keys))
        × (get_public_key_pem lib disk settings fresh' (restart s')
            ≡ (s', some (lib.public_pem (keys.1))))
  unfolding get_public_key_pem
  get_keypair-restart disk fresh fresh' s keys laws apart saved held =
      let (cached, loads) = get_keypair-load disk fresh s keys laws apart saved held in
      let again =
        get_keypair_again disk fresh' (get_keypair lib disk settings fresh s).0 keys cached loads in
      (λ k e. loads ∙ (sym cached ∙ e), again, rw again refl)
