-- ===== src/Config/Wallet/Made.antt =====
-- What a run of `InitWallet` (config/wallet.go) did when it came to create a seed file.
use sequoia.Prelude.{Bool, true, false, Option, none, some, ◌≡◌, refl, ap, ◌⊎◌, inl, inr}
use sequoia.Prelude.Bytes.{Bytes}
use sequoia.Prelude.Bytes.Hex.{hex_decode}
use sequoia.Config.Types.{Config, ChainConfig}
use sequoia.Config.Disk.{Disk, seed_file, config_file, name_of}
use sequoia.Config.Files.{
  HomeError, no_directory, not_written, Codecs, read_or, read_file, read_config_file, parsed,
  valid_or,
}
use sequoia.Config.Validate.{ConfigError, read_config}
use sequoia.Config.Wallet.{
  Seed, LegacyWallet, WalletTools, Random, Ended, failed, exited, opened, or_no_wallet, with_client,
  create_wallet_of, create_wallet_priv_key, with_key, or_bad_seed, import_seed, create_wallet,
  detect_legacy_wallet, prefixes, imported, loaded, after_create, unless_legacy, with_config, made,
  init_wallet,
}

-- A seed that was written, or one that was not written whole.
abbrev pub result_of : Bool → HomeError ⊎ Bool
result_of true = inr true
result_of false = inl (not_written seed_file)

abbrev pub ending_of : {W : Type 0} → Bool → Ended W
ending_of true = exited
ending_of false = failed (not_written seed_file)

write_error : HomeError → Option Bool
write_error (not_written f) = some false
write_error _ = none

-- Whether an ending is one of those two, and which.
written_of : {W : Type 0} → Ended W → Option Bool
unfolding write_error
written_of exited = some true
written_of (failed e) = write_error e
written_of (opened w) = none

written_of-ending_of : (W : Type 0) (b : Bool) → written_of (ending_of {W = W} b) ≡ some b
unfolding written_of
written_of-ending_of W true = refl
written_of-ending_of W false = refl

other : {W : Type 0} (e : Ended W) (b : Bool) → written_of e ≡ none → e ≡ ending_of b → ⊥
other {W} e b h eq =
    let p : written_of e ≡ written_of (ending_of b) = ap written_of eq in
    absurd_option (rw (h, written_of-ending_of W b) at p)
  where
    absurd_option : none ≡ some b → ⊥
    absurd_option q = cc

module _ (t : WalletTools) where
  open t use {Client, Wallet}

  or_no_wallet-Other : (o : Option Wallet) → written_of (or_no_wallet t o) ≡ none
  unfolding written_of
  or_no_wallet-Other none = refl
  or_no_wallet-Other (some w) = refl

  with_client-Other :
      (o : Option Client) (make : Client → Option Wallet) → written_of (with_client t o make) ≡ none
  unfolding written_of
  with_client-Other none make = refl
  with_client-Other (some c) make = or_no_wallet-Other (make c)

  with_key-Other : (o : Option Bytes) (c : ChainConfig) → written_of (with_key t o c) ≡ none
  unfolding written_of
  with_key-Other none c = refl
  with_key-Other (some key) c =
      with_client-Other (t.new_client c) (t.new_wallet_from_key (prefixes t c) key)

  imported-Other :
      (o : Option Seed) (c : ChainConfig) → written_of (imported t (or_bad_seed t o) c) ≡ none
  unfolding written_of create_wallet_of
  imported-Other none c = refl
  imported-Other (some seed) c =
      with_client-Other (t.new_client c) (t.new_wallet (prefixes t c) seed)

  loaded-Other :
      (o : Option Bytes) (c : ChainConfig) → written_of (loaded t (read_or o seed_file) c) ≡ none
  unfolding written_of import_seed
  loaded-Other none c = refl
  loaded-Other (some x) c = imported-Other (t.unmarshal_seed x) c

module _ (d : Disk) (k : Codecs d.State) where
  open d use {State}

  error_of_config : HomeError ⊎ Config → Option Bool
  unfolding write_error
  error_of_config (inl e) = write_error e
  error_of_config (inr c) = none

  valid_or-Other :
      (o : Option (Config × Option ConfigError)) → error_of_config (valid_or d k o) ≡ none
  unfolding error_of_config
  valid_or-Other none = refl
  valid_or-Other (some (c, none)) = refl
  valid_or-Other (some (c, some x)) = refl

  parsed-Other : (o : Option Bytes) → error_of_config (parsed d k (read_or o config_file)) ≡ none
  unfolding error_of_config
  parsed-Other none = refl
  parsed-Other (some x) = valid_or-Other (read_config k.unmarshal x)

  module _ (t : WalletTools) (dir : Bytes) (b : Bool) (s' : State) where
    open t use {Wallet}

    abbrev Ends : State × Ended Wallet → Type 0
    Ends q = ◌≡◌ {A = State × Ended Wallet} q (s', ending_of b)

    abbrev Creates : State × (HomeError ⊎ Bool) → Type 0
    Creates q = ◌≡◌ {A = State × (HomeError ⊎ Bool)} q (s', result_of b)

    failed-creates :
        (s : State) (e : HomeError) (b' : Bool)
        → ◌≡◌ {A = State × Ended Wallet} (s, failed e) (s', ending_of b')
        → ◌≡◌ {A = State × (HomeError ⊎ Bool)} (s, inl e) (s', result_of b')
    failed-creates s e true h = cc
    failed-creates s e false h = cc

    exited-creates :
        (s : State) (b' : Bool)
        → ◌≡◌ {A = State × Ended Wallet} (s, exited) (s', ending_of b')
        → ◌≡◌ {A = State × (HomeError ⊎ Bool)} (s, inr true) (s', result_of b')
    exited-creates s true h = cc
    exited-creates s false h = cc

    after_create-Creates :
        (q : State × (HomeError ⊎ Bool)) (c : ChainConfig)
        → Ends (after_create t d q dir c)
        → Creates q
    unfolding after_create read_file
    after_create-Creates (s, inl e) c h = failed-creates s e b h
    after_create-Creates (s, inr true) c h = exited-creates s b h
    after_create-Creates (s, inr false) c h = absurd (
        other (loaded t (read_or (d.read s dir (name_of seed_file)) seed_file) c) b
          (loaded-Other t (d.read s dir (name_of seed_file)) c)
          (ap (λ (q : State × Ended Wallet). q.1) h))

    -- The state in which it created the file, and what it had read by then.
    pub record Made (r : Random) (s : State) : Type 0 where
      pub config : Config
      pub reads_config : read_config_file d k s dir ≡ inr config
      pub no_legacy : detect_legacy_wallet t d s dir ≡ none
      pub creates :
          ◌≡◌ {A = State × (HomeError ⊎ Bool)} (create_wallet t d r s dir) (s', result_of b)

    legacy-none :
        (o : Option LegacyWallet) (r : Random) (s : State) (c : ChainConfig)
        → Ends (unless_legacy t d o r s dir c)
        → (o ≡ none) × Creates (create_wallet t d r s dir)
    unfolding unless_legacy create_wallet_priv_key
    legacy-none (some l) r s c h = absurd (
        other (with_key t (hex_decode l.key) c) b (with_key-Other t (hex_decode l.key) c)
          (ap (λ (q : State × Ended Wallet). q.1) h))
    legacy-none none r s c h = (refl, after_create-Creates (create_wallet t d r s dir) c h)

    Made-with_config :
        (v : HomeError ⊎ Config) (r : Random) (s : State)
        → read_config_file d k s dir ≡ v
        → Ends (with_config t d v r s dir)
        → Made r s
    unfolding with_config read_config_file read_file error_of_config written_of
    Made-with_config (inl e) r s eq h = absurd (
        other {W = Wallet} (failed e) b
          (rw eq at (parsed-Other (d.read s dir (name_of config_file))))
          (ap (λ (q : State × Ended Wallet). q.1) h))
    Made-with_config (inr c) r s eq h =
        let (none_found, creates) =
          legacy-none (detect_legacy_wallet t d s dir) r s c.chain_cfg h in
        record { config = c; reads_config = eq; no_legacy = none_found; creates = creates }

    Made-made : (q : State × Bool) (r : Random) → Ends (made t d k q r dir) → Made r q.0
    unfolding written_of write_error
    Made-made (s, false) r h =
        absurd (other (failed no_directory) b refl (ap (λ (q : State × Ended Wallet). q.1) h))
    Made-made (s, true) r h = Made-with_config (read_config_file d k s dir) r s refl h

    -- A run that ended the process, or could not write the whole seed, had a valid configuration and
    -- no legacy wallet.
    pub Made-init_wallet :
        (r : Random) (s : State) → Ends (init_wallet t d k r s dir) → Made r (d.mkdir_all s dir).0
    unfolding init_wallet
    Made-init_wallet r s h = Made-made (d.mkdir_all s dir) r h
