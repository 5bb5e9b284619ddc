-- ===== src/Config/Wallet/Calls.antt =====
-- Any sequence of calls of `Init` and `InitWallet` (config/) in one home directory.
use sequoia.Prelude.{
  Bool, true, false, List, [], ◌∷◌, Option, none, some, ◌≡◌, refl, ◌∙◌, ◌⊎◌, inl, inr,
}
use sequoia.Prelude.Bytes.{Bytes}
use sequoia.Config.Types.{Config, ChainConfig, default_config}
use sequoia.Config.Disk.{
  Disk, DiskLaws, FileName, config_file, seed_file, legacy_file, name_of, same_file,
}
use sequoia.Config.Files.{
  HomeError, Codecs, Lookup, settings, no_config_file, lookup_failed, export, create_files,
  unless_failed, look_up, init, read_config_file, create_if_not_exists, or_exported, in_directory,
}
use sequoia.Config.Files.Stay.{read-create_if_not_exists, read-create_other}
use sequoia.Config.Wallet.{
  Seed, LegacyWallet, WalletTools, Random, generate_wallet, generated, create_wallet, store_seed,
  detect_legacy_wallet, after_create, unless_legacy, with_config, made, init_wallet,
}

pub data Call : Type 0 where
  init_call : Call
  wallet_call : Random → Call

module _ (t : WalletTools) (d : Disk) (k : Codecs d.State) (dir : Bytes) where
  open d use {State, read}

  abbrev pub call : Call → State → State
  call init_call s = (init d k s dir).0
  call (wallet_call r) s = (init_wallet t d k r s dir).0

  unfoldable pub run_calls : List Call → State → State
  run_calls [] s = s
  run_calls (c ∷ cs) s = run_calls cs (call c s)

  -- What making the directory and creating the configuration or the seed keep, all calls keep.
  module _ (P : State → Type 0) (on_mkdir : (s : State) → P s → P (d.mkdir_all s dir).0)
      (on_create : (f : FileName) (x : Bytes) (s : State)
        → same_file legacy_file f ≡ false
        → P s
        → P (create_if_not_exists d s dir f x).0) where
    keeps-or_exported : (o : Option Bytes) (s : State) → P s → P (or_exported d o s dir).0
    keeps-or_exported none s h = h
    keeps-or_exported (some x) s h = on_create config_file x s refl h

    keeps-unless_failed : (r : State × Option HomeError) → P r.0 → P (unless_failed d k r).0
    keeps-unless_failed (s, none) h = h
    keeps-unless_failed (s, some e) h = h

    keeps-look_up : (l : Lookup) (s : State) → P s → P (look_up d k l s dir).0
    unfolding look_up create_files
    keeps-look_up (settings x) s h = h
    keeps-look_up lookup_failed s h = h
    keeps-look_up no_config_file s h =
        keeps-unless_failed (or_exported d (export k.marshal default_config) s dir)
          (keeps-or_exported (export k.marshal default_config) s h)

    keeps-in_directory : (q : State × Bool) → P q.0 → P (in_directory d k q dir).0
    keeps-in_directory (s, false) h = h
    keeps-in_directory (s, true) h = keeps-look_up (k.read_in_config s dir) s h

    keeps-store_seed : (o : Option Bytes) (s : State) → P s → P (store_seed t d o s dir).0
    keeps-store_seed none s h = h
    keeps-store_seed (some x) s h = on_create seed_file x s refl h

    keeps-generated : (g : HomeError ⊎ Seed) (s : State) → P s → P (generated t d g s dir).0
    keeps-generated (inl e) s h = h
    keeps-generated (inr seed) s h = keeps-store_seed (t.marshal_seed seed) s h

    keeps-after_create :
        (q : State × (HomeError ⊎ Bool)) (c : ChainConfig) → P q.0 → P (after_create t d q dir c).0
    unfolding after_create
    keeps-after_create (s, inl e) c h = h
    keeps-after_create (s, inr true) c h = h
    keeps-after_create (s, inr false) c h = h

    keeps-unless_legacy :
        (o : Option LegacyWallet) (r : Random) (s : State) (c : ChainConfig)
        → P s
        → P (unless_legacy t d o r s dir c).0
    unfolding unless_legacy create_wallet
    keeps-unless_legacy (some l) r s c h = h
    keeps-unless_legacy none r s c h =
        keeps-after_create (generated t d (generate_wallet r) s dir) c
          (keeps-generated (generate_wallet r) s h)

    keeps-with_config :
        (v : HomeError ⊎ Config) (r : Random) (s : State) → P s → P (with_config t d v r s dir).0
    unfolding with_config
    keeps-with_config (inl e) r s h = h
    keeps-with_config (inr c) r s h =
        keeps-unless_legacy (detect_legacy_wallet t d s dir) r s c.chain_cfg h

    keeps-made : (q : State × Bool) (r : Random) → P q.0 → P (made t d k q r dir).0
    keeps-made (s, false) r h = h
    keeps-made (s, true) r h = keeps-with_config (read_config_file d k s dir) r s h

    keeps-call : (c : Call) (s : State) → P s → P (call c s)
    unfolding init init_wallet
    keeps-call init_call s h = keeps-in_directory (d.mkdir_all s dir) (on_mkdir s h)
    keeps-call (wallet_call r) s h = keeps-made (d.mkdir_all s dir) r (on_mkdir s h)

    pub keeps-run_calls : (cs : List Call) (s : State) → P s → P (run_calls cs s)
    unfolding run_calls
    keeps-run_calls [] s h = h
    keeps-run_calls (c ∷ cs) s h = keeps-run_calls cs (call c s) (keeps-call c s h)

  module _ (law : DiskLaws d) where
    -- Whatever calls of `Init` and `InitWallet` are made, a file of the home directory that can be
    -- read before them, the seed, the configuration or a legacy key, reads the same after them.
    pub home_files_stay :
        (cs : List Call) (s : State) (f : FileName) (y : Bytes)
        → read s dir (name_of f) ≡ some y
        → read (run_calls cs s) dir (name_of f) ≡ some y
    home_files_stay cs s f y h =
        keeps-run_calls (λ (q : State). read q dir (name_of f) ≡ some y)
          (λ q e. law.read-mkdir q dir f ∙ e)
          (λ g x q other e. read-create_if_not_exists d law dir q g f x y e) cs s h

    -- No call makes a legacy wallet, or changes one.
    pub legacy_stays :
        (cs : List Call) (s : State)
        → read (run_calls cs s) dir (name_of legacy_file) ≡ read s dir (name_of legacy_file)
    legacy_stays cs s =
        keeps-run_calls
          (λ (q : State). read q dir (name_of legacy_file) ≡ read s dir (name_of legacy_file))
          (λ q e. law.read-mkdir q dir legacy_file ∙ e)
          (λ g x q other e. read-create_other d law dir q g legacy_file x other ∙ e) cs s refl
