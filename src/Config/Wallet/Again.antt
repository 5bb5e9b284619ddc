-- ===== src/Config/Wallet/Again.antt =====
-- The runs of `InitWallet` (config/wallet.go) after one that created the seed file.
use sequoia.Prelude.{
  Bool, true, false, List, [], ◌∷◌, Option, none, some, ◌≡◌, refl, ◌∙◌, sym, ap, ◌⊎◌, inl, inr,
}
use sequoia.Prelude.Bytes.{Bytes}
use sequoia.Config.Types.{Config}
use sequoia.Config.Disk.{Disk, DiskLaws, config_file, seed_file, legacy_file, name_of}
use sequoia.Config.Files.{
  HomeError, not_written, bad_seed, Codecs, read_or, read_file, read_config_file, parsed,
}
use sequoia.Config.Files.Stay.{create_present, read_created}
use sequoia.Config.Wallet.{
  Seed, WalletTools, ReadsBack, Random, generate_wallet, Ended, failed, exited, create_wallet_of,
  import_seed, store_seed, generated, create_wallet, detect_legacy_wallet, loaded, after_create,
  unless_legacy, with_config, init_wallet,
}
use sequoia.Config.Wallet.Calls.{Call, wallet_call, run_calls, home_files_stay, legacy_stays}
use sequoia.Config.Wallet.Made.{Made, Made-init_wallet, ending_of}

-- A run that can draw a seed.
pub record Draws (t : WalletTools) (r : Random) : Type 0 where
  pub seed : Seed
  pub json : Bytes
  pub draws : generate_wallet r ≡ inr seed
  pub exports : t.marshal_seed seed ≡ some json

module _ (t : WalletTools) (d : Disk) (k : Codecs d.State) (dir : Bytes) (law : DiskLaws d) where
  open d use {State, read}
  open t use {Wallet}

  -- With a configuration, no legacy wallet and a seed file, the seed file is loaded.
  stored_is_loaded :
      (r : Random) (s : State) (c : Config) (x : Bytes)
      → Draws t r
      → read_config_file d k s dir ≡ inr c
      → detect_legacy_wallet t d s dir ≡ none
      → read s dir (name_of seed_file) ≡ some x
      → ◌≡◌ {A = State × Ended Wallet} (init_wallet t d k r s dir) (s, loaded t (inr x) c.chain_cfg)
  unfolding init_wallet with_config unless_legacy after_create create_wallet read_file
  stored_is_loaded r s c x can config_read no_legacy stored =
      rw
        (
          law.mkdir_of_read s dir seed_file x stored,
          config_read,
          no_legacy,
          can.draws,
          can.exports,
          create_present d law dir s seed_file can.json x stored,
          stored,
        )
        refl

  readable :
      (o : Option Bytes) (c : Config)
      → parsed d k (read_or o config_file) ≡ inr c
      → (y : Bytes) × (o ≡ some y)
  readable none c h = cc
  readable (some y) c h = (y, refl)

  -- What `ReadConfigFile` reads depends on the file alone, and so does `detectLegacyWallet`.
  same_config :
      (s u : State) (c : Config)
      → read u dir (name_of config_file) ≡ read s dir (name_of config_file)
      → read_config_file d k s dir ≡ inr c
      → read_config_file d k u dir ≡ inr c
  unfolding read_config_file read_file
  same_config s u c same h = rw same h

  same_legacy :
      (s u : State)
      → read u dir (name_of legacy_file) ≡ read s dir (name_of legacy_file)
      → detect_legacy_wallet t d s dir ≡ none
      → detect_legacy_wallet t d u dir ≡ none
  unfolding detect_legacy_wallet read_file
  same_legacy s u same h = rw same h

  module _ (b : Bool) (r r' : Random) (s s' : State) (cs : List Call) (x : Bytes)
      (first : ◌≡◌ {A = State × Ended Wallet} (init_wallet t d k r s dir) (s', ending_of b))
      (stored : read s' dir (name_of seed_file) ≡ some x) (can : Draws t r') where
    first_made : Made d k t dir b s' r (d.mkdir_all s dir).0
    first_made = Made-init_wallet d k t dir b s' r s first

    later : State
    later = run_calls t d k dir cs s'

    later_is : later ≡ run_calls t d k dir (wallet_call r ∷ cs) s
    unfolding later run_calls
    later_is = ap (λ (q : State × Ended Wallet). run_calls t d k dir cs q.0) (sym first)

    config_stays :
        read later dir (name_of config_file) ≡ read (d.mkdir_all s dir).0 dir (name_of config_file)
    unfolding read_config_file read_file
    config_stays =
        let (y, found) =
          readable (read (d.mkdir_all s dir).0 dir (name_of config_file)) first_made.config
            first_made.reads_config in
        let before : read s dir (name_of config_file) ≡ some y =
          sym (law.read-mkdir s dir config_file) ∙ found in
        rw (later_is, found)
          (home_files_stay t d k dir law (wallet_call r ∷ cs) s config_file y before)

    legacy_same :
        read later dir (name_of legacy_file) ≡ read (d.mkdir_all s dir).0 dir (name_of legacy_file)
    legacy_same =
        rw later_is (
          legacy_stays t d k dir law (wallet_call r ∷ cs) s
          ∙ sym (law.read-mkdir s dir legacy_file))

    -- The later run loads what stands in the seed file.
    later_run :
        ◌≡◌ {A = State × Ended Wallet}
          (init_wallet t d k r' later dir)
          (later, loaded t (inr x) first_made.config.chain_cfg)
    unfolding later
    later_run =
        stored_is_loaded r' later first_made.config x can
          (same_config (d.mkdir_all s dir).0 later first_made.config config_stays
            first_made.reads_config)
          (same_legacy (d.mkdir_all s dir).0 later legacy_same first_made.no_legacy)
          (home_files_stay t d k dir law cs s' seed_file x stored)

  -- What `createWallet` put in the file.
  record Stored (r : Random) (s' : State) : Type 0 where
    seed : Seed
    json : Bytes
    drawn : generate_wallet r ≡ inr seed
    exported : t.marshal_seed seed ≡ some json
    reads : read s' dir (name_of seed_file) ≡ some json

  Stored-store_seed :
      (o : Option Bytes) (r : Random) (seed : Seed) (s s' : State)
      → generate_wallet r ≡ inr seed
      → t.marshal_seed seed ≡ o
      → ◌≡◌ {A = State × (HomeError ⊎ Bool)} (store_seed t d o s dir) (s', inr true)
      → Stored r s'
  Stored-store_seed none r seed s s' drawn exported h = cc
  Stored-store_seed (some j) r seed s s' drawn exported h = record {
    seed = seed;
    json = j;
    drawn = drawn;
    exported = exported;
    reads = read_created d law dir s s' seed_file j h;
  }

  Stored-generated :
      (g : HomeError ⊎ Seed) (r : Random) (s s' : State)
      → generate_wallet r ≡ g
      → ◌≡◌ {A = State × (HomeError ⊎ Bool)} (generated t d g s dir) (s', inr true)
      → Stored r s'
  Stored-generated (inl e) r s s' drawn h = cc
  Stored-generated (inr seed) r s s' drawn h =
      Stored-store_seed (t.marshal_seed seed) r seed s s' drawn refl h

  Stored-made : (r : Random) (s s' : State) → Made d k t dir true s' r s → Stored r s'
  unfolding create_wallet
  Stored-made r s s' m = Stored-generated (generate_wallet r) r s s' refl m.creates

  -- After a run of `InitWallet` that made a wallet and so ended the process, and any further calls of
  -- `Init` and `InitWallet`, a run that can draw another seed opens the wallet of the seed that the
  -- first one drew, on the chain of the configuration, and changes nothing. What is assumed is that
  -- the JSON of a seed reads back.
  pub seed_is_reused :
      (r r' : Random) (s s' : State) (cs : List Call)
      → ReadsBack t
      → ◌≡◌ {A = State × Ended Wallet} (init_wallet t d k r s dir) (s', exited)
      → Draws t r'
      → (c : Config) × (seed : Seed) × (generate_wallet r ≡ inr seed)
        × (read_config_file d k s' dir ≡ inr c)
        × (◌≡◌ {A = State × Ended Wallet}
            (init_wallet t d k r' (run_calls t d k dir cs s') dir)
            (run_calls t d k dir cs s', create_wallet_of t seed c.chain_cfg))
  unfolding later run_calls import_seed first_made
  seed_is_reused r r' s s' cs back first can =
      let m = Made-init_wallet d k t dir true s' r s first in
      let st = Stored-made r (d.mkdir_all s dir).0 s' m in
      (
        m.config,
        st.seed,
        st.drawn,
        same_config (d.mkdir_all s dir).0 s' m.config
            (config_stays true r r' s s' [] st.json first st.reads can) m.reads_config,
        rw (back st.seed st.json st.exported) at
            (later_run true r r' s s' cs st.json first st.reads can),
      )

  -- A seed file that the first run could not write whole, and that is no JSON of a seed, is never
  -- written again: after any calls of `Init` and `InitWallet`, every run of `InitWallet` that can
  -- draw a seed fails at that file and leaves it.
  pub failed_write_sticks :
      (r r' : Random) (s s' : State) (cs : List Call) (x : Bytes)
      → ◌≡◌ {A = State × Ended Wallet}
          (init_wallet t d k r s dir)
          (s', failed (not_written seed_file))
      → read s' dir (name_of seed_file) ≡ some x
      → t.unmarshal_seed x ≡ none
      → Draws t r'
      → ◌≡◌ {A = State × Ended Wallet}
          (init_wallet t d k r' (run_calls t d k dir cs s') dir)
          (run_calls t d k dir cs s', failed bad_seed)
  unfolding later import_seed
  failed_write_sticks r r' s s' cs x first stored bad can =
      rw bad at (later_run false r r' s s' cs x first stored can)
