-- ===== src/Core/Boot/Valid.antt =====
-- What holds of an application that `NewApp` (core/app.go) returns.
use sequoia.Prelude.{
  Bool, true, false, Option, none, some, ◌≡◌, refl, sym, ap, ◌∙◌, inl, inr, Bool-cases,
}
use sequoia.Prelude.Bytes.{Bytes, bytes_equal}
use sequoia.Config.Types.{Config, opt_flat_fs}
use sequoia.Config.Validate.{with_store, validate, IsValid, validate-IsValid, read_config}
use sequoia.Config.Disk.{Disk, DiskLaws, config_file, name_of}
use sequoia.Config.Files.{Codecs, settings, look_up, init, read_file, read_config_file, valid_or}
use sequoia.Config.Wallet.{WalletTools, init_wallet}
use sequoia.FileSystem.Node.{Libp2p}
use sequoia.Core.Boot.{
  Storage, Fresh, account, with_blocks, with_data_store, with_database, with_data_dir,
  with_settings, new_app,
}
use sequoia.Core.Boot.Checked.{Leaves, is_some, is_flat, filled_is_flat, Made, Boots, checked}

module _ (t : WalletTools) (d : Disk) (k : Codecs d.State) (l : Libp2p)
    (st : Storage d.State l.Stores) (expand : Bytes → Bytes) (home : Bytes) where
  open d use {State, read}
  open t use {Wallet}
  open l use {Key, Peer, Host}
  open st use {Db, DataStore, Blocks}

  -- The store that an application has, and the check that its start has passed.
  record Passed (cfg c : Config) (a : Made t d k l st expand home) : Type 0 where
    valid : validate (with_store c) ≡ none
    flat : is_some a.blocks ≡ is_flat cfg

  module _ (law : DiskLaws d) (leaves : Leaves d st (expand home)) (c : Config) (x : Bytes)
      (parses : k.unmarshal x ≡ some c) where
    abbrev Stored : State → Type 0
    Stored s = read s (expand home) (name_of config_file) ≡ some x

    config_read : read_config k.unmarshal x ≡ some (with_store c, validate (with_store c))
    unfolding read_config
    config_read = rw (parses, read_config) refl

    reads_config :
        (s : State)
        → Stored s
        → read_config_file d k s (expand home)
          ≡ valid_or d k (some (with_store c, validate (with_store c)))
    unfolding read_config_file read_file
    reads_config s stored = rw stored (ap (valid_or d k) config_read)

    account_checked :
        (cfg : Config) (db : Db) (ds : DataStore) (bs : Option Blocks) (f : Fresh Key)
        (s s' : State) (a : Made t d k l st expand home)
        → Stored s
        → Boots t d k l st expand home (account t d k l st expand home cfg db ds bs f s) s' a
        → (validate (with_store c) ≡ none) × (a.blocks ≡ bs)
    unfolding init_wallet
    account_checked cfg db ds bs f s s' a stored h =
        checked t d k l st expand home cfg (with_store c) db ds bs f (validate (with_store c)) s s'
          a
          (rw (law.mkdir_of_read s (expand home) config_file x stored, reads_config s stored) at h)

    passed :
        (cfg : Config) (b : Bool) (a : Made t d k l st expand home) (bs : Option Blocks)
        → is_flat cfg ≡ b
        → is_some bs ≡ b
        → (validate (with_store c) ≡ none) × (a.blocks ≡ bs)
        → Passed cfg c a
    passed cfg b a bs flat some_blocks (valid, same) = record {
      valid = valid;
      flat = rw same (some_blocks ∙ sym flat);
    }

    with_blocks-Passed :
        (cfg : Config) (db : Db) (ds : DataStore) (f : Fresh Key) (q : State × Option Blocks)
        (s' : State) (a : Made t d k l st expand home)
        → Stored q.0
        → is_flat cfg ≡ true
        → Boots t d k l st expand home (with_blocks t d k l st expand home cfg db ds f q) s' a
        → Passed cfg c a
    unfolding with_blocks
    with_blocks-Passed cfg db ds f (s, none) s' a stored flat h = cc
    with_blocks-Passed cfg db ds f (s, some bs) s' a stored flat h =
        passed cfg true a (some bs) flat refl
          (account_checked cfg db ds (some bs) f s s' a stored h)

    with_data_store-Passed :
        (cfg : Config) (db : Db) (f : Fresh Key) (s : State) (o : Option DataStore) (s' : State)
        (a : Made t d k l st expand home)
        → Stored s
        → Boots t d k l st expand home (with_data_store t d k l st expand home cfg db f s o) s' a
        → Passed cfg c a
    unfolding with_data_store is_flat
    with_data_store-Passed cfg db f s none s' a stored h = cc
    with_data_store-Passed cfg db f s (some ds) s' a stored h = elim (Bool-cases (is_flat cfg)) [
      | inl flat ↦
          with_blocks-Passed cfg db ds f
            (st.new_flatfs_block_store s (expand cfg.block_store_config.directory)) s' a
            (leaves.flatfs_leaves s (expand cfg.block_store_config.directory) ∙ stored) flat
            (rw flat at h)
      | inr other ↦
          passed cfg false a none other refl
            (account_checked cfg db ds none f s s' a stored (rw other at h))
    ]

    with_database-Passed :
        (cfg : Config) (f : Fresh Key) (q : State × Option Db) (s' : State)
        (a : Made t d k l st expand home)
        → Stored q.0
        → Boots t d k l st expand home (with_database t d k l st expand home cfg f q) s' a
        → Passed cfg c a
    unfolding with_database
    with_database-Passed cfg f (s, none) s' a stored h = cc
    with_database-Passed cfg f (s, some db) s' a stored h =
        with_data_store-Passed cfg db f s (st.new_badger_data_store db) s' a stored h

    with_data_dir-Passed :
        (cfg : Config) (f : Fresh Key) (q : State × Bool) (s' : State)
        (a : Made t d k l st expand home)
        → Stored q.0
        → Boots t d k l st expand home (with_data_dir t d k l st expand home cfg f q) s' a
        → Passed cfg c a
    unfolding with_data_dir
    with_data_dir-Passed cfg f (s, false) s' a stored h = cc
    with_data_dir-Passed cfg f (s, true) s' a stored h =
        with_database-Passed cfg f (st.open_badger s (expand cfg.data_directory)) s' a
          (leaves.badger_leaves s (expand cfg.data_directory) ∙ stored) h

    -- An application is made only if the configuration of the home, with the store that it is given when
    -- it names none, is valid, although the settings themselves are not checked; and it has a block store
    -- of its own exactly if that configuration's store is the flat file system. What is assumed is that
    -- viper finds the configuration of the home and reads it as YAML does, and that opening the stores
    -- leaves that file alone.
    pub new_app-IsValid :
        (f : Fresh Key) (s s' : State) (a : Made t d k l st expand home)
        → read s (expand home) (name_of config_file) ≡ some x
        → k.read_in_config s (expand home) ≡ settings x
        → k.unmarshal_settings (some x) ≡ some c
        → Boots t d k l st expand home (new_app t d k l st expand home f s) s' a
        → IsValid (with_store c)
          × (is_some a.blocks ≡ bytes_equal (with_store c).block_store_config.type opt_flat_fs)
    unfolding new_app with_settings init look_up is_flat
    new_app-IsValid f s s' a stored found agrees h =
        let booted_so =
          rw (law.mkdir_of_read s (expand home) config_file x stored, found, agrees) at h in
        let p =
          with_data_dir-Passed c f (d.mkdir_all s (expand c.data_directory)) s' a
            (leaves.mkdir_leaves s (expand c.data_directory) ∙ stored) booted_so in
        ((validate-IsValid (with_store c)).0 p.valid, p.flat ∙ sym (filled_is_flat _ c refl))
