-- ===== src/Core/Boot/Checked.antt =====
-- The steps of `NewApp` (core/app.go) from the opening of the wallet on.
use sequoia.Prelude.{Bool, true, false, [], ◌∷◌, ◌&&◌, Option, none, some, ◌≡◌, refl, sym, ap, inr}
use sequoia.Prelude.Bytes.{Bytes, bytes_equal}
use sequoia.Config.Types.{Config, opt_flat_fs}
use sequoia.Config.Validate.{ConfigError, is_empty, with_store}
use sequoia.Config.Disk.{Disk, config_file, name_of}
use sequoia.Config.Files.{Codecs, valid_or}
use sequoia.Config.Wallet.{WalletTools, Ended, failed, exited, opened, with_config}
use sequoia.FileSystem.Node.{Libp2p, Node, made_node, node_failed, node_panicked}
use sequoia.Core.Boot.{Storage, Parts, Boot, booted, Fresh, with_node, node_of, with_account}

-- Making a directory, a database or a block store leaves the configuration of the home alone.
pub record Leaves (d : Disk) {Stores : Type 0} (st : Storage d.State Stores) (dir : Bytes)
    : Type 0 where
  pub mkdir_leaves :
      (s : d.State) (x : Bytes)
      → d.read (d.mkdir_all s x).0 dir (name_of config_file) ≡ d.read s dir (name_of config_file)
  pub badger_leaves :
      (s : d.State) (x : Bytes)
      → d.read (st.open_badger s x).0 dir (name_of config_file) ≡ d.read s dir (name_of config_file)
  pub flatfs_leaves :
      (s : d.State) (x : Bytes)
      → d.read (st.new_flatfs_block_store s x).0 dir (name_of config_file)
        ≡ d.read s dir (name_of config_file)

abbrev pub is_some {ℓ} : {A : Type ℓ} → Option A → Bool
is_some none = false
is_some (some x) = true

-- The text of the flat file system is not that of a store that `ReadConfig` fills in.
unfoldable pub is_flat : Config → Bool
is_flat c = bytes_equal c.block_store_config.type opt_flat_fs

both : (a b : Bool) → a && b ≡ true → a ≡ true
both true b h = refl
both false b h = cc

empty_not_flat : (x : Bytes) → is_empty x ≡ true → bytes_equal x opt_flat_fs ≡ false
unfolding bytes_equal
empty_not_flat [] h = refl
empty_not_flat (b ∷ x) h = cc

pub filled_is_flat :
    (b : Bool) (c : Config)
    → is_empty c.block_store_config.type && is_empty c.block_store_config.directory ≡ b
    → is_flat (with_store c) ≡ is_flat c
unfolding is_flat with_store bytes_equal
filled_is_flat true c e =
    let empty =
      both (is_empty c.block_store_config.type) (is_empty c.block_store_config.directory) e in
    rw (e, empty_not_flat c.block_store_config.type empty) refl
filled_is_flat false c e = rw e refl

module _ (t : WalletTools) (d : Disk) (k : Codecs d.State) (l : Libp2p)
    (st : Storage d.State l.Stores) (expand : Bytes → Bytes) (home : Bytes) where
  open d use {State, read}
  open t use {Wallet}
  open l use {Key, Peer, Host}
  open st use {Db, DataStore, Blocks}

  abbrev pub Made : Type 0
  Made = Parts Wallet Peer Host Db Blocks

  abbrev pub Boots : State × Boot Made → State → Made → Type 0
  Boots r s' a = ◌≡◌ {A = State × Boot Made} r (s', booted a)

  node_blocks :
      (cfg : Config) (db : Db) (bs : Option Blocks) (w : Wallet) (n : Node Host Peer) (a : Made)
      → with_node t d k l st expand home cfg db bs w n ≡ booted a
      → a.blocks ≡ bs
  unfolding with_node
  node_blocks cfg db bs w (node_failed e) a h = cc
  node_blocks cfg db bs w node_panicked a h = cc
  node_blocks cfg db bs w (made_node p q) a h = sym (ap blocks_of h)
    where
      blocks_of : Boot Made → Option Blocks
      blocks_of (booted x) = x.blocks
      blocks_of _ = bs

  pub account_blocks :
      (cfg : Config) (db : Db) (ds : DataStore) (bs : Option Blocks) (key : Option Key)
      (q : State × Ended Wallet) (s' : State) (a : Made)
      → Boots (with_account t d k l st expand home cfg db ds bs key q) s' a
      → a.blocks ≡ bs
  unfolding with_account
  account_blocks cfg db ds bs key (s, failed e) s' a h = cc
  account_blocks cfg db ds bs key (s, exited) s' a h = cc
  account_blocks cfg db ds bs key (s, opened w) s' a h =
      node_blocks cfg db bs w (node_of t d k l st expand home cfg ds bs key) a
        (ap (λ (q : State × Boot Made). q.1) h)

  -- What was read of the configuration, with the errors in it.
  pub checked :
      (cfg c' : Config) (db : Db) (ds : DataStore) (bs : Option Blocks) (f : Fresh Key)
      (v : Option ConfigError) (s s' : State) (a : Made)
      → Boots
          (with_account t d k l st expand home cfg db ds bs f.key
            (with_config t d (valid_or d k (some (c', v))) f.random s (expand home)))
          s'
          a
      → (v ≡ none) × (a.blocks ≡ bs)
  unfolding with_config with_account
  checked cfg c' db ds bs f none s s' a h = (
    refl,
    account_blocks cfg db ds bs f.key (with_config t d (inr c') f.random s (expand home)) s' a h,
  )
  checked cfg c' db ds bs f (some e) s s' a h = cc
