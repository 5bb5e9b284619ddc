-- ===== src/Core/Boot.antt =====
-- `NewApp` (core/app.go). The Badger database, its data store and the flat block store are parameters,
-- as are the directory that `os.ExpandEnv` makes of a text and the libraries of the node.
pub mod Checked
pub mod Valid
use sequoia.Prelude.{ℕ, if◌then◌else◌, Bool, true, false, Option, none, some, ◌⊎◌, inl, inr}
use sequoia.Prelude.Bytes.{Bytes, bytes_equal}
use sequoia.Config.Types.{Config, ApiConfig, opt_flat_fs}
use sequoia.Config.Disk.{Disk}
use sequoia.Config.Files.{HomeError, Codecs, init}
use sequoia.Config.Wallet.{WalletTools, Random, Ended, failed, exited, opened, init_wallet}
use sequoia.FileSystem.Node.{
  Libp2p, NodeError, Node, made_node, node_failed, node_panicked, make_ipfs,
}

-- Opening a database or a flat block store makes files in its directory. `combined` is what a node is
-- given of them; there is no flat block store where the blocks are in the database.
pub record Storage (State Stores : Type 0) : Type 1 where
  pub Db : Type 0
  pub DataStore : Type 0
  pub Blocks : Type 0
  pub open_badger : State → Bytes → State × Option Db
  pub new_badger_data_store : Db → Option DataStore
  pub new_flatfs_block_store : State → Bytes → State × Option Blocks
  pub combined : DataStore → Option Blocks → Stores

pub data BootError : Type 0 where
  home_error : HomeError → BootError
  no_data_dir no_database no_data_store no_block_store : BootError
  no_file_system : NodeError → BootError

-- The parts of the new `App`; the file system is its database, node and domain.
pub record Parts (Wallet Peer Host Db Blocks : Type 0) : Type 0 where
  pub peer : Peer
  pub host : Host
  pub domain : Bytes
  pub db : Db
  pub blocks : Option Blocks
  pub api : ApiConfig
  pub home : Bytes
  pub wallet : Wallet

pub data Boot (P : Type 0) : Type 0 where
  boot_failed : BootError → Boot P
  boot_exited boot_panicked : Boot P
  booted : P → Boot P

-- What the run brings along: the seed that it draws, and the key that it generates.
pub record Fresh (Key : Type 0) : Type 0 where
  pub random : Random
  pub key : Option Key

module _ (t : WalletTools) (d : Disk) (k : Codecs d.State) (l : Libp2p)
    (st : Storage d.State l.Stores) (expand : Bytes → Bytes) (home : Bytes) where
  open d use {State}
  open t use {Wallet}
  open l use {Key, Peer, Host}
  open st use {Db, DataStore, Blocks}

  abbrev pub Booting : Type 0
  Booting = Boot (Parts Wallet Peer Host Db Blocks)

  pub with_node : Config → Db → Option Blocks → Wallet → Node Host Peer → Booting
  with_node cfg db bs w (node_failed e) = boot_failed (no_file_system e)
  with_node cfg db bs w node_panicked = boot_panicked
  with_node cfg db bs w (made_node p h) = booted (record {
    peer = p;
    host = h;
    domain = cfg.api_cfg.ipfs_domain;
    db = db;
    blocks = bs;
    api = cfg.api_cfg;
    home = home;
    wallet = w;
  })

  abbrev pub node_of : Config → DataStore → Option Blocks → Option Key → Node Host Peer
  node_of cfg ds bs key =
      make_ipfs l key cfg.block_store_config.key (st.combined ds bs) cfg.api_cfg.ipfs_port
        cfg.api_cfg.ipfs_domain

  pub with_account :
      Config → Db → DataStore → Option Blocks → Option Key → State × Ended Wallet → State × Booting
  unfolding with_node
  with_account cfg db ds bs key (s, failed e) = (s, boot_failed (home_error e))
  with_account cfg db ds bs key (s, exited) = (s, boot_exited)
  with_account cfg db ds bs key (s, opened w) = (s, with_node cfg db bs w (node_of cfg ds bs key))

  -- The wallet comes after the stores are open.
  abbrev pub account : Config → Db → DataStore → Option Blocks → Fresh Key → State → State × Booting
  account cfg db ds bs f s =
      with_account cfg db ds bs f.key (init_wallet t d k f.random s (expand home))

  pub with_blocks : Config → Db → DataStore → Fresh Key → State × Option Blocks → State × Booting
  unfolding with_account
  with_blocks cfg db ds f (s, none) = (s, boot_failed no_block_store)
  with_blocks cfg db ds f (s, some bs) = account cfg db ds (some bs) f s

  -- Any type of store but the flat one leaves the block store to the node.
  pub with_data_store : Config → Db → Fresh Key → State → Option DataStore → State × Booting
  unfolding with_blocks with_account
  with_data_store cfg db f s none = (s, boot_failed no_data_store)
  with_data_store cfg db f s (some ds) =
      if bytes_equal cfg.block_store_config.type opt_flat_fs
      then with_blocks cfg db ds f
          (st.new_flatfs_block_store s (expand cfg.block_store_config.directory))
      else account cfg db ds none f s

  pub with_database : Config → Fresh Key → State × Option Db → State × Booting
  unfolding with_data_store
  with_database cfg f (s, none) = (s, boot_failed no_database)
  with_database cfg f (s, some db) = with_data_store cfg db f s (st.new_badger_data_store db)

  pub with_data_dir : Config → Fresh Key → State × Bool → State × Booting
  unfolding with_database
  with_data_dir cfg f (s, false) = (s, boot_failed no_data_dir)
  with_data_dir cfg f (s, true) = with_database cfg f (st.open_badger s (expand cfg.data_directory))

  pub with_settings : Fresh Key → State × (HomeError ⊎ Config) → State × Booting
  unfolding with_data_dir
  with_settings f (s, inl e) = (s, boot_failed (home_error e))
  with_settings f (s, inr cfg) = with_data_dir cfg f (d.mkdir_all s (expand cfg.data_directory))

  -- `NewApp`.
  unfoldable pub new_app : Fresh Key → State → State × Booting
  unfolding with_settings
  new_app f s = with_settings f (init d k s (expand home))
