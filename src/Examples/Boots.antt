-- ===== src/Examples/Boots.antt =====
-- A start of the application in a home in memory, and a node in memory.
use sequoia.Prelude.{List, [], ◌∷◌, none, some, ◌≡◌, refl, arith}
use sequoia.Prelude.Int.{pos}
use sequoia.Prelude.Bytes.{Bytes, bytes_equal, codes, contains_text}
use sequoia.Prelude.Bytes.Hex.{hex_encode, hex_decode}
use sequoia.Prelude.Bytes.Decimal.{format_int}
use sequoia.Config.Types.{default_config, opt_flat_fs}
use sequoia.Config.Validate.{IsValid, with_store, read_config}
use sequoia.Config.Disk.{config_file, name_of}
use sequoia.Config.Files.{settings, init, read_config_file, create_if_not_exists}
use sequoia.Config.Wallet.{
  init_wallet, detect_legacy_wallet, create_wallet, generate_wallet, import_seed, create_wallet_of,
}
use sequoia.FileSystem.Node.{Libp2p, listeners, at_addrs, make_ipfs}
use sequoia.FileSystem.Node.Saved.{saved_key_same_node}
use sequoia.Core.Boot.{Storage, Parts, Boot, booted, Fresh, new_app}
use sequoia.Core.Boot.Checked.{Leaves, is_some}
use sequoia.Core.Boot.Valid.{new_app-IsValid}
use sequoia.Examples.Homes.{
  Home, memory_disk, memory_disk-DiskLaws, tools, codecs, directory, random,
}
use sequoia.Examples.Wallets.{seeded}

abbrev library : Libp2p
library = record {
  Key = Bytes;
  Addr = Bytes;
  Host = List Bytes;
  Peer = Unit;
  Stores = Unit;
  marshal_key = λ k. some k;
  unmarshal_key = λ k. some k;
  new_multiaddr = λ a. some a;
  setup = λ s k addrs. some addrs;
  new_peer = λ s h. some tt;
  id = λ h. codes "id";
  addrs = λ h. h;
  peers = λ h. [];
}

saved_key_same_node_example :
    (make_ipfs library (some (8 ∷ 200 ∷ [])) [] tt (pos 4005) (codes "dns4/me")
      ≡ at_addrs library tt (8 ∷ 200 ∷ []) (listeners library (pos 4005) (codes "dns4/me")))
    × (make_ipfs library none (hex_encode (8 ∷ 200 ∷ [])) tt (pos 4005) (codes "dns4/me")
        ≡ at_addrs library tt (8 ∷ 200 ∷ []) (listeners library (pos 4005) (codes "dns4/me")))
saved_key_same_node_example =
    saved_key_same_node library (8 ∷ 200 ∷ []) (8 ∷ 200 ∷ []) none tt (pos 4005) (codes "dns4/me")
      refl refl (omega arith, (omega arith, tt)) (λ e. cc)

abbrev storage : Storage Home Unit
storage = record {
  Db = Unit;
  DataStore = Unit;
  Blocks = Bytes;
  open_badger = λ s dir. (s, some tt);
  new_badger_data_store = λ db. some tt;
  new_flatfs_block_store = λ s dir. (s, some dir);
  combined = λ ds bs. tt;
}

storage-Leaves : Leaves (memory_disk 100) storage directory
storage-Leaves = record {
  mkdir_leaves = λ s x. refl;
  badger_leaves = λ s x. refl;
  flatfs_leaves = λ s x. refl;
}

abbrev at_home : Bytes → Bytes
at_home x = directory

abbrev fresh : Fresh Bytes
fresh = record { random = random; key = some (8 ∷ 200 ∷ []) }

abbrev Application : Type 0
Application = Parts Bytes Unit (List Bytes) Unit Bytes

-- The home after the first run.
abbrev ready : Home
ready = seeded 100

abbrev started_app : Application
started_app = record {
  peer = tt;
  host =
      codes "/ip4/0.0.0.0/tcp/4005" ∷ codes "/ip6/::/tcp/4005" ∷ codes "/ip4/0.0.0.0/tcp/4001" ∷ [];
  domain = codes "dns4/ipfs.example.com/tcp/4001";
  db = tt;
  blocks = some directory;
  api = default_config.api_cfg;
  home = codes "~";
  wallet = codes "firm";
}

starts :
    ◌≡◌ {A = Home × Boot Application}
      (new_app tools (memory_disk 100) codecs library storage at_home (codes "~") fresh ready)
      (ready, booted started_app)
unfolding new_app init bytes_equal init_wallet read_config_file read_config detect_legacy_wallet
    create_wallet generate_wallet create_if_not_exists import_seed create_wallet_of make_ipfs
    hex_decode hex_encode contains_text format_int
starts = refl

has_config : ready (name_of config_file) ≡ some (codes "yaml")
unfolding bytes_equal
has_config = refl

finds_config : codecs.read_in_config ready directory ≡ settings (codes "yaml")
unfolding bytes_equal
finds_config = refl

new_app-IsValid_example :
    IsValid (with_store default_config)
    × (is_some started_app.blocks
        ≡ bytes_equal (with_store default_config).block_store_config.type opt_flat_fs)
new_app-IsValid_example =
    new_app-IsValid tools (memory_disk 100) codecs library storage at_home (codes "~")
      (memory_disk-DiskLaws 100) storage-Leaves default_config (codes "yaml") refl fresh ready ready
      started_app has_config finds_config refl starts
