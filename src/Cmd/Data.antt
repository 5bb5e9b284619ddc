-- ===== src/Cmd/Data.antt =====
-- The commands of the database (cmd/database/database.go): `dumpKeysCmd`, `getObjectCmd`, `garbageCmd`
-- and `unusedCidsCmd`. What is printed is the result.
use sequoia.Prelude.{
  ℕ, Bool, true, false, List, [], ◌∷◌, Option, none, some, map, ◌≡◌, refl, ◌⊎◌, inl, inr,
}
use sequoia.Prelude.Bytes.{Bytes, has_prefix}
use sequoia.Config.Types.{Config}
use sequoia.Config.Disk.{Disk}
use sequoia.Config.Files.{HomeError, Codecs, init}
use sequoia.Config.Wallet.{WalletTools}
use sequoia.FileSystem.Stores.{Badger, Ipfs, World, Item, Lists, Fetch, found, not_found, failed}
use sequoia.FileSystem.Listing.{UnusedCids, unused, list_error, no_fuel, list_unused_cids}
use sequoia.FileSystem.Node.{Libp2p}
use sequoia.Core.Boot.{
  Storage, Parts, Boot, boot_failed, boot_exited, boot_panicked, booted, BootError, Fresh,
  home_error, no_data_dir, no_database, new_app,
}

-- Printed lines, an error, or an end of the process.
pub data Output : Type 0 where
  printed : List Bytes → Output
  boot_error : BootError → Output
  key_not_found read_failed not_flattened not_listed no_end ended crashed : Output

module _ (b : Badger) (d : Disk) (k : Codecs d.State)
    (open_badger : d.State → Bytes → d.State × Option b.Db) (expand : Bytes → Bytes)
    (home : Bytes) where
  open b use {Db}
  open d use {State}

  pub on_database : State × Option Db → (Db → Output) → State × Output
  on_database (s, none) work = (s, boot_error no_database)
  on_database (s, some db) work = (s, work db)

  pub in_data_dir : State × Bool → Bytes → (Db → Output) → State × Output
  unfolding on_database
  in_data_dir (s, false) data_dir work = (s, boot_error no_data_dir)
  in_data_dir (s, true) data_dir work = on_database (open_badger s data_dir) work

  pub on_settings : State × (HomeError ⊎ Config) → (Db → Output) → State × Output
  unfolding in_data_dir
  on_settings (s, inl e) work = (s, boot_error (home_error e))
  on_settings (s, inr cfg) work =
      in_data_dir (d.mkdir_all s (expand cfg.data_directory)) (expand cfg.data_directory) work

  -- What these commands begin with.
  unfoldable pub with_database : State → (Db → Output) → State × Output
  unfolding on_settings
  with_database s work = on_settings (init d k s (expand home)) work

  abbrev pub keys_of : List Item → List Bytes
  keys_of = map λ i. i.key

  unfoldable pub dump_keys_cmd : State → State × Output
  unfolding with_database
  dump_keys_cmd s = with_database s λ db. printed (keys_of (b.iterate db []))

  abbrev shown : Fetch → Output
  shown not_found = key_not_found
  shown failed = read_failed
  shown (found v) = printed (v ∷ [])

  unfoldable pub get_object_cmd : Bytes → State → State × Output
  unfolding with_database
  get_object_cmd key s = with_database s λ db. shown (b.get (b.begin db) key)

  -- `flatten` is `db.Flatten`, which changes no entry.
  unfoldable pub garbage_cmd : (Db → Bool) → State → State × Output
  unfolding with_database
  garbage_cmd flatten s =
      with_database s λ db. elim (flatten db) [ true ↦ printed [] | false ↦ not_flattened ]

module _ (b : Badger) (p : Ipfs) (fuel : ℕ) (t : WalletTools) (d : Disk) (k : Codecs d.State)
    (l : Libp2p) (st : Storage d.State l.Stores)
    (world : Parts t.Wallet l.Peer l.Host st.Db st.Blocks → World b.Db p.Blocks)
    (expand : Bytes → Bytes) (home : Bytes) where
  abbrev or_not_listed : UnusedCids → Output
  or_not_listed list_error = not_listed
  or_not_listed no_fuel = no_end
  or_not_listed (unused cids) = printed (map p.cid_string cids)

  list_of : Boot (Parts t.Wallet l.Peer l.Host st.Db st.Blocks) → Output
  list_of (boot_failed e) = boot_error e
  list_of boot_exited = ended
  list_of boot_panicked = crashed
  list_of (booted a) = or_not_listed (list_unused_cids b p fuel (world a))

  -- The command opens what `NewApp` opens, in the same order; `world` is what the database and the
  -- node then hold.
  unfoldable pub unused_cids_cmd : Fresh l.Key → d.State → d.State × Output
  unfolding list_of
  unused_cids_cmd f s = let (s', r) = new_app t d k l st expand home f s in (s', list_of r)

-- The text is one of the lines.
abbrev IsLine : Bytes → List Bytes → Type 0
IsLine x [] = ⊥
IsLine x (l ∷ ls) = (l ≡ x) ⊎ IsLine x ls

has_prefix_nil : (s : Bytes) → has_prefix s [] ≡ true
unfolding has_prefix
has_prefix_nil [] = refl
has_prefix_nil (c ∷ s) = refl

listed-IsLine : (is : List Item) (key : Bytes) → Lists key is → IsLine key (map (λ i. i.key) is)
listed-IsLine [] key h = absurd h
listed-IsLine (i ∷ is) key (inl e) = inl e
listed-IsLine (i ∷ is) key (inr r) = inr (listed-IsLine is key r)

-- The dump names each key that has a value.
pub stored_is_dumped :
    (b : Badger) (db : b.Db) (key v : Bytes)
    → b.get (b.begin db) key ≡ found v
    → IsLine key (map (λ i. i.key) (b.iterate db []))
stored_is_dumped b db key v h =
    listed-IsLine (b.iterate db []) key (b.iterate_all db [] key v h (has_prefix_nil key))
