-- ===== src/Config/Disk.antt =====
-- What config/files.go and config/wallet.go rely on of the operating system: the files of the home
-- directory. `path.Join` of the directory and one of the three names is that pair.
use sequoia.Prelude.{if◌then◌else◌, Bool, true, false, [], ◌≡◌, Option, some}
use sequoia.Prelude.Bytes.{Bytes, codes}

-- The files that the code names.
pub data FileName : Type 0 where
  config_file seed_file legacy_file : FileName

-- `ConfigFileName`, `SeedFileName` and the file of a legacy wallet.
abbrev pub name_of : FileName → Bytes
name_of config_file = codes "config.yaml"
name_of seed_file = codes "provider_wallet.json"
name_of legacy_file = codes "priv_storkey.json"

abbrev pub same_file : FileName → FileName → Bool
same_file config_file config_file = true
same_file config_file seed_file = false
same_file config_file legacy_file = false
same_file seed_file config_file = false
same_file seed_file seed_file = true
same_file seed_file legacy_file = false
same_file legacy_file config_file = false
same_file legacy_file seed_file = false
same_file legacy_file legacy_file = true

-- `os.Stat`: a file, `os.ErrNotExist`, or another error.
pub data Stat : Type 0 where
  present absent stat_failed : Stat

-- A directory and a name in it stand for a path. `create` gives an empty file, unless it fails and
-- leaves all as it was; `write` writes to the file that was just created, and may leave a part of the
-- text when it fails.
pub record Disk : Type 1 where
  pub State : Type 0
  pub mkdir_all : State → Bytes → State × Bool
  pub stat : State → Bytes → Bytes → Stat
  pub create : State → Bytes → Bytes → Option State
  pub write : State → Bytes → Bytes → Bytes → State × Bool
  pub read : State → Bytes → Bytes → Option Bytes

-- What is documented of these calls.
pub record DiskLaws (d : Disk) : Type 0 where
  pub stat-read :
      (s : d.State) (dir : Bytes) (f : FileName) (x : Bytes)
      → d.read s dir (name_of f) ≡ some x
      → d.stat s dir (name_of f) ≡ present
  pub mkdir_of_read :
      (s : d.State) (dir : Bytes) (f : FileName) (x : Bytes)
      → d.read s dir (name_of f) ≡ some x
      → ◌≡◌ {A = d.State × Bool} (d.mkdir_all s dir) (s, true)
  pub read-mkdir :
      (s : d.State) (dir : Bytes) (f : FileName)
      → d.read (d.mkdir_all s dir).0 dir (name_of f) ≡ d.read s dir (name_of f)
  pub read-create :
      (s s' : d.State) (dir : Bytes) (f g : FileName)
      → d.create s dir (name_of f) ≡ some s'
      → d.read s' dir (name_of g) ≡ (if same_file g f then some [] else d.read s dir (name_of g))
  pub read-write :
      (s : d.State) (dir x : Bytes) (f : FileName)
      → d.read s dir (name_of f) ≡ some []
      → (d.write s dir (name_of f) x).1 ≡ true
      → d.read (d.write s dir (name_of f) x).0 dir (name_of f) ≡ some x
  pub read-write_other :
      (s : d.State) (dir x : Bytes) (f g : FileName)
      → same_file g f ≡ false
      → d.read (d.write s dir (name_of f) x).0 dir (name_of g) ≡ d.read s dir (name_of g)
