-- ===== src/Config/Files.antt =====
-- `createIfNotExists`, `readFile`, `createFiles`, `ReadConfigFile` and `Init` (config/files.go), and
-- `Export` (config/config.go). The YAML library and viper are parameters.
pub mod Stay
use sequoia.Prelude.{
  if◌then◌else◌, Bool, true, false, [], ◌∷◌, ◌++◌, Option, none, some, ◌⊎◌, inl, inr,
}
use sequoia.Prelude.Bytes.{Bytes, codes}
use sequoia.Config.Types.{Config, default_config}
use sequoia.Config.Validate.{ConfigError, read_config}
use sequoia.Config.Disk.{Disk, FileName, config_file, name_of, Stat, present, absent, stat_failed}

-- What goes wrong in the home directory.
pub data HomeError : Type 0 where
  no_directory : HomeError
  not_created not_written not_read : FileName → HomeError
  not_exported bad_yaml : HomeError
  invalid : ConfigError → HomeError
  viper_failed bad_settings : HomeError
  no_entropy no_mnemonic bad_seed bad_key no_client no_wallet : HomeError

-- `viper.ReadInConfig`: the settings, `ConfigFileNotFoundError`, or another error.
pub data Lookup : Type 0 where
  settings : Bytes → Lookup
  no_config_file lookup_failed : Lookup

-- What the file of a configuration relies on: `yaml.Marshal` and `yaml.Unmarshal`, and viper's search
-- in a directory and its `Unmarshal` of the settings, if any, with the flags and the defaults.
pub record Codecs (State : Type 0) : Type 0 where
  pub marshal : Config → Option Bytes
  pub unmarshal : Bytes → Option Config
  pub read_in_config : State → Bytes → Lookup
  pub unmarshal_settings : Option Bytes → Option Config

abbrev newline : Bytes
newline = 10 ∷ []

-- `Config.Export`.
abbrev framed : Option Bytes → Option Bytes
framed none = none
framed (some d) = some (
    codes "######################"
    ++ newline
    ++ codes "### Sequoia Config ###"
    ++ newline
    ++ codes "######################"
    ++ newline
    ++ newline
    ++ d
    ++ newline
    ++ codes "######################"
    ++ newline)

pub export : (Config → Option Bytes) → Config → Option Bytes
export marshal c = framed (marshal c)

abbrev pub read_or : Option Bytes → FileName → HomeError ⊎ Bytes
read_or none f = inl (not_read f)
read_or (some x) f = inr x

module _ (d : Disk) where
  open d use {State}

  -- What was created, and whether the text went in.
  unfoldable pub created : State × Bool → FileName → State × (HomeError ⊎ Bool)
  created (s, true) f = (s, inr true)
  created (s, false) f = (s, inl (not_written f))

  unfoldable pub fill : Option State → State → Bytes → FileName → Bytes → State × (HomeError ⊎ Bool)
  fill none s dir f x = (s, inl (not_created f))
  fill (some s') s dir f x = created (d.write s' dir (name_of f) x) f

  unfoldable pub by_stat : Stat → State → Bytes → FileName → Bytes → State × (HomeError ⊎ Bool)
  by_stat absent s dir f x = fill (d.create s dir (name_of f)) s dir f x
  by_stat present s dir f x = (s, inr false)
  by_stat stat_failed s dir f x = (s, inr false)

  -- Whether the file was created. An error of `os.Stat` other than `os.ErrNotExist` counts as a file.
  unfoldable pub create_if_not_exists :
      State → Bytes → FileName → Bytes → State × (HomeError ⊎ Bool)
  unfolding by_stat fill created
  create_if_not_exists s dir f x = by_stat (d.stat s dir (name_of f)) s dir f x

  unfoldable pub read_file : State → Bytes → FileName → HomeError ⊎ Bytes
  read_file s dir f = read_or (d.read s dir (name_of f)) f

  abbrev pub or_exported : Option Bytes → State → Bytes → State × Option HomeError
  or_exported none s dir = (s, some not_exported)
  or_exported (some x) s dir =
      let (s', r) = create_if_not_exists s dir config_file x in
      (s', elim r [ inl e ↦ some e | inr _ ↦ none ])

  module _ (k : Codecs State) where
    -- `none` is no error.
    unfoldable pub create_files : State → Bytes → State × Option HomeError
    unfolding export
    create_files s dir = or_exported (export k.marshal default_config) s dir

    abbrev pub valid_or : Option (Config × Option ConfigError) → HomeError ⊎ Config
    valid_or none = inl bad_yaml
    valid_or (some (c, none)) = inr c
    valid_or (some (c, some e)) = inl (invalid e)

    abbrev pub parsed : HomeError ⊎ Bytes → HomeError ⊎ Config
    parsed (inl e) = inl e
    parsed (inr x) = valid_or (read_config k.unmarshal x)

    unfoldable pub read_config_file : State → Bytes → HomeError ⊎ Config
    unfolding read_file
    read_config_file s dir = parsed (read_file s dir config_file)

    abbrev pub settled : Option Config → HomeError ⊎ Config
    settled none = inl bad_settings
    settled (some c) = inr c

    abbrev pub unless_failed : State × Option HomeError → State × (HomeError ⊎ Config)
    unless_failed (s, some e) = (s, inl e)
    unless_failed (s, none) = (s, settled (k.unmarshal_settings none))

    -- A home without a configuration gets the default one; what is returned then are the settings
    -- of the flags, since viper has read no file.
    unfoldable pub look_up : Lookup → State → Bytes → State × (HomeError ⊎ Config)
    unfolding create_files
    look_up (settings x) s dir = (s, settled (k.unmarshal_settings (some x)))
    look_up no_config_file s dir = unless_failed (create_files s dir)
    look_up lookup_failed s dir = (s, inl viper_failed)

    abbrev pub in_directory : State × Bool → Bytes → State × (HomeError ⊎ Config)
    in_directory (s, false) dir = (s, inl no_directory)
    in_directory (s, true) dir = look_up (k.read_in_config s dir) s dir

    -- `Init`, in the directory that `os.ExpandEnv` makes of the home.
    unfoldable pub init : State → Bytes → State × (HomeError ⊎ Config)
    unfolding look_up
    init s dir = in_directory (d.mkdir_all s dir) dir
