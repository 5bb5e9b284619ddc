-- ===== src/Config/Validate.antt =====
-- `Validate` and `ReadConfig` (config/config.go). What the YAML of a file reads as is a parameter.
use sequoia.Prelude.{
  if◌then◌else◌, Bool, true, false, not, ◌&&◌, [], ◌≡◌, refl, ap, Option, none, some, ◌↔◌, arith,
  Bool-cases, ◌⊎◌, inl, inr,
}
use sequoia.Prelude.Int.{ℤ, pos, ◌≤ℤ◌, ◌<ℤ◌, ltb_ℤ}
use sequoia.Prelude.Bytes.{Bytes, bytes_equal, bytes_equal→eq, bytes_equal_refl}
use sequoia.Config.Types.{Config, opt_badger_ds, opt_flat_fs}

abbrev pub max_sensible_queue_size_bytes : ℤ
max_sensible_queue_size_bytes = pos 1073741824

pub data ConfigError : Type 0 where
  no_data_directory size_not_positive size_too_large other_badger_directory unknown_store :
      ConfigError

abbrev pub is_empty : Bytes → Bool
is_empty s = bytes_equal s []

pub validate_store : Config → Option ConfigError
validate_store c =
    if bytes_equal c.block_store_config.type opt_flat_fs
    then none
    else if bytes_equal c.block_store_config.type opt_badger_ds
    then (if not (bytes_equal c.block_store_config.directory c.data_directory)
        then some other_badger_directory
        else none)
    else some unknown_store

-- `none` is a valid configuration.
unfoldable pub validate : Config → Option ConfigError
unfolding validate_store
validate c =
    if is_empty c.data_directory
    then some no_data_directory
    else if not (ltb_ℤ (pos 0) c.max_size_bytes)
    then some size_not_positive
    else if ltb_ℤ max_sensible_queue_size_bytes c.max_size_bytes
    then some size_too_large
    else validate_store c

-- A configuration without a store is one of a time when Badger in the data directory was the store.
unfoldable pub with_store : Config → Config
with_store c =
    if is_empty c.block_store_config.type && is_empty c.block_store_config.directory
    then record c {
      block_store_config = record c.block_store_config {
        type = opt_badger_ds;
        directory = c.data_directory;
      };
    }
    else c

-- The configuration is returned together with what is wrong with it; `none` is text that is no YAML
-- of a configuration.
unfoldable pub read_config : (Bytes → Option Config) → Bytes → Option (Config × Option ConfigError)
unfolding with_store validate
read_config unmarshal d = elim (unmarshal d) [
  | none ↦ none
  | some c ↦ some (with_store c, validate (with_store c))
]

-- What a valid configuration has.
abbrev pub IsValid : Config → Type 0
IsValid c =
    (is_empty c.data_directory ≡ false)
    × (pos 0 <ℤ c.max_size_bytes)
    × (c.max_size_bytes ≤ℤ max_sensible_queue_size_bytes)
    × ((c.block_store_config.type ≡ opt_flat_fs)
        ⊎ ((c.block_store_config.type ≡ opt_badger_ds)
            × (c.block_store_config.directory ≡ c.data_directory)))

-- The part on the store.
abbrev pub HasStore : Config → Type 0
HasStore c =
    (c.block_store_config.type ≡ opt_flat_fs)
    ⊎ ((c.block_store_config.type ≡ opt_badger_ds)
        × (c.block_store_config.directory ≡ c.data_directory))

validate_store_of : (c : Config) → HasStore c → validate_store c ≡ none
unfolding validate_store bytes_equal
validate_store_of c (inl flat) = rw flat refl
validate_store_of c (inr (badger, same)) = rw (badger, same, bytes_equal_refl c.data_directory) refl

HasStore-of : (c : Config) → validate_store c ≡ none → HasStore c
unfolding validate_store
HasStore-of c e = elim (Bool-cases (bytes_equal c.block_store_config.type opt_flat_fs)) [
  | inl flat ↦ inl (bytes_equal→eq _ _ flat)
  | inr not_flat ↦ elim (Bool-cases (bytes_equal c.block_store_config.type opt_badger_ds)) [
    | inl badger ↦ elim (Bool-cases (bytes_equal c.block_store_config.directory c.data_directory)) [
      | inl same ↦ inr (bytes_equal→eq _ _ badger, bytes_equal→eq _ _ same)
      | inr other ↦ let wrong = rw (not_flat, badger, other) at e in cc
    ]
    | inr unknown ↦ let wrong = rw (not_flat, unknown) at e in cc
  ]
]

IsValid-of : (c : Config) → validate c ≡ none → IsValid c
unfolding validate
IsValid-of c e = elim (Bool-cases (is_empty c.data_directory)) [
  | inl empty ↦ let wrong = rw empty at e in cc
  | inr some_dir ↦ elim (Bool-cases (ltb_ℤ (pos 0) c.max_size_bytes)) [
    | inr small ↦ let wrong = rw (some_dir, small) at e in cc
    | inl positive ↦ elim (Bool-cases (ltb_ℤ max_sensible_queue_size_bytes c.max_size_bytes)) [
      | inl large ↦ let wrong = rw (some_dir, positive, large) at e in cc
      | inr fits ↦
          let store : validate_store c ≡ none = rw (some_dir, positive, fits) at e in
          (some_dir, ground arith, ground arith, HasStore-of c store)
    ]
  ]
]

-- `Validate` finds nothing wrong exactly with a configuration that has a data directory, a maximum
-- size of the queue above 0 and up to 1 GiB, and as its store the flat file system or a Badger
-- database in the data directory.
pub validate-IsValid : (c : Config) → (validate c ≡ none) ↔ IsValid c
unfolding validate
validate-IsValid c = (
  IsValid-of c,
  λ (some_dir, above, below, store).
      let positive : ltb_ℤ (pos 0) c.max_size_bytes ≡ true = ground arith in
      let fits : ltb_ℤ max_sensible_queue_size_bytes c.max_size_bytes ≡ false = ground arith in
      rw (some_dir, positive, fits) (validate_store_of c store),
)

-- A file without a store reads as a configuration whose store is Badger in its data directory, with
-- all else as it is written, and it is valid exactly if the data directory and the maximum size are.
pub read_config_without_store :
    (unmarshal : Bytes → Option Config) (d : Bytes) (c : Config)
    → unmarshal d ≡ some c
    → is_empty c.block_store_config.type ≡ true
    → is_empty c.block_store_config.directory ≡ true
    → let c' = record c {
      block_store_config = record c.block_store_config {
        type = opt_badger_ds;
        directory = c.data_directory;
      };
    } in
      (read_config unmarshal d ≡ some (c', validate c'))
      × ((validate c' ≡ none) ↔ (
          (is_empty c.data_directory ≡ false)
          × (pos 0 <ℤ c.max_size_bytes)
          × (c.max_size_bytes ≤ℤ max_sensible_queue_size_bytes)))
unfolding with_store read_config
read_config_without_store unmarshal d c e no_type no_directory =
    let c' : Config = record c {
      block_store_config = record c.block_store_config {
        type = opt_badger_ds;
        directory = c.data_directory;
      };
    } in
    let moved : with_store c ≡ c' = rw (no_type, no_directory) refl in
    let (to, from) = validate-IsValid c' in
    (
      rw (read_config, e) (ap (λ (k : Config). some (k, validate k)) moved),
      (
        λ ok. let (some_dir, above, below, store) = to ok in (some_dir, above, below),
        λ (some_dir, above, below). from (some_dir, above, below, inr (refl, refl)),
      ),
    )
