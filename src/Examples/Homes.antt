-- ===== src/Examples/Homes.antt =====
-- A home directory in memory, on a disk with room for files of a given length, and the runs of
-- `InitWallet` in it.
use sequoia.Prelude.{
  ℕ, leb, if◌then◌else◌, true, [], ◌∷◌, ◌++◌, Option, none, some, ◌≡◌, refl, sym, ap, arith, length,
  length-append, take, drop, take_of_length-le,
}
use sequoia.Prelude.Bytes.{Bytes, bytes_equal, codes}
use sequoia.Config.Types.{default_config}
use sequoia.Config.Disk.{
  Disk, DiskLaws, FileName, config_file, seed_file, legacy_file, name_of, same_file, Stat, present,
  absent,
}
use sequoia.Config.Files.{Codecs, Lookup, settings, no_config_file}
use sequoia.Config.Wallet.{Seed, WalletTools, ReadsBack, Random}

abbrev pub Home : Type 0
Home = Bytes → Option Bytes

abbrev pub set_file : Home → Bytes → Bytes → Home
set_file s n x m = if bytes_equal m n then some x else s m

abbrev stat_of : Option Bytes → Stat
stat_of none = absent
stat_of (some x) = present

abbrev pub memory_disk : ℕ → Disk
memory_disk room = record {
  State = Home;
  mkdir_all = λ s dir. (s, true);
  stat = λ s dir n. stat_of (s n);
  create = λ s dir n. some (set_file s n []);
  write = λ s dir n x. (set_file s n (take room x), leb (length x) room);
  read = λ s dir n. s n;
}

names_apart : (g f : FileName) → bytes_equal (name_of g) (name_of f) ≡ same_file g f
unfolding bytes_equal
names_apart config_file config_file = refl
names_apart config_file seed_file = refl
names_apart config_file legacy_file = refl
names_apart seed_file config_file = refl
names_apart seed_file seed_file = refl
names_apart seed_file legacy_file = refl
names_apart legacy_file config_file = refl
names_apart legacy_file seed_file = refl
names_apart legacy_file legacy_file = refl

same_name : (f : FileName) → same_file f f ≡ true
same_name config_file = refl
same_name seed_file = refl
same_name legacy_file = refl

read_written :
    (room : ℕ) (s : Home) (f : FileName) (x : Bytes)
    → leb (length x) room ≡ true
    → set_file s (name_of f) (take room x) (name_of f) ≡ some x
read_written room s f x h =
    rw (names_apart f f, same_name f) (ap some (take_of_length-le room x (ground arith)))

created_there :
    (s s' : Home) (f g : FileName)
    → ◌≡◌ {A = Option Home} (some (set_file s (name_of f) [])) (some s')
    → s' (name_of g) ≡ (if same_file g f then some [] else s (name_of g))
created_there s s' f g e =
    let same : set_file s (name_of f) [] ≡ s' = cc in rw (sym same) (rw (names_apart g f) refl)

pub memory_disk-DiskLaws : (room : ℕ) → DiskLaws (memory_disk room)
memory_disk-DiskLaws room = record {
  stat-read = λ s dir f x e. rw e refl;
  mkdir_of_read = λ s dir f x e. refl;
  read-mkdir = λ s dir f. refl;
  read-create = λ s s' dir f g e. created_there s s' f g e;
  read-write = λ s dir x f empty h. read_written room s f x h;
  read-write_other = λ s dir x f g other. rw (names_apart g f, other) refl;
}

-- A seed as the length of its phrase, the phrase and the path.
abbrev split_at : ℕ → Bytes → Option Seed
split_at n x =
    if leb n (length x)
    then some (record { seed_phrase = take n x; derivation_path = drop n x })
    else none

abbrev parse_seed : Bytes → Option Seed
parse_seed [] = none
parse_seed (n ∷ x) = split_at n x

abbrev pub tools : WalletTools
tools = record {
  Client = Unit;
  Wallet = Bytes;
  marshal_seed = λ s. some (length s.seed_phrase ∷ s.seed_phrase ++ s.derivation_path);
  unmarshal_seed = parse_seed;
  unmarshal_legacy = λ x. none;
  new_client = λ c. some tt;
  new_wallet = λ p s c. some s.seed_phrase;
  new_wallet_from_key = λ p k c. some k;
}

take_phrase : (a b : Bytes) → take (length a) (a ++ b) ≡ a
take_phrase [] b = refl
take_phrase (x ∷ a) b = ap (λ l. x ∷ l) (take_phrase a b)

drop_phrase : (a b : Bytes) → drop (length a) (a ++ b) ≡ b
drop_phrase [] b = refl
drop_phrase (x ∷ a) b = drop_phrase a b

long_enough : (a b : Bytes) → leb (length a) (length (a ++ b)) ≡ true
long_enough a b = rw (length-append a b) (ground arith)

parses :
    (s : Seed) → parse_seed (length s.seed_phrase ∷ s.seed_phrase ++ s.derivation_path) ≡ some s
parses s =
    rw
      (
        long_enough s.seed_phrase s.derivation_path,
        take_phrase s.seed_phrase s.derivation_path,
        drop_phrase s.seed_phrase s.derivation_path,
      )
      refl

pub tools-ReadsBack : ReadsBack tools
tools-ReadsBack s j e =
    let same : length s.seed_phrase ∷ s.seed_phrase ++ s.derivation_path ≡ j = cc in
    rw (sym same) (parses s)

abbrev lookup_of : Option Bytes → Lookup
lookup_of none = no_config_file
lookup_of (some x) = settings x

abbrev pub codecs : Codecs Home
codecs = record {
  marshal = λ c. some (codes "yaml");
  unmarshal = λ x. some default_config;
  read_in_config = λ s dir. lookup_of (s (name_of config_file));
  unmarshal_settings = λ x. some default_config;
}

abbrev pub directory : Bytes
directory = codes "home"

-- A home that has only a configuration.
abbrev pub configured : Home
configured = set_file (λ m. none) (name_of config_file) (codes "yaml")

abbrev pub random : Random
random = record { entropy = some (7 ∷ []); mnemonic = λ e. some (codes "firm") }
