-- ===== src/Config/Wallet.antt =====
-- `InitWallet` with what it calls (config/wallet.go), and `CreateWallet` and `CreateWalletPrivKey`
-- (wallet/wallet.go). The JSON library, the mnemonics of BIP 39, the client of the chain and the
-- wallet library are parameters.
pub mod Calls
pub mod Made
pub mod Again
use sequoia.Prelude.{Bool, true, false, ◌++◌, ◌≡◌, Option, none, some, ◌⊎◌, inl, inr}
use sequoia.Prelude.Bytes.{Bytes, codes}
use sequoia.Prelude.Bytes.Hex.{hex_decode}
use sequoia.Config.Types.{Config, ChainConfig}
use sequoia.Config.Disk.{Disk, FileName, seed_file, legacy_file}
use sequoia.Config.Files.{
  HomeError, no_directory, no_entropy, no_mnemonic, not_exported, bad_seed, bad_key, no_client,
  no_wallet, Codecs, create_if_not_exists, read_file, read_config_file,
}

pub record Seed : Type 0 where
  pub seed_phrase : Bytes
  pub derivation_path : Bytes

pub record LegacyWallet : Type 0 where
  pub key : Bytes
  pub address : Bytes

-- The two prefixes of `SetBech32PrefixForAccount`.
pub record Prefixes : Type 0 where
  pub account : Bytes
  pub public : Bytes

pub record WalletTools : Type 1 where
  pub Client : Type 0
  pub Wallet : Type 0
  pub marshal_seed : Seed → Option Bytes
  pub unmarshal_seed : Bytes → Option Seed
  pub unmarshal_legacy : Bytes → Option LegacyWallet
  pub new_client : ChainConfig → Option Client
  pub new_wallet : Prefixes → Seed → Client → Option Wallet
  pub new_wallet_from_key : Prefixes → Bytes → Client → Option Wallet

-- The JSON of a seed reads back as the seed.
abbrev pub ReadsBack : WalletTools → Type 0
ReadsBack t = (s : Seed) (j : Bytes) → t.marshal_seed s ≡ some j → t.unmarshal_seed j ≡ some s

-- What one run draws: `bip39.NewEntropy` and `bip39.NewMnemonic`.
pub record Random : Type 0 where
  pub entropy : Option Bytes
  pub mnemonic : Bytes → Option Bytes

abbrev pub derivation : Bytes
derivation = codes "m/44'/118'/0'/0/0"

with_mnemonic : Option Bytes → HomeError ⊎ Seed
with_mnemonic none = inl no_mnemonic
with_mnemonic (some m) = inr (record { seed_phrase = m; derivation_path = derivation })

with_entropy : (Bytes → Option Bytes) → Option Bytes → HomeError ⊎ Seed
with_entropy mnemonic none = inl no_entropy
with_entropy mnemonic (some e) = with_mnemonic (mnemonic e)

unfoldable pub generate_wallet : Random → HomeError ⊎ Seed
unfolding with_entropy with_mnemonic
generate_wallet r = with_entropy r.mnemonic r.entropy

-- How `InitWallet` ends: `os.Exit(0)` ends the process.
pub data Ended (W : Type 0) : Type 0 where
  failed : HomeError → Ended W
  exited : Ended W
  opened : W → Ended W

module _ (t : WalletTools) where
  open t use {Client, Wallet}

  abbrev pub prefixes : ChainConfig → Prefixes
  prefixes c = record { account = c.bech32_prefix; public = c.bech32_prefix ++ codes "pub" }

  abbrev pub or_no_wallet : Option Wallet → Ended Wallet
  or_no_wallet none = failed no_wallet
  or_no_wallet (some w) = opened w

  abbrev pub with_client : Option Client → (Client → Option Wallet) → Ended Wallet
  with_client none make = failed no_client
  with_client (some c) make = or_no_wallet (make c)

  unfoldable pub create_wallet_of : Seed → ChainConfig → Ended Wallet
  create_wallet_of s c = with_client (t.new_client c) (t.new_wallet (prefixes c) s)

  abbrev pub with_key : Option Bytes → ChainConfig → Ended Wallet
  with_key none c = failed bad_key
  with_key (some key) c = with_client (t.new_client c) (t.new_wallet_from_key (prefixes c) key)

  unfoldable pub create_wallet_priv_key : Bytes → ChainConfig → Ended Wallet
  create_wallet_priv_key priv_key c = with_key (hex_decode priv_key) c

  abbrev pub or_bad_seed : Option Seed → HomeError ⊎ Seed
  or_bad_seed none = inl bad_seed
  or_bad_seed (some s) = inr s

  unfoldable pub import_seed : Bytes → HomeError ⊎ Seed
  import_seed x = or_bad_seed (t.unmarshal_seed x)

  abbrev pub imported : HomeError ⊎ Seed → ChainConfig → Ended Wallet
  imported (inl e) c = failed e
  imported (inr seed) c = create_wallet_of seed c

  abbrev pub loaded : HomeError ⊎ Bytes → ChainConfig → Ended Wallet
  loaded (inl e) c = failed e
  loaded (inr x) c = imported (import_seed x) c

  abbrev pub unmarshalled : HomeError ⊎ Bytes → Option LegacyWallet
  unmarshalled (inl e) = none
  unmarshalled (inr x) = t.unmarshal_legacy x

  module _ (d : Disk) where
    open d use {State}

    -- Whether the process ends, since a wallet was made.
    abbrev pub store_seed : Option Bytes → State → Bytes → State × (HomeError ⊎ Bool)
    store_seed none s dir = (s, inl not_exported)
    store_seed (some x) s dir = create_if_not_exists d s dir seed_file x

    abbrev pub generated : HomeError ⊎ Seed → State → Bytes → State × (HomeError ⊎ Bool)
    generated (inl e) s dir = (s, inl e)
    generated (inr seed) s dir = store_seed (t.marshal_seed seed) s dir

    -- A seed is drawn whether or not it is needed.
    unfoldable pub create_wallet : Random → State → Bytes → State × (HomeError ⊎ Bool)
    create_wallet r s dir = generated (generate_wallet r) s dir

    -- `none` is an error.
    unfoldable pub detect_legacy_wallet : State → Bytes → Option LegacyWallet
    unfolding read_file
    detect_legacy_wallet s dir = unmarshalled (read_file d s dir legacy_file)

    pub after_create : State × (HomeError ⊎ Bool) → Bytes → ChainConfig → State × Ended Wallet
    after_create (s, inl e) dir c = (s, failed e)
    after_create (s, inr true) dir c = (s, exited)
    after_create (s, inr false) dir c = (s, loaded (read_file d s dir seed_file) c)

    pub unless_legacy :
        Option LegacyWallet → Random → State → Bytes → ChainConfig → State × Ended Wallet
    unless_legacy (some l) r s dir c = (s, create_wallet_priv_key l.key c)
    unless_legacy none r s dir c = after_create (create_wallet r s dir) dir c

    unfoldable pub with_config : HomeError ⊎ Config → Random → State → Bytes → State × Ended Wallet
    with_config (inl e) r s dir = (s, failed e)
    with_config (inr c) r s dir = unless_legacy (detect_legacy_wallet s dir) r s dir c.chain_cfg

    module _ (k : Codecs State) where
      abbrev pub made : State × Bool → Random → Bytes → State × Ended Wallet
      made (s, false) r dir = (s, failed no_directory)
      made (s, true) r dir = with_config (read_config_file d k s dir) r s dir

      -- `InitWallet`, in the directory that `os.ExpandEnv` makes of the home.
      unfoldable pub init_wallet : Random → State → Bytes → State × Ended Wallet
      unfolding with_config unless_legacy after_create
      init_wallet r s dir = made (d.mkdir_all s dir) r dir
