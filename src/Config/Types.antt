-- ===== src/Config/Types.antt =====
-- The settings (config/types.go). The gas adjustment, a float that nothing here computes with, is
-- kept as its text.
use sequoia.Prelude.{ℕ, Bool, true}
use sequoia.Prelude.Int.{ℤ, pos}
use sequoia.Prelude.Bytes.{Bytes, codes}

pub record ChainConfig : Type 0 where
  pub bech32_prefix : Bytes
  pub rpc_addr : Bytes
  pub grpc_addr : Bytes
  pub gas_price : Bytes
  pub gas_adjustment : Bytes

pub record RateLimitConfig : Type 0 where
  pub per_token_ms : ℤ
  pub burst : ℤ

pub record StrayManagerConfig : Type 0 where
  pub check_interval : ℤ
  pub refresh_interval : ℤ
  pub hand_count : ℤ

pub record ApiConfig : Type 0 where
  pub port : ℤ
  pub ipfs_port : ℤ
  pub ipfs_domain : Bytes
  pub ipfs_search : Bool
  pub open_gateway : Bool

pub record BlockStoreConfig : Type 0 where
  pub directory : Bytes
  pub type : Bytes
  pub key : Bytes

pub record Config : Type 0 where
  pub queue_interval : ℕ
  pub max_size_bytes : ℤ
  pub proof_interval : ℕ
  pub stray_manager_cfg : StrayManagerConfig
  pub chain_cfg : ChainConfig
  pub ip : Bytes
  pub total_space : ℤ
  pub data_directory : Bytes
  pub api_cfg : ApiConfig
  pub proof_threads : ℤ
  pub block_store_config : BlockStoreConfig
  pub queue_rate_limit : RateLimitConfig

abbrev pub default_queue_interval : ℕ
default_queue_interval = 2

abbrev pub default_max_size_bytes : ℤ
default_max_size_bytes = pos 500000

abbrev pub default_proof_interval : ℕ
default_proof_interval = 700

abbrev pub default_total_space : ℤ
default_total_space = pos 1092616192

abbrev pub default_proof_threads : ℤ
default_proof_threads = pos 1000

abbrev pub default_rate_limit_config : RateLimitConfig
default_rate_limit_config = record { per_token_ms = pos 100; burst = pos 30 }

abbrev pub default_stray_manager_config : StrayManagerConfig
default_stray_manager_config = record {
  check_interval = pos 30;
  refresh_interval = pos 120;
  hand_count = pos 2;
}

abbrev pub default_api_config : ApiConfig
default_api_config = record {
  port = pos 3333;
  ipfs_port = pos 4005;
  ipfs_domain = codes "dns4/ipfs.example.com/tcp/4001";
  ipfs_search = true;
  open_gateway = true;
}

abbrev pub opt_badger_ds : Bytes
opt_badger_ds = codes "badgerds"

abbrev pub opt_flat_fs : Bytes
opt_flat_fs = codes "flatfs"

abbrev pub default_block_store_config : BlockStoreConfig
default_block_store_config = record {
  directory = codes "$HOME/.sequoia/blockstore";
  type = opt_flat_fs;
  key = codes "";
}

abbrev pub default_chain_config : ChainConfig
default_chain_config = record {
  rpc_addr = codes "http://localhost:26657";
  grpc_addr = codes "localhost:9090";
  gas_price = codes "0.02ujkl";
  gas_adjustment = codes "1.5";
  bech32_prefix = codes "jkl";
}

abbrev pub default_config : Config
default_config = record {
  queue_interval = default_queue_interval;
  max_size_bytes = default_max_size_bytes;
  proof_interval = default_proof_interval;
  stray_manager_cfg = default_stray_manager_config;
  chain_cfg = default_chain_config;
  ip = codes "https://example.com";
  total_space = default_total_space;
  data_directory = codes "$HOME/.sequoia/data";
  api_cfg = default_api_config;
  proof_threads = default_proof_threads;
  block_store_config = default_block_store_config;
  queue_rate_limit = default_rate_limit_config;
}
