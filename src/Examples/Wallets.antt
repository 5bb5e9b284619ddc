-- ===== src/Examples/Wallets.antt =====
-- The runs of `InitWallet` in a home in memory.
use sequoia.Prelude.{ℕ, List, [], ◌∷◌, ◌++◌, some, ◌≡◌, refl, take, inr}
use sequoia.Prelude.Bytes.{Bytes, bytes_equal, codes}
use sequoia.Config.Types.{Config}
use sequoia.Config.Validate.{read_config}
use sequoia.Config.Disk.{config_file, seed_file, name_of}
use sequoia.Config.Files.{not_written, bad_seed, create_if_not_exists, read_config_file}
use sequoia.Config.Wallet.{
  Seed, Random, generate_wallet, derivation, Ended, failed, exited, create_wallet_of, create_wallet,
  detect_legacy_wallet, init_wallet,
}
use sequoia.Config.Wallet.Calls.{Call, init_call, wallet_call, run_calls, home_files_stay}
use sequoia.Config.Wallet.Again.{Draws, seed_is_reused, failed_write_sticks}
use sequoia.Examples.Homes.{
  Home, set_file, memory_disk, memory_disk-DiskLaws, tools, tools-ReadsBack, codecs, directory,
  configured, random,
}

abbrev other_random : Random
other_random = record { entropy = some (8 ∷ []); mnemonic = λ e. some (codes "sun") }

draws : Draws tools other_random
unfolding generate_wallet
draws = record { seed = _; json = _; draws = refl; exports = refl }

home_files_stay_example :
    run_calls tools
      (memory_disk 100)
      codecs
      directory
      (wallet_call random ∷ init_call ∷ [])
      configured
      (name_of config_file)
    ≡ some (codes "yaml")
unfolding bytes_equal
home_files_stay_example =
    home_files_stay tools (memory_disk 100) codecs directory (memory_disk-DiskLaws 100)
      (wallet_call random ∷ init_call ∷ []) configured config_file (codes "yaml") refl

abbrev first_json : Bytes
first_json = 4 ∷ codes "firm" ++ derivation

-- The home after a first run that could write so many bytes.
abbrev pub seeded : ℕ → Home
seeded room =
    set_file (set_file configured (name_of seed_file) []) (name_of seed_file) (take room first_json)

pub first_run :
    ◌≡◌ {A = Home × Ended Bytes}
      (init_wallet tools (memory_disk 100) codecs random configured directory)
      (seeded 100, exited)
unfolding init_wallet read_config_file bytes_equal read_config detect_legacy_wallet create_wallet
    generate_wallet create_if_not_exists
first_run = refl

failed_run :
    ◌≡◌ {A = Home × Ended Bytes}
      (init_wallet tools (memory_disk 3) codecs random configured directory)
      (seeded 3, failed (not_written seed_file))
unfolding init_wallet read_config_file bytes_equal read_config detect_legacy_wallet create_wallet
    generate_wallet create_if_not_exists
failed_run = refl

-- The calls between the two runs.
abbrev between : List Call
between = wallet_call other_random ∷ init_call ∷ []

seed_is_reused_example :
    (c : Config) × (seed : Seed) × (generate_wallet random ≡ inr seed)
    × (read_config_file (memory_disk 100) codecs (seeded 100) directory ≡ inr c)
    × (◌≡◌ {A = Home × Ended Bytes}
        (init_wallet tools
          (memory_disk 100)
          codecs
          other_random
          (run_calls tools (memory_disk 100) codecs directory between (seeded 100))
          directory)
        (
          run_calls tools (memory_disk 100) codecs directory between (seeded 100),
          create_wallet_of tools seed c.chain_cfg,
        ))
seed_is_reused_example =
    seed_is_reused tools (memory_disk 100) codecs directory (memory_disk-DiskLaws 100) random
      other_random configured (seeded 100) between tools-ReadsBack first_run draws

left_over : seeded 3 (name_of seed_file) ≡ some (take 3 first_json)
unfolding bytes_equal
left_over = refl

failed_write_sticks_example :
    ◌≡◌ {A = Home × Ended Bytes}
      (init_wallet tools
        (memory_disk 3)
        codecs
        other_random
        (run_calls tools (memory_disk 3) codecs directory between (seeded 3))
        directory)
      (run_calls tools (memory_disk 3) codecs directory between (seeded 3), failed bad_seed)
failed_write_sticks_example =
    failed_write_sticks tools (memory_disk 3) codecs directory (memory_disk-DiskLaws 3) random
      other_random configured (seeded 3) between (take 3 first_json) failed_run left_over refl draws
