-- ===== src/Examples/Contracts.antt =====
-- The theorem on the set of contracts, applied to a write and two deletions.
use sequoia.Prelude.{◌≡◌, some, ℕ, List, [], ◌∷◌, refl, false, arith}
use sequoia.Prelude.Int.{pos}
use sequoia.FileSystem.Keys.{Contract, IsPlain}
use sequoia.FileSystem.Stores.{World}
use sequoia.FileSystem.Read.{check_tree}
use sequoia.FileSystem.Contracts.{Call, write_call, delete_call, after_all, run_all, held}
use sequoia.FileSystem.Contracts.Refines.{Represents, contracts_refined}
use sequoia.Examples.Stores.{Pairs, pairs_db, pairs_db-NeverFails, small_ipfs, list_merkle, lookup}
use sequoia.Examples.Files.{reader, root, owner, contract, contract-IsPlain}

abbrev written_contract : Contract
written_contract = record { merkle = root; owner = owner; start = pos 5 }

written_contract-IsPlain : IsPlain written_contract
written_contract-IsPlain = record {
  merkle_bytes = (
    omega arith,
    (
      omega arith,
      (
        omega arith,
        (
          omega arith,
          (
            omega arith,
            (
              omega arith,
              (
                omega arith,
                (
                  omega arith,
                  (
                    omega arith,
                    (omega arith, (omega arith, (omega arith, (omega arith, (omega arith, tt))))),
                  ),
                ),
              ),
            ),
          ),
        ),
      ),
    ),
  );
  owner_slashless = contract-IsPlain.owner_slashless;
  start_i64 = contract-IsPlain.start_i64;
}

abbrev calls : List (Call Unit)
calls =
    write_call written_contract reader (pos 0) tt
    ∷ delete_call contract
    ∷ delete_call written_contract
    ∷ []

abbrev nothing : World Pairs (List ℕ)
nothing = record { db = []; blocks = []; file_count = pos 0 }

nothing-Represents :
    Represents pairs_db small_ipfs list_merkle (λ cs. cs) 5 pairs_db-NeverFails nothing (λ d. false)
unfolding check_tree lookup
nothing-Represents d plain = refl

contracts_refined_example :
    let (w', es) = run_all pairs_db small_ipfs list_merkle (λ cs. cs) 5 calls nothing in
    held pairs_db small_ipfs list_merkle (λ cs. cs) 5 w' written_contract
    ≡ some (after_all es (λ d. false) written_contract)
contracts_refined_example =
    contracts_refined pairs_db small_ipfs list_merkle (λ cs. cs) 5 pairs_db-NeverFails calls
      (λ d. false) nothing
      (written_contract-IsPlain, (contract-IsPlain, (written_contract-IsPlain, tt)))
      nothing-Represents written_contract written_contract-IsPlain
