-- ===== src/FileSystem/Contracts/Refines.antt =====
-- The file system keeps a set of contracts (file_system/file_system.go).
use sequoia.Prelude.{
  ℕ, ◌≡◌, ◌≢◌, sym, ap, ◌∙◌, subst, Bool, true, false, List, [], ◌∷◌, some, All, arith, Bool-cases,
  inl, inr,
}
use sequoia.Prelude.Int.{ℤ, eqb_ℤ→eq, eqb_ℤ-refl}
use sequoia.Prelude.Bytes.{Bytes, bytes_equal→eq, bytes_equal_refl}
use sequoia.FileSystem.Keys.{Contract, IsPlain, tree_key, tree_key_injective, tree_key-ne-cid_key}
use sequoia.FileSystem.Stores.{Badger, Ipfs, Merkle, World, NeverFails}
use sequoia.FileSystem.Tree.{Reader}
use sequoia.FileSystem.Write.{Written, wrote, write_failed}
use sequoia.FileSystem.Write.Effects.{WriteResult, success, failure, write_file-WriteResult}
use sequoia.FileSystem.Delete.{delete_file}
use sequoia.FileSystem.Delete.Shared.{delete_file_missing, delete_file_forgets}
use sequoia.FileSystem.Read.{check_tree, present}
use sequoia.FileSystem.Contracts.{
  equal_contracts, removed, after, after_all, Call, write_call, delete_call, contract_of,
  written_event, run, run_all, held,
}

equal_contracts→eq : (c d : Contract) → equal_contracts c d ≡ true → c ≡ d
equal_contracts→eq c d h =
    let merkle = bytes_equal→eq c.merkle d.merkle (ground arith) in
    let owner = bytes_equal→eq c.owner d.owner (ground arith) in
    let start = eqb_ℤ→eq c.start d.start (ground arith) in
    λ i. record { merkle = merkle i; owner = owner i; start = start i }

equal_contracts_refl : (c : Contract) → equal_contracts c c ≡ true
equal_contracts_refl c =
    rw (bytes_equal_refl c.merkle, bytes_equal_refl c.owner, eqb_ℤ-refl c.start)

-- The key of a contract.
abbrev key : Contract → Bytes
key c = tree_key c.merkle c.owner c.start

keys_apart : (c d : Contract) → IsPlain c → IsPlain d → equal_contracts c d ≡ false → key d ≢ key c
keys_apart c d v w differs = λ e.
    let c≡d = tree_key_injective c d v w (sym e) in
    let same : equal_contracts c d ≡ true =
      subst (λ x. equal_contracts c x ≡ true) c≡d (equal_contracts_refl c) in
    cc

module _ (b : Badger) (p : Ipfs) (m : Merkle) (order : List ℕ → List ℕ) (fuel : ℕ)
    (f : NeverFails b) where
  open b use {Db}
  open p use {Blocks, Params}

  -- The files on disk are those of the set, as far as contracts are plain.
  abbrev pub Represents : World Db Blocks → (Contract → Bool) → Type 0
  Represents w there = (d : Contract) → IsPlain d → held b p m order fuel w d ≡ some (there d)

  module _ (there : Contract → Bool) (c : Contract) (plain : IsPlain c) (w : World Db Blocks)
      (rep : Represents w there) where
    write-Represents :
        (r : Reader) (proof_type : ℤ) (w' : World Db Blocks) (res : Written)
        → WriteResult b p m w r c.merkle c.owner c.start proof_type w' res
        → Represents w' (after (written_event b p m order fuel c res) there)
    unfolding check_tree
    write-Represents r proof_type w' (write_failed e) (failure db count) d plain' =
        ap (λ x. present b p m (b.get (b.begin x) (key d))) db ∙ rep d plain'
    write-Represents r proof_type w' (wrote size cid) (success of_data root h count) d plain' =
        elim (Bool-cases (equal_contracts c d)) [
          | inl same ↦
              let c≡d = equal_contracts→eq c d same in
              rw (same, ← c≡d) (ap (present b p m) h.tree_entry)
          | inr differs ↦ rw differs (
              ap (present b p m) (
                h.others (key d) (keys_apart c d plain plain' differs)
                  (tree_key-ne-cid_key d.merkle d.owner d.start c.merkle))
              ∙ rep d plain')
        ]

    delete-Represents :
        Represents
          (delete_file b p order fuel w c.merkle c.owner c.start).0
          (after (removed c) there)
    delete-Represents d plain' = elim (Bool-cases (equal_contracts c d)) [
      | inl same ↦ rw same (
          subst
            (λ x.
              held b p m order fuel (delete_file b p order fuel w c.merkle c.owner c.start).0 x
              ≡ some false)
            (equal_contracts→eq c d same)
            (delete_file_missing b p order fuel f m w c.merkle c.owner c.start))
      | inr differs ↦ rw differs (
          (delete_file_forgets b p order fuel f m w c.merkle c.owner c.start d.merkle d.owner
            d.start (keys_apart c d plain plain' differs)).1
          ∙ rep d plain')
    ]

  run-Represents :
      (call : Call Params) (there : Contract → Bool) (w : World Db Blocks)
      → IsPlain (contract_of call)
      → Represents w there
      → let (w', e) = run b p m order fuel call w in Represents w' (after e there)
  unfolding run
  run-Represents (write_call c r proof_type params) there w plain rep =
      write-Represents there c plain w rep r proof_type _ _
        (write_file-WriteResult b p m w r c.merkle c.owner c.start proof_type params)
  run-Represents (delete_call c) there w plain rep = delete-Represents there c plain w rep

  run_all-Represents :
      (calls : List (Call Params)) (there : Contract → Bool) (w : World Db Blocks)
      → All (λ call. IsPlain (contract_of call)) calls
      → Represents w there
      → let (w', es) = run_all b p m order fuel calls w in Represents w' (after_all es there)
  unfolding run_all
  run_all-Represents [] there w plain rep = rep
  run_all-Represents (call ∷ calls) there w (plain, more) rep =
      run_all-Represents calls _ _ more (run-Represents call there w plain rep)

  -- Over a database whose writes succeed, for calls on contracts whose keys can be read back, and from
  -- a set of contracts that is what is on disk: after the calls, such a contract is on disk exactly
  -- when it is in the set to which each write that succeeded has added its contract, and from which
  -- each deletion has taken its own.
  pub contracts_refined :
      (calls : List (Call Params)) (there : Contract → Bool) (w : World Db Blocks)
      → All (λ call. IsPlain (contract_of call)) calls
      → Represents w there
      → (d : Contract) → IsPlain d
      → let (w', es) = run_all b p m order fuel calls w in
        held b p m order fuel w' d ≡ some (after_all es there d)
  contracts_refined calls there w plain rep = run_all-Represents calls there w plain rep
