-- ===== src/FileSystem/Contracts.antt =====
-- What the file system promises of contracts (file_system/file_system.go): `WriteFile` adds a contract
-- when it succeeds, `DeleteFile` takes one away, and `CheckTree` tells which are there.
pub mod Refines
use sequoia.Prelude.{ℕ, if◌then◌else◌, Bool, true, false, ◌&&◌, List, [], ◌∷◌, Option}
use sequoia.Prelude.Int.{ℤ, eqb_ℤ}
use sequoia.Prelude.Bytes.{bytes_equal}
use sequoia.FileSystem.Keys.{Contract}
use sequoia.FileSystem.Stores.{Badger, Ipfs, Merkle, World}
use sequoia.FileSystem.Tree.{Reader}
use sequoia.FileSystem.Write.{Written, wrote, write_failed, write_file}
use sequoia.FileSystem.Delete.{delete_file}
use sequoia.FileSystem.Read.{check_tree}

abbrev pub equal_contracts : Contract → Contract → Bool
equal_contracts c d =
    bytes_equal c.merkle d.merkle && (bytes_equal c.owner d.owner && eqb_ℤ c.start d.start)

-- What happens to a set of contracts.
pub data Event : Type 0 where
  added removed : Contract → Event
  refused : Event

-- The set after an event.
abbrev pub after : Event → (Contract → Bool) → Contract → Bool
after (added c) there d = if equal_contracts c d then true else there d
after (removed c) there d = if equal_contracts c d then false else there d
after refused there d = there d

abbrev pub after_all : List Event → (Contract → Bool) → Contract → Bool
after_all [] there = there
after_all (e ∷ es) there = after_all es (after e there)

-- A call of the file system.
pub data Call (Params : Type 0) : Type 0 where
  write_call : Contract → Reader → ℤ → Params → Call Params
  delete_call : Contract → Call Params

abbrev pub contract_of : {Params : Type 0} → Call Params → Contract
contract_of (write_call c r proof_type params) = c
contract_of (delete_call c) = c

-- `order` and `fuel` are those of `DeleteFile`.
module _ (b : Badger) (p : Ipfs) (m : Merkle) (order : List ℕ → List ℕ) (fuel : ℕ) where
  open b use {Db}
  open p use {Blocks, Params}

  abbrev pub written_event : Contract → Written → Event
  written_event c (wrote size cid) = added c
  written_event c (write_failed e) = refused

  unfoldable pub run : Call Params → World Db Blocks → World Db Blocks × Event
  run (write_call c r proof_type params) w =
      let res = write_file b p m w r c.merkle c.owner c.start proof_type params in
      (res.0, written_event c res.1)
  run (delete_call c) w = ((delete_file b p order fuel w c.merkle c.owner c.start).0, removed c)

  unfoldable pub run_all : List (Call Params) → World Db Blocks → World Db Blocks × List Event
  run_all [] w = (w, [])
  run_all (c ∷ cs) w =
      let first = run c w in let rest = run_all cs first.0 in (rest.0, first.1 ∷ rest.1)

  -- `CheckTree`.
  abbrev pub held : World Db Blocks → Contract → Option Bool
  held w c = check_tree b p m w c.merkle c.owner c.start
