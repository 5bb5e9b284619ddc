-- ===== src/Examples/Uploads.antt =====
-- The theorems on uploads, applied to a file of two chunks.
use sequoia.Prelude.{ℕ, true, false, List, [], ◌∷◌, ◌≡◌, refl, ap, sym, Option, some, none, inr}
use sequoia.Prelude.Int.{pos}
use sequoia.Prelude.Bytes.{codes, bytes_equal}
use sequoia.Prelude.Bytes.Hex.{hex_encode, hex_decode}
use sequoia.Prelude.Bytes.Decimal.{parse_int, format_int}
use sequoia.FileSystem.Stores.{World}
use sequoia.FileSystem.Keys.{cid_key, tree_key}
use sequoia.FileSystem.Tree.{build_tree, leaf}
use sequoia.FileSystem.Write.{wrote, write_file, put_entries, add_data}
use sequoia.Seeker.{new_bytes_seeker, read_loop, read}
use sequoia.Proofs.Generate.{ChainFile}
use sequoia.Proofs.Post.{Codec, Host}
use sequoia.Queue.Types.{blank_message}
use sequoia.Queue.Add.{new_queue}
use sequoia.Config.Types.{default_rate_limit_config}
use sequoia.Api.Multipart.{Form}
use sequoia.Seeker.Files.{reader_of}
use sequoia.Api.Uploads.{
  ChainUpload, failed, size_differs, Target, Outside, parse_target, parse_type, check_chain,
}
use sequoia.Api.Uploads.Handlers.{upload_target, run_job, with_world}
use sequoia.Api.Uploads.Agreement.{Reports, uploads_agree}
use sequoia.Api.Uploads.Mismatch.{Lingers, wrong_size_stays}
use sequoia.Examples.Parts.{file}
use sequoia.Examples.Stores.{Pairs, pairs_db, pairs_db-NeverFails, small_ipfs, list_merkle, encode}
use sequoia.Examples.Files.{root, owner}

abbrev pub form : Form
form = record {
  sender = owner;
  merkle = hex_encode root;
  start = codes "5";
  proof_type = [];
  file = some file;
}

abbrev pub target : Target
target = record { merkle = root; start = pos 5 }

-- The chain's file, with its size.
abbrev pub on_chain : ℕ → ChainUpload Unit
on_chain size = record {
  merkle = root;
  proof_count = pos 1;
  max_proofs = pos 3;
  contains_prover = false;
  file_size = pos size;
  proof_type = pos 0;
  params = tt;
}

pub target_lem : parse_target form ≡ inr target
unfolding parse_target hex_encode hex_decode parse_int
target_lem = refl

pub type_lem : parse_type [] ≡ inr (pos 0)
unfolding parse_type parse_int
type_lem = refl

pub check_lem :
    (size : ℕ) → check_chain (hex_encode root) (some (on_chain size)) ≡ inr (on_chain size)
unfolding check_chain hex_encode bytes_equal
check_lem size = refl

-- The chain's file as the prover reads it.
abbrev pub asked : ChainFile
asked = record {
  max_proofs = pos 3;
  proof_count = pos 1;
  contains_prover = false;
  proof_type = pos 0;
  proven_this_block = λ height last. false;
}

abbrev pub outside : ℕ → Outside Unit
outside size = record {
  file = λ merkle owner start. some (on_chain size);
  account = codes "jkl9";
  queries = record { file = inr asked; proof = none };
  elapsed = pos 0;
  reply = blank_message;
}

abbrev pub codec : Codec
codec = record {
  tx_msg_data = λ s. some (s ∷ []);
  post_response = λ s. some true;
  error_code = λ e. 2;
}

abbrev pub host : Host Pairs (List ℕ)
host = record {
  prover = record { threads = pos 2; current_threads = pos 1 };
  world = record { db = []; blocks = []; file_count = pos 0 };
  queue = new_queue 0 10 (pos 0) (codes "https") default_rate_limit_config;
}

on_chain_type :
    (g : ChainUpload Unit)
    → ◌≡◌ {A = Option (ChainUpload Unit)} (some (on_chain 4)) (some g)
    → g.proof_type ≡ pos 0
on_chain_type g e =
    let same : on_chain 4 ≡ g = cc in ap (λ (k : ChainUpload Unit). k.proof_type) (sym same)

uploads_agree_example :
    let (h₁, r) =
      upload_target pairs_db small_ipfs list_merkle
        (λ cs. cs)
        10
        codec
        (λ e. [])
        (pos 2)
        (outside 4)
        form
        host
        (parse_target form) in
    let (h₂, tr, done) =
      run_job pairs_db small_ipfs list_merkle
        (λ cs. cs)
        10
        codec
        (λ e. [])
        (pos 2)
        (outside 4)
        form
        target
        host in
    (h₁ ≡ h₂) × Reports r tr done
uploads_agree_example =
    uploads_agree pairs_db small_ipfs list_merkle (λ cs. cs) 10 codec (λ e. []) (pos 2)
      pairs_db-NeverFails (outside 4) form target host (pos 0) type_lem on_chain_type target_lem

abbrev pub stored : World Pairs (List ℕ)
stored = record {
  db = (cid_key root, 1 ∷ []) ∷ (tree_key root owner (pos 5), root) ∷ [];
  blocks = 1 ∷ 2 ∷ 3 ∷ [];
  file_count = pos 1;
}

pub stored_lem :
    write_file pairs_db small_ipfs list_merkle host.world
      (reader_of (pos 2) (0 ∷ 7 ∷ 1 ∷ 7 ∷ []))
      root
      owner
      (pos 5)
      (pos 0)
      tt
    ≡ (stored, wrote 4 1)
unfolding write_file reader_of read_loop read new_bytes_seeker build_tree leaf encode format_int
    hex_encode bytes_equal put_entries add_data
stored_lem = refl

wrong_size_stays_example :
    (upload_target pairs_db small_ipfs list_merkle
        (λ cs. cs)
        10
        codec
        (λ e. [])
        (pos 2)
        (outside 5)
        form
        host
        (parse_target form)
      ≡ (
        with_world pairs_db small_ipfs list_merkle
            (λ cs. cs)
            10
            codec
            (λ e. [])
            (pos 2)
            host
            stored,
        failed 500 size_differs,
      ))
    × Lingers pairs_db small_ipfs list_merkle
        (λ cs. cs)
        10
        codec
        (λ e. [])
        (pos 2)
        pairs_db-NeverFails
        (outside 5)
        form
        target
        host
        (on_chain 5)
        stored
        4
        1
        refl
        (run_job pairs_db small_ipfs list_merkle
          (λ cs. cs)
          10
          codec
          (λ e. [])
          (pos 2)
          (outside 5)
          form
          target
          host)
wrong_size_stays_example =
    wrong_size_stays pairs_db small_ipfs list_merkle (λ cs. cs) 10 codec (λ e. []) (pos 2)
      pairs_db-NeverFails (outside 5) form target host (on_chain 5) stored 4 1 refl target_lem
      type_lem (check_lem 5) stored_lem
