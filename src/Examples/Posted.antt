-- ===== src/Examples/Posted.antt =====
-- The theorem on the proof that an upload posts, applied to a file of two chunks.
use sequoia.Prelude.{◌≢◌, get_elem?, arith, [], ◌∷◌, ◌≡◌, refl, some}
use sequoia.Prelude.Int.{pos_part, pos}
use sequoia.FileSystem.Write.{wrote, write_file}
use sequoia.Seeker.{new_bytes_seeker, read_loop, read}
use sequoia.FileSystem.Read.{load_chunk}
use sequoia.Api.Uploads.Proven.{IsProven, upload_posts_proof}
use sequoia.Seeker.Files.{reader_of}
use sequoia.Api.Uploads.{file_bytes, parse_target}
use sequoia.Api.Uploads.Handlers.{upload_target}
use sequoia.Examples.Stores.{pairs_db, small_ipfs, list_merkle, list_merkle-MerkleLaws, encode}
use sequoia.Examples.Files.{root, owner}
use sequoia.Examples.Uploads.{
  form, target, on_chain, asked, outside, codec, host, stored, target_lem, type_lem, check_lem,
  stored_lem,
}

stored_form :
    write_file pairs_db small_ipfs list_merkle host.world
      (reader_of (pos 2) (file_bytes form.file))
      root
      owner
      (pos 5)
      (pos 0)
      tt
    ≡ (stored, wrote 4 1)
stored_form = stored_lem

some_size : pos_part (pos 2) ≢ 0
some_size = omega arith

first_read : get_elem? (reader_of (pos 2) (file_bytes form.file)).reads 0 ≡ some (0 ∷ 7 ∷ [])
unfolding reader_of read_loop read new_bytes_seeker
first_read = refl

first_chunk :
    load_chunk pairs_db small_ipfs list_merkle stored.blocks (pos 0) 1 (pos 0) (pos 2)
    ≡ some (0 ∷ 7 ∷ [])
unfolding load_chunk
first_chunk = refl

upload_posts_proof_example :
    IsProven pairs_db small_ipfs list_merkle
      (λ cs. cs)
      10
      codec
      (λ e. [])
      (pos 2)
      list_merkle-MerkleLaws
      (outside 4)
      form
      target
      host
      (pos 0)
      (0 ∷ 7 ∷ [])
      (upload_target pairs_db small_ipfs list_merkle
        (λ cs. cs)
        10
        codec
        (λ e. [])
        (pos 2)
        (outside 4)
        form
        host
        (parse_target form)).0
upload_posts_proof_example =
    upload_posts_proof pairs_db small_ipfs list_merkle (λ cs. cs) 10 codec (λ e. []) (pos 2)
      list_merkle-MerkleLaws (outside 4) form target host (pos 0) (on_chain 4) stored 4 1 asked
      (0 ∷ 7 ∷ []) target_lem type_lem (check_lem 4) stored_form refl
      (record { there = refl; not_prover = refl; room = refl; unproven = refl }) refl some_size
      (omega arith) first_read first_chunk (λ pr. (encode pr, refl))
