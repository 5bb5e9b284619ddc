-- ===== src/Examples/Downloads.antt =====
-- The theorems on downloads, applied to two providers.
use sequoia.Prelude.{
  ◌<◌, length, subst, inr, ℕ, true, false, List, [], ◌∷◌, ◌≡◌, refl, some, none, arith,
}
use sequoia.Prelude.Int.{pos, ◌+ℤ◌}
use sequoia.Prelude.Bytes.{Bytes, codes, bytes_equal}
use sequoia.Prelude.Bytes.Hex.{hex_encode}
use sequoia.Prelude.Bytes.Decimal.{format_int}
use sequoia.FileSystem.Stores.{World}
use sequoia.FileSystem.Keys.{cid_key, tree_key}
use sequoia.FileSystem.Tree.{build_tree, leaf}
use sequoia.FileSystem.Write.{write_file, put_entries, add_data}
use sequoia.Seeker.{new_bytes_seeker, read_loop, read}
use sequoia.Seeker.Files.{reader_of}
use sequoia.Network.{
  Decoders, Attempt, Wanted, replied, copy_end, fetched, swapped, write_fetched, body_reader,
  download_file_from_url, try_providers, downloaded, download_file,
}
use sequoia.Network.Sound.{Served, download_file_sound}
use sequoia.Network.Recount.{Misfits, wrong_size_recounts}
use sequoia.Examples.Stores.{Pairs, pairs_db, small_ipfs, list_merkle, encode}
use sequoia.Examples.Files.{root, owner}

abbrev pub decoders : Decoders
decoders = record {
  gzip = λ s. none;
  zlib = λ s. none;
  brotli = λ s. (s, false);
  body = λ s. (s, true);
  error_message = λ s. none;
}

abbrev pub me : Bytes
me = codes "a"

-- Every provider sends the file.
abbrev pub attempt : Bytes → Attempt
attempt url = record {
  reply = replied 200 [] (0 ∷ 7 ∷ 1 ∷ 7 ∷ []);
  creates = true;
  rewinds = true;
  race = copy_end;
}

abbrev wanted : ℕ → Wanted Unit
wanted size = record {
  merkle = root;
  owner = owner;
  start = pos 5;
  proof_type = pos 0;
  params = tt;
  file_size = pos size;
}

abbrev pub empty : World Pairs (List ℕ)
empty = record { db = []; blocks = []; file_count = pos 0 }

abbrev stored : World Pairs (List ℕ)
stored = record {
  db = (cid_key root, 1 ∷ []) ∷ (tree_key root owner (pos 5), root) ∷ [];
  blocks = 1 ∷ 2 ∷ 3 ∷ [];
  file_count = pos 1;
}

download_lem :
    download_file pairs_db small_ipfs list_merkle decoders attempt [] me
      (pos 2)
      (some (me ∷ codes "b" ∷ []))
      (wanted 4)
      empty
    ≡ (stored, downloaded)
unfolding download_file try_providers download_file_from_url write_fetched fetched body_reader
    write_file reader_of read_loop read new_bytes_seeker build_tree leaf encode format_int
    hex_encode bytes_equal put_entries add_data swapped
download_lem = refl

small_data :
    (url got : Bytes) → fetched decoders (attempt url) ≡ inr got → length got < 9223372036854775808
unfolding fetched body_reader bytes_equal
small_data url got e =
    let same : 0 ∷ 7 ∷ 1 ∷ 7 ∷ [] ≡ got = cc in
    subst (λ (g : Bytes). length g < 9223372036854775808) same (omega arith)

download_file_sound_example :
    Served pairs_db small_ipfs list_merkle decoders attempt [] me
      (pos 2)
      (wanted 4)
      stored
      (omega arith)
      small_data
      (me ∷ codes "b" ∷ [])
      empty
download_file_sound_example =
    download_file_sound pairs_db small_ipfs list_merkle decoders attempt [] me (pos 2) (wanted 4)
      stored (omega arith) small_data (me ∷ codes "b" ∷ []) empty download_lem

b-Misfits :
    Misfits pairs_db small_ipfs list_merkle decoders attempt [] me
      (pos 2)
      (wanted 5)
      4
      refl
      (codes "b")
unfolding download_file_from_url write_fetched fetched body_reader write_file reader_of read_loop
    read new_bytes_seeker build_tree leaf encode format_int hex_encode bytes_equal put_entries
    add_data swapped
b-Misfits = (refl, λ v. refl)

wrong_size_recounts_example :
    let (w', found) =
      try_providers pairs_db small_ipfs list_merkle decoders attempt [] me
        (pos 2)
        (wanted 5)
        (codes "b" ∷ codes "b" ∷ [])
        empty in
    (found ≡ false) × (w'.file_count ≡ empty.file_count +ℤ pos 2)
wrong_size_recounts_example =
    wrong_size_recounts pairs_db small_ipfs list_merkle decoders attempt [] me (pos 2) (wanted 5) 4
      refl (codes "b" ∷ codes "b" ∷ []) empty (b-Misfits, (b-Misfits, tt))
