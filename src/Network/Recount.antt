-- ===== src/Network/Recount.antt =====
-- Downloads that are written and then not accepted (network/downloads.go).
use sequoia.Prelude.{
  ℕ, suc, Bool, false, List, [], ◌∷◌, ◌≡◌, refl, ◌∙◌, ◌⊎◌, inl, inr, arith, length, All,
}
use sequoia.Prelude.Int.{ℤ, pos, eqb_ℤ, ◌+ℤ◌}
use sequoia.Prelude.Bytes.{Bytes, bytes_equal}
use sequoia.FileSystem.Stores.{Badger, Ipfs, Merkle, World}
use sequoia.FileSystem.Write.{Written, wrote, write_failed}
use sequoia.FileSystem.Write.Effects.{WriteResult, success, failure, write_file-WriteResult}
use sequoia.Seeker.Files.{reader_of}
use sequoia.Network.{
  Decoders, Attempt, DownloadError, not_written, Wanted, fetched, swapped, after_write,
  write_fetched, download_file_from_url, or_next, try_providers,
}

counts_on : (a z : ℤ) (n : ℕ) → z ≡ a +ℤ pos 1 → z +ℤ pos n ≡ a +ℤ pos (suc n)
counts_on a z n e = rw e (ground arith)

module _ (b : Badger) (p : Ipfs) (m : Merkle) (d : Decoders) (attempt : Bytes → Attempt)
    (url_map : List (Bytes × Bytes)) (my_url : Bytes) (chunk_size : ℤ) where
  open b use {Db}
  open p use {Blocks, Params}

  module _ (f : Wanted Params) (size : ℕ) (differs : eqb_ℤ f.file_size (pos size) ≡ false) where
    -- In every world the provider's data is written, and has another size than the chain's.
    abbrev pub Misfits : Bytes → Type 0
    Misfits url =
        (bytes_equal url my_url ≡ false)
        × ((v : World Db Blocks)
            → (download_file_from_url b p m d attempt url_map my_url chunk_size
                (swapped url_map url) f v).1
              ≡ inr size)

    abbrev Counted : World Db Blocks → World Db Blocks × (DownloadError ⊎ ℕ) → Type 0
    Counted v r = r.1 ≡ inr size → r.0.file_count ≡ v.file_count +ℤ pos 1

    after_write-Counted :
        (v u : World Db Blocks) (res : Written) (got : Bytes)
        → WriteResult b p m v (reader_of chunk_size got) f.merkle f.owner f.start f.proof_type u res
        → Counted v (after_write b p m d attempt url_map my_url chunk_size (u, res))
    unfolding after_write
    after_write-Counted v u (wrote n cid) got (success of_data root h c) e = c
    after_write-Counted v u (write_failed err) got (failure db n) e =
        let k : ◌≡◌ {A = DownloadError ⊎ ℕ} (inl (not_written err)) (inr size) = e in cc

    write_fetched-Counted :
        (v : World Db Blocks) (r : DownloadError ⊎ Bytes)
        → Counted v (write_fetched b p m d attempt url_map my_url chunk_size f v r)
    unfolding write_fetched
    write_fetched-Counted v (inl err) e =
        let k : ◌≡◌ {A = DownloadError ⊎ ℕ} (inl err) (inr size) = e in cc
    write_fetched-Counted v (inr got) e =
        after_write-Counted v _ _ got
          (write_file-WriteResult b p m v (reader_of chunk_size got) f.merkle f.owner f.start
            f.proof_type f.params)
          e

    passed_on :
        (r : World Db Blocks × (DownloadError ⊎ ℕ))
        (next : World Db Blocks → World Db Blocks × Bool)
        → r.1 ≡ inr size
        → or_next b p m d attempt url_map my_url chunk_size f r next ≡ next r.0
    passed_on (u, inl err) next e =
        let k : ◌≡◌ {A = DownloadError ⊎ ℕ} (inl err) (inr size) = e in cc
    passed_on (u, inr n) next e = let n≡ : n ≡ size = cc in rw (n≡, differs) refl

    -- When all providers send the file in a size that is not the chain's, the download fails, and yet
    -- each of them has counted one file more.
    pub wrong_size_recounts :
        (urls : List Bytes) (w : World Db Blocks)
        → All Misfits urls
        → let (w', found) = try_providers b p m d attempt url_map my_url chunk_size f urls w in
          (found ≡ false) × (w'.file_count ≡ w.file_count +ℤ pos (length urls))
    unfolding try_providers download_file_from_url
    wrong_size_recounts [] w h = (refl, ground arith)
    wrong_size_recounts (url ∷ urls) w ((other, sent), h) =
        let r =
          write_fetched b p m d attempt url_map my_url chunk_size f w
            (fetched d (attempt (swapped url_map url))) in
        let one = write_fetched-Counted w (fetched d (attempt (swapped url_map url))) (sent w) in
        let rest = try_providers b p m d attempt url_map my_url chunk_size f urls in
        let (none_found, more) = wrong_size_recounts urls r.0 h in
        rw (other, passed_on r rest (sent w)) (none_found, more ∙ counts_on _ _ (length urls) one)
