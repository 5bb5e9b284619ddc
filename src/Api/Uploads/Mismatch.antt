-- ===== src/Api/Uploads/Mismatch.antt =====
-- An upload whose size is not the chain's (`PostFileHandler` and `PostFileHandlerV2` of
-- api/file_handler.go).
use sequoia.Prelude.{ℕ, Bool, false, List, ◌≡◌, refl, ap, ◌∙◌, inr, arith}
use sequoia.Prelude.Int.{ℤ, pos, eqb_ℤ}
use sequoia.Prelude.Bytes.{Bytes, codes}
use sequoia.FileSystem.Stores.{Badger, Ipfs, Merkle, World, NeverFails}
use sequoia.FileSystem.Write.{WriteError, Written, wrote, write_failed, Tracker, write_file}
use sequoia.FileSystem.Write.Progress.{Tells, write_file_with_progress_agrees}
use sequoia.Proofs.Post.{Codec, Host}
use sequoia.Api.Multipart.{Form}
use sequoia.Seeker.Files.{reader_of}
use sequoia.Api.Uploads.{
  ChainUpload, failed, size_differs, Target, Outside, parse_target, parse_type, file_bytes,
  check_chain,
}
use sequoia.Api.Uploads.Handlers.{
  answer_written, write_upload, upload_typed, upload_target, with_world, with_proofs, started,
  job_written, job_checked, run_job,
}

module _ (b : Badger) (p : Ipfs) (m : Merkle) (order : List ℕ → List ℕ) (fuel : ℕ) (c : Codec)
    (text : WriteError → Bytes) (chunk_size : ℤ) (f : NeverFails b) where
  open b use {Db}
  open p use {Blocks, Params}

  module _ (o : Outside Params) (form : Form) (t : Target) (h : Host Db Blocks)
      (file : ChainUpload Params) (w : World Db Blocks) (size cid : ℕ)
      (differs : eqb_ℤ (pos size) file.file_size ≡ false) where
    -- A job that looks done, and stays.
    abbrev pub Lingers : Host Db Blocks × Tracker × Bool → Type 0
    Lingers (h', tr, done) =
        (h' ≡ with_world b p m order fuel c text chunk_size h w)
        × (tr.progress ≡ 100)
        × (tr.status ≡ codes "done!")
        × (tr.cid ≡ p.cid_string cid)
        × (done ≡ false)

    written-Lingers :
        (tr tr' : Tracker) (w' : World Db Blocks) (res : Written)
        → w' ≡ w
        → res ≡ wrote size cid
        → Tells tr tr' res
        → Lingers
            (job_written b p m order fuel c text chunk_size o form.sender t file h (w', tr', res))
    unfolding job_written
    written-Lingers tr tr' w' (write_failed e) same k told = absurd (ground arith)
    written-Lingers tr tr' w' (wrote n d) same k (full, done) =
        let n≡ : n ≡ size = cc in
        let d≡ : d ≡ cid = cc in rw (n≡, d≡, differs, same) (refl, full, done, refl, refl)

    -- Over a database whose writes succeed, when the file that was written has not the size that the
    -- chain has: the upload is answered with status 500 and yet leaves the file on disk; the job
    -- leaves it too, ends at 100, says "done!" with a CID, and will never be deleted. No proof is
    -- posted in either.
    pub wrong_size_stays :
        parse_target form ≡ inr t
        → parse_type form.proof_type ≡ inr file.proof_type
        → check_chain form.merkle (o.file t.merkle form.sender t.start) ≡ inr file
        → write_file b p m h.world
            (reader_of chunk_size (file_bytes form.file))
            t.merkle
            form.sender
            t.start
            file.proof_type
            file.params
          ≡ (w, wrote size cid)
        → (upload_target b p m order fuel c text chunk_size o form h (parse_target form)
            ≡ (with_world b p m order fuel c text chunk_size h w, failed 500 size_differs))
          × Lingers (run_job b p m order fuel c text chunk_size o form t h)
    unfolding upload_target upload_typed write_upload answer_written run_job job_checked
    wrong_size_stays d ty k e =
        let r = reader_of chunk_size (file_bytes form.file) in
        let tr = with_proofs (started t form.sender) in
        let (same, told) =
          write_file_with_progress_agrees b p m f h.world tr (omega arith) r t.merkle form.sender
            t.start file.proof_type file.params in
        (
          rw (d, ty, k, e, differs) refl,
          rw k
              (written-Lingers tr _ _ _ (ap (λ x. x.0) (same ∙ e)) (ap (λ x. x.1) (same ∙ e)) told),
        )
