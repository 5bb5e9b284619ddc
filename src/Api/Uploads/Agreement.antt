-- ===== src/Api/Uploads/Agreement.antt =====
-- The two upload handlers of api/file_handler.go against each other.
use sequoia.Prelude.{
  ℕ, Bool, true, false, List, ◌≡◌, refl, ap, ◌∙◌, Option, none, some, ◌⊎◌, inl, inr, arith,
  Bool-cases,
}
use sequoia.Prelude.Int.{ℤ, pos, eqb_ℤ}
use sequoia.Prelude.Bytes.{Bytes, codes}
use sequoia.FileSystem.Stores.{Badger, Ipfs, Merkle, World, NeverFails}
use sequoia.FileSystem.Write.{WriteError, Written, wrote, write_failed, Tracker, write_file}
use sequoia.FileSystem.Write.Progress.{Tells, write_file_with_progress_agrees}
use sequoia.Proofs.Post.{Codec, Host}
use sequoia.Api.Multipart.{Form}
use sequoia.Seeker.Files.{reader_of}
use sequoia.Api.Uploads.{
  ChainUpload, UploadError, Response, failed, uploaded, Target, Outside, parse_target, parse_type,
  file_bytes, check_chain,
}
use sequoia.Api.Uploads.Handlers.{
  answer_written, write_upload, upload_typed, upload_target, with_proofs, started, job_written,
  job_checked, run_job,
}

-- What the tracker and the expiry of the job say of an answer of the first handler.
abbrev pub Reports : Response → Tracker → Bool → Type 0
Reports (uploaded r) tr done =
    (tr.progress ≡ 100) × (tr.status ≡ codes "done!") × (tr.cid ≡ r.cid) × (done ≡ true)
Reports (failed code e) tr done = done ≡ false

checked_is_given :
    {P : Type 0} (text : Bytes) (o : Option (ChainUpload P)) (file : ChainUpload P)
    → check_chain text o ≡ inr file
    → o ≡ some file
unfolding check_chain
checked_is_given text none file e = cc
checked_is_given text (some g) file e = ground arith

module _ (b : Badger) (p : Ipfs) (m : Merkle) (order : List ℕ → List ℕ) (fuel : ℕ) (c : Codec)
    (text : WriteError → Bytes) (chunk_size : ℤ) (f : NeverFails b) where
  open b use {Db}
  open p use {Blocks, Params}

  module _ (o : Outside Params) (form : Form) (t : Target) (h : Host Db Blocks) where
    abbrev Agree : Host Db Blocks × Response → Host Db Blocks × Tracker × Bool → Type 0
    Agree (h₁, r) (h₂, tr, done) = (h₁ ≡ h₂) × Reports r tr done

    written-Agree :
        (file : ChainUpload Params) (w : World Db Blocks) (tr tr' : Tracker) (res : Written)
        → Tells tr tr' res
        → Agree
            (answer_written b p m order fuel c text chunk_size o form t file h (w, res))
            (job_written b p m order fuel c text chunk_size o form.sender t file h (w, tr', res))
    unfolding answer_written job_written
    written-Agree file w tr tr' (write_failed e) k = (refl, refl)
    written-Agree file w tr tr' (wrote size cid) (full, done) =
        elim (Bool-cases (eqb_ℤ (pos size) file.file_size)) [
          | inl same ↦ rw same (refl, (full, done, refl, refl))
          | inr differs ↦ rw differs (refl, refl)
        ]

    same_write-Agree :
        (file : ChainUpload Params) (tr : Tracker) (x : World Db Blocks × Tracker × Written)
        (y : World Db Blocks × Written)
        → (x.0, x.2) ≡ y
        → Tells tr x.1 x.2
        → Agree
            (answer_written b p m order fuel c text chunk_size o form t file h y)
            (job_written b p m order fuel c text chunk_size o form.sender t file h x)
    same_write-Agree file tr (w, tr', res) y e k = rw (← e) (written-Agree file w tr tr' res k)

    checked-Agree :
        (proof_type : ℤ) (e : UploadError ⊎ ChainUpload Params)
        → ((file : ChainUpload Params) → e ≡ inr file → file.proof_type ≡ proof_type)
        → Agree
            (write_upload b p m order fuel c text chunk_size o form t proof_type h e)
            (job_checked b p m order fuel c text chunk_size o form t h (started t form.sender) e)
    unfolding write_upload job_checked
    checked-Agree proof_type (inl e) typed = (refl, refl)
    checked-Agree proof_type (inr file) typed =
        let r = reader_of chunk_size (file_bytes form.file) in
        let tr = with_proofs (started t form.sender) in
        let (e, k) =
          write_file_with_progress_agrees b p m f h.world tr (omega arith) r t.merkle form.sender
            t.start file.proof_type file.params in
        let same =
          ap (λ z. write_file b p m h.world r t.merkle form.sender t.start z file.params)
            (typed file refl) in
        same_write-Agree file tr _ _ (e ∙ same) k

    -- Over a database whose writes succeed, and for a form whose proof type is a number and that of
    -- the chain's file, the upload and the job leave the same files, prover and queue. When the
    -- upload is answered with a CID, the job ends at 100, is "done!", has that CID and will be
    -- deleted; when the upload is refused, the job will not be deleted.
    pub uploads_agree :
        (proof_type : ℤ)
        → parse_type form.proof_type ≡ inr proof_type
        → ((file : ChainUpload Params)
            → o.file t.merkle form.sender t.start ≡ some file
            → file.proof_type ≡ proof_type)
        → parse_target form ≡ inr t
        → let (h₁, r) =
            upload_target b p m order fuel c text chunk_size o form h (parse_target form) in
          let (h₂, tr, done) = run_job b p m order fuel c text chunk_size o form t h in
          (h₁ ≡ h₂) × Reports r tr done
    unfolding upload_target upload_typed run_job
    uploads_agree proof_type e typed d =
        rw (d, e)
          (checked-Agree proof_type _
            (λ file k. typed file (checked_is_given form.merkle _ file k)))
