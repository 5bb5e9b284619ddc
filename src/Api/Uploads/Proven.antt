-- ===== src/Api/Uploads/Proven.antt =====
-- From an upload to its proof in the queue (`PostFileHandler` of api/file_handler.go, over `WriteFile`
-- and `PostProof`).
use sequoia.Prelude.{
  ◌≢◌, ◌<◌, length, ℕ, true, List, ◌≡◌, refl, ap, ◌∙◌, subst, some, inr, get_elem?,
}
use sequoia.Prelude.Int.{ℤ, pos_part, pos, eqb_ℤ}
use sequoia.Prelude.Bytes.{Bytes}
use sequoia.Prelude.Bytes.Hex.{hex_encode}
use sequoia.FileSystem.Keys.{tree_key, cid_key}
use sequoia.FileSystem.Stores.{Badger, Ipfs, Merkle, MerkleLaws, World}
use sequoia.FileSystem.Tree.{Reader, leaf, is_blake3, built, build_tree}
use sequoia.FileSystem.Read.{load_chunk}
use sequoia.FileSystem.Write.{WriteError, Written, wrote, write_failed, write_file}
use sequoia.FileSystem.Write.Effects.{
  WriteResult, success, failure, write_file-WriteResult, HasEntries,
}
use sequoia.Queue.Add.{add}
use sequoia.Proofs.Generate.{ChainFile, height_after, gen_proof, marshalled}
use sequoia.Proofs.Generate.Valid.{gen_proof_valid}
use sequoia.Proofs.Generate.Fresh.{IsOpen, generate_proof_for-open}
use sequoia.Proofs.Post.{Codec, Host, Job, proof_msg, post_proof_of}
use sequoia.Proofs.Post.Posted.{post_proof_of-queue}
use sequoia.Seeker.Files.{reader_of, reads_full}
use sequoia.Api.Multipart.{Form}
use sequoia.Api.Uploads.{
  ChainUpload, Target, Outside, parse_target, parse_type, file_bytes, check_chain,
}
use sequoia.Api.Uploads.Handlers.{
  answer_written, write_upload, upload_typed, upload_target, with_world, post_upload,
}

module _ (b : Badger) (p : Ipfs) (m : Merkle) where
  open b use {Db}
  open p use {Blocks, Params}

  -- What a write that succeeded has made of the reads.
  pub record IsStored (db : Db) (w : World Db Blocks) (r : Reader) (merkle owner : Bytes)
      (start proof_type : ℤ) (size cid : ℕ) : Type 0 where
    pub tree : m.Tree
    pub json : Bytes
    pub of_reads : build_tree m r.reads proof_type ≡ built tree json size
    pub same_root : hex_encode merkle ≡ hex_encode (m.root tree)
    pub entries :
        HasEntries b p m db w.db
          (tree_key merkle owner start)
          json
          (cid_key merkle)
          (p.cid_string cid)

  wrote-IsStored :
      (v w : World Db Blocks) (r : Reader) (merkle owner : Bytes) (start proof_type : ℤ)
      (res : Written) (size cid : ℕ)
      → WriteResult b p m v r merkle owner start proof_type w res
      → res ≡ wrote size cid
      → IsStored v.db w r merkle owner start proof_type size cid
  wrote-IsStored v w r merkle owner start proof_type (write_failed e) size cid (failure d k) same =
      cc
  wrote-IsStored v w r merkle owner start proof_type (wrote n c) size cid (success d h e k) same =
      let n≡ : n ≡ size = cc in
      let c≡ : c ≡ cid = cc in
      subst (λ x. IsStored v.db w r merkle owner start proof_type x cid) n≡
        (subst (λ x. IsStored v.db w r merkle owner start proof_type n x) c≡
          (record { tree = _; json = _; of_reads = d; same_root = h; entries = e }))

  module _ (order : List ℕ → List ℕ) (fuel : ℕ) (c : Codec) (text : WriteError → Bytes)
      (chunk_size : ℤ) (laws : MerkleLaws m) (o : Outside Params) (form : Form) (t : Target)
      (h : Host Db Blocks) where
    abbrev job : Job
    job = record { account = o.account; merkle = t.merkle; owner = form.sender; start = t.start }

    -- The handler, when all goes well up to the proof.
    accepted_upload :
        (proof_type : ℤ) (file : ChainUpload Params) (w : World Db Blocks) (size cid : ℕ)
        → parse_target form ≡ inr t
        → parse_type form.proof_type ≡ inr proof_type
        → check_chain form.merkle (o.file t.merkle form.sender t.start) ≡ inr file
        → write_file b p m h.world
            (reader_of chunk_size (file_bytes form.file))
            t.merkle
            form.sender
            t.start
            proof_type
            file.params
          ≡ (w, wrote size cid)
        → eqb_ℤ (pos size) file.file_size ≡ true
        → (upload_target b p m order fuel c text chunk_size o form h (parse_target form)).0
          ≡ post_upload b p m order fuel c text chunk_size o t.merkle form.sender t.start
              (with_world b p m order fuel c text chunk_size h w)
    unfolding upload_target upload_typed write_upload answer_written
    accepted_upload proof_type file w size cid d ty k e fits = rw (d, ty, k, e, fits) refl

    posted_upload :
        (w : World Db Blocks) (cf : ChainFile) (proof item : Bytes)
        → IsOpen o.queries cf (height_after t.start o.elapsed)
        → gen_proof b p m w t.merkle form.sender t.start (pos 0) chunk_size cf.proof_type
          ≡ inr (proof, item)
        → (post_upload b p m order fuel c text chunk_size o t.merkle form.sender t.start
            (with_world b p m order fuel c text chunk_size h w)).queue
          ≡ (add (proof_msg job item proof (pos 0)) h.queue).0
    unfolding post_upload
    posted_upload w cf proof item opened e =
        ap (λ g. (post_proof_of b p order fuel c job g o.reply (record h { world = w })).0.queue)
          (generate_proof_for-open b p m o.queries w t.merkle form.sender t.start t.start o.elapsed
            chunk_size cf proof item opened e)
        ∙ post_proof_of-queue b p order fuel c job proof item (pos 0) o.reply
            (record h { world = w })

    -- A proof of the chunk that verifies, in a message of the queue.
    pub record IsProven (proof_type : ℤ) (chunk : Bytes) (h' : Host Db Blocks) : Type 0 where
      pub tree : m.Tree
      pub proof : m.Proof
      pub json : Bytes
      pub same_root : hex_encode t.merkle ≡ hex_encode (m.root tree)
      pub verifies :
          m.verify_proof
            (leaf m proof_type (pos 0) chunk)
            proof
            (m.root tree)
            (is_blake3 proof_type)
          ≡ some true
      pub text_of : m.marshal_proof proof ≡ some json
      pub posted : h'.queue ≡ (add (proof_msg job chunk json (pos 0)) h.queue).0

    -- When a form is read, matches the chain's file and is written in its size; when the chain's file
    -- has the form's proof type and room for another prover, the provider is not yet one of its provers,
    -- and the file does not count as proven this block; and when the chunk size is not 0, the data is
    -- shorter than 2^63 bytes, the block store gives back the first chunk, and proofs can be
    -- marshalled: then the upload gives `Add` a proof of the first chunk, and the proof verifies under
    -- the Merkle root of the form.
    pub upload_posts_proof :
        (proof_type : ℤ) (file : ChainUpload Params) (w : World Db Blocks) (size cid : ℕ)
        (cf : ChainFile) (chunk : Bytes)
        → parse_target form ≡ inr t
        → parse_type form.proof_type ≡ inr proof_type
        → check_chain form.merkle (o.file t.merkle form.sender t.start) ≡ inr file
        → write_file b p m h.world
            (reader_of chunk_size (file_bytes form.file))
            t.merkle
            form.sender
            t.start
            proof_type
            file.params
          ≡ (w, wrote size cid)
        → eqb_ℤ (pos size) file.file_size ≡ true
        → IsOpen o.queries cf (height_after t.start o.elapsed)
        → cf.proof_type ≡ proof_type
        → pos_part chunk_size ≢ 0
        → length (file_bytes form.file) < 9223372036854775808
        → get_elem? (reader_of chunk_size (file_bytes form.file)).reads 0 ≡ some chunk
        → load_chunk b p m w.blocks proof_type cid (pos 0) chunk_size ≡ some chunk
        → ((pr : m.Proof) → (json : Bytes) × (m.marshal_proof pr ≡ some json))
        → IsProven proof_type chunk
            (upload_target b p m order fuel c text chunk_size o form h (parse_target form)).0
    unfolding marshalled
    upload_posts_proof proof_type file w size cid cf chunk d ty k e fits opened same_type some_size
          small first loads marshals =
        let r = reader_of chunk_size (file_bytes form.file) in
        let result =
          write_file-WriteResult b p m h.world r t.merkle form.sender t.start proof_type
            file.params in
        let stored =
          wrote-IsStored h.world w r t.merkle form.sender t.start proof_type _ size cid
            (subst
              (λ x. WriteResult b p m h.world r t.merkle form.sender t.start proof_type x.0 x.1) e
              result)
            refl in
        let (pr, gen, ver, proves) =
          gen_proof_valid b p m laws h.world.db w r t.merkle form.sender t.start proof_type
            chunk_size stored.tree stored.json size cid 0 chunk stored.of_reads stored.entries
            (reads_full chunk_size (file_bytes form.file) some_size small) first loads in
        let (json, marshal) = marshals pr in
        let made = proves ∙ ap (marshalled b p m chunk) marshal in
        let as_asked =
          ap (gen_proof b p m w t.merkle form.sender t.start (pos 0) chunk_size) same_type in
        record {
          tree = stored.tree;
          proof = pr;
          json = json;
          same_root = stored.same_root;
          verifies = ver;
          text_of = marshal;
          posted =
              ap (λ (x : Host Db Blocks). x.queue)
                (accepted_upload proof_type file w size cid d ty k e fits)
              ∙ posted_upload w cf json chunk opened (as_asked ∙ made);
        }
