-- ===== src/FileSystem/Write/Effects.antt =====
-- What `WriteFile` (file_system/file_system.go) leaves behind, on success and on each error.
use sequoia.Prelude.{
  ℕ, false, ◌≡◌, ◌≢◌, refl, sym, ◌∙◌, Option, none, some, ◌⊎◌, inl, inr, arith, Bool-cases,
}
use sequoia.Prelude.Int.{ℤ, pos, ◌+ℤ◌}
use sequoia.Prelude.Bytes.{Bytes, bytes_equal, bytes_equal→eq, bytes_equal_refl}
use sequoia.Prelude.Bytes.Hex.{hex_encode}
use sequoia.FileSystem.Keys.{tree_key, cid_key, tree_key-ne-cid_key}
use sequoia.FileSystem.Stores.{Badger, Ipfs, Merkle, World, Fetch, found}
use sequoia.FileSystem.Tree.{Reader, Built, built, tree_failed, marshal_failed, build_tree}
use sequoia.FileSystem.Write.{
  WriteError, Written, wrote, write_failed, put_entries, put_cid, commit_entries, indexed, stored,
  checked, write_file, add_data,
}

pub bytes_apart : (a b : Bytes) → a ≢ b → bytes_equal a b ≡ false
bytes_apart a b n = elim (Bool-cases (bytes_equal a b)) [
  | inl e ↦ absurd (n (bytes_equal→eq a b e))
  | inr e ↦ e
]

module _ (b : Badger) (p : Ipfs) (m : Merkle) where
  open b use {Db, Txn}
  open p use {Blocks, Params}

  abbrev pub look : Db → Bytes → Fetch
  look db k = b.get (b.begin db) k

  -- The database with two entries more, and all others as they were.
  pub record HasEntries (db db' : Db) (tk tree ck cid : Bytes) : Type 0 where
    pub tree_entry : look db' tk ≡ found tree
    pub cid_entry : look db' ck ≡ found cid
    pub others : (k : Bytes) → k ≢ tk → k ≢ ck → look db' k ≡ look db k

  committed :
      (r : WriteError ⊎ Txn) (db' : Db)
      → commit_entries b p m r ≡ inr db'
      → (t : Txn) × (r ≡ inr t) × (b.commit t ≡ some db')
  unfolding commit_entries
  committed (inl e) db' h = cc
  committed (inr t) db' h = (t, refl, ground arith)

  put_twice :
      (o : Option Txn) (k v : Bytes) (t' : Txn)
      → put_cid b p m o k v ≡ inr t'
      → (t : Txn) × (o ≡ some t) × (b.put t k v ≡ some t')
  unfolding put_cid
  put_twice none k v t' h = cc
  put_twice (some t) k v t' h = (t, refl, ground arith)

  put_entries-HasEntries :
      (db db' : Db) (tk tree ck cid : Bytes)
      → tk ≢ ck
      → put_entries b p m db tk tree ck cid ≡ inr db'
      → HasEntries db db' tk tree ck cid
  unfolding put_entries
  put_entries-HasEntries db db' tk tree ck cid n e =
      let (t2, e2, c) = committed _ db' e in
      let (t1, e1, p2) = put_twice (b.put (b.begin db) tk tree) ck cid t2 e2 in
      let read = λ (k : Bytes). b.get-commit t2 db' k c ∙ b.get-put t1 t2 ck cid k p2 in
      let before = λ (k : Bytes). b.get-put (b.begin db) t1 tk tree k e1 in
      record {
        tree_entry = read tk ∙ rw (bytes_apart tk ck n) (before tk ∙ rw (bytes_equal_refl tk));
        cid_entry = read ck ∙ rw (bytes_equal_refl ck);
        others = λ k nt nc. read k ∙ rw (bytes_apart k ck nc) (before k ∙ rw (bytes_apart k tk nt));
      }

  -- What a call of `WriteFile` has done, by its results.
  pub data WriteResult (w : World Db Blocks) (r : Reader) (merkle owner : Bytes) (start : ℤ)
      (proof_type : ℤ) : World Db Blocks → Written → Type 0 where
    success :
        {w' : World Db Blocks} {tree : m.Tree} {json : Bytes} {size cid : ℕ}
        → build_tree m r.reads proof_type ≡ built tree json size
        → hex_encode merkle ≡ hex_encode (m.root tree)
        → HasEntries w.db w'.db
            (tree_key merkle owner start)
            json
            (cid_key merkle)
            (p.cid_string cid)
        → w'.file_count ≡ w.file_count +ℤ pos 1
        → WriteResult w r merkle owner start proof_type w' (wrote size cid)
    failure :
        {w' : World Db Blocks} {e : WriteError}
        → w'.db ≡ w.db
        → w'.file_count ≡ w.file_count
        → WriteResult w r merkle owner start proof_type w' (write_failed e)

  abbrev Result :
      World Db Blocks → Reader → Bytes → Bytes → ℤ → ℤ → World Db Blocks × Written → Type 0
  Result w r merkle owner start proof_type (w', res) =
      WriteResult w r merkle owner start proof_type w' res

  module _ (w : World Db Blocks) (r : Reader) (merkle owner : Bytes) (start : ℤ) (proof_type : ℤ)
      (params : Params) where
    module _ (tree : m.Tree) (json : Bytes) (size : ℕ)
        (e : build_tree m r.reads proof_type ≡ built tree json size)
        (same : hex_encode merkle ≡ hex_encode (m.root tree)) where
      indexed-Result :
          (blocks : Blocks) (cid : ℕ) (o : WriteError ⊎ Db)
          → o
            ≡ put_entries b p m w.db
                (tree_key merkle owner start)
                json
                (cid_key merkle)
                (p.cid_string cid)
          → Result w r merkle owner start proof_type
              (indexed b p m (record w { blocks = blocks }) size cid o)
      unfolding indexed
      indexed-Result blocks cid (inl err) h = failure refl refl
      indexed-Result blocks cid (inr db) h =
          success e same
            (put_entries-HasEntries w.db db (tree_key merkle owner start) json (cid_key merkle)
              (p.cid_string cid) (tree_key-ne-cid_key merkle owner start merkle) (sym h))
            refl

      stored-Result :
          (o : Blocks × Option ℕ)
          → Result w r merkle owner start proof_type (stored b p m w merkle owner start json size o)
      unfolding stored
      stored-Result (blocks, none) = failure refl refl
      stored-Result (blocks, some cid) = indexed-Result blocks cid _ refl

    checked-Result :
        (o : Built m.Tree)
        → build_tree m r.reads proof_type ≡ o
        → Result w r merkle owner start proof_type
            (checked b p m w r merkle owner start proof_type params o)
    unfolding checked
    checked-Result tree_failed h = failure refl refl
    checked-Result marshal_failed h = failure refl refl
    checked-Result (built tree json size) h =
        elim (Bool-cases (bytes_equal (hex_encode merkle) (hex_encode (m.root tree)))) [
          | inr differs ↦ rw differs (failure refl refl)
          | inl same ↦ elim (Bool-cases r.rewinds) [
            | inr stuck ↦ simp (same, stuck) (failure refl refl)
            | inl ok ↦
                simp (same, ok)
                  (stored-Result tree json size h (bytes_equal→eq _ _ same)
                    (add_data b p m proof_type r.whole params w.blocks))
          ]
        ]

    -- `WriteFile` succeeds only for data whose tree has the given root; then the database has the
    -- tree under the contract's key and the CID under the root's, nothing else in it changed, and
    -- one file more is counted. On every error the database and the count are as before.
    pub write_file-WriteResult :
        let res = write_file b p m w r merkle owner start proof_type params in
        WriteResult w r merkle owner start proof_type res.0 res.1
    unfolding write_file
    write_file-WriteResult = checked-Result (build_tree m r.reads proof_type) refl
