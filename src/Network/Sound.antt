-- ===== src/Network/Sound.antt =====
-- What a download that succeeds has brought (network/downloads.go).
use sequoia.Prelude.{
  ◌≢◌, ◌<◌, length, ℕ, Bool, true, false, List, [], ◌∷◌, ◌++◌, ◌≡◌, refl, sym, ap, ◌∙◌, subst, ◌⊎◌,
  inl, inr, Bool-cases, some,
}
use sequoia.Prelude.Int.{pos_part, ℤ, pos, eqb_ℤ, eqb_ℤ→eq, ◌+ℤ◌}
use sequoia.Prelude.Bytes.{Bytes, bytes_equal}
use sequoia.Prelude.Bytes.Hex.{hex_encode}
use sequoia.FileSystem.Keys.{tree_key, cid_key}
use sequoia.FileSystem.Stores.{Badger, Ipfs, Merkle, World}
use sequoia.FileSystem.Tree.{built, build_tree}
use sequoia.FileSystem.Write.{Written, wrote, write_failed}
use sequoia.FileSystem.Write.Effects.{
  HasEntries, WriteResult, success, failure, write_file-WriteResult,
}
use sequoia.Seeker.Files.{reader_of}
use sequoia.Seeker.Sizes.{build_tree_size}
use sequoia.Network.{
  Decoders, Attempt, DownloadError, not_written, Wanted, fetched, swapped, after_write,
  write_fetched, download_file_from_url, or_next, try_providers, downloaded, not_found,
  not_on_network, found_or_not, download_file,
}

module _ (b : Badger) (p : Ipfs) (m : Merkle) (d : Decoders) (attempt : Bytes → Attempt)
    (url_map : List (Bytes × Bytes)) (my_url : Bytes) (chunk_size : ℤ) where
  open b use {Db}
  open p use {Blocks, Params}

  -- A provider's data, whose tree has the root that is wanted, and its entries in the database.
  pub record Provided (f : Wanted Params) (url : Bytes) (before w' : World Db Blocks) : Type 0 where
    pub not_mine : bytes_equal url my_url ≡ false
    pub got : Bytes
    pub brought : fetched d (attempt (swapped url_map url)) ≡ inr got
    pub tree : m.Tree
    pub json : Bytes
    pub size : ℕ
    pub cid : ℕ
    pub of_data : build_tree m (reader_of chunk_size got).reads f.proof_type ≡ built tree json size
    pub same_root : hex_encode f.merkle ≡ hex_encode (m.root tree)
    pub same_size : f.file_size ≡ pos size
    pub whole : size ≡ length got
    pub entries :
        HasEntries b p m before.db w'.db
          (tree_key f.merkle f.owner f.start)
          json
          (cid_key f.merkle)
          (p.cid_string cid)
    pub counted : w'.file_count ≡ before.file_count +ℤ pos 1

  module _ (f : Wanted Params) (w' : World Db Blocks) (some_size : pos_part chunk_size ≢ 0)
      (small : (url got : Bytes)
        → fetched d (attempt url) ≡ inr got
        → length got < 9223372036854775808) where
    from_write :
        (url got : Bytes) (v u : World Db Blocks) (res : Written) (size : ℕ)
        → WriteResult b p m v (reader_of chunk_size got) f.merkle f.owner f.start f.proof_type u res
        → after_write b p m d attempt url_map my_url chunk_size (u, res) ≡ (w', inr size)
        → bytes_equal url my_url ≡ false
        → fetched d (attempt (swapped url_map url)) ≡ inr got
        → f.file_size ≡ pos size
        → Provided f url v w'
    unfolding after_write
    from_write url got v u (write_failed err) size (failure db n) e mine br sz =
        let k : ◌≡◌ {A = DownloadError ⊎ ℕ} (inl (not_written err)) (inr size) = ap (λ x. x.1) e in
        cc
    from_write url got v u (wrote n cid) size (success of_data root h c) e mine br sz =
        let k : ◌≡◌ {A = DownloadError ⊎ ℕ} (inr n) (inr size) = ap (λ x. x.1) e in
        let n≡ : n ≡ size = cc in
        subst (λ t. Provided f url v t) (ap (λ x. x.0) e)
          (record {
            not_mine = mine;
            got = got;
            brought = br;
            tree = _;
            json = _;
            size = n;
            cid = cid;
            of_data = of_data;
            same_root = root;
            same_size = sz ∙ ap pos (sym n≡);
            whole =
                build_tree_size m chunk_size got f.proof_type _ _ n some_size (small _ got br)
                  of_data;
            entries = h;
            counted = c;
          })

    from_fetched :
        (url : Bytes) (v : World Db Blocks) (r : DownloadError ⊎ Bytes) (size : ℕ)
        → write_fetched b p m d attempt url_map my_url chunk_size f v r ≡ (w', inr size)
        → bytes_equal url my_url ≡ false
        → fetched d (attempt (swapped url_map url)) ≡ r
        → f.file_size ≡ pos size
        → Provided f url v w'
    unfolding write_fetched
    from_fetched url v (inl err) size e mine br sz =
        let k : ◌≡◌ {A = DownloadError ⊎ ℕ} (inl err) (inr size) = ap (λ x. x.1) e in cc
    from_fetched url v (inr got) size e mine br sz =
        from_write url got v _ _ size
          (write_file-WriteResult b p m v (reader_of chunk_size got) f.merkle f.owner f.start
            f.proof_type f.params)
          e mine br sz

    -- One of the providers has provided, after those before it had failed or sent a file of another size.
    pub record Served (urls : List Bytes) (w : World Db Blocks) : Type 0 where
      pub earlier : List Bytes
      pub url : Bytes
      pub later : List Bytes
      pub split : urls ≡ earlier ++ url ∷ later
      pub before : World Db Blocks
      pub left :
          try_providers b p m d attempt url_map my_url chunk_size f earlier w ≡ (before, false)
      pub provided : Provided f url before w'

    further :
        (url : Bytes) (urls : List Bytes) (v u : World Db Blocks)
        → ((us : List Bytes)
            → try_providers b p m d attempt url_map my_url chunk_size f (url ∷ us) v
              ≡ try_providers b p m d attempt url_map my_url chunk_size f us u)
        → Served urls u
        → Served (url ∷ urls) v
    further url urls v u goes_on h = record {
      earlier = url ∷ h.earlier;
      url = h.url;
      later = h.later;
      split = ap (λ l. url ∷ l) h.split;
      before = h.before;
      left = goes_on h.earlier ∙ h.left;
      provided = h.provided;
    }

    -- The provider is another one, and its attempt ends as given.
    one_more :
        (url : Bytes) (v : World Db Blocks) (r : World Db Blocks × (DownloadError ⊎ ℕ))
        → bytes_equal url my_url ≡ false
        → download_file_from_url b p m d attempt url_map my_url chunk_size (swapped url_map url) f v
          ≡ r
        → (us : List Bytes)
        → try_providers b p m d attempt url_map my_url chunk_size f (url ∷ us) v
          ≡ or_next b p m d attempt url_map my_url chunk_size f r
              (try_providers b p m d attempt url_map my_url chunk_size f us)
    unfolding try_providers
    one_more url v r other ran us = rw (other, ran) refl

    nothing_tried :
        (v : World Db Blocks)
        → try_providers b p m d attempt url_map my_url chunk_size f [] v ≡ (v, false)
    unfolding try_providers
    nothing_tried v = refl

    one_or_next :
        (url : Bytes) (urls : List Bytes) (v : World Db Blocks)
        (r : World Db Blocks × (DownloadError ⊎ ℕ))
        → ((u : World Db Blocks)
            → try_providers b p m d attempt url_map my_url chunk_size f urls u ≡ (w', true)
            → Served urls u)
        → bytes_equal url my_url ≡ false
        → download_file_from_url b p m d attempt url_map my_url chunk_size (swapped url_map url) f v
          ≡ r
        → or_next b p m d attempt url_map my_url chunk_size f r
            (try_providers b p m d attempt url_map my_url chunk_size f urls)
          ≡ (w', true)
        → Served (url ∷ urls) v
    unfolding download_file_from_url
    one_or_next url urls v (u, inl err) later mine ran e =
        further url urls v u (one_more url v (u, inl err) mine ran) (later u e)
    one_or_next url urls v (u, inr size) later mine ran e =
        elim (Bool-cases (eqb_ℤ f.file_size (pos size))) [
          | inl same ↦
              let e' : (u, true) ≡ (w', true) = rw same at e in
              record {
                earlier = [];
                url = url;
                later = urls;
                split = refl;
                before = v;
                left = nothing_tried v;
                provided =
                    from_fetched url v _ size (ran ∙ ap (λ x. (x.0, inr size)) e') mine refl
                      (eqb_ℤ→eq _ _ same);
              }
          | inr differs ↦
              further url urls v u
                (λ us. one_more url v (u, inr size) mine ran us ∙ rw differs refl)
                (later u (rw differs at e))
        ]

    providers-Served :
        (urls : List Bytes) (v : World Db Blocks)
        → try_providers b p m d attempt url_map my_url chunk_size f urls v ≡ (w', true)
        → Served urls v
    unfolding try_providers
    providers-Served [] v e = let k : false ≡ true = ap (λ x. x.1) e in cc
    providers-Served (url ∷ urls) v e = elim (Bool-cases (bytes_equal url my_url)) [
      | inl mine ↦
          further url urls v v (λ us. rw mine refl) (providers-Served urls v (rw mine at e))
      | inr other ↦ one_or_next url urls v _ (providers-Served urls) other refl (rw other at e)
    ]

    found-downloaded :
        (r : World Db Blocks × Bool)
        → found_or_not b p m d attempt url_map my_url chunk_size r ≡ (w', downloaded)
        → r ≡ (w', true)
    unfolding found_or_not
    found-downloaded (v, true) e = ap (λ x. (x.0, true)) e
    found-downloaded (v, false) e = let k : not_found ≡ downloaded = ap (λ x. x.1) e in cc

    -- Whatever the providers send and the races pick, with a chunk size that is not 0 and data shorter
    -- than 2^63 bytes: a download succeeds only when one of the providers that the chain names, and
    -- not this one, sent data whose tree has the root that is wanted and whose length is the size of
    -- the chain's file; the providers before it had failed or sent a file of another size. Then the
    -- database has that tree under the contract's key and the CID under the root's, and else what the
    -- providers before it left; and one file more is counted than they left.
    pub download_file_sound :
        (urls : List Bytes) (w : World Db Blocks)
        → download_file b p m d attempt url_map my_url chunk_size (some urls) f w ≡ (w', downloaded)
        → Served urls w
    unfolding download_file
    download_file_sound [] w e = let k : not_on_network ≡ downloaded = ap (λ x. x.1) e in cc
    download_file_sound (url ∷ urls) w e = providers-Served (url ∷ urls) w (found-downloaded _ e)
