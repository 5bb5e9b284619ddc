-- ===== src/Network.antt =====
-- Downloads from other providers (network/downloads.go). HTTP, the decoders and the disk are
-- parameters. A download races its deadline: what the race picks is a parameter too.
pub mod Timeout
pub mod Sound
pub mod Recount
use sequoia.Prelude.{
  ℕ, ◌+◌, ◌*◌, ◌/◌, ◌==◌, if◌then◌else◌, Bool, true, false, List, [], ◌∷◌, Option, none, some, ◌⊎◌,
  inl, inr,
}
use sequoia.Prelude.Int.{ℤ, pos, negsuc, ◌+ℤ◌, ◌-ℤ◌, ltb_ℤ, eqb_ℤ, pos_part, neg_part}
use sequoia.Prelude.Bytes.{Bytes, bytes_equal, codes}
use sequoia.FileSystem.Stores.{Badger, Ipfs, Merkle, World}
use sequoia.FileSystem.Write.{WriteError, Written, wrote, write_failed, write_file}
use sequoia.Seeker.{wrap_i64}
use sequoia.Seeker.Files.{reader_of}

-- Durations are nanoseconds.
abbrev pub second : ℕ
second = 1000000000

abbrev pub bytes_per_second : ℕ
bytes_per_second = 10485760

-- Go's quotient, which rounds to 0.
abbrev pub quot : ℤ → ℕ → ℤ
quot (pos n) d = pos (n / d)
quot (negsuc n) d = pos 0 -ℤ pos ((n + 1) / d)

-- The product of int64s, of which the second is not negative.
abbrev pub times : ℤ → ℕ → ℤ
times z k = wrap_i64 (pos (pos_part z * k) -ℤ pos (neg_part z * k))

unfoldable pub timeout : ℤ → ℤ
timeout file_size =
    let asked = wrap_i64 (pos (30 * second) +ℤ times (quot file_size bytes_per_second) second) in
    let max = pos (1800 * second) in if ltb_ℤ max asked then max else asked

-- What `cli.Do` gives: an error, which may be a timeout, or a response.
pub data Reply : Type 0 where
  no_request timed_out unreachable : Reply
  replied : ℕ → Bytes → Bytes → Reply

-- What a decoder gives: no reader, or the data that can be read and whether it ends well.
pub record Decoders : Type 0 where
  pub gzip : Bytes → Option (Bytes × Bool)
  pub zlib : Bytes → Option (Bytes × Bool)
  pub brotli : Bytes → Bytes × Bool
  -- Whether the body itself ends well.
  pub body : Bytes → Bytes × Bool
  -- The message of an error response, if it can be read.
  pub error_message : Bytes → Option Bytes

-- What `select` picks. After a failed copy both the error and the end are there to be picked.
pub data Race : Type 0 where
  deadline copy_error copy_end : Race

-- One attempt at a URL: the response, whether the temporary file is created and rewound, and the
-- race.
pub record Attempt : Type 0 where
  pub reply : Reply
  pub creates : Bool
  pub rewinds : Bool
  pub race : Race

pub data DownloadError : Type 0 where
  bad_request download_timed_out not_reached no_reader cannot_create cannot_rewind : DownloadError
  bad_status : ℕ → Option Bytes → DownloadError
  broken_copy : DownloadError
  not_written : WriteError → DownloadError

module _ (d : Decoders) where
  pub opened : Option (Bytes × Bool) → DownloadError ⊎ (Bytes × Bool)
  opened none = inl no_reader
  opened (some r) = inr r

  -- The reader for the content encoding.
  unfoldable pub body_reader : Bytes → Bytes → DownloadError ⊎ (Bytes × Bool)
  unfolding opened
  body_reader encoding body =
      if bytes_equal encoding (codes "gzip")
      then opened (d.gzip body)
      else if bytes_equal encoding (codes "deflate")
      then opened (d.zlib body)
      else if bytes_equal encoding (codes "br")
      then inr (d.brotli body)
      else inr (d.body body)

  -- What is in the temporary file when the race is over. A copy that went well has no error to pick.
  pub raced : Race → Bytes → Bool → DownloadError ⊎ Bytes
  raced deadline got ends = inl download_timed_out
  raced copy_error got ends = if ends then inr got else inl broken_copy
  raced copy_end got ends = inr got

  pub copied : Attempt → DownloadError ⊎ (Bytes × Bool) → DownloadError ⊎ Bytes
  unfolding raced
  copied a (inl e) = inl e
  copied a (inr (got, ends)) = if a.creates then raced a.race got ends else inl cannot_create

  pub rewound : Attempt → DownloadError ⊎ Bytes → DownloadError ⊎ Bytes
  rewound a (inl e) = inl e
  rewound a (inr got) = if a.rewinds then inr got else inl cannot_rewind

  pub answered : Attempt → Reply → DownloadError ⊎ Bytes
  unfolding body_reader copied rewound
  answered a no_request = inl bad_request
  answered a timed_out = inl download_timed_out
  answered a unreachable = inl not_reached
  answered a (replied code encoding body) =
      if code == 200
      then rewound a (copied a (body_reader encoding body))
      else inl (bad_status code (d.error_message body))

  -- The data that an attempt brings.
  unfoldable pub fetched : Attempt → DownloadError ⊎ Bytes
  unfolding answered
  fetched a = answered a a.reply

-- The file that is downloaded.
pub record Wanted (Params : Type 0) : Type 0 where
  pub merkle : Bytes
  pub owner : Bytes
  pub start : ℤ
  pub proof_type : ℤ
  pub params : Params
  pub file_size : ℤ

-- `urlMap`, where the first entry of a URL counts.
unfoldable pub swapped : List (Bytes × Bytes) → Bytes → Bytes
swapped [] url = url
swapped ((from, to) ∷ us) url = if bytes_equal from url then to else swapped us url

pub data Downloaded : Type 0 where
  downloaded no_query not_on_network not_found : Downloaded

module _ (b : Badger) (p : Ipfs) (m : Merkle) (d : Decoders) (attempt : Bytes → Attempt)
    (url_map : List (Bytes × Bytes)) (my_url : Bytes) (chunk_size : ℤ) where
  open b use {Db}
  open p use {Blocks, Params}

  pub after_write : World Db Blocks × Written → World Db Blocks × (DownloadError ⊎ ℕ)
  after_write (w, write_failed e) = (w, inl (not_written e))
  after_write (w, wrote size cid) = (w, inr size)

  unfoldable pub write_fetched :
      Wanted Params
      → World Db Blocks
      → DownloadError ⊎ Bytes
      → World Db Blocks × (DownloadError ⊎ ℕ)
  unfolding after_write
  write_fetched f w (inl e) = (w, inl e)
  write_fetched f w (inr got) =
      after_write (
        write_file b p m w (reader_of chunk_size got) f.merkle f.owner f.start f.proof_type
          f.params)

  -- `DownloadFileFromURL`.
  unfoldable pub download_file_from_url :
      Bytes → Wanted Params → World Db Blocks → World Db Blocks × (DownloadError ⊎ ℕ)
  download_file_from_url url f w = write_fetched f w (fetched d (attempt url))

  -- After one provider: done, or on to the next one.
  abbrev pub or_next :
      Wanted Params
      → World Db Blocks × (DownloadError ⊎ ℕ)
      → (World Db Blocks → World Db Blocks × Bool)
      → World Db Blocks × Bool
  or_next f (w, inl e) next = next w
  or_next f (w, inr size) next = if eqb_ℤ f.file_size (pos size) then (w, true) else next w

  -- The loop over the providers, and whether one had the file.
  unfoldable pub try_providers :
      Wanted Params → List Bytes → World Db Blocks → World Db Blocks × Bool
  try_providers f [] w = (w, false)
  try_providers f (url ∷ urls) w =
      let next = try_providers f urls in
      if bytes_equal url my_url
      then next w
      else or_next f (download_file_from_url (swapped url_map url) f w) next

  pub found_or_not : World Db Blocks × Bool → World Db Blocks × Downloaded
  found_or_not (w, found) = (w, if found then downloaded else not_found)

  -- `DownloadFile`; `none` is a query that fails.
  unfoldable pub download_file :
      Option (List Bytes) → Wanted Params → World Db Blocks → World Db Blocks × Downloaded
  unfolding found_or_not
  download_file none f w = (w, no_query)
  download_file (some []) f w = (w, not_on_network)
  download_file (some (url ∷ urls)) f w = found_or_not (try_providers f (url ∷ urls) w)
