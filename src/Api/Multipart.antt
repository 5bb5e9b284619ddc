-- ===== src/Api/Multipart.antt =====
-- The streaming parser of upload forms (api/multipart_handler.go). Temporary files are counted: `temps`
-- is how many there are. A part is what its reads give and whether they end well, with what the disk
-- does while the part is stored.
pub mod Limits
pub mod Leaks
use sequoia.Prelude.{
  ℕ, suc, ◌+◌, ◌-◌, ◌==◌, if◌then◌else◌, Bool, true, false, not, ◌&&◌, ◌||◌, List, [], ◌∷◌, ◌++◌,
  Option, none, some, ◌⊎◌, inl, inr, length, take, drop, ltb, leb,
}
use sequoia.Prelude.Bytes.{Bytes, bytes_equal, codes}
use sequoia.Seeker.{BytesSeeker, new_bytes_seeker}

abbrev pub max_memory_file_size : ℕ
max_memory_file_size = 10485760

abbrev pub max_file_size : ℕ
max_file_size = 34359738368

-- Which calls on the temporary file succeed.
pub record Disk : Type 0 where
  pub creates : Bool
  pub writes : Bool
  pub copies : Bool
  pub rewinds : Bool
  pub removes : Bool

-- The bytes that a part gives, and whether it then ends or fails, and whether that failure is
-- `io.ErrUnexpectedEOF`, which a part gives when the stream ends within it.
pub record Part : Type 0 where
  pub form_name : Bytes
  pub content : Bytes
  pub ends : Bool
  pub cut : Bool
  pub disk : Disk

pub data PartError : Type 0 where
  cannot_read too_large cannot_create cannot_write cannot_copy cannot_seek : PartError

-- A file of the form: on a byte reader, or a temporary file, which the system removes or not when it is
-- closed.
pub data Upload : Type 0 where
  in_memory : BytesSeeker → Upload
  on_disk : Bytes → Bool → Upload

abbrev pub content_of : Upload → Bytes
content_of (in_memory s) = s.data_
content_of (on_disk d removes) = d

-- `Close` of the file.
abbrev pub close_upload : Upload → ℕ → ℕ
close_upload (in_memory s) temps = temps
close_upload (on_disk d removes) temps = if removes then temps - 1 else temps

-- `readFormField`.
abbrev pub read_form_field : Part → Option Bytes
read_form_field p = if p.ends then some p.content else none

-- `io.ReadFull` into a buffer of one byte more than the limit: fewer bytes are no error if the part
-- ends there, or is cut off there.
unfoldable pub peek : Part → Option Bytes
peek p =
    if ltb max_memory_file_size (length p.content)
    then some (take (suc max_memory_file_size) p.content)
    else if p.ends || p.cut
    then some p.content
    else none

unfoldable pub process_small_file : Bytes → PartError ⊎ Upload
process_small_file peeked =
    if ltb max_file_size (length peeked)
    then inl too_large
    else inr (in_memory (new_bytes_seeker peeked))

-- The rest of the part, up to the limit, goes behind the peeked bytes; when the limit is reached, one
-- more byte is asked for.
unfoldable pub stream_rest : Part → Bytes → ℕ → PartError ⊎ Upload
stream_rest p peeked limit =
    let rest = drop (length peeked) p.content in
    let copied = take limit rest in
    if (ltb (length rest) limit && not p.ends) || not p.disk.copies
    then inl cannot_copy
    else if (length copied == limit) && ltb limit (length rest)
    then inl too_large
    else if p.disk.rewinds
    then inr (on_disk (peeked ++ copied) p.disk.removes)
    else inl cannot_seek

-- After an error the temporary file is removed, if the system does it; its error is ignored.
abbrev pub with_temp : Bool → ℕ → PartError ⊎ Upload → (PartError ⊎ Upload) × ℕ
with_temp removes temps (inl e) = (inl e, if removes then temps else suc temps)
with_temp removes temps (inr u) = (inr u, suc temps)

unfoldable pub process_large_file : Part → Bytes → ℕ → (PartError ⊎ Upload) × ℕ
unfolding stream_rest
process_large_file p peeked temps =
    if ltb max_file_size (length peeked)
    then (inl too_large, temps)
    else if not p.disk.creates
    then (inl cannot_create, temps)
    else if not p.disk.writes
    then with_temp p.disk.removes temps (inl cannot_write)
    else with_temp p.disk.removes temps (stream_rest p peeked (max_file_size - length peeked))

unfoldable pub by_size : Part → ℕ → Option Bytes → (PartError ⊎ Upload) × ℕ
unfolding process_small_file process_large_file
by_size p temps none = (inl cannot_read, temps)
by_size p temps (some peeked) =
    if leb (length peeked) max_memory_file_size
    then (process_small_file peeked, temps)
    else process_large_file p peeked temps

unfoldable pub process_file_part : Part → ℕ → (PartError ⊎ Upload) × ℕ
unfolding by_size peek
process_file_part p temps = by_size p temps (peek p)

pub record Form : Type 0 where
  pub sender : Bytes
  pub merkle : Bytes
  pub start : Bytes
  pub proof_type : Bytes
  pub file : Option Upload

pub data FormError : Type 0 where
  not_multipart broken_stream bad_field no_file : FormError
  bad_file : PartError → FormError

abbrev pub empty_form : Form
empty_form = record { sender = []; merkle = []; start = []; proof_type = []; file = none }

abbrev pub set_field : Option Bytes → (Bytes → Form) → FormError ⊎ Form
set_field none set = inl bad_field
set_field (some v) set = inr (set v)

abbrev pub set_file : Form → (PartError ⊎ Upload) × ℕ → (FormError ⊎ Form) × ℕ
set_file f (inl e, temps) = (inl (bad_file e), temps)
set_file f (inr u, temps) = (inr (record f { file = some u }), temps)

-- What one part does to the form. A file that the form has already is not closed.
unfoldable pub take_part : Part → Form → ℕ → (FormError ⊎ Form) × ℕ
unfolding process_file_part
take_part p f temps =
    if bytes_equal p.form_name (codes "sender")
    then (set_field (read_form_field p) (λ v. record f { sender = v }), temps)
    else if bytes_equal p.form_name (codes "merkle")
    then (set_field (read_form_field p) (λ v. record f { merkle = v }), temps)
    else if bytes_equal p.form_name (codes "start")
    then (set_field (read_form_field p) (λ v. record f { start = v }), temps)
    else if bytes_equal p.form_name (codes "type")
    then (set_field (read_form_field p) (λ v. record f { proof_type = v }), temps)
    else if bytes_equal p.form_name (codes "file")
    then set_file f (process_file_part p temps)
    else (inr f, temps)

abbrev pub with_file : Form → FormError ⊎ Form
with_file f = elim f.file [ none ↦ inl no_file | some u ↦ inr f ]

-- An error ends the loop.
abbrev pub and_then :
    (FormError ⊎ Form) × ℕ → (Form → ℕ → (FormError ⊎ Form) × ℕ) → (FormError ⊎ Form) × ℕ
and_then (inl e, temps) next = (inl e, temps)
and_then (inr f, temps) next = next f temps

-- The loop over the parts; `ends` is whether the last `NextPart` gives the end or an error.
unfoldable pub take_parts : List Part → Bool → Form → ℕ → (FormError ⊎ Form) × ℕ
take_parts [] ends f temps = (if ends then with_file f else inl broken_stream, temps)
take_parts (p ∷ ps) ends f temps = and_then (take_part p f temps) (take_parts ps ends)

-- `none` is a request that is no multipart form.
unfoldable pub parse_form : Option (List Part × Bool) → ℕ → (FormError ⊎ Form) × ℕ
parse_form none temps = (inl not_multipart, temps)
parse_form (some (ps, ends)) temps = take_parts ps ends empty_form temps
