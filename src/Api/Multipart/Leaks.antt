-- ===== src/Api/Multipart/Leaks.antt =====
-- What a form leaves behind (api/multipart_handler.go).
use sequoia.Prelude.{
  suc, Bool, ◌&&◌, ◌+◌, ◌-◌, ◌++◌, sym, take, drop, ltb, leb, take_rest, length-append, refl, ◌<◌,
  ◌≤◌, length, arith, ℕ, ◌≡◌, ap, ◌∙◌, [], ◌∷◌, true, false, inl, inr, some, subst,
}
use sequoia.Prelude.Bytes.{Bytes, bytes_equal, codes}
use sequoia.Api.Multipart.{
  Part, Upload, Form, broken_stream, empty_form, take_part, and_then, take_parts, parse_form,
  process_file_part, set_file, close_upload, on_disk, max_memory_file_size, max_file_size, peek,
  by_size, process_large_file, stream_rest, with_temp,
}
use sequoia.Api.Multipart.Limits.{IsHealthy, Keeps, length-peeked, process_file_part-Keeps}

take_part_file :
    (p : Part) (f : Form) (u : Upload) (temps temps' : ℕ)
    → p.form_name ≡ codes "file"
    → process_file_part p temps ≡ (inr u, temps')
    → take_part p f temps ≡ (inr (record f { file = some u }), temps')
unfolding take_part bytes_equal
take_part_file p f u temps temps' named e = rw named (ap (set_file f) e)

and_false : (b : Bool) → (b && false) ≡ false
and_false true = refl
and_false false = refl

stream_rest_all :
    (p : Part) (peeked : Bytes) (limit : ℕ)
    → p.ends ≡ true
    → p.disk.copies ≡ true
    → p.disk.rewinds ≡ true
    → ltb limit (length (drop (length peeked) p.content)) ≡ false
    → stream_rest p peeked limit
      ≡ inr (on_disk (peeked ++ take limit (drop (length peeked) p.content)) p.disk.removes)
unfolding stream_rest
stream_rest_all p peeked limit ends copies rewinds fits =
    simp (ends, copies, rewinds, fits, and_false) refl

process_large_file_all :
    (p : Part) (peeked : Bytes) (temps : ℕ)
    → ltb max_file_size (length peeked) ≡ false
    → IsHealthy p
    → p.ends ≡ true
    → ltb (max_file_size - length peeked) (length (drop (length peeked) p.content)) ≡ false
    → (d : Bytes) × (process_large_file p peeked temps
        ≡ (inr (on_disk d p.disk.removes), suc temps))
unfolding process_large_file
process_large_file_all p peeked temps small (creates, writes, copies, rewinds) ends fits = (
  peeked ++ take (max_file_size - length peeked) (drop (length peeked) p.content),
  simp (small, creates, writes)
      (ap (with_temp p.disk.removes temps)
        (stream_rest_all p peeked (max_file_size - length peeked) ends copies rewinds fits)),
)

rest_fits :
    (peeked rest content : Bytes) (top : ℕ)
    → peeked ++ rest ≡ content
    → length content ≤ top
    → ltb (top - length peeked) (length rest) ≡ false
rest_fits peeked rest content top whole fits =
    let len : length content ≡ length peeked + length rest =
      ap length (sym whole) ∙ length-append peeked rest in
    ground (arith, len)

-- A part of more than 10 MiB is put into a temporary file.
large_part :
    (p : Part) (temps : ℕ)
    → max_memory_file_size < length p.content
    → length p.content ≤ max_file_size
    → p.ends ≡ true
    → IsHealthy p
    → (d : Bytes) × (process_file_part p temps ≡ (inr (on_disk d p.disk.removes), suc temps))
unfolding process_file_part peek by_size
large_part p temps large fits ends h =
    let big : ltb max_memory_file_size (length p.content) ≡ true = ground arith in
    let peeked = take (suc max_memory_file_size) p.content in
    let len = length-peeked max_memory_file_size p.content big in
    let over : leb (length peeked) max_memory_file_size ≡ false = ground (arith, len) in
    let small : ltb max_file_size (length peeked) ≡ false = ground (arith, len) in
    rw (big, over)
      (process_large_file_all p peeked temps small h ends (
        rest_fits peeked (drop (length peeked) p.content) p.content max_file_size
          (take_rest (suc max_memory_file_size) p.content) fits))

-- A file part of more than 10 MiB and at most 32 GiB, which ends, is accepted and leaves a temporary file
-- that closing its file would remove. But when the stream breaks after it, the caller gets an error and no
-- file to close, and the temporary file stays; and when a second file part is accepted, the caller gets the
-- second file alone, whose closing leaves the temporary file of the first one. The system is assumed to
-- do what is asked of the first part's temporary file, and to remove both.
pub parse_form_leaks :
    (p q : Part) (v : Upload) (temps temps' : ℕ)
    → p.form_name ≡ codes "file"
    → q.form_name ≡ codes "file"
    → max_memory_file_size < length p.content
    → length p.content ≤ max_file_size
    → p.ends ≡ true
    → IsHealthy p
    → p.disk.removes ≡ true
    → q.disk.removes ≡ true
    → process_file_part q (suc temps) ≡ (inr v, temps')
    → ((u : Upload) × (process_file_part p temps ≡ (inr u, suc temps))
        × (close_upload u (suc temps) ≡ temps))
      × (parse_form (some (p ∷ [], false)) temps ≡ (inl broken_stream, suc temps))
      × (parse_form (some (p ∷ q ∷ [], true)) temps
          ≡ (inr (record empty_form { file = some v }), temps'))
      × (close_upload v temps' ≡ suc temps)
unfolding parse_form take_parts
parse_form_leaks p q v temps temps' named named' large fits ends h removes removes' e' =
    let (d, e) = large_part p temps large fits ends h in
    let u = on_disk d p.disk.removes in
    let first = take_part_file p empty_form u temps (suc temps) named e in
    let second =
      take_part_file q (record empty_form { file = some u }) v (suc temps) temps' named' e' in
    (
      (u, e, (subst (Keeps p temps) e (process_file_part-Keeps p temps)).3 removes),
      ap (λ r. and_then r (take_parts [] false)) first,
      ap (λ r. and_then r (take_parts (q ∷ []) true)) first
          ∙ ap (λ r. and_then r (take_parts [] true)) second,
      (subst (Keeps q (suc temps)) e' (process_file_part-Keeps q (suc temps))).3 removes',
    )
