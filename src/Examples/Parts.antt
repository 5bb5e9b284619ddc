-- ===== src/Examples/Parts.antt =====
-- The theorems on the parts of an upload form, applied to a small file.
use sequoia.Prelude.{
  ℕ, zero, suc, length, ap, ◌∙◌, arith, true, false, [], ◌∷◌, ◌≡◌, refl, some, inl, inr,
}
use sequoia.Prelude.Int.{pos}
use sequoia.Prelude.Bytes.{Bytes, codes}
use sequoia.Seeker.{new_bytes_seeker}
use sequoia.Api.Multipart.{
  Part, Upload, in_memory, broken_stream, empty_form, parse_form, process_file_part, peek,
  close_upload,
}
use sequoia.Api.Multipart.Leaks.{parse_form_leaks}

abbrev file_part : Part
file_part = record {
  form_name = codes "file";
  content = 0 ∷ 7 ∷ 1 ∷ 7 ∷ [];
  ends = true;
  cut = false;
  disk = record { creates = true; writes = true; copies = true; rewinds = true; removes = true };
}

abbrev pub file : Upload
file = in_memory (record { data_ = 0 ∷ 7 ∷ 1 ∷ 7 ∷ []; at = pos 0 })

file_part_lem : process_file_part file_part 3 ≡ (inr file, 3)
unfolding process_file_part peek new_bytes_seeker
file_part_lem = refl

zeros : ℕ → Bytes
zeros zero = []
zeros (suc n) = 0 ∷ zeros n

length-zeros : (n : ℕ) → length (zeros n) ≡ n
unfolding zeros
length-zeros zero = refl
length-zeros (suc n) = ap suc (length-zeros n)

big_size : ℕ
big_size = 10485761

big_size_lem : big_size ≡ 10485761
unfolding big_size
big_size_lem = refl

-- A file of one byte more than 10 MiB.
abbrev big_part : Part
big_part = record file_part { content = zeros big_size }

length-big_part : length big_part.content ≡ 10485761
length-big_part = length-zeros big_size ∙ big_size_lem

file_part_later : process_file_part file_part 4 ≡ (inr file, 4)
unfolding process_file_part peek new_bytes_seeker
file_part_later = refl

parse_form_leaks_example :
    ((u : Upload) × (process_file_part big_part 3 ≡ (inr u, 4)) × (close_upload u 4 ≡ 3))
    × (parse_form (some (big_part ∷ [], false)) 3 ≡ (inl broken_stream, 4))
    × (parse_form (some (big_part ∷ file_part ∷ [], true)) 3
        ≡ (inr (record empty_form { file = some file }), 4))
    × (close_upload file 4 ≡ 4)
parse_form_leaks_example =
    parse_form_leaks big_part file_part file 3 4 refl refl (omega (arith, length-big_part))
      (omega (arith, length-big_part)) refl (refl, refl, refl, refl) refl refl file_part_later
