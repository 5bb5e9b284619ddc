-- ===== src/Api/Multipart/Limits.antt =====
-- The limits of upload forms (api/multipart_handler.go).
use sequoia.Prelude.{
  ℕ, suc, ◌+◌, ◌-◌, ◌≤◌, ◌<◌, ◌==◌, ◌≡◌, refl, ◌∙◌, ap, sym, Bool, true, false, not, ◌&&◌, ◌||◌, [],
  ◌∷◌, if◌then◌else◌, ◌++◌, ◌⊎◌, inl, inr, Option, some, subst, length, take, drop, ltb, leb, arith,
  Bool-cases, length-take, length-append, take_rest, take_of_length-le,
}
use sequoia.Prelude.Bytes.{Bytes}
use sequoia.Seeker.{new_bytes_seeker}
use sequoia.Api.Multipart.{
  Part, PartError, Upload, content_of, close_upload, peek, process_small_file, stream_rest,
  with_temp, process_large_file, by_size, process_file_part, max_file_size, max_memory_file_size,
}

-- A temporary file that does what is asked of it.
abbrev pub IsHealthy : Part → Type 0
IsHealthy p =
    (p.disk.creates ≡ true)
    × (p.disk.writes ≡ true)
    × (p.disk.copies ≡ true)
    × (p.disk.rewinds ≡ true)

take_all : (xs : Bytes) → xs ++ drop (length xs) xs ≡ xs
take_all [] = refl
take_all (x ∷ xs) = ap (λ l. x ∷ l) (take_all xs)

pub length-peeked :
    (m : ℕ) (xs : Bytes) → ltb m (length xs) ≡ true → length (take (suc m) xs) ≡ suc m
length-peeked m xs h =
    let more : m < length xs = ground arith in omega (arith, length-take (suc m) xs)

peeked_fits : (n m top : ℕ) → n ≡ suc m → suc m ≤ top → n ≤ top
peeked_fits n m top e h = omega arith

peeked_above : (n m : ℕ) → n ≡ suc m → n ≤ m → ⊥
peeked_above n m e h = omega arith

small_fits : (n m top : ℕ) → ltb m n ≡ false → m ≤ top → n ≤ top
small_fits n m top h le = ground arith

-- Why a part that is accepted was read to its end: it ended, or it was cut off and small, or nothing is
-- left of the limit.
abbrev pub IsRead : Part → Type 0
IsRead p =
    (p.ends ≡ true)
    ⊎ (((p.cut ≡ true) × (length p.content ≤ max_memory_file_size))
        ⊎ (length p.content ≡ max_file_size))

-- What may be made of a file part: all that it gave within the limit, or an error.
abbrev pub Keeps : Part → ℕ → (PartError ⊎ Upload) × ℕ → Type 0
Keeps p temps (inl e, temps') =
    (p.disk.removes ≡ true → temps' ≡ temps)
    × ¬ ((p.ends ≡ true) × (length p.content ≤ max_file_size) × IsHealthy p)
    × ¬ ((p.cut ≡ true) × (length p.content ≤ max_memory_file_size))
Keeps p temps (inr u, temps') =
    (content_of u ≡ p.content)
    × (length p.content ≤ max_file_size)
    × IsRead p
    × (p.disk.removes ≡ true → close_upload u temps' ≡ temps)

removed : (r : Bool) (temps : ℕ) → r ≡ true → (if r then temps else suc temps) ≡ temps
removed true temps e = refl
removed false temps e = cc

closed : (r : Bool) (temps : ℕ) → r ≡ true → (if r then suc temps - 1 else suc temps) ≡ temps
closed true temps e = omega arith
closed false temps e = cc

ended :
    (p : Part) (peeked rest limit : ℕ)
    → ((ltb rest limit && not p.ends) || not p.disk.copies) ≡ false
    → length p.content ≡ peeked + rest
    → peeked + limit ≡ max_file_size
    → rest ≤ limit
    → IsRead p
ended p peeked rest limit fine len at_most fits = elim (Bool-cases p.ends) [
  | inl ends ↦ inl ends
  | inr breaks ↦
      let full : limit ≤ rest = ground (arith, fine, breaks) in inr (inr (omega (arith, len, full)))
]

stream_rest-Keeps :
    (p : Part) (temps limit : ℕ) (peeked : Bytes)
    → peeked ++ drop (length peeked) p.content ≡ p.content
    → length peeked + limit ≡ max_file_size
    → max_memory_file_size < length peeked
    → Keeps p temps (with_temp p.disk.removes temps (stream_rest p peeked limit))
unfolding stream_rest
stream_rest-Keeps p temps limit peeked whole at_most large =
    let rest = drop (length peeked) p.content in
    let len : length p.content ≡ length peeked + length rest =
      ap length (sym whole) ∙ length-append peeked rest in
    elim (Bool-cases ((ltb (length rest) limit && not p.ends) || not p.disk.copies)) [
      | inl failed ↦ rw failed (
        removed p.disk.removes temps,
        λ (e, s, h). ground (arith, e, h.2),
        λ (c, s). omega (arith, len),
      )
      | inr fine ↦
          elim (Bool-cases ((length (take limit rest) == limit) && ltb limit (length rest))) [
            | inl more ↦
                rw (fine, more)
                  (
                    removed p.disk.removes temps,
                    λ (e, s, h). ground (arith, s, len),
                    λ (c, s). omega (arith, len),
                  )
            | inr done ↦
                let fits : length rest ≤ limit = ground (arith, length-take limit rest) in
                elim (Bool-cases p.disk.rewinds) [
                  | inl ok ↦
                      simp (fine, done, ok)
                        (
                          ap (λ l. peeked ++ l) (take_of_length-le limit rest fits) ∙ whole,
                          omega (arith, len, fits),
                          ended p (length peeked) (length rest) limit fine len at_most fits,
                          closed p.disk.removes temps,
                        )
                  | inr stuck ↦
                      simp (fine, done, stuck)
                        (
                          removed p.disk.removes temps,
                          λ (e, s, h). cc,
                          λ (c, s). omega (arith, len),
                        )
                ]
          ]
    ]

process_large_file-Keeps :
    (p : Part) (temps : ℕ) (peeked : Bytes)
    → peeked ++ drop (length peeked) p.content ≡ p.content
    → length peeked ≤ max_file_size
    → max_memory_file_size < length peeked
    → Keeps p temps (process_large_file p peeked temps)
unfolding process_large_file
process_large_file-Keeps p temps peeked whole small large =
    let len : length p.content ≡ length peeked + length (drop (length peeked) p.content) =
      ap length (sym whole) ∙ length-append peeked (drop (length peeked) p.content) in
    let fits : ltb max_file_size (length peeked) ≡ false = ground arith in
    elim (Bool-cases p.disk.creates) [
      | inr fails ↦
          simp (fits, fails)
            (λ r. refl, λ (e, s, h). ground (arith, h.0), λ (c, s). omega (arith, len))
      | inl creates ↦ elim (Bool-cases p.disk.writes) [
        | inr fails ↦
            simp (fits, creates, fails)
              (
                removed p.disk.removes temps,
                λ (e, s, h). ground (arith, h.1),
                λ (c, s). omega (arith, len),
              )
        | inl writes ↦
            simp (fits, creates, writes)
              (stream_rest-Keeps p temps (max_file_size - length peeked) peeked whole (omega arith)
                large)
      ]
    ]

by_size-Keeps :
    (p : Part) (temps : ℕ) (peeked : Bytes)
    → peeked ++ drop (length peeked) p.content ≡ p.content
    → length peeked ≤ max_file_size
    → (length peeked ≤ max_memory_file_size → peeked ≡ p.content)
    → (length peeked ≤ max_memory_file_size → IsRead p)
    → Keeps p temps (by_size p temps (some peeked))
unfolding by_size process_small_file new_bytes_seeker
by_size-Keeps p temps peeked whole small all read =
    elim (Bool-cases (leb (length peeked) max_memory_file_size)) [
      | inl memory ↦
          let fits : ltb max_file_size (length peeked) ≡ false = ground arith in
          let same = all (ground arith) in
          rw (memory, fits) (same, omega (arith, ap length same), read (ground arith), λ r. refl)
      | inr disk ↦ rw disk (process_large_file-Keeps p temps peeked whole small (ground arith))
    ]

whole_part :
    (p : Part) (temps : ℕ)
    → ltb max_memory_file_size (length p.content) ≡ false
    → IsRead p
    → Keeps p temps (by_size p temps (some p.content))
whole_part p temps small read =
    by_size-Keeps p temps p.content (take_all p.content) (small_fits _ _ _ small (omega arith))
      (λ le. refl) (λ le. read)

pub process_file_part-Keeps : (p : Part) (temps : ℕ) → Keeps p temps (process_file_part p temps)
unfolding process_file_part peek
process_file_part-Keeps p temps = elim (Bool-cases (ltb max_memory_file_size (length p.content))) [
  | inl large ↦
      let len = length-peeked max_memory_file_size p.content large in
      rw large (
        by_size-Keeps p temps (take (suc max_memory_file_size) p.content)
          (take_rest (suc max_memory_file_size) p.content) (peeked_fits _ _ _ len (omega arith))
          (λ le. absurd (peeked_above _ _ len le)) (λ le. absurd (peeked_above _ _ len le)))
  | inr small ↦ elim (Bool-cases p.ends) [
    | inl ends ↦
        let all : peek p ≡ some p.content = simp (small, ends) refl in
        subst (λ (o : Option Bytes). Keeps p temps (by_size p temps o)) (sym all)
          (whole_part p temps small (inl ends))
    | inr fails ↦ elim (Bool-cases p.cut) [
      | inl cut ↦
          let all : peek p ≡ some p.content = simp (small, fails, cut) refl in
          subst (λ (o : Option Bytes). Keeps p temps (by_size p temps o)) (sym all)
            (whole_part p temps small (inr (inl (cut, small_fits _ _ _ small (omega arith)))))
      | inr breaks ↦ simp (small, fails, breaks) (λ r. refl, λ (e, s, h). cc, λ (c, s). cc)
    ]
  ]
]
