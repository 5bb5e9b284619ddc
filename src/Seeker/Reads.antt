-- ===== src/Seeker/Reads.antt =====
-- Reading to the end gives all the data (types/bytes_seeker.go).
use Prim.Native.Nat.{min}
use sequoia.Prelude.{
  ℕ, zero, suc, ◌+◌, ◌-◌, ◌≤◌, ◌<◌, ◌≡◌, ◌≢◌, refl, sym, ◌∙◌, ap, Option, none, some, List, [], ◌∷◌,
  ◌++◌, true, false, arith, length, take, drop, length-take, All, take_rest, Bool-cases, inl, inr,
  ltb,
}
use sequoia.Prelude.Int.{pos, ◌+ℤ◌, ltb_ℤ}
use sequoia.Prelude.Bytes.{Bytes}
use sequoia.Seeker.{BytesSeeker, read, before, read_loop, wrap_i64}

-- The reads one after another.
abbrev pub joined : List Bytes → Bytes
joined [] = []
joined (r ∷ rs) = r ++ joined rs

length-drop : (k : ℕ) (xs : Bytes) → length (drop k xs) ≡ length xs - k
length-drop zero xs = omega arith
length-drop (suc k) [] = omega arith
length-drop (suc k) (x ∷ xs) = omega (arith, length-drop k xs)

drop_nil : (m : ℕ) → drop {A = ℕ} m [] ≡ []
drop_nil zero = refl
drop_nil (suc m) = refl

drop-drop : (j k m : ℕ) (xs : Bytes) → m ≡ k + j → drop j (drop k xs) ≡ drop m xs
drop-drop j zero m xs e = let same : m ≡ j = omega arith in rw same refl
drop-drop j (suc k) m [] e = drop_nil j ∙ sym (drop_nil m)
drop-drop j (suc k) zero (x ∷ xs) e = absurd (omega arith)
drop-drop j (suc k) (suc m) (x ∷ xs) e = drop-drop j k m xs (omega arith)

drop-length : (xs : Bytes) → drop (length xs) xs ≡ []
drop-length [] = refl
drop-length (x ∷ xs) = drop-length xs

-- What a read before the end gets.
got_at : ℕ → ℕ → Bytes → Bytes
got_at size k d = take size (drop k d)

length-got_at : (size k : ℕ) (d : Bytes) → length (got_at size k d) ≡ min size (length d - k)
unfolding got_at
length-got_at size k d = length-take size (drop k d) ∙ ap (min size) (length-drop k d)

wrap_move : (k j : ℕ) → k + j < 9223372036854775808 → wrap_i64 (pos k +ℤ pos j) ≡ pos (k + j)
wrap_move k j small = ground arith

read_more :
    (size k : ℕ) (d : Bytes)
    → k < length d
    → length d < 9223372036854775808
    → read size (record { data_ = d; at = pos k })
      ≡ (record { data_ = d; at = pos (k + length (got_at size k d)) }, some (got_at size k d))
unfolding read got_at
read_more size k d more small =
    let len = length-got_at size k d in
    let now : ltb_ℤ (pos k) (pos (length d)) ≡ true = ground arith in
    let next : wrap_i64 (pos k +ℤ pos (length (take size (drop k d))))
        ≡ pos (k + length (take size (drop k d))) =
      wrap_move k _ (omega arith) in
    rw (now, next) refl

read_end :
    (size k : ℕ) (d : Bytes)
    → k ≡ length d
    → read size (record { data_ = d; at = pos k }) ≡ (record { data_ = d; at = pos k }, none)
unfolding read
read_end size k d e = let now : ltb_ℤ (pos k) (pos (length d)) ≡ false = ground arith in rw now refl

read_loop-read :
    (fuel size : ℕ) (b b' : BytesSeeker) (got : Option Bytes)
    → read size b ≡ (b', got)
    → read_loop (suc fuel) size b ≡ before got (read_loop fuel size b')
unfolding read_loop
read_loop-read fuel size b b' got e =
    ap (λ (st : BytesSeeker × Option Bytes). before st.1 (read_loop fuel size st.0)) e

-- From any position in data shorter than 2^63 bytes, reading with a buffer that is not empty ends
-- after no more reads than there are bytes left, and one that finds the end of the file; no read is
-- empty, and joined they are the bytes from the position on.
pub read_loop-joined :
    (fuel size k : ℕ) (d : Bytes)
    → size ≢ 0
    → k ≤ length d
    → length d < 9223372036854775808
    → length d - k < fuel
    → (rs : List Bytes) × (read_loop fuel size (record { data_ = d; at = pos k }) ≡ some rs)
      × (joined rs ≡ drop k d)
      × All (λ (r : Bytes). length r ≢ 0) rs
read_loop-joined zero size k d n le small enough = absurd (omega arith)
read_loop-joined (suc fuel) size k d n le small enough = elim (Bool-cases (ltb k (length d))) [
  | inl more ↦
      let below : k < length d = ground arith in
      let len = length-got_at size k d in
      let (rs, run, all, ne) =
        read_loop-joined fuel size (k + length (got_at size k d)) d n (omega arith) small
          (omega arith) in
      (
        got_at size k d ∷ rs,
        read_loop-read fuel size _ _ _ (read_more size k d below small)
            ∙ ap (before (some (got_at size k d))) run,
        ap (λ l. got_at size k d ++ l) (all ∙ sym (drop-drop (length (got_at size k d)) k _ d refl))
            ∙ (unfold got_at in take_rest size (drop k d)),
        (omega arith, ne),
      )
  | inr end ↦
      let here : k ≡ length d = ground arith in
      (
        [],
        read_loop-read fuel size _ _ _ (read_end size k d here),
        sym (ap (λ j. drop j d) here ∙ drop-length d),
        tt,
      )
]
