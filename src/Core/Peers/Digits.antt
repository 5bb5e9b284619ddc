-- ===== src/Core/Peers/Digits.antt =====
-- Numbers in the text of a host, and the prefixes that the filter strips (core/app.go).
use sequoia.Prelude.{
  ℕ, ◌==◌, ◌≡◌, refl, sym, ap, ◌∙◌, if◌then◌else◌, true, [], ◌∷◌, ◌++◌, none, arith, Bool-cases,
  inl, inr,
}
use sequoia.Prelude.Bytes.{Bytes, bytes_equal, bytes_equal→eq, bytes_equal_refl}
use sequoia.Prelude.Bytes.Decimal.{
  format_uint, all_digits, value, value-format_uint, all_digits-format_uint,
}
use sequoia.Core.Peers.{strip}

-- Digits before a dot are stripped exactly by the same digits.
strip_digits :
    (x y p s : Bytes)
    → all_digits x ≡ true
    → all_digits y ≡ true
    → strip (x ++ (b'.' ∷ p)) (y ++ (b'.' ∷ s)) ≡ (if bytes_equal x y then strip p s else none)
unfolding strip bytes_equal all_digits
strip_digits [] [] p s hx hy = refl
strip_digits [] (c ∷ y) p s hx hy = ground arith
strip_digits (c ∷ x) [] p s hx hy = ground arith
strip_digits (c ∷ x) (d ∷ y) p s hx hy =
    let ih = strip_digits x y p s (ground arith) (ground arith) in ground (arith, ih)

-- Two numbers have the same digits exactly when they are equal.
same_digits : (k a : ℕ) → bytes_equal (format_uint k) (format_uint a) ≡ (a == k)
same_digits k a = elim (Bool-cases (a == k)) [
  | inl same ↦ let e : a ≡ k = ground arith in rw (same, e) (bytes_equal_refl (format_uint k))
  | inr other ↦ elim (Bool-cases (bytes_equal (format_uint k) (format_uint a))) [
    | inl equal ↦
        let e = ap (value 0) (bytes_equal→eq _ _ equal) in
        let e' : k ≡ a = sym (value-format_uint k) ∙ e ∙ value-format_uint a in
        absurd (ground arith)
    | inr differs ↦ rw (other, differs) refl
  ]
]

pub strip_number :
    (k a : ℕ) (p s : Bytes)
    → strip (format_uint k ++ (b'.' ∷ p)) (format_uint a ++ (b'.' ∷ s))
      ≡ (if a == k then strip p s else none)
strip_number k a p s =
    strip_digits (format_uint k) (format_uint a) p s (all_digits-format_uint k)
      (all_digits-format_uint a)
    ∙ rw (same_digits k a) refl
