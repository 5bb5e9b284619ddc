-- ===== src/Api/FolderView/Units.antt =====
-- The unit of a size (api/gateway/folderView.go).
use sequoia.Prelude.{
  true, false, sym, subst, ℕ, suc, ◌*◌, ◌/◌, ◌%◌, ◌≤◌, ◌<◌, ◌≡◌, refl, ◌∙◌, Bool-cases, inl, inr,
  arith, leb, ltb, ◌==◌,
}
use sequoia.Api.FolderView.{Shown, bytes, scaled, index_panic, unit, scale, in_units, format_size}

-- The number that is shown is at least 1 and below 1024, unless the unit is bytes.
abbrev pub Fits : ℕ → Shown → Type 0
Fits size (bytes n) = (n ≡ size) × (size < 1024)
Fits size (scaled n div u) = (n ≡ size) × (div ≤ size) × (size < 1024 * div)
Fits size index_panic = ⊥

step_more :
    (fuel n div exp : ℕ)
    → leb unit n ≡ true
    → scale (suc fuel) n div exp
      ≡ scale fuel (n / unit) ((div * unit) % 18446744073709551616) (suc exp)
unfolding scale
step_more fuel n div exp h = rw h refl

step_end : (fuel n div exp : ℕ) → leb unit n ≡ false → scale (suc fuel) n div exp ≡ (div, exp)
unfolding scale
step_end fuel n div exp h = rw h refl

shown :
    (size : ℕ) (r : ℕ × ℕ)
    → scale 7 (size / unit) unit 0 ≡ r
    → Fits size (in_units size r)
    → Fits size (in_units size (scale 7 (size / unit) unit 0))
shown size r e h = subst (λ x. Fits size (in_units size x)) (sym e) h

large-Fits :
    (size : ℕ)
    → 1024 ≤ size
    → size < 18446744073709551616
    → Fits size (in_units size (scale 7 (size / unit) unit 0))
large-Fits size low high = elim (Bool-cases (leb unit (size / unit))) [
  | inr e ↦ shown size _ (step_end 6 (size / unit) 1024 0 e) (refl, ground arith, ground arith)
  | inl h0 ↦ elim (Bool-cases (leb unit (size / unit / unit))) [
    | inr e ↦
        shown size _
          (step_more 6 (size / unit) 1024 0 h0 ∙ step_end 5 (size / unit / unit) 1048576 1 e)
          (refl, ground arith, ground arith)
    | inl h1 ↦ elim (Bool-cases (leb unit (size / unit / unit / unit))) [
      | inr e ↦
          shown size _
            (step_more 6 (size / unit) 1024 0 h0
              ∙ step_more 5 (size / unit / unit) 1048576 1 h1
              ∙ step_end 4 (size / unit / unit / unit) 1073741824 2 e)
            (refl, ground arith, ground arith)
      | inl h2 ↦ elim (Bool-cases (leb unit (size / unit / unit / unit / unit))) [
        | inr e ↦
            shown size _
              (step_more 6 (size / unit) 1024 0 h0
                ∙ step_more 5 (size / unit / unit) 1048576 1 h1
                ∙ step_more 4 (size / unit / unit / unit) 1073741824 2 h2
                ∙ step_end 3 (size / unit / unit / unit / unit) 1099511627776 3 e)
              (refl, ground arith, ground arith)
        | inl h3 ↦ elim (Bool-cases (leb unit (size / unit / unit / unit / unit / unit))) [
          | inr e ↦
              shown size _
                (step_more 6 (size / unit) 1024 0 h0
                  ∙ step_more 5 (size / unit / unit) 1048576 1 h1
                  ∙ step_more 4 (size / unit / unit / unit) 1073741824 2 h2
                  ∙ step_more 3 (size / unit / unit / unit / unit) 1099511627776 3 h3
                  ∙ step_end 2 (size / unit / unit / unit / unit / unit) 1125899906842624 4 e)
                (refl, ground arith, ground arith)
          | inl h4 ↦
              shown size _
                (step_more 6 (size / unit) 1024 0 h0
                  ∙ step_more 5 (size / unit / unit) 1048576 1 h1
                  ∙ step_more 4 (size / unit / unit / unit) 1073741824 2 h2
                  ∙ step_more 3 (size / unit / unit / unit / unit) 1099511627776 3 h3
                  ∙ step_more 2 (size / unit / unit / unit / unit / unit) 1125899906842624 4 h4
                  ∙ step_end 1 (size / unit / unit / unit / unit / unit / unit) 1152921504606846976
                      5 (ground arith))
                (refl, ground arith, ground arith)
        ]
      ]
    ]
  ]
]

-- For every uint64 the size is shown in a unit that exists, as a number of at least 1 and below
-- 1024 of it, or in bytes when it is below 1024; the divisor does not overflow.
pub format_size-Fits : (size : ℕ) → size < 18446744073709551616 → Fits size (format_size size)
unfolding format_size
format_size-Fits size high = elim (Bool-cases (size == 0)) [
  | inl is_zero ↦ rw is_zero (ground arith)
  | inr positive ↦ elim (Bool-cases (ltb size unit)) [
    | inl small ↦ simp (positive, small) (refl, ground arith)
    | inr large ↦ simp (positive, large) (large-Fits size (ground arith) high)
  ]
]
