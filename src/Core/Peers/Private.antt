-- ===== src/Core/Peers/Private.antt =====
-- Which addresses the filter of `ConnectPeers` takes for private (core/app.go).
use sequoia.Prelude.{
  ℕ, ◌==◌, ◌≡◌, ◌≢◌, refl, ap, ◌∙◌, if◌then◌else◌, Bool, true, false, ◌&&◌, ◌||◌, List, [], ◌∷◌,
  ◌++◌, none, some, All, arith, leb,
}
use sequoia.Prelude.Bytes.{Bytes, codes, contains_text}
use sequoia.Prelude.Bytes.Decimal.{
  format_uint, all_digits, all_digits-format_uint, format_uint-StartsWithDigit,
}
use sequoia.Core.Peers.Digits.{strip_number}
use sequoia.Core.Peers.{
  dotted, private_blocks, strip, up_to_slash, block, any_block, is_private, is_skipped,
}

-- The rest of a text behind its first octets.
abbrev pub octets : ℕ → ℕ → ℕ → ℕ → Bytes → Bytes
octets a b c d rest =
    format_uint a
    ++ (b'.'
        ∷ (format_uint b ++ (b'.' ∷ (format_uint c ++ (b'.' ∷ (format_uint d ++ (b'/' ∷ rest)))))))

up_to_slash-digits : (x s : Bytes) → all_digits x ≡ true → up_to_slash (x ++ s) ≡ up_to_slash s
unfolding up_to_slash all_digits
up_to_slash-digits [] s h = refl
up_to_slash-digits (c ∷ x) s h = ground (arith, up_to_slash-digits x s (ground arith))

up_to_slash-number : (n : ℕ) (s : Bytes) → up_to_slash (format_uint n ++ s) ≡ up_to_slash s
up_to_slash-number n s = up_to_slash-digits (format_uint n) s (all_digits-format_uint n)

up_to_slash-dot : (s : Bytes) → up_to_slash (b'.' ∷ s) ≡ up_to_slash s
unfolding up_to_slash
up_to_slash-dot s = refl

up_to_slash-end : (s : Bytes) → up_to_slash (b'/' ∷ s) ≡ true
unfolding up_to_slash
up_to_slash-end s = refl

-- A number and what follows it.
block-number : (n : ℕ) (s : Bytes) → up_to_slash s ≡ true → block (some (format_uint n ++ s)) ≡ true
unfolding all_digits
block-number n s h =
    let (c, x, e, digit) = format_uint-StartsWithDigit n in
    let all : all_digits (c ∷ x) ≡ true = rw e at (all_digits-format_uint n) in
    rw e (ground (arith, digit, h, up_to_slash-digits x s (ground arith)))

-- An octet behind which there are others, or the end.
last_part : (d : ℕ) (rest : Bytes) → up_to_slash (format_uint d ++ (b'/' ∷ rest)) ≡ true
last_part d rest = up_to_slash-number d (b'/' ∷ rest) ∙ up_to_slash-end rest

next_part :
    (c : ℕ) (s : Bytes) → up_to_slash s ≡ true → up_to_slash (format_uint c ++ (b'.' ∷ s)) ≡ true
next_part c s h = up_to_slash-number c (b'.' ∷ s) ∙ up_to_slash-dot s ∙ h

dotted_block : ℕ → ℕ → List ℕ → Bool
dotted_block a b [] = true
dotted_block a b (k ∷ []) = a == k
dotted_block a b (k ∷ l ∷ ls) = a == k && b == l

if_block : (t : Bool) (s : Bytes) → block (some s) ≡ true → block (if t then some s else none) ≡ t
if_block true s h = h
if_block false s h = refl

abbrev Short : List ℕ → Type 0
Short (k ∷ []) = Unit {0}
Short (k ∷ l ∷ []) = Unit {0}
Short _ = ⊥

if_both :
    (t u : Bool) (s : Bytes)
    → block (some s) ≡ true
    → block (if t then (if u then some s else none) else none) ≡ (t && u)
if_both true u s h = if_block u s h
if_both false u s h = refl

module _ (a b c d : ℕ) (rest : Bytes) where
  abbrev third : Bytes
  third = format_uint c ++ (b'.' ∷ (format_uint d ++ (b'/' ∷ rest)))

  abbrev second : Bytes
  second = format_uint b ++ (b'.' ∷ third)

  third-up : up_to_slash third ≡ true
  third-up = next_part c _ (last_part d rest)

  third-block : block (some third) ≡ true
  third-block = block-number c _ (up_to_slash-dot _ ∙ last_part d rest)

  second-block : block (some second) ≡ true
  second-block = block-number b _ (up_to_slash-dot _ ∙ third-up)

  one_block :
      (ks : List ℕ)
      → Short ks
      → block (strip (dotted ks) (octets a b c d rest)) ≡ dotted_block a b ks
  unfolding dotted_block dotted strip
  one_block [] h = absurd h
  one_block (k ∷ []) h =
      ap block (strip_number k a [] second) ∙ if_block (a == k) second second-block
  one_block (k ∷ l ∷ []) h =
      ap block (
        strip_number k a (dotted (l ∷ [])) second
        ∙ ap (λ o. if a == k then o else none) (strip_number l b [] third))
      ∙ if_both (a == k) (b == l) third third-block
  one_block (k ∷ l ∷ n ∷ ks) h = absurd h

  abbrev any_dotted : List (List ℕ) → Bool
  any_dotted [] = false
  any_dotted (ks ∷ kss) = dotted_block a b ks || any_dotted kss

  every_block :
      (kss : List (List ℕ)) → All Short kss → any_block kss (octets a b c d rest) ≡ any_dotted kss
  unfolding any_block
  every_block [] h = refl
  every_block (ks ∷ kss) (h, hs) = rw (one_block ks h, every_block kss hs) refl

  -- The private blocks.
  abbrev pub in_private_block : Bool
  in_private_block =
      (a == 127) || (a == 10) || (a == 172 && (leb 16 b && leb b 31)) || (a == 192 && b == 168)

  any_dotted-exact : any_dotted private_blocks ≡ in_private_block
  unfolding dotted_block
  any_dotted-exact = ground arith

  blocks_exact : any_block private_blocks (octets a b c d rest) ≡ in_private_block
  blocks_exact =
      every_block private_blocks (
        tt,
        (
          tt,
          (
            tt,
            (
              tt,
              (
                tt,
                (
                  tt,
                  (tt, (tt, (tt, (tt, (tt, (tt, (tt, (tt, (tt, (tt, (tt, (tt, (tt, tt))))))))))))),
                ),
              ),
            ),
          ),
        ),
      )
      ∙ any_dotted-exact

is_private-skip : (c : ℕ) (s : Bytes) → c ≢ b'/' → is_private (c ∷ s) ≡ is_private s
unfolding is_private strip
is_private-skip c s n = ground arith

is_private-digits : (x s : Bytes) → all_digits x ≡ true → is_private (x ++ s) ≡ is_private s
unfolding all_digits
is_private-digits [] s h = refl
is_private-digits (c ∷ x) s h =
    is_private-skip c (x ++ s) (ground arith) ∙ is_private-digits x s (ground arith)

is_private-number : (n : ℕ) (s : Bytes) → is_private (format_uint n ++ s) ≡ is_private s
is_private-number n s = is_private-digits (format_uint n) s (all_digits-format_uint n)

is_private-octets :
    (a b c d : ℕ) (rest : Bytes) → is_private (octets a b c d rest) ≡ is_private (b'/' ∷ rest)
is_private-octets a b c d rest =
    is_private-number a _
    ∙ is_private-skip b'.' _ (omega arith)
    ∙ is_private-number b _
    ∙ is_private-skip b'.' _ (omega arith)
    ∙ is_private-number c _
    ∙ is_private-skip b'.' _ (omega arith)
    ∙ is_private-number d _

is_private-after_slash :
    (n : ℕ) (s : Bytes) → is_private (b'/' ∷ (format_uint n ++ s)) ≡ is_private (format_uint n ++ s)
unfolding is_private strip
is_private-after_slash n s =
    let (c, x, e, digit) = format_uint-StartsWithDigit n in rw e (ground (arith, digit))

is_private-ip4 :
    (s : Bytes)
    → is_private (codes "/ip4/" ++ s) ≡ (any_block private_blocks s || is_private (b'/' ∷ s))
unfolding is_private strip
is_private-ip4 s = refl

or_false : (t u : Bool) → u ≡ false → (t || u) ≡ t
or_false t u h = ground arith

is_private_exact :
    (a b c d : ℕ) (rest : Bytes)
    → is_private (b'/' ∷ rest) ≡ false
    → is_private (codes "/ip4/" ++ octets a b c d rest) ≡ in_private_block a b c d rest
is_private_exact a b c d rest h =
    is_private-ip4 (octets a b c d rest)
    ∙ or_false (any_block private_blocks (octets a b c d rest)) _
        (is_private-after_slash a _ ∙ is_private-octets a b c d rest ∙ h)
    ∙ blocks_exact a b c d rest

-- A host "/ip4/a.b.c.d/...", whose rest does not match by itself, is skipped exactly when it has an
-- IPv6 part, or its address is in 127.0.0.0/8, 10.0.0.0/8, 172.16.0.0/12 or 192.168.0.0/16.
pub is_skipped_exact :
    (a b c d : ℕ) (rest : Bytes)
    → is_private (b'/' ∷ rest) ≡ false
    → let host = codes "/ip4/" ++ octets a b c d rest in
      is_skipped host ≡ (contains_text host (codes "/ip6/") || in_private_block a b c d rest)
unfolding is_skipped
is_skipped_exact a b c d rest h =
    ap (λ t. contains_text (codes "/ip4/" ++ octets a b c d rest) (codes "/ip6/") || t)
      (is_private_exact a b c d rest h)
