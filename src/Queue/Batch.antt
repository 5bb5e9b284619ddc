-- ===== src/Queue/Batch.antt =====
-- How many messages one broadcast takes (`calculateTransactionSize` and the first half of
-- `BroadcastPending` in queue/queue.go).
use Prim.Native.Nat.{min, max}
use sequoia.Prelude.{
  ℕ, suc, ◌+◌, ◌≤◌, ◌<◌, ltb, ◌==◌, if◌then◌else◌, false, List, [], ◌∷◌, ◌++◌, ◌≡◌, refl, ap, inl,
  inr, arith, length, take, append_assoc, Bool-cases, length-append,
}
use sequoia.Prelude.Int.{ℤ, pos, ltb_ℤ, ◌≤ℤ◌, ◌<ℤ◌, to_i64}
use sequoia.Queue.Types.{Msg, nil_msg, post_proof, other_msg}

-- What one message adds to the estimate.
abbrev message_size : Msg → ℕ
message_size (post_proof m) =
    length m.creator + length m.item + length m.hash_list + length m.merkle + length m.owner + 16
message_size nil_msg = 500
message_size (other_msg kind) = 500

abbrev total_size : List Msg → ℕ
total_size [] = 0
total_size (m ∷ ms) = message_size m + total_size ms

-- The sum is int64 arithmetic, which wraps around.
unfoldable pub calculate_transaction_size : List Msg → ℤ
calculate_transaction_size [] = pos 0
calculate_transaction_size (m ∷ ms) = to_i64 (total_size (m ∷ ms) + 500)

-- The loop over the queue: `msgs` is what was appended so far, `cutoff` how many of them fit.
unfoldable pub fit : ℤ → List Msg → List Msg → ℕ → ℕ
fit limit msgs [] cutoff = cutoff
fit limit msgs (m ∷ rest) cutoff =
    let next = fit limit (msgs ++ m ∷ []) rest (suc cutoff) in
    if ltb_ℤ limit (calculate_transaction_size (msgs ++ m ∷ [])) then cutoff else next

-- At least 45 messages, or all of them if they are fewer.
unfoldable pub select_cutoff : ℤ → List Msg → ℕ
unfolding fit
select_cutoff limit pending =
    let cutoff = fit limit [] pending 0 in
    let floor : ℕ = if ltb cutoff 45 then 45 else cutoff in
    if ltb (length pending) floor then length pending else floor

-- The count of a greedy pass: every prefix up to it fits, and the next one does not.
pub record IsGreedy (limit : ℤ) (pending : List Msg) (k : ℕ) : Type 0 where
  pub bounded : k ≤ length pending
  pub prefixes : (j : ℕ) → 0 < j → j ≤ k → calculate_transaction_size (take j pending) ≤ℤ limit
  pub next_is_too_big :
      k < length pending → limit <ℤ calculate_transaction_size (take (suc k) pending)

take_prefix {ℓ} : {A : Type ℓ} (xs ys : List A) → take (length xs) (xs ++ ys) ≡ xs
take_prefix [] ys = refl
take_prefix (x ∷ xs) ys = ap (λ l. x ∷ l) (take_prefix xs ys)

take_one_more {ℓ} :
    {A : Type ℓ} (xs : List A) (y : A) (ys : List A)
    → take (suc (length xs)) (xs ++ (y ∷ ys)) ≡ xs ++ y ∷ []
take_one_more [] y ys = refl
take_one_more (x ∷ xs) y ys = ap (λ l. x ∷ l) (take_one_more xs y ys)

module _ (limit : ℤ) where
  -- What has been found when the loop stands behind `msgs`.
  abbrev Prefixes : List Msg → ℕ → Type 0
  Prefixes pending k =
      (j : ℕ) → 0 < j → j ≤ k → calculate_transaction_size (take j pending) ≤ℤ limit

  not_lt→le : (a b : ℤ) → ltb_ℤ a b ≡ false → b ≤ℤ a
  not_lt→le a b h = ground arith

  extend_Prefixes :
      (pending : List Msg) (k : ℕ)
      → Prefixes pending k
      → calculate_transaction_size (take (suc k) pending) ≤ℤ limit
      → Prefixes pending (suc k)
  extend_Prefixes pending k h e j p q = elim (Bool-cases (j == suc k)) [
    | inl same ↦ let i : j ≡ suc k = ground arith in rw i e
    | inr other ↦ h j p (ground arith)
  ]

  fit-IsGreedy :
      (msgs rest pending : List Msg) (cutoff : ℕ)
      → msgs ++ rest ≡ pending
      → length msgs ≡ cutoff
      → Prefixes pending cutoff
      → IsGreedy limit pending (fit limit msgs rest cutoff)
  unfolding fit
  fit-IsGreedy msgs [] pending cutoff e l h = record {
    bounded = omega (arith, ap (length {0}) e, length-append msgs []);
    prefixes = h;
    next_is_too_big = λ k. absurd (omega (arith, ap (length {0}) e, length-append msgs []));
  }
  fit-IsGreedy msgs (m ∷ rest) pending cutoff e l h =
      let now : take (suc cutoff) pending ≡ msgs ++ m ∷ [] =
        rw (← e, ← l) (take_one_more msgs m rest) in
      elim (Bool-cases (ltb_ℤ limit (calculate_transaction_size (msgs ++ m ∷ [])))) [
        | inl big ↦ rw big (record {
          bounded = omega (arith, ap (length {0}) e, length-append msgs (m ∷ rest));
          prefixes = h;
          next_is_too_big = λ _. rw now (ground arith);
        })
        | inr fits ↦ rw fits (
            fit-IsGreedy (msgs ++ m ∷ []) rest pending (suc cutoff) (rw append_assoc e)
              (omega (arith, length-append msgs (m ∷ [])))
              (extend_Prefixes pending cutoff h (rw now (not_lt→le limit _ fits))))
      ]

-- The batch is the greedy one, raised to 45 messages and cut to the queue; a batch of more than
-- 45 messages is never above the size limit.
pub select_cutoff-IsGreedy :
    (limit : ℤ) (pending : List Msg)
    → (k : ℕ) × IsGreedy limit pending k
      × (select_cutoff limit pending ≡ min (max 45 k) (length pending))
      × (45 < select_cutoff limit pending
          → calculate_transaction_size (take (select_cutoff limit pending) pending) ≤ℤ limit)
unfolding select_cutoff
select_cutoff-IsGreedy limit pending =
    let k = fit limit [] pending 0 in
    let g : IsGreedy limit pending k =
      fit-IsGreedy limit [] pending pending 0 refl refl (λ j p q. absurd (omega arith)) in
    (
      k,
      g,
      ground (arith, g.bounded),
      λ h. g.prefixes (select_cutoff limit pending) (omega arith) (ground arith),
    )
