-- ===== src/Queue/Broadcast/Different.antt =====
-- Lists of messages of which `Add` takes no two for one (queue/queue.go).
use sequoia.Prelude.{
  ℕ, Bool, true, false, ◌||◌, List, [], ◌∷◌, ◌++◌, ◌≡◌, refl, ◌∙◌, arith, contains,
}
use sequoia.Prelude.Bytes.{bytes_equal_comm}
use sequoia.Queue.Types.{PostProof, Msg, nil_msg, post_proof, other_msg, Message}
use sequoia.Queue.Add.{is_duplicate, clashes, same_contract}

-- Two messages that `Add` takes for one.
abbrev pub conflict : Msg → Msg → Bool
conflict (post_proof p) m = clashes p m
conflict nil_msg m = false
conflict (other_msg kind) m = false

pub is_duplicate_cons :
    (m : Msg) (store : ℕ → Message) (i : ℕ) (is : List ℕ)
    → is_duplicate m store (i ∷ is) ≡ (conflict m (store i).msg || is_duplicate m store is)
unfolding is_duplicate
is_duplicate_cons nil_msg store i is = refl
is_duplicate_cons (post_proof p) store i is = refl
is_duplicate_cons (other_msg kind) store i is = refl

pub is_duplicate_nil : (m : Msg) (store : ℕ → Message) → is_duplicate m store [] ≡ false
unfolding is_duplicate
is_duplicate_nil nil_msg store = refl
is_duplicate_nil (post_proof p) store = refl
is_duplicate_nil (other_msg kind) store = refl

pub same_contract_comm : (a b : PostProof) → same_contract a b ≡ same_contract b a
unfolding same_contract
same_contract_comm a b =
    ground (arith, bytes_equal_comm a.merkle b.merkle, bytes_equal_comm a.owner b.owner)

pub conflict_comm : (a b : Msg) → conflict a b ≡ conflict b a
unfolding clashes
conflict_comm nil_msg nil_msg = refl
conflict_comm nil_msg (post_proof q) = refl
conflict_comm nil_msg (other_msg k) = refl
conflict_comm (other_msg j) nil_msg = refl
conflict_comm (other_msg j) (post_proof q) = refl
conflict_comm (other_msg j) (other_msg k) = refl
conflict_comm (post_proof p) nil_msg = refl
conflict_comm (post_proof p) (post_proof q) = same_contract_comm q p
conflict_comm (post_proof p) (other_msg k) = refl

abbrev pub AllDifferent : (ℕ → Message) → List ℕ → Type 0
AllDifferent store [] = Unit {0}
AllDifferent store (i ∷ is) = (is_duplicate (store i).msg store is ≡ false) × AllDifferent store is

-- The test reads the `msg` of the listed messages alone.
pub is_duplicate_ext :
    (m : Msg) (f g : ℕ → Message) (is : List ℕ)
    → ((i : ℕ) → contains i is ≡ true → (g i).msg ≡ (f i).msg)
    → is_duplicate m g is ≡ is_duplicate m f is
is_duplicate_ext m f g [] h = rw (is_duplicate_nil m g, is_duplicate_nil m f)
is_duplicate_ext m f g (i ∷ is) h = rw (
  is_duplicate_cons m g i is,
  is_duplicate_cons m f i is,
  h i (ground arith),
  is_duplicate_ext m f g is (λ j k. h j (ground arith)),
)

pub AllDifferent-ext :
    (f g : ℕ → Message) (is : List ℕ)
    → ((i : ℕ) → contains i is ≡ true → (g i).msg ≡ (f i).msg)
    → AllDifferent f is
    → AllDifferent g is
AllDifferent-ext f g [] h d = tt
AllDifferent-ext f g (i ∷ is) h d = (
  rw (h i (ground arith)) (is_duplicate_ext (f i).msg f g is (λ j k. h j (ground arith)) ∙ d.0),
  AllDifferent-ext f g is (λ j k. h j (ground arith)) d.1,
)

pub is_duplicate_concat :
    (m : Msg) (store : ℕ → Message) (is : List ℕ) (j : ℕ)
    → is_duplicate m store (is ++ j ∷ []) ≡ (is_duplicate m store is || conflict m (store j).msg)
is_duplicate_concat m store [] j =
    is_duplicate_cons m store j [] ∙ ground (arith, is_duplicate_nil m store)
is_duplicate_concat m store (i ∷ is) j =
    rw (is_duplicate_cons m store i (is ++ j ∷ []), is_duplicate_cons m store i is)
      (ground (arith, is_duplicate_concat m store is j))

pub AllDifferent-concat :
    (store : ℕ → Message) (is : List ℕ) (j : ℕ)
    → AllDifferent store is
    → is_duplicate (store j).msg store is ≡ false
    → AllDifferent store (is ++ j ∷ [])
AllDifferent-concat store [] j d h = (is_duplicate_nil (store j).msg store, tt)
AllDifferent-concat store (i ∷ is) j d h = (
  is_duplicate_concat (store i).msg store is j
      ∙ ground (
        arith,
        d.0,
        is_duplicate_cons (store j).msg store i is,
        conflict_comm (store i).msg (store j).msg,
      ),
  AllDifferent-concat store is j d.1 (ground (arith, is_duplicate_cons (store j).msg store i is)),
)

pub AllDifferent-right :
    (store : ℕ → Message) (is js : List ℕ) → AllDifferent store (is ++ js) → AllDifferent store js
AllDifferent-right store [] js d = d
AllDifferent-right store (i ∷ is) js d = AllDifferent-right store is js d.1
