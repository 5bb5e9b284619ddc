-- ===== src/Queue/Broadcast/During/Outside.antt =====
-- What settling a batch (`BroadcastPending`, queue/queue.go) leaves of the messages outside it, and of
-- the contents of all.
use sequoia.Prelude.{
  ℕ, suc, ◌==◌, false, List, [], ◌∷◌, ◌≡◌, refl, sym, ap, ◌∙◌, Option, none, some, arith, contains,
  Bool-cases, inl, inr,
}
use mathlib.Core.Path.{fun_ext}
use sequoia.Prelude.Bytes.{Bytes}
use sequoia.Queue.Types.{TxResponse, Message, update}
use sequoia.Queue.Broadcast.{settle_one, store_one, settle}

update_comm :
    (f : ℕ → Message) (n p : ℕ) (x y : Message)
    → (p == n) ≡ false
    → update (update f n x) p y ≡ update (update f p y) n x
update_comm f n p x y h = fun_ext λ j. ground arith

abbrev pub updated : ℕ → Message → Option (ℕ → Message) → Option (ℕ → Message)
updated n x none = none
updated n x (some f) = some (update f n x)

store_one-update :
    (f : ℕ → Message) (n p : ℕ) (x : Message) (o : Option Message)
    → (p == n) ≡ false
    → store_one (update f n x) p o ≡ updated n x (store_one f p o)
store_one-update f n p x none h = refl
store_one-update f n p x (some y) h = ap some (update_comm f n p x y h)

-- Settling a batch, and a message outside it.
module _ (err : Option Bytes) (res : Option TxResponse) (n : ℕ) (x : Message) where
  settle_next :
      (i : ℕ) (ps : List ℕ) (o : Option (ℕ → Message))
      → ((f : ℕ → Message)
          → settle err res i ps (update f n x) ≡ updated n x (settle err res i ps f))
      → (elim (updated n x o) [ none ↦ none | some f ↦ settle err res i ps f ])
        ≡ updated n x (elim o [ none ↦ none | some f ↦ settle err res i ps f ])
  settle_next i ps none ih = refl
  settle_next i ps (some f) ih = ih f

  other_store : (f : ℕ → Message) (p : ℕ) → (p == n) ≡ false → update f n x p ≡ f p
  other_store f p h = rw h refl

  pub settle-update :
      (i : ℕ) (ps : List ℕ) (f : ℕ → Message)
      → contains n ps ≡ false
      → settle err res i ps (update f n x) ≡ updated n x (settle err res i ps f)
  unfolding settle
  settle-update i [] f h = refl
  settle-update i (p ∷ ps) f h =
      let apart : (p == n) ≡ false = ground arith in
      let rest : contains n ps ≡ false = ground arith in
      ap
        (λ (o : Option (ℕ → Message)).
          let r : Option (ℕ → Message) = elim o [
            | none ↦ none
            | some g ↦ settle err res (suc i) ps g
          ] in
          r)
        (ap (λ (m : Message). store_one (update f n x) p (settle_one err res i m))
            (other_store f p apart)
          ∙ store_one-update f n p x (settle_one err res i (f p)) apart)
      ∙ settle_next (suc i) ps (store_one f p (settle_one err res i (f p)))
          (λ g. settle-update (suc i) ps g rest)

-- Settling changes no message's contents, which is all that the test on duplicates reads.
module _ (err : Option Bytes) (res : Option TxResponse) where
  unfoldable pub SameMsgs : (ℕ → Message) → (ℕ → Message) → Type 0
  SameMsgs f g = (j : ℕ) → (g j).msg ≡ (f j).msg

  settle_one_msg : (i : ℕ) (m m' : Message) → settle_one err res i m ≡ some m' → m'.msg ≡ m.msg
  unfolding settle_one
  settle_one_msg i m m' h = elim (Bool-cases (m.wg == 0)) [
    | inl e ↦ let h' = rw e at h in cc
    | inr e ↦ let h' = rw e at h in cc
  ]

  update_msgs :
      (f : ℕ → Message) (p : ℕ) (m : Message) → m.msg ≡ (f p).msg → SameMsgs f (update f p m)
  unfolding SameMsgs
  update_msgs f p m h j = elim (Bool-cases (j == p)) [
    | inl e ↦ let same : j ≡ p = ground arith in rw e (rw same h)
    | inr e ↦ rw e refl
  ]

  settle_on :
      (i : ℕ) (ps : List ℕ) (f g : ℕ → Message) (o : Option (ℕ → Message))
      → ((f' : ℕ → Message) → o ≡ some f' → SameMsgs f f')
      → ((f' : ℕ → Message) → settle err res i ps f' ≡ some g → SameMsgs f' g)
      → (elim o [ none ↦ none | some f' ↦ settle err res i ps f' ]) ≡ some g
      → SameMsgs f g
  unfolding SameMsgs
  settle_on i ps f g none first ih h = cc
  settle_on i ps f g (some f') first ih h = λ j. ih f' h j ∙ first f' refl j

  stored_msgs :
      (f f' : ℕ → Message) (p : ℕ) (o : Option Message)
      → ((m : Message) → o ≡ some m → m.msg ≡ (f p).msg)
      → store_one f p o ≡ some f'
      → SameMsgs f f'
  unfolding SameMsgs
  stored_msgs f f' p none same h = cc
  stored_msgs f f' p (some m) same h = λ j.
      let here = update_msgs f p m (same m refl) j in
      let e : update f p m ≡ f' = cc in rw (sym e) here

  pub settle_msgs :
      (i : ℕ) (ps : List ℕ) (f g : ℕ → Message) → settle err res i ps f ≡ some g → SameMsgs f g
  unfolding settle SameMsgs
  settle_msgs i [] f g h = λ j. let e : f ≡ g = cc in rw (sym e) refl
  settle_msgs i (p ∷ ps) f g h =
      settle_on (suc i) ps f g (store_one f p (settle_one err res i (f p)))
        (λ f' e.
          stored_msgs f f' p (settle_one err res i (f p)) (λ m e'. settle_one_msg i (f p) m e') e)
        (λ f' e. settle_msgs (suc i) ps f' g e) h
