-- ===== src/Queue/Broadcast/Settle.antt =====
-- What the last loop of `BroadcastPending` does to each message.
use sequoia.Prelude.{
  ℕ, suc, ◌==◌, if◌then◌else◌, true, false, List, [], ◌∷◌, ◌≡◌, refl, ◌∙◌, Option, some, arith,
  contains, Distinct, Bool-cases, inl, inr,
}
use sequoia.Prelude.Int.{pos}
use sequoia.Prelude.Bytes.{Bytes}
use sequoia.Queue.Types.{TxResponse, Message, update}
use sequoia.Queue.Broadcast.{settle, settle_one, store_one}

-- The message `j` afterwards, if it was `m`.
unfoldable pub settled : Option Bytes → Option TxResponse → ℕ → List ℕ → ℕ → Message → Message
settled err res i [] j m = m
settled err res i (p ∷ ps) j m =
    let rest = settled err res (suc i) ps j m in
    if j == p then record m { err = err; res = res; msg_index = pos i; wg = 0 } else rest

module _ (err : Option Bytes) (res : Option TxResponse) where
  pub settled_other :
      (i : ℕ) (ps : List ℕ) (j : ℕ) (m : Message)
      → contains j ps ≡ false
      → settled err res i ps j m ≡ m
  unfolding settled
  settled_other i [] j m h = refl
  settled_other i (p ∷ ps) j m h = ground (arith, settled_other (suc i) ps j m)

  pub settled-wg :
      (i : ℕ) (ps : List ℕ) (j : ℕ) (m : Message)
      → contains j ps ≡ true
      → (settled err res i ps j m).wg ≡ 0
  unfolding settled
  settled-wg i [] j m h = cc
  settled-wg i (p ∷ ps) j m h = ground (arith, settled-wg (suc i) ps j m)

  store_one_waiting :
      (store : ℕ → Message) (i p : ℕ)
      → (store p).wg ≡ 1
      → store_one store p (settle_one err res i (store p))
        ≡ some
            (update store p (record (store p) { err = err; res = res; msg_index = pos i; wg = 0 }))
  unfolding settle_one
  store_one_waiting store i p h = ground arith

  settled_after :
      (i p : ℕ) (ps : List ℕ) (j : ℕ) (store : ℕ → Message)
      → contains p ps ≡ false
      → settled err res
          (suc i)
          ps
          j
          (update store p (record (store p) { err = err; res = res; msg_index = pos i; wg = 0 }) j)
        ≡ settled err res i (p ∷ ps) j (store j)
  settled_after i p ps j store h = elim (Bool-cases (j == p)) [
    | inl same ↦
        let e : j ≡ p = ground arith in
        rw e (settled_other (suc i) ps p _ h ∙ unfold settled in ground arith)
    | inr other ↦ unfold settled in ground arith
  ]

  pub settle_lem :
      (i : ℕ) (ps : List ℕ) (store : ℕ → Message)
      → Distinct ps
      → ((j : ℕ) → contains j ps ≡ true → (store j).wg ≡ 1)
      → (store' : ℕ → Message) × (settle err res i ps store ≡ some store')
        × ((j : ℕ) → store' j ≡ settled err res i ps j (store j))
  unfolding settle settled
  settle_lem i [] store d w = (store, refl, λ j. refl)
  settle_lem i (p ∷ ps) store d w =
      let m : Message = record (store p) { err = err; res = res; msg_index = pos i; wg = 0 } in
      let (store', e, h) =
        settle_lem (suc i) ps (update store p m) d.1 (λ j k. ground (arith, w j)) in
      (
        store',
        rw (store_one_waiting store i p (w p (ground arith)), settle) e,
        λ j. h j ∙ settled_after i p ps j store d.0,
      )
