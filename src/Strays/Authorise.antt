-- ===== src/Strays/Authorise.antt =====
-- `NewStrayManager` (strays/manager.go): each hand that is not yet allowed to act for the provider is
-- made a claimer and granted fees. The hands' addresses, the reading of addresses and the grant are
-- parameters; the messages are listed in the order in which they are added to the queue.
use sequoia.Prelude.{
  ℕ, zero, suc, ◌+◌, ◌%◌, ◌≤◌, ◌<◌, ◌≡◌, refl, ap, sym, ◌∙◌, append_assoc, append-nil,
  if◌then◌else◌, Bool, true, false, List, [], ◌∷◌, ◌++◌, Option, none, some, length, length-append,
  arith,
}
use sequoia.Prelude.Bytes.{Bytes, bytes_equal}
use sequoia.Queue.Types.{Msg}
use sequoia.Strays.{Hand, StrayManager, new_hand}

-- What is outside: whether the wallet can be cloned at an offset, the address it has there, and the
-- two messages, of which the grant may fail, also for an address that cannot be read.
pub record Wallet : Type 0 where
  pub clones : ℕ → Bool
  pub address : ℕ → Bytes
  pub add_claimer : Bytes → Msg
  pub grant : Bytes → Option Msg

abbrev pub is_in : Bytes → List Bytes → Bool
is_in a [] = false
is_in a (x ∷ xs) = if bytes_equal x a then true else is_in a xs

-- The offset that the next hand gets.
abbrev pub next_offset : StrayManager → ℕ
next_offset s = (length s.hands % 256 + 1) % 256

abbrev pub granted : Msg → Option Msg → List Msg
granted claimer none = []
granted claimer (some grant) = claimer ∷ grant ∷ []

abbrev pub messages_for : Wallet → List Bytes → Option Hand → List Msg
messages_for w auth none = []
messages_for w auth (some h) =
    let a = w.address h.offset in if is_in a auth then [] else granted (w.add_claimer a) (w.grant a)

-- The loop, for the hands that are still to be made.
unfoldable pub authorise : Wallet → List Bytes → ℕ → StrayManager → StrayManager × List Msg
authorise w auth zero s = (s, [])
authorise w auth (suc n) s =
    let made = new_hand (w.clones (next_offset s)) s in
    let rest = authorise w auth n made.0 in (rest.0, messages_for w auth made.1 ++ rest.1)

abbrev pub no_hands : StrayManager
no_hands = record { strays = []; last_size = 0; running = false; hands = [] }

unfoldable pub new_stray_manager : Wallet → List Bytes → ℕ → StrayManager × List Msg
new_stray_manager w auth hand_count = authorise w auth hand_count no_hands

abbrev pub hand_at : ℕ → Hand
hand_at o = record { offset = o; stray = none; running = false }

-- Hands at the offsets from one on.
abbrev pub hands_from : ℕ → ℕ → List Hand
hands_from o zero = []
hands_from o (suc n) = hand_at o ∷ hands_from (suc o) n

-- What each hand needs that the list does not name.
abbrev pub messages_from : Wallet → List Bytes → ℕ → ℕ → List Msg
messages_from w auth o zero = []
messages_from w auth o (suc n) =
    messages_for w auth (some (hand_at o)) ++ messages_from w auth (suc o) n

made_hand :
    (s : StrayManager) (k : ℕ)
    → length s.hands ≡ k
    → k < 255
    → new_hand true s
      ≡ (record s { hands = s.hands ++ hand_at (suc k) ∷ [] }, some (hand_at (suc k)))
unfolding new_hand
made_hand s k e small =
    let o : (length s.hands % 256 + 1) % 256 ≡ suc k = omega arith in
    ap (λ x. (record s { hands = s.hands ++ hand_at x ∷ [] }, some (hand_at x))) o

authorise_from :
    (w : Wallet) (auth : List Bytes) (n k : ℕ) (s : StrayManager)
    → ((o : ℕ) → w.clones o ≡ true)
    → length s.hands ≡ k
    → k + n ≤ 255
    → ((authorise w auth n s).0.hands ≡ s.hands ++ hands_from (suc k) n)
      × ((authorise w auth n s).1 ≡ messages_from w auth (suc k) n)
unfolding authorise
authorise_from w auth zero k s clones e le = (sym (append-nil s.hands), refl)
authorise_from w auth (suc n) k s clones e le =
    let made = made_hand s k e (omega arith) in
    let s' : StrayManager = record s { hands = s.hands ++ hand_at (suc k) ∷ [] } in
    let len : length s'.hands ≡ suc k =
      length-append s.hands (hand_at (suc k) ∷ []) ∙ omega (arith, e) in
    let (hands, messages) = authorise_from w auth n (suc k) s' clones len (omega arith) in
    rw (clones (next_offset s), made)
      (
        hands ∙ append_assoc s.hands (hand_at (suc k) ∷ []) (hands_from (suc (suc k)) n),
        ap (λ l. messages_for w auth (some (hand_at (suc k))) ++ l) messages,
      )

-- With at most 255 hands, and a wallet that can be cloned at any offset: the hands have the offsets
-- from 1 on, each its own; and the messages are, hand by hand, the claimer and the grant for each
-- address that the provider has not authorised yet, and nothing for the others.
pub new_stray_manager_authorises :
    (w : Wallet) (auth : List Bytes) (hand_count : ℕ)
    → ((o : ℕ) → w.clones o ≡ true)
    → hand_count ≤ 255
    → let (s, messages) = new_stray_manager w auth hand_count in
      (s.hands ≡ hands_from 1 hand_count) × (messages ≡ messages_from w auth 1 hand_count)
unfolding new_stray_manager
new_stray_manager_authorises w auth hand_count clones le =
    authorise_from w auth hand_count 0 no_hands clones refl (omega arith)
