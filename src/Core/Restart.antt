-- ===== src/Core/Restart.antt =====
-- A start when the chain has all that it would ask for (core/app.go, strays/manager.go).
use sequoia.Prelude.{
  ℕ, zero, suc, ◌+◌, ◌≤◌, ◌<◌, ◌≡◌, refl, ap, ◌∙◌, Bool, true, List, [], Option, some, subst, ◌⊎◌,
  inr, arith,
}
use sequoia.Prelude.Int.{ℤ, pos_part, eqb_ℤ-refl}
use sequoia.Prelude.Bytes.{Bytes, bytes_equal, bytes_equal_refl}
use sequoia.Prelude.Bytes.Decimal.{parse_int}
use sequoia.Config.Types.{Config}
use sequoia.Strays.Authorise.{
  Wallet, is_in, hands_from, messages_from, new_stray_manager_authorises,
}
use sequoia.Core.{
  Provider, Tx, StartError, Registered, App, done, check_ip, check_space, register, if_registered,
  start,
}
use sequoia.Core.Registration.{IsRegistered}

no_messages :
    (w : Wallet) (auth : List Bytes) (o n : ℕ)
    → ((i : ℕ) → o ≤ i → i < o + n → is_in (w.address i) auth ≡ true)
    → messages_from w auth o n ≡ []
no_messages w auth o zero all = refl
no_messages w auth o (suc n) all =
    rw (all o (omega arith) (omega arith))
      (no_messages w auth (suc o) n (λ i le lt. all i (omega arith) (omega arith)))

registers_nothing :
    (sends : Tx → Bool) (cfg : Config) (p : Provider)
    → p.ip ≡ cfg.ip
    → parse_int p.total_space ≡ some cfg.total_space
    → register sends cfg (some p) ≡ done p.auth_claimers
unfolding register check_space check_ip
registers_nothing sends cfg p ip space =
    let same_ip = subst (λ a. bytes_equal p.ip a ≡ true) ip (bytes_equal_refl p.ip) in
    ap (check_space sends cfg p) space ∙ simp (eqb_ℤ-refl cfg.total_space, same_ip) refl

-- The start has gone well without a transaction or a message, and has made its hands.
pub record IsQuiet (r : List Tx × (StartError ⊎ App)) (hand_count : ℕ) : Type 0 where
  pub app : App
  pub started : r ≡ ([], inr app)
  pub no_message : app.messages ≡ []
  pub hands : app.stray_manager.hands ≡ hands_from 1 hand_count

-- When the chain has the provider's record as the settings say, and has authorised the addresses of
-- all hands, of which there are at most 255: a start sends no transaction and adds no message, so
-- that nothing changes on the chain, and each hand is made.
pub start-IsQuiet :
    (now : ℕ) (w : Wallet) (sends : Tx → Bool) (cfg : Config) (o : Option Provider) (chunk_size : ℤ)
    (k : IsRegistered cfg o)
    → ((i : ℕ) → w.clones i ≡ true)
    → pos_part cfg.stray_manager_cfg.hand_count ≤ 255
    → ((i : ℕ)
        → 1 ≤ i
        → i ≤ pos_part cfg.stray_manager_cfg.hand_count
        → is_in (w.address i) k.provider.auth_claimers ≡ true)
    → IsQuiet
        (start now w sends cfg o (some chunk_size))
        (pos_part cfg.stray_manager_cfg.hand_count)
unfolding start
start-IsQuiet now w sends cfg o chunk_size k clones few all =
    let n = pos_part cfg.stray_manager_cfg.hand_count in
    let auth = k.provider.auth_claimers in
    let (hands, messages) = new_stray_manager_authorises w auth n clones few in
    let r =
      ap (register sends cfg) k.there
      ∙ registers_nothing sends cfg k.provider k.same_ip k.same_space in
    record {
      app = _;
      started =
          ap (λ (x : Registered). (x.sent, if_registered now w cfg x.result (some chunk_size))) r;
      no_message = messages ∙ no_messages w auth 1 n (λ i le lt. all i le (omega arith));
      hands = hands;
    }
