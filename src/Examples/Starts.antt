-- ===== src/Examples/Starts.antt =====
-- The theorems on the start of the provider, applied to the default settings.
use sequoia.Prelude.{ℕ, zero, suc, ◌≤◌, true, [], ◌∷◌, ◌≡◌, refl, Option, none, some, arith}
use sequoia.Prelude.Bytes.{codes, bytes_equal}
use sequoia.Prelude.Bytes.Decimal.{format_int, parse_int}
use sequoia.Config.Types.{default_config}
use sequoia.Queue.Types.{other_msg}
use sequoia.Strays.Authorise.{Wallet, is_in}
use sequoia.Core.{Provider, Tx, init_provider, set_total_space, set_ip}
use sequoia.Core.Registration.{IsRegistered}

-- The hands' addresses are their offsets.
abbrev wallet : Wallet
wallet = record {
  clones = λ o. true;
  address = λ o. o ∷ [];
  add_claimer = λ a. other_msg (1 ∷ a);
  grant = λ a. some (other_msg (2 ∷ a));
}

-- A chain that keeps the provider's record.
abbrev deliver : Tx → Option Provider → Option Provider
deliver (init_provider ip space) none =
    some (record { ip = ip; total_space = format_int space; auth_claimers = [] })
deliver (init_provider ip space) (some p) = some p
deliver (set_total_space space) none = none
deliver (set_total_space space) (some p) = some (record p { total_space = format_int space })
deliver (set_ip ip) none = none
deliver (set_ip ip) (some p) = some (record p { ip = ip })

-- The provider's record as the settings say, with two hands.
abbrev registered : Provider
registered = record {
  ip = default_config.ip;
  total_space = codes "1092616192";
  auth_claimers = (1 ∷ []) ∷ (2 ∷ []) ∷ [];
}

text_lem : parse_int registered.total_space ≡ some default_config.total_space
unfolding parse_int
text_lem = refl

abbrev registered-IsRegistered : IsRegistered default_config (some registered)
registered-IsRegistered = record {
  provider = registered;
  there = refl;
  same_ip = refl;
  same_space = text_lem;
}

authorised : (i : ℕ) → 1 ≤ i → i ≤ 2 → is_in (i ∷ []) registered.auth_claimers ≡ true
unfolding bytes_equal
authorised zero low high = absurd (omega arith)
authorised (suc zero) low high = refl
authorised (suc (suc zero)) low high = refl
authorised (suc (suc (suc i))) low high = absurd (omega arith)
