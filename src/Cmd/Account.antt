-- ===== src/Cmd/Account.antt =====
-- The commands of an account: `InitCmd` and `ShutdownCmd` (cmd/root.go), and `addressCmd`, `balanceCMD`
-- and `withdrawCMD` (cmd/wallet/wallet.go). The chain, the parser of coins and the wallet's address are
-- parameters; reading the home flag does not fail. A `RunE` that returns no error is `succeeded`.
pub mod Cancelled
use sequoia.Prelude.{
  ℕ, ◌==◌, if◌then◌else◌, Bool, true, false, List, [], ◌∷◌, Option, none, some, ◌⊎◌, inl, inr,
}
use sequoia.Prelude.Bytes.{Bytes}
use sequoia.Config.Types.{Config}
use sequoia.Config.Disk.{Disk}
use sequoia.Config.Files.{HomeError, Codecs, init}
use sequoia.Config.Wallet.{WalletTools, Random, Ended, failed, exited, opened, init_wallet}
use sequoia.Cmd.Confirm.{confirm_twice}

-- `MsgShutdownProvider` and `MsgSend`.
pub data ChainMsg : Type 0 where
  shutdown_provider : Bytes → ChainMsg
  send_coin : Bytes → Bytes → Bytes → ChainMsg

-- What a command says at the end of its work.
pub data Said : Type 0 where
  done_ cancelled successful try_again : Said
  provider_address balance : Bytes → Said
  query_failed invalid_msg : Said

pub data Result : Type 0 where
  succeeded : Result
  home_failed : HomeError → Result
  command_failed : Result
  process_exited : Result

-- The home afterwards, the messages that were given to the wallet to broadcast, what was said, and
-- the result.
pub record Run (State : Type 0) : Type 0 where
  pub state : State
  pub sent : List ChainMsg
  pub said : List Said
  pub result : Result

-- `res.Code` of a broadcast, or an error; a balance, or an error; `ParseCoinNormalized`; and whether
-- `ValidateBasic` accepts a message.
pub record Network (Wallet : Type 0) : Type 0 where
  pub acc_address : Wallet → Bytes
  pub validate_basic : ChainMsg → Bool
  pub broadcast : Wallet → ChainMsg → Option ℕ
  pub bank_balance : Bytes → Option Bytes
  pub parse_coin : Bytes → Option Bytes

module _ (t : WalletTools) (d : Disk) (k : Codecs d.State) (dir : Bytes)
    (n : Network t.Wallet) where
  open d use {State}
  open t use {Wallet}

  abbrev pub quiet : State → Result → Run State
  quiet s r = record { state = s; sent = []; said = []; result = r }

  abbrev pub says : State → Said → Result → Run State
  says s x r = record { state = s; sent = []; said = x ∷ []; result = r }

  pub on_wallet : State × Ended Wallet → (State → Wallet → Run State) → Run State
  on_wallet (s, failed e) work = quiet s (home_failed e)
  on_wallet (s, exited) work = quiet s process_exited
  on_wallet (s, opened w) work = work s w

  pub on_config : State × (HomeError ⊎ Config) → Random → (State → Wallet → Run State) → Run State
  unfolding on_wallet
  on_config (s, inl e) r work = quiet s (home_failed e)
  on_config (s, inr c) r work = on_wallet (init_wallet t d k r s dir) work

  -- What these commands begin with: `config.Init`, then `config.InitWallet`.
  unfoldable pub with_wallet : Random → State → (State → Wallet → Run State) → Run State
  unfolding on_config
  with_wallet r s work = on_config (init d k s dir) r work

  unfoldable pub init_cmd : Random → State → Run State
  unfolding with_wallet
  init_cmd r s = with_wallet r s λ s' w. says s' done_ succeeded

  unfoldable pub address_cmd : Random → State → Run State
  unfolding with_wallet
  address_cmd r s = with_wallet r s λ s' w. says s' (provider_address (n.acc_address w)) succeeded

  abbrev balance_of : State → Option Bytes → Run State
  balance_of s none = says s query_failed succeeded
  balance_of s (some x) = says s (balance x) succeeded

  -- A balance that cannot be had is said, and is no error.
  unfoldable pub balance_cmd : Random → State → Run State
  unfolding with_wallet
  balance_cmd r s = with_wallet r s λ s' w. balance_of s' (n.bank_balance (n.acc_address w))

  abbrev pub broadcast_result : State → ChainMsg → Option ℕ → Run State
  broadcast_result s m none = record {
    state = s;
    sent = m ∷ [];
    said = [];
    result = command_failed;
  }
  broadcast_result s m (some code) = record {
    state = s;
    sent = m ∷ [];
    said = (if code == 0 then successful else try_again) ∷ [];
    result = succeeded;
  }

  abbrev pub withdrawal : State → Wallet → Bytes → Option Bytes → Run State
  withdrawal s w to none = quiet s command_failed
  withdrawal s w to (some coin) =
      let m = send_coin (n.acc_address w) to coin in broadcast_result s m (n.broadcast w m)

  unfoldable pub withdraw_cmd : Bytes → Bytes → Random → State → Run State
  unfolding with_wallet
  withdraw_cmd to amount r s = with_wallet r s λ s' w. withdrawal s' w to (n.parse_coin amount)

  abbrev pub terminate : State → Wallet → Run State
  terminate s w =
      let m = shutdown_provider (n.acc_address w) in
      if n.validate_basic m
      then broadcast_result s m (n.broadcast w m)
      else says s invalid_msg command_failed

  pub if_confirmed : Option Bool → Random → State → Option (Run State)
  if_confirmed none r s = none
  if_confirmed (some false) r s = some (says s cancelled succeeded)
  if_confirmed (some true) r s = some (with_wallet r s terminate)

  -- The command, on what the standard input delivers.
  unfoldable pub shutdown_cmd : List Bytes → Random → State → Option (Run State)
  unfolding with_wallet if_confirmed
  shutdown_cmd stdin r s = if_confirmed (confirm_twice stdin) r s
