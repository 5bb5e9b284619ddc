-- ===== src/Core.antt =====
-- The start of the provider (`Start` and its helpers in core/app.go): its record on the chain, then the
-- queue, the prover and the stray manager. The chain is a parameter: what it answers, and which
-- transactions are built and broadcast without an error.
pub mod Registration
pub mod Restart
pub mod Peers
pub mod Boot
use sequoia.Prelude.{
  ℕ, if◌then◌else◌, Bool, true, false, not, List, [], ◌∷◌, Option, none, some, ◌⊎◌, inl, inr,
}
use sequoia.Prelude.Int.{ℤ, eqb_ℤ, pos_part}
use sequoia.Prelude.Bytes.{Bytes, bytes_equal}
use sequoia.Prelude.Bytes.Decimal.{parse_int}
use sequoia.Config.Types.{Config}
use sequoia.Queue.Types.{Msg, Queue}
use sequoia.Queue.Add.{new_queue, stop}
use sequoia.Proofs.Pool.{Prover, new_prover}
use sequoia.Strays.{StrayManager, stop_manager}
use sequoia.Strays.Authorise.{Wallet, new_stray_manager}

-- `types.Providers`, the fields that are read.
pub record Provider : Type 0 where
  pub ip : Bytes
  pub total_space : Bytes
  pub auth_claimers : List Bytes

-- The three transactions, of `initProviderOnChain`, `updateSpace` and `updateIp`.
pub data Tx : Type 0 where
  init_provider : Bytes → ℤ → Tx
  set_total_space : ℤ → Tx
  set_ip : Bytes → Tx

pub data StartError : Type 0 where
  not_sent : Tx → StartError
  bad_total_space no_params : StartError

-- The transactions that were sent, and an error or the claimers.
pub record Registered : Type 0 where
  pub sent : List Tx
  pub result : StartError ⊎ List Bytes

abbrev sent_before : Tx → Registered → Registered
sent_before tx r = record { sent = tx ∷ r.sent; result = r.result }

-- One transaction, and what comes after it unless it fails.
unfoldable pub send : (Tx → Bool) → Tx → Registered → Registered
send sends tx next =
    if sends tx then sent_before tx next else record { sent = []; result = inl (not_sent tx) }

abbrev pub done : List Bytes → Registered
done claimers = record { sent = []; result = inr claimers }

unfoldable pub check_ip : (Tx → Bool) → Config → Provider → Registered
check_ip sends cfg p =
    if bytes_equal p.ip cfg.ip
    then done p.auth_claimers
    else send sends (set_ip cfg.ip) (done p.auth_claimers)

unfoldable pub check_space : (Tx → Bool) → Config → Provider → Option ℤ → Registered
check_space sends cfg p none = record { sent = []; result = inl bad_total_space }
check_space sends cfg p (some space) =
    let next = check_ip sends cfg p in
    if eqb_ℤ space cfg.total_space then next else send sends (set_total_space cfg.total_space) next

-- By the answer to the query, `none` for an error: one that fails for any reason counts as a provider
-- that is not there, whatever the chain has.
unfoldable pub register : (Tx → Bool) → Config → Option Provider → Registered
register sends cfg none = send sends (init_provider cfg.ip cfg.total_space) (done [])
register sends cfg (some p) = check_space sends cfg p (parse_int p.total_space)

-- The parts of `App` that keep state, the chunk size of the chain, and the messages of the stray
-- manager.
pub record App : Type 0 where
  pub queue : Queue
  pub prover : Prover
  pub stray_manager : StrayManager
  pub messages : List Msg
  pub chunk_size : ℤ

abbrev build : ℕ → Wallet → Config → List Bytes → ℤ → App
build now w cfg claimers chunk_size =
    let (s, messages) = new_stray_manager w claimers (pos_part cfg.stray_manager_cfg.hand_count) in
    record {
      queue = new_queue now cfg.queue_interval cfg.max_size_bytes cfg.ip cfg.queue_rate_limit;
      prover = new_prover cfg.proof_threads;
      stray_manager = s;
      messages = messages;
      chunk_size = chunk_size;
    }

abbrev with_params : ℕ → Wallet → Config → List Bytes → Option ℤ → StartError ⊎ App
with_params now w cfg claimers none = inl no_params
with_params now w cfg claimers (some chunk_size) = inr (build now w cfg claimers chunk_size)

abbrev pub if_registered :
    ℕ → Wallet → Config → StartError ⊎ List Bytes → Option ℤ → StartError ⊎ App
if_registered now w cfg (inl e) params = inl e
if_registered now w cfg (inr claimers) params = with_params now w cfg claimers params

-- `Start`, up to the services that it starts: the transactions, and an error or the parts. `params`
-- is the chunk size of the storage parameters, and the provider what the query answers.
unfoldable pub start :
    ℕ → Wallet → (Tx → Bool) → Config → Option Provider → Option ℤ → List Tx × (StartError ⊎ App)
start now w sends cfg provider params =
    let r = register sends cfg provider in (r.sent, if_registered now w cfg r.result params)

-- The stop at a signal.
unfoldable pub shut_down : App → App
shut_down a = record a { queue = stop a.queue; stray_manager = stop_manager a.stray_manager }
