-- ===== src/Core/Registration.antt =====
-- What a start leaves on the chain (core/app.go).
use sequoia.Prelude.{◌≡◌, Bool, List, [], ◌∷◌, Option, none, some, inr}
use sequoia.Prelude.Int.{ℤ, IsI64}
use sequoia.Prelude.Bytes.{Bytes}
use sequoia.Prelude.Bytes.Decimal.{parse_int}
use sequoia.Config.Types.{Config}
use sequoia.Core.{Provider, Tx, init_provider, set_total_space, set_ip, Registered}

-- A chain that does what a transaction that was sent asks for: it makes the record of the provider,
-- or changes one field of it.
pub record Honours (deliver : Tx → Option Provider → Option Provider) : Type 0 where
  pub inits :
      (ip : Bytes) (space : ℤ)
      → IsI64 space
      → (p : Provider) × (deliver (init_provider ip space) none ≡ some p)
        × (p.ip ≡ ip)
        × (parse_int p.total_space ≡ some space)
  pub sets_space :
      (p : Provider) (space : ℤ)
      → IsI64 space
      → (q : Provider) × (deliver (set_total_space space) (some p) ≡ some q)
        × (q.ip ≡ p.ip)
        × (parse_int q.total_space ≡ some space)
        × (q.auth_claimers ≡ p.auth_claimers)
  pub sets_ip :
      (p : Provider) (ip : Bytes)
      → (q : Provider) × (deliver (set_ip ip) (some p) ≡ some q)
        × (q.ip ≡ ip)
        × (q.total_space ≡ p.total_space)
        × (q.auth_claimers ≡ p.auth_claimers)

-- The record after the transactions.
abbrev pub delivered :
    (Tx → Option Provider → Option Provider) → List Tx → Option Provider → Option Provider
delivered deliver [] p = p
delivered deliver (tx ∷ txs) p = delivered deliver txs (deliver tx p)

-- The record is the one of the settings.
pub record IsRegistered (cfg : Config) (o : Option Provider) : Type 0 where
  pub provider : Provider
  pub there : o ≡ some provider
  pub same_ip : provider.ip ≡ cfg.ip
  pub same_space : parse_int provider.total_space ≡ some cfg.total_space

module _ (deliver : Tx → Option Provider → Option Provider) (h : Honours deliver)
    (sends : Tx → Bool) (cfg : Config) (fits : IsI64 cfg.total_space) where
  -- After a success the settings are on the chain.
  abbrev Sets : Registered → Option Provider → Type 0
  Sets r o =
      (claimers : List Bytes)
      → r.result ≡ inr claimers
      → IsRegistered cfg (delivered deliver r.sent o)
