-- ===== src/Core/Peers.antt =====
-- `ConnectPeers` (core/app.go): the hosts of the active providers, without those that have an IPv6 or
-- a private IPv4 address. The regular expression is written out: a text matches when some part of it
-- is "/ip4/", one of the prefixes, at least one digit or dot, and a slash.
pub mod Digits
pub mod Private
use sequoia.Prelude.{
  ℕ, ◌==◌, if◌then◌else◌, Bool, true, false, ◌||◌, List, [], ◌∷◌, ◌++◌, Option, none, some,
}
use sequoia.Prelude.Bytes.{Bytes, codes, contains_text}
use sequoia.Prelude.Bytes.Decimal.{format_uint, is_digit}

-- Numbers, each with a dot behind it.
unfoldable pub dotted : List ℕ → Bytes
dotted [] = []
dotted (k ∷ ks) = format_uint k ++ (b'.' ∷ dotted ks)

-- 127., 10., 172.16. to 172.31. and 192.168.
abbrev pub private_blocks : List (List ℕ)
private_blocks =
    (127 ∷ [])
    ∷ (10 ∷ [])
    ∷ (172 ∷ 16 ∷ [])
    ∷ (172 ∷ 17 ∷ [])
    ∷ (172 ∷ 18 ∷ [])
    ∷ (172 ∷ 19 ∷ [])
    ∷ (172 ∷ 20 ∷ [])
    ∷ (172 ∷ 21 ∷ [])
    ∷ (172 ∷ 22 ∷ [])
    ∷ (172 ∷ 23 ∷ [])
    ∷ (172 ∷ 24 ∷ [])
    ∷ (172 ∷ 25 ∷ [])
    ∷ (172 ∷ 26 ∷ [])
    ∷ (172 ∷ 27 ∷ [])
    ∷ (172 ∷ 28 ∷ [])
    ∷ (172 ∷ 29 ∷ [])
    ∷ (172 ∷ 30 ∷ [])
    ∷ (172 ∷ 31 ∷ [])
    ∷ (192 ∷ 168 ∷ [])
    ∷ []

-- What is left behind a prefix.
unfoldable pub strip : Bytes → Bytes → Option Bytes
strip [] s = some s
strip (c ∷ p) [] = none
strip (c ∷ p) (x ∷ s) = if x == c then strip p s else none

abbrev pub digit_or_dot : ℕ → Bool
digit_or_dot c = is_digit c || c == b'.'

-- Digits and dots up to a slash.
unfoldable pub up_to_slash : Bytes → Bool
up_to_slash [] = false
up_to_slash (c ∷ s) =
    let more = up_to_slash s in if c == b'/' then true else if digit_or_dot c then more else false

-- The same, with at least one.
abbrev pub block : Option Bytes → Bool
block none = false
block (some []) = false
block (some (c ∷ s)) = if digit_or_dot c then up_to_slash s else false

unfoldable pub any_block : List (List ℕ) → Bytes → Bool
any_block [] s = false
any_block (ks ∷ kss) s = block (strip (dotted ks) s) || any_block kss s

abbrev pub begins_private : Option Bytes → Bool
begins_private none = false
begins_private (some s) = any_block private_blocks s

-- `MatchString`.
unfoldable pub is_private : Bytes → Bool
is_private [] = false
is_private (c ∷ s) = begins_private (strip (codes "/ip4/") (c ∷ s)) || is_private s

unfoldable pub is_skipped : Bytes → Bool
is_skipped host = contains_text host (codes "/ip6/") || is_private host

-- What is known of a provider: its address, unless the query fails, and then what that address
-- answers: it is no URL, it does not answer, or not with status 200, or its hosts cannot be read.
pub data Hosts : Type 0 where
  no_details bad_url no_answer bad_status bad_hosts : Hosts
  hosts : List Bytes → Hosts

module _ {Addr : Type 0} (addr_info : Bytes → Option Addr) where
  abbrev also : Option Addr → List Addr → List Addr
  also none rest = rest
  also (some a) rest = a ∷ rest

  -- The addresses of one provider to connect to.
  unfoldable pub addresses : List Bytes → List Addr
  addresses [] = []
  addresses (h ∷ hs) =
      let rest = addresses hs in if is_skipped h then rest else also (addr_info h) rest

  abbrev pub addresses_of : Hosts → List Addr
  addresses_of (hosts hs) = addresses hs
  addresses_of _ = []

  -- The addresses that are connected to; `none` is a query for the providers that fails.
  unfoldable pub connect_peers : Option (List Hosts) → List Addr
  connect_peers none = []
  connect_peers (some []) = []
  connect_peers (some (p ∷ ps)) = addresses_of p ++ connect_peers (some ps)
