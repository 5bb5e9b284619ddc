-- ===== src/FileSystem/Node.antt =====
-- The IPFS node of a file system: `MakeIPFS` (ipfs/ipfs.go), `NewFileSystem` (file_system/types.go), and
-- `ListPeers` and `GetHosts` (file_system/ipfs.go). The keys, addresses, hosts and peers of libp2p and
-- ipfs-lite are parameters.
pub mod Saved
use sequoia.Prelude.{
  ℕ, ltb, if◌then◌else◌, Bool, true, false, not, ◌&&◌, List, [], ◌∷◌, ◌++◌, Option, none, some, map,
  length, ◌⊎◌, inl, inr,
}
use sequoia.Prelude.Int.{ℤ}
use sequoia.Prelude.Bytes.{Bytes, codes, contains_text, has_prefix, bytes_equal}
use sequoia.Prelude.Bytes.Hex.{hex_encode, hex_decode}
use sequoia.Prelude.Bytes.Decimal.{format_int}

-- `marshal_key` and `unmarshal_key` are those of private keys; `setup` is `SetupLibp2p` with the data
-- store, `new_peer` is `ipfslite.New` with the data store and the block store. `peers` are the peers
-- that the host knows, with their addresses.
pub record Libp2p : Type 1 where
  pub Key : Type 0
  pub Addr : Type 0
  pub Host : Type 0
  pub Peer : Type 0
  pub Stores : Type 0
  pub marshal_key : Key → Option Bytes
  pub unmarshal_key : Bytes → Option Key
  pub new_multiaddr : Bytes → Option Addr
  pub setup : Stores → Key → List Addr → Option Host
  pub new_peer : Stores → Host → Option Peer
  pub id : Host → Bytes
  pub addrs : Host → List Bytes
  pub peers : Host → List (Bytes × List Bytes)

pub data NodeError : Type 0 where
  bad_hex bad_private_key bad_default_address bad_ip4_address bad_ip6_address bad_domain_address
        no_host no_peer :
      NodeError

-- A node, an error, or a panic.
pub data Node (Host Peer : Type 0) : Type 0 where
  made_node : Peer → Host → Node Host Peer
  node_failed : NodeError → Node Host Peer
  node_panicked : Node Host Peer

-- The address of a domain of one's own: none for the example and for texts of up to two bytes, and a
-- slash is put before one that lacks it.
unfoldable pub custom_address : Bytes → Option Bytes
custom_address domain =
    if not (contains_text domain (codes "example.com")) && ltb 2 (length domain)
    then some (if not (has_prefix domain (codes "/")) then codes "/" ++ domain else domain)
    else none

abbrev or_error {ℓ} : {A : Type ℓ} → NodeError → Option A → NodeError ⊎ A
or_error e none = inl e
or_error e (some x) = inr x

module _ (l : Libp2p) where
  open l use {Key, Addr, Host, Peer, Stores}

  abbrev added : Option Addr → NodeError ⊎ List Addr
  added none = inl bad_domain_address
  added (some a) = inr (a ∷ [])

  abbrev domain_addr : Option Bytes → NodeError ⊎ List Addr
  domain_addr none = inr []
  domain_addr (some x) = added (l.new_multiaddr x)

  -- The default address, those of the port and that of the domain, or the first error.
  abbrev joined :
      NodeError ⊎ Addr
      → NodeError ⊎ Addr
      → NodeError ⊎ Addr
      → NodeError ⊎ List Addr
      → NodeError ⊎ List Addr
  joined (inl e) listen listen6 domain = inl e
  joined (inr d) (inl e) listen6 domain = inl e
  joined (inr d) (inr a) (inl e) domain = inl e
  joined (inr d) (inr a) (inr b) (inl e) = inl e
  joined (inr d) (inr a) (inr b) (inr own) = inr (a ∷ b ∷ d ∷ own)

  -- The addresses to listen at: the port on every interface, 4001 on every IPv4 interface, and the
  -- domain.
  pub listeners : ℤ → Bytes → NodeError ⊎ List Addr
  unfolding custom_address
  listeners port domain =
      joined (or_error bad_default_address (l.new_multiaddr (codes "/ip4/0.0.0.0/tcp/4001")))
        (or_error bad_ip4_address (l.new_multiaddr (codes "/ip4/0.0.0.0/tcp/" ++ format_int port)))
        (or_error bad_ip6_address (l.new_multiaddr (codes "/ip6/::/tcp/" ++ format_int port)))
        (domain_addr (custom_address domain))

  abbrev with_peer : Host → Option Peer → Node Host Peer
  with_peer h none = node_failed no_peer
  with_peer h (some p) = made_node p h

  abbrev with_host : Stores → Option Host → Node Host Peer
  with_host s none = node_failed no_host
  with_host s (some h) = with_peer h (l.new_peer s h)

  abbrev pub at_addrs : Stores → Key → NodeError ⊎ List Addr → Node Host Peer
  at_addrs s k (inl e) = node_failed e
  at_addrs s k (inr addrs) = with_host s (l.setup s k addrs)

  abbrev with_private : Stores → Option Key → ℤ → Bytes → Node Host Peer
  with_private s none port domain = node_failed bad_private_key
  with_private s (some k) port domain = at_addrs s k (listeners port domain)

  abbrev with_bytes : Stores → Option Bytes → ℤ → Bytes → Node Host Peer
  with_bytes s none port domain = node_failed bad_hex
  with_bytes s (some k) port domain = with_private s (l.unmarshal_key k) port domain

  pub with_key : Stores → Bytes → ℤ → Bytes → Node Host Peer
  with_key s key port domain = with_bytes s (hex_decode key) port domain

  pub with_marshalled : Stores → Option Bytes → ℤ → Bytes → Node Host Peer
  with_marshalled s none port domain = node_panicked
  with_marshalled s (some k) port domain = with_key s (hex_encode k) port domain

  pub with_generated : Stores → Option Key → ℤ → Bytes → Node Host Peer
  unfolding with_marshalled
  with_generated s none port domain = node_panicked
  with_generated s (some k) port domain = with_marshalled s (l.marshal_key k) port domain

  -- `MakeIPFS`. `fresh` is what `GenerateKeyPair` gives, which only an empty key asks for.
  unfoldable pub make_ipfs : Option Key → Bytes → Stores → ℤ → Bytes → Node Host Peer
  unfolding with_key with_marshalled with_generated listeners
  make_ipfs fresh key s port domain =
      if bytes_equal key [] then with_generated s fresh port domain else with_key s key port domain

  -- `ListPeers` and `GetHosts`.
  abbrev host_text : Bytes → Bytes → Bytes
  host_text addr id = addr ++ codes "/ipfs/" ++ id

  unfoldable pub list_peers : List (Bytes × List Bytes) → List Bytes
  list_peers [] = []
  list_peers ((id, addrs) ∷ ps) = map (λ a. host_text a id) addrs ++ list_peers ps

  abbrev domain_host : Option Bytes → Bytes → List Bytes
  domain_host none id = []
  domain_host (some a) id = host_text a id ∷ []

  unfoldable pub get_hosts : Host → Bytes → List Bytes
  unfolding custom_address
  get_hosts h domain =
      map (λ a. host_text a (l.id h)) (l.addrs h) ++ domain_host (custom_address domain) (l.id h)
