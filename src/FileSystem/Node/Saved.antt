-- ===== src/FileSystem/Node/Saved.antt =====
-- A node whose key was generated, and one with that key in its settings (ipfs/ipfs.go).
use sequoia.Prelude.{false, [], ◌∷◌, Option, some, ◌≡◌, ◌≢◌, refl, All}
use sequoia.Prelude.Int.{ℤ}
use sequoia.Prelude.Bytes.{Bytes, IsByte, bytes_equal}
use sequoia.Prelude.Bytes.Hex.{hex_encode, hex_decode-hex_encode}
use sequoia.FileSystem.Node.{
  Libp2p, with_key, with_marshalled, with_generated, listeners, at_addrs, make_ipfs,
}

encoded_not_empty : (k : Bytes) → k ≢ [] → bytes_equal (hex_encode k) [] ≡ false
unfolding bytes_equal hex_encode
encoded_not_empty [] h = absurd (h refl)
encoded_not_empty (b ∷ k) h = refl

module _ (l : Libp2p) where
  open l use {Key, Host, Peer, Stores}

  -- With no key in the settings a node is made with the key that was generated. The text that is
  -- logged then, put into the settings, makes the same node at a later start, whatever that start would
  -- generate. What is assumed is that the marshalled key is a text of bytes, not empty, that is read back
  -- as the key.
  pub saved_key_same_node :
      (k : Key) (text : Bytes) (fresh : Option Key) (s : Stores) (port : ℤ) (domain : Bytes)
      → l.marshal_key k ≡ some text
      → l.unmarshal_key text ≡ some k
      → All IsByte text
      → text ≢ []
      → (make_ipfs l (some k) [] s port domain ≡ at_addrs l s k (listeners l port domain))
        × (make_ipfs l fresh (hex_encode text) s port domain
            ≡ at_addrs l s k (listeners l port domain))
  unfolding make_ipfs with_generated with_marshalled with_key bytes_equal
  saved_key_same_node k text fresh s port domain marshals reads_back bytes some_text = (
    rw (marshals, hex_decode-hex_encode text bytes, reads_back) refl,
    rw (encoded_not_empty text some_text, hex_decode-hex_encode text bytes, reads_back) refl,
  )
