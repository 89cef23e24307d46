-- ===== src/Transport/Handshake.antt =====
-- crates/filesec-core/src/transport.rs: the two sides of the handshake, and the memory of answered
-- proofs; with the ephemeral keys of crates/filesec-core/src/kem.rs and the
-- signatures of crates/filesec-core/src/sign.rs. What the random generator gives is an
-- argument.
use file_sec.Codec.{to_vec}
use file_sec.Prelude.{
  ℕ, Bool, false, not, ◌&&◌, Option, none, some, List, [], ◌∷◌, ◌++◌, length, is_empty, any,
  if◌then◌else◌, leb, ◌==◌, be_bytes, text, text_eq,
}
use file_sec.Errors.{
  Result, ok, err, ◌>>=◌, ◌>>◌, fail_if, bad_key, bad_signature, handshake_protocol,
}
use file_sec.State.{Bytes}
use file_sec.Contacts.{PublicIdentity}
use file_sec.Transport.{Crypto, HelloMsg, magic, proto_version, suite_classic}

-- The long-term keys: what `public()` gives, and the signing secret.
pub record Identity : Type 0 where
  pub public : PublicIdentity
  pub sign_secret : Bytes

pub record SessionKeys : Type 0 where
  pub k_i2r : Bytes
  pub k_r2i : Bytes

pub record Initiator : Type 0 where
  pub identity : Identity
  pub ephemeral : Bytes  -- the secret of the pair
  pub nonce : Bytes  -- 32 bytes
  pub expected_peer_fpr : Bytes  -- 32 bytes
  pub k_psk : Bytes
  pub secret_commit : Bytes  -- 32 bytes

pub record ResponderPending : Type 0 where
  pub th0 : Bytes  -- 32 bytes
  pub keys : SessionKeys

pub record Responder : Type 0 where
  pub identity : Identity
  pub ephemeral : Bytes  -- the secret of the pair
  pub nonce : Bytes  -- 32 bytes
  pub k_psk : Bytes
  pub secret_commit : Bytes  -- 32 bytes
  pub expected_peer_fpr : Option Bytes
  pub pending : Option ResponderPending

-- `seen` holds no proof twice; its order is not used.
pub record HelloReplayCache : Type 0 where
  pub seen : List Bytes
  pub capacity : ℕ

pub record PeerAuth : Type 0 where
  pub fingerprint : Bytes  -- 32 bytes
  pub identity : PublicIdentity

-- `ct_eq`
abbrev pub ct_eq : Bytes → Bytes → Bool
ct_eq a b = length a == length b && text_eq a b

abbrev pub new_cache : ℕ → HelloReplayCache
new_cache capacity = record { seen = []; capacity = capacity }

-- The lock is not poisoned: no code that holds it panics.
unfoldable pub admit : HelloReplayCache → Bytes → Result HelloReplayCache
admit cache proof = do
  fail_if (any (text_eq proof) cache.seen) (handshake_protocol "replayed handshake")
  fail_if (leb cache.capacity (length cache.seen))
      (handshake_protocol "too many handshakes under this transfer code; start a new one")
  ok (record cache { seen = proof ∷ cache.seen })

-- `if let Some(cache) = self.replay_cache`
abbrev pub admit_if_shared : Option HelloReplayCache → Bytes → Result (Option HelloReplayCache)
admit_if_shared none proof = ok none
admit_if_shared (some cache) proof = admit cache proof >>= (λ next. ok (some next))

-- `if let Some(expected) = self.expected_peer_fpr`
abbrev pub is_other_peer : Option Bytes → Bytes → Bool
is_other_peer none fpr = false
is_other_peer (some expected) fpr = not (ct_eq fpr expected)

module _ (c : Crypto) where
  unfoldable pub derive_psk : Bytes → Bytes
  derive_psk secret = c.derive_key (text "FileSec p2p transfer secret v2") secret

  unfoldable pub hello_proof : Bytes → ℕ → ℕ → Bytes → Bytes → Bytes
  hello_proof k_psk version suite i_ephemeral i_nonce = c.keyed_hash k_psk (
      text "FileSec p2p hello proof v2"
      ++ (be_bytes 2 version ++ (be_bytes 2 suite ++ (i_ephemeral ++ i_nonce))))

  unfoldable pub commit_secret : Bytes → Bytes
  commit_secret k_psk = c.keyed_hash k_psk (text "FileSec p2p secret commit v2")

  unfoldable pub transcript0 : ℕ → ℕ → Bytes → Bytes → Bytes → Bytes → Bytes → Bytes → Bytes
  transcript0 version suite i_ephemeral i_nonce r_ephemeral r_nonce r_fingerprint secret_commit =
      c.hash (
        text "FileSec p2p transcript v2"
        ++ (be_bytes 2 version
            ++ (be_bytes 2 suite
                ++ (i_ephemeral
                    ++ (i_nonce
                        ++ (r_ephemeral ++ (r_nonce ++ (r_fingerprint ++ secret_commit))))))))

  unfoldable pub responder_sig_msg : Bytes → Bytes → Bytes → Bytes
  responder_sig_msg th0 r_sign_pub r_kem_pub =
      c.hash (text "FileSec p2p responder auth v2" ++ (th0 ++ (r_sign_pub ++ r_kem_pub)))

  unfoldable pub initiator_sig_msg : Bytes → Bytes → Bytes → Bytes → Bytes → Bytes
  initiator_sig_msg th0 r_sign_pub r_kem_pub i_sign_pub i_kem_pub = c.hash (
      text "FileSec p2p initiator auth v2"
      ++ (th0 ++ (r_sign_pub ++ (r_kem_pub ++ (i_sign_pub ++ i_kem_pub)))))

  unfoldable pub derive_session_keys : Bytes → Bytes → SessionKeys
  derive_session_keys ee_dh th0 = record {
    k_i2r = c.derive_key (text "FileSec p2p session key i2r v2") (ee_dh ++ th0);
    k_r2i = c.derive_key (text "FileSec p2p session key r2i v2") (ee_dh ++ th0);
  }

  -- `EphemeralKeyPair::agree`
  unfoldable pub agree : Bytes → Bytes → Result Bytes
  agree secret peer_public =
      let shared = c.diffie_hellman secret peer_public in
      if c.was_contributory shared
      then ok shared
      else err (bad_key "non-contributory X25519 agreement")

  -- `sign::verify`
  unfoldable pub verify : Bytes → Bytes → Bytes → Result (Unit {0})
  verify public message signature = do
    fail_if (not (c.ed25519_is_key public)) (bad_key "ed25519 public key")
    fail_if (not (c.ed25519_verify public message signature)) bad_signature
    ok tt

  -- `sign::verify(..).is_err()`
  abbrev pub verify_fails : Bytes → Bytes → Bytes → Bool
  verify_fails public message signature =
      not (c.ed25519_is_key public && c.ed25519_verify public message signature)

  -- The ephemeral secret and the nonce that are drawn come last.
  unfoldable pub initiator_new :
      Identity → Bytes → Bytes → Result Bytes → Result Bytes → Result Initiator
  unfolding derive_psk commit_secret
  initiator_new identity expected_peer_fpr transfer_secret ephemeral nonce = do
    fail_if (is_empty transfer_secret) (handshake_protocol "a transfer secret is required")
    pair ← ephemeral
    fresh ← nonce
    ok (record {
      identity = identity;
      ephemeral = pair;
      nonce = fresh;
      expected_peer_fpr = expected_peer_fpr;
      k_psk = derive_psk transfer_secret;
      secret_commit = commit_secret (derive_psk transfer_secret);
    })

  unfoldable pub responder_new :
      Identity → Bytes → Option Bytes → Result Bytes → Result Bytes → Result Responder
  unfolding derive_psk commit_secret
  responder_new identity transfer_secret expected_peer_fpr ephemeral nonce = do
    fail_if (is_empty transfer_secret) (handshake_protocol "a transfer secret is required")
    pair ← ephemeral
    fresh ← nonce
    ok (record {
      identity = identity;
      ephemeral = pair;
      nonce = fresh;
      k_psk = derive_psk transfer_secret;
      secret_commit = commit_secret (derive_psk transfer_secret);
      expected_peer_fpr = expected_peer_fpr;
      pending = none;
    })

  abbrev pub hello_of : Initiator → HelloMsg
  hello_of i = record {
    magic = magic;
    version = proto_version;
    suite = suite_classic;
    i_ephemeral = c.x25519_public i.ephemeral;
    i_nonce = i.nonce;
    i_psk_tag =
        hello_proof i.k_psk proto_version suite_classic (c.x25519_public i.ephemeral) i.nonce;
  }

  unfoldable pub write_hello : Initiator → Result Bytes
  unfolding to_vec
  write_hello i = to_vec c.hello_cbor (hello_of i)
