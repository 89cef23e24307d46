-- ===== src/Transport/Toy.antt =====
-- Two identities and the functions of other packages that compute, for the tests of crates/filesec-core/src/transport.rs.
use file_sec.Codec.{Cbor}
use file_sec.Prelude.{
  ℕ, ◌+◌, ◌*◌, ◌%◌, pos, true, none, some, [], ◌∷◌, ◌++◌, length, replicate, from_be_bytes, text_eq,
}
use file_sec.State.{Bytes}
use file_sec.Contacts.{PublicIdentity, fingerprint_input}
use file_sec.Aead.Toy.{toy_decrypt, toy_ciphers}
use file_sec.Transport.{Crypto, HelloMsg, AuthMsg, ConfirmMsg, ConfirmInner}
use file_sec.Transport.Handshake.{
  Identity, Initiator, Responder, derive_psk, commit_secret, hello_of,
}
use file_sec.Transport.Messages.{responder_th0, inner_of, auth_of}

abbrev person : ℕ → PublicIdentity
person key = record {
  name = [];
  created_at = pos 0;
  sign_public = key ∷ [];
  kem_public = key ∷ [];
  mldsa_public = none;
  mlkem_public = none;
}

abbrev pub alice : Identity
alice = record { public = person 1; sign_secret = 1 ∷ [] }

abbrev pub bob : Identity
bob = record { public = person 2; sign_secret = 2 ∷ [] }

abbrev pub signature_of : Bytes → Bytes → Bytes
signature_of key m = replicate 64 ((from_be_bytes 0 key + length m) % 251)

-- CBOR that carries one value.
abbrev pub carries : {A : Type 0} → A → Cbor A
carries value = record {
  into_writer = (λ other. some []);
  from_reader = (λ bytes. some (value, []));
}

abbrev pub wrapped : Cbor ConfirmMsg
wrapped = record {
  into_writer = (λ m. some m.sealed);
  from_reader = (λ bytes. some (record { sealed = bytes }, []));
}

abbrev toy_crypto : HelloMsg → AuthMsg → ConfirmInner → Crypto
toy_crypto hello auth inner = record {
  hash = (λ m. m);
  keyed_hash = (λ key m. key ++ m);
  derive_key = (λ context m. context ++ m);
  x25519_public = (λ secret. secret);
  diffie_hellman = (λ a b. (from_be_bytes 0 a * from_be_bytes 0 b) ∷ []);
  was_contributory = (λ shared. true);
  ed25519_is_key = (λ key. true);
  ed25519_sign = signature_of;
  ed25519_verify = (λ key m signature. text_eq signature (signature_of key m));
  ciphers = toy_ciphers toy_decrypt;
  hello_cbor = carries hello;
  auth_cbor = carries auth;
  confirm_cbor = wrapped;
  inner_cbor = carries inner;
}

abbrev pub base : Crypto
base =
    toy_crypto
      (record {
        magic = [];
        version = 0;
        suite = 0;
        i_ephemeral = [];
        i_nonce = [];
        i_psk_tag = [];
      })
      (record { r_ephemeral = []; r_nonce = []; r_identity = person 0; r_sig = [] })
      (record { i_identity = person 0; i_sig = [] })

abbrev pub secret : Bytes
secret = 42 ∷ 43 ∷ []

abbrev pub dialer : Initiator
dialer = record {
  identity = alice;
  ephemeral = 3 ∷ [];
  nonce = 5 ∷ [];
  expected_peer_fpr = fingerprint_input bob.public;
  k_psk = derive_psk base secret;
  secret_commit = commit_secret base (derive_psk base secret);
}

abbrev pub listener : Responder
listener = record {
  identity = bob;
  ephemeral = 4 ∷ [];
  nonce = 6 ∷ [];
  k_psk = derive_psk base secret;
  secret_commit = commit_secret base (derive_psk base secret);
  expected_peer_fpr = some (fingerprint_input alice.public);
  pending = none;
}

abbrev pub answer : AuthMsg
answer = auth_of base listener (responder_th0 base listener (hello_of base dialer))

abbrev pub proof : ConfirmInner
proof = inner_of base alice answer (responder_th0 base listener (hello_of base dialer))

abbrev pub crypto : Crypto
crypto = toy_crypto (hello_of base dialer) answer proof
