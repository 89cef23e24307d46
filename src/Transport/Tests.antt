-- ===== src/Transport/Tests.antt =====
-- Concrete runs of crates/filesec-core/src/transport.rs, with hashes, keys and signatures that compute.
use file_sec.Codec.{to_vec, from_slice}
use file_sec.Prelude.{
  ap, ◌≡◌, refl, ◌&&◌, Option, none, some, List, [], ◌∷◌, ◌++◌, from_be_bytes, be_bytes, text,
  text_eq, text_eq_refl, text_eq_iff, and-eq-true, Bool-cases, inl, inr, if◌then◌else◌, arith,
}
use file_sec.Errors.{◌>>=◌, ok, err, handshake_protocol}
use file_sec.State.{Bytes}
use file_sec.Suite.{xchacha20_poly1305, nonce_len}
use file_sec.Contacts.{fingerprint, fingerprint_input}
use file_sec.Aead.{seal_with, open_with, aead_seal, aead_open}
use file_sec.Aead.Toy.{toy_tag, toy_decrypt, toy_ciphers, toy_ciphers-IsAead}
use file_sec.Transport.{
  Crypto, HelloMsg, AuthMsg, RecordType, offer, data_chunk, done, to_byte, record_nonce, record_aad,
  for_initiator, for_responder, Session,
}
use file_sec.Transport.Handshake.{
  SessionKeys, verify, agree, derive_session_keys, agree, Identity, Responder, new_cache, admit,
  derive_psk, commit_secret, hello_proof, transcript0, responder_sig_msg, initiator_sig_msg,
  derive_session_keys, initiator_new, responder_new, hello_of,
}
use file_sec.Transport.Messages.{
  accept_auth, write_confirm, read_confirm_of, check_peer, read_auth_write_confirm, read_confirm,
  write_auth, check_hello, responder_th0, read_hello_write_auth, read_auth_write_confirm,
  read_confirm,
}
use file_sec.Transport.Channel.{IsIdentity, IsInSync}
use file_sec.Transport.Agreement.{IsCompleted}
use file_sec.Transport.Completion.{handshake_completes}
use file_sec.Transport.Replay.{listen, IsValid, admit-replayed}
use file_sec.Transport.Records.{send_all, receive_all, receive_all-send_all}
use file_sec.Transport.Integrity.{Record, IsAuthenticChannel, receive_any, receive_any_in_order}
use file_sec.Transport.Peers.{
  read_auth_write_confirm_authenticated, read_confirm_authenticated, IsExpectedResponder,
  IsExpectedInitiator, read_auth_write_confirm_authenticated, read_confirm_authenticated,
}
use file_sec.Transport.Gate.{read_hello_write_auth_gated}
use file_sec.Transport.Toy.{alice, bob, signature_of, base, secret, dialer, listener, crypto}

toy_keys :
    (identity : Identity)
    → identity.sign_secret ≡ identity.public.sign_public
    → IsIdentity crypto identity
toy_keys identity h = record {
  is_key = refl;
  verifies = (λ m. rw (h) (text_eq_refl (signature_of identity.public.sign_public m)));
  signature = (λ m. refl);
}

handshake_completes_example :
    IsCompleted crypto dialer listener
      (some (new_cache 8))
      (some (record { seen = (hello_of crypto dialer).i_psk_tag ∷ []; capacity = 8 }))
unfolding initiator_new responder_new derive_psk commit_secret fingerprint fingerprint_input
    hello_proof transcript0 responder_sig_msg initiator_sig_msg admit be_bytes from_be_bytes text_eq
    text
handshake_completes_example =
    handshake_completes crypto alice bob secret (3 ∷ []) (4 ∷ []) (5 ∷ []) (6 ∷ [])
      (some (fingerprint_input alice.public)) dialer listener (some (new_cache 8))
      (some (record { seen = (hello_of crypto dialer).i_psk_tag ∷ []; capacity = 8 })) refl refl
      (toy_keys alice refl) (toy_keys bob refl) (record { commutes = refl; contributory = refl })
      (record { bytes = []; written = refl; read = refl })
      (record { bytes = []; written = refl; read = refl })
      (record { bytes = []; written = refl; read = refl })
      (λ sealed. record { bytes = sealed; written = refl; read = refl }) (omega arith)
      (toy_ciphers-IsAead xchacha20_poly1305
        (derive_session_keys crypto
          (crypto.diffie_hellman listener.ephemeral (crypto.x25519_public dialer.ephemeral))
          (responder_th0 crypto listener (hello_of crypto dialer))).k_i2r)
      refl refl

-- The second time the proof is refused, and the listener goes on with others.
admit-replayed_example :
    IsValid
      (listen (record { seen = (1 ∷ []) ∷ []; capacity = 2 }) ((1 ∷ []) ∷ (2 ∷ []) ∷ (3 ∷ []) ∷ []))
    × (admit
          (listen
            (record { seen = (1 ∷ []) ∷ []; capacity = 2 })
            ((1 ∷ []) ∷ (2 ∷ []) ∷ (3 ∷ []) ∷ []))
          (1 ∷ [])
        ≡ err (handshake_protocol "replayed handshake"))
unfolding admit listen
admit-replayed_example =
    admit-replayed 2 [] ((1 ∷ []) ∷ (2 ∷ []) ∷ (3 ∷ []) ∷ []) (1 ∷ [])
      (record { seen = (1 ∷ []) ∷ []; capacity = 2 }) refl

-- The sessions of a handshake, at its end.
abbrev opened : Session
opened = for_initiator (7 ∷ []) (8 ∷ []) (9 ∷ [])

abbrev peer_opened : Session
peer_opened = for_responder (7 ∷ []) (8 ∷ []) (9 ∷ [])

abbrev transfer : List (RecordType × Bytes)
transfer = (offer, 1 ∷ []) ∷ (data_chunk, 2 ∷ 3 ∷ []) ∷ (done, []) ∷ []

receive_all-send_all_example :
    (s2 r2 : Session) × (frames : List Bytes) × (send_all crypto opened transfer ≡ ok (s2, frames))
    × (receive_all crypto peer_opened frames ≡ ok (r2, transfer))
    × IsInSync s2 r2
receive_all-send_all_example =
    receive_all-send_all crypto opened peer_opened transfer (refl, refl, refl, refl) (omega arith)
      (omega arith, (omega arith, (omega arith, tt)))
      (toy_ciphers-IsAead xchacha20_poly1305 (7 ∷ []))

read_hello_write_auth_gated_example :
    (hello : HelloMsg) × (from_slice crypto.hello_cbor [] ≡ ok hello)
    × (hello.i_psk_tag
        ≡ hello_proof crypto (derive_psk base secret) 2 1 hello.i_ephemeral hello.i_nonce)
    × (admit (new_cache 1) hello.i_psk_tag >>= (λ next. ok (some next))
        ≡ ok (some (record { seen = (hello_of base dialer).i_psk_tag ∷ []; capacity = 1 })))
unfolding read_hello_write_auth write_auth check_hello admit derive_psk hello_proof transcript0
    responder_sig_msg derive_session_keys agree to_vec from_slice be_bytes from_be_bytes text_eq
    text fingerprint fingerprint_input
read_hello_write_auth_gated_example =
    read_hello_write_auth_gated crypto listener
      (record listener {
        pending = some (record {
          th0 = responder_th0 crypto listener (hello_of base dialer);
          keys =
              derive_session_keys crypto
                (crypto.diffie_hellman listener.ephemeral (crypto.x25519_public dialer.ephemeral))
                (responder_th0 crypto listener (hello_of base dialer));
        });
      })
      (some (new_cache 1))
      (some (record { seen = (hello_of base dialer).i_psk_tag ∷ []; capacity = 1 })) [] [] refl

-- Under a channel that opens only one sealed record, that record is taken once.
abbrev only_record : List Record
only_record = (offer, 1 ∷ []) ∷ []

abbrev strict_open : Bytes → Bytes → Bytes → Option Bytes
strict_open nonce aad ct =
    if text_eq nonce (record_nonce 1 1) && text_eq aad (record_aad (9 ∷ []) 1 1)
    then some (1 ∷ [])
    else none

abbrev strict_crypto : Crypto
strict_crypto = record crypto {
  ciphers = record (toy_ciphers toy_decrypt) {
    decrypt = (λ alg key nonce aad ct. strict_open nonce aad ct);
  };
}

some_cancel : {A : Type 0} {a b : A} → some a ≡ some b → a ≡ b
some_cancel h = cc

strict_crypto-IsAuthenticChannel : IsAuthenticChannel strict_crypto peer_opened only_record
unfolding to_byte
strict_crypto-IsAuthenticChannel nonce aad ct m h =
    let right_nonce = text_eq nonce (record_nonce 1 1) in
    let right_aad = text_eq aad (record_aad (9 ∷ []) 1 1) in
    elim (Bool-cases (right_nonce && right_aad)) [
      | inr a ↦ absurd (ground arith)
      | inl a ↦
          let (n, d) = and-eq-true right_nonce right_aad a in
          inr (
            0,
            offer,
            (text_eq_iff nonce (record_nonce 1 1)).0 n,
            (text_eq_iff aad (record_aad (9 ∷ []) 1 1)).0 d,
            ap (λ t. some (offer, t)) (some_cancel (rw (a) at h)),
          )
    ]

receive_any_in_order_example :
    (tail : List Record) × (only_record
      ≡ receive_any strict_crypto peer_opened ((3 ∷ []) ∷ (1 ∷ []) ∷ (1 ∷ []) ∷ []) ++ tail)
receive_any_in_order_example =
    receive_any_in_order strict_crypto peer_opened only_record ((3 ∷ []) ∷ (1 ∷ []) ∷ (1 ∷ []) ∷ [])
      (omega arith) refl strict_crypto-IsAuthenticChannel

-- The handshake of `dialer` and `listener`, step by step.
abbrev th0 : Bytes
th0 = responder_th0 crypto listener (hello_of base dialer)

abbrev keys : SessionKeys
keys =
    derive_session_keys crypto
      (crypto.diffie_hellman listener.ephemeral (crypto.x25519_public dialer.ephemeral)) th0

abbrev waiting : Responder
waiting = record listener { pending = some (record { th0 = th0; keys = keys }) }

abbrev sealed_proof : Bytes
sealed_proof = toy_tag (record_nonce 1 0)

read_auth_write_confirm_authenticated_example :
    (auth : AuthMsg) × (from_slice crypto.auth_cbor [] ≡ ok auth)
    × IsExpectedResponder crypto dialer auth (for_initiator keys.k_i2r keys.k_r2i th0)
unfolding read_auth_write_confirm accept_auth write_confirm verify agree derive_psk commit_secret
    hello_proof transcript0 responder_sig_msg initiator_sig_msg derive_session_keys to_vec
    from_slice aead_seal aead_open seal_with open_with record_nonce nonce_len be_bytes from_be_bytes
    text_eq text fingerprint fingerprint_input
read_auth_write_confirm_authenticated_example =
    read_auth_write_confirm_authenticated crypto dialer [] sealed_proof
      (for_initiator keys.k_i2r keys.k_r2i th0) refl

read_confirm_authenticated_example :
    IsExpectedInitiator crypto waiting
      (record { fingerprint = fingerprint crypto.hash alice.public; identity = alice.public })
      (for_responder keys.k_i2r keys.k_r2i th0)
unfolding read_confirm read_confirm_of check_peer verify agree derive_psk commit_secret hello_proof
    transcript0 responder_sig_msg initiator_sig_msg derive_session_keys to_vec from_slice aead_seal
    aead_open seal_with open_with record_nonce nonce_len be_bytes from_be_bytes text_eq text
    fingerprint fingerprint_input
read_confirm_authenticated_example =
    read_confirm_authenticated crypto waiting sealed_proof
      (record { fingerprint = fingerprint crypto.hash alice.public; identity = alice.public })
      (for_responder keys.k_i2r keys.k_r2i th0) refl
