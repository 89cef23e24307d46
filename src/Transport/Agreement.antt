-- ===== src/Transport/Agreement.antt =====
-- crates/filesec-core/src/transport.rs: a handshake between two honest sides.
use file_sec.Codec.{Travels, to_vec-Travels}
use file_sec.Prelude.{◌∙◌, ◌≡◌, ◌≤◌, refl, false, Option, some, length, ==_iff, text_eq_refl}
use file_sec.Errors.{ok}
use file_sec.State.{Bytes}
use file_sec.Suite.{xchacha20_poly1305}
use file_sec.Contacts.{fingerprint}
use file_sec.Blobs.{max_chunk_size}
use file_sec.Aead.Laws.{IsAead}
use file_sec.Transport.Channel.{IsIdentity, IsAgreement, IsInSync, ct_eq_refl, aead_seal-aead_open}
use file_sec.Transport.{
  proto_version, suite_classic, Crypto, HelloMsg, AuthMsg, magic, dir_i2r, confirm_ctr,
  confirm_type, signature_len, record_aad, Session, for_initiator, for_responder,
}
use file_sec.Transport.Handshake.{
  SessionKeys, Initiator, ResponderPending, Responder, HelloReplayCache, PeerAuth, admit_if_shared,
  is_other_peer, hello_proof, responder_sig_msg, initiator_sig_msg, derive_session_keys, agree,
  verify, hello_of, write_hello,
}
use file_sec.Transport.Messages.{
  responder_th0, inner_of, write_confirm, read_auth_write_confirm, auth_of, write_auth, check_hello,
  read_hello_write_auth, check_peer, read_confirm_of, read_confirm,
}

-- A whole handshake: its three messages, and the sessions and the peer that it ends with. Each session
-- reads what the other one sends.
abbrev pub IsCompleted :
    Crypto → Initiator → Responder → Option HelloReplayCache → Option HelloReplayCache → Type 0
IsCompleted c i r cache next =
    (hello_bytes auth_bytes confirm_bytes : Bytes) × (r2 : Responder) × (si sr : Session)
    × (peer : PeerAuth) × (write_hello c i ≡ ok hello_bytes)
    × (read_hello_write_auth c r cache hello_bytes ≡ (ok (r2, auth_bytes), next))
    × (read_auth_write_confirm c i auth_bytes ≡ ok (confirm_bytes, si))
    × (read_confirm c r2 confirm_bytes ≡ ok (peer, sr))
    × (peer.identity ≡ i.identity.public)
    × IsInSync si sr
    × IsInSync sr si

module _ (c : Crypto) (i : Initiator) (r : Responder) (same_psk : i.k_psk ≡ r.k_psk)
    (same_commit : i.secret_commit ≡ r.secret_commit)
    (expected : i.expected_peer_fpr ≡ fingerprint c.hash r.identity.public)
    (agreement : IsAgreement c r.ephemeral i.ephemeral) (initiator_keys : IsIdentity c i.identity)
    (responder_keys : IsIdentity c r.identity) where
  hello : HelloMsg
  hello = hello_of c i

  check_hello_lem : check_hello c r (hello_of c i) ≡ ok tt
  unfolding check_hello
  check_hello_lem =
      rw
        (
          text_eq_refl magic,
          same_psk,
          ct_eq_refl (
              hello_proof c r.k_psk proto_version suite_classic (c.x25519_public i.ephemeral)
                i.nonce),
        )
        refl

  abbrev th0 : Bytes
  th0 = responder_th0 c r (hello_of c i)

  abbrev auth : AuthMsg
  auth = auth_of c r th0

  abbrev shared : Bytes
  shared = c.diffie_hellman r.ephemeral (c.x25519_public i.ephemeral)

  abbrev keys : SessionKeys
  keys = derive_session_keys c shared th0

  abbrev pending : ResponderPending
  pending = record { th0 = th0; keys = keys }

  abbrev waiting : Responder
  waiting = record r { pending = some pending }

  responder_agrees : agree c r.ephemeral (c.x25519_public i.ephemeral) ≡ ok shared
  unfolding agree
  responder_agrees = rw (agreement.contributory) refl

  initiator_agrees : agree c i.ephemeral (c.x25519_public r.ephemeral) ≡ ok shared
  unfolding agree
  initiator_agrees = rw (← agreement.commutes, agreement.contributory) refl

  module _ (hello_travels : Travels c.hello_cbor (hello_of c i))
      (auth_travels : Travels c.auth_cbor auth)
      (inner_travels : Travels c.inner_cbor (inner_of c i.identity auth th0))
      (confirm_travels : (sealed : Bytes) → Travels c.confirm_cbor (record { sealed = sealed }))
      (inner_fits : length inner_travels.bytes ≤ max_chunk_size)
      (aead : IsAead c.ciphers xchacha20_poly1305 keys.k_i2r) where
    answered :
        (cache next : Option HelloReplayCache)
        → admit_if_shared cache (hello_of c i).i_psk_tag ≡ ok next
        → read_hello_write_auth c r cache hello_travels.bytes
          ≡ (ok (waiting, auth_travels.bytes), next)
    unfolding read_hello_write_auth write_auth
    answered cache next h =
        rw
          (
            read_hello_write_auth,
            (to_vec-Travels c.hello_cbor (hello_of c i) hello_travels).1,
            check_hello_lem,
            h,
            write_auth,
            responder_agrees,
            (to_vec-Travels c.auth_cbor auth auth_travels).0,
          )
          refl

    confirmed :
        (confirm_bytes : Bytes) × (read_auth_write_confirm c i auth_travels.bytes
          ≡ ok (confirm_bytes, for_initiator keys.k_i2r keys.k_r2i th0))
        × (read_confirm_of c waiting pending confirm_bytes
            ≡ check_peer c waiting pending (inner_of c i.identity auth th0))
    unfolding read_auth_write_confirm write_confirm read_confirm_of
    confirmed =
        let (ct, sealed, opened) =
          aead_seal-aead_open c keys.k_i2r (record_aad th0 confirm_type confirm_ctr)
            inner_travels.bytes dir_i2r confirm_ctr aead inner_fits in
        let m =
          responder_sig_msg c th0 r.identity.public.sign_public r.identity.public.kem_public in
        let signature =
          (==_iff (length (c.ed25519_sign r.identity.sign_secret m)) signature_len).1
            (responder_keys.signature m) in
        let confirm = confirm_travels ct in
        let sent = to_vec-Travels c.confirm_cbor (record { sealed = ct }) confirm in
        let inner = to_vec-Travels c.inner_cbor (inner_of c i.identity auth th0) inner_travels in
        (
          confirm.bytes,
          rw
              (
                read_auth_write_confirm,
                (to_vec-Travels c.auth_cbor auth auth_travels).1,
                signature,
                expected,
                same_commit,
                ct_eq_refl (fingerprint c.hash r.identity.public),
                responder_keys.is_key,
                responder_keys.verifies m,
                initiator_agrees,
                write_confirm,
                inner.0,
                sealed,
                sent.0,
              )
              refl,
          rw (read_confirm_of, sent.1, opened, inner.1) refl,
        )

    accepted :
        is_other_peer r.expected_peer_fpr (fingerprint c.hash i.identity.public) ≡ false
        → check_peer c waiting pending (inner_of c i.identity auth th0)
          ≡ ok (
            record {
              fingerprint = fingerprint c.hash i.identity.public;
              identity = i.identity.public;
            },
            for_responder keys.k_i2r keys.k_r2i th0,
          )
    unfolding check_peer verify
    accepted h =
        let m =
          initiator_sig_msg c th0 r.identity.public.sign_public r.identity.public.kem_public
            i.identity.public.sign_public i.identity.public.kem_public in
        let signature =
          (==_iff (length (c.ed25519_sign i.identity.sign_secret m)) signature_len).1
            (initiator_keys.signature m) in
        rw (check_peer, signature, verify, initiator_keys.is_key, initiator_keys.verifies m, h) refl

    pub completed :
        (cache next : Option HelloReplayCache)
        → admit_if_shared cache (hello_of c i).i_psk_tag ≡ ok next
        → is_other_peer r.expected_peer_fpr (fingerprint c.hash i.identity.public) ≡ false
        → IsCompleted c i r cache next
    unfolding write_hello read_confirm
    completed cache next admitted peer =
        let (confirm_bytes, sent, opened) = confirmed in
        (
          hello_travels.bytes,
          auth_travels.bytes,
          confirm_bytes,
          waiting,
          for_initiator keys.k_i2r keys.k_r2i th0,
          for_responder keys.k_i2r keys.k_r2i th0,
          record {
            fingerprint = fingerprint c.hash i.identity.public;
            identity = i.identity.public;
          },
          (to_vec-Travels c.hello_cbor (hello_of c i) hello_travels).0,
          answered cache next admitted,
          sent,
          opened ∙ accepted peer,
          refl,
          (refl, refl, refl, refl),
          (refl, refl, refl, refl),
        )
