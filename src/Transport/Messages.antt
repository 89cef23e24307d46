-- ===== src/Transport/Messages.antt =====
-- crates/filesec-core/src/transport.rs: the steps of the handshake that read a message.
use file_sec.Codec.{to_vec, from_slice}
use file_sec.Prelude.{not, Option, none, some, ◌==◌, text_eq}
use file_sec.Errors.{
  Result, ok, err, ◌>>=◌, ◌>>◌, fail_if, bad_signature, handshake_protocol, peer_identity_mismatch,
  transfer_secret_mismatch,
}
use file_sec.State.{Bytes}
use file_sec.Contacts.{fingerprint}
use file_sec.Aead.{aead_seal, aead_open}
use file_sec.Transport.{
  Crypto, HelloMsg, AuthMsg, ConfirmInner, magic, proto_version, suite_classic, dir_i2r,
  confirm_ctr, confirm_type, signature_len, record_nonce, record_aad, fixed, Session, for_initiator,
  for_responder,
}
use file_sec.Transport.Handshake.{
  Identity, SessionKeys, Initiator, ResponderPending, Responder, HelloReplayCache, PeerAuth, ct_eq,
  admit_if_shared, is_other_peer, hello_proof, transcript0, responder_sig_msg, initiator_sig_msg,
  derive_session_keys, agree, verify, verify_fails,
}

module _ (c : Crypto) where
  -- The transcript as the initiator sees it, for the responder that it expects.
  abbrev pub initiator_th0 : Initiator → AuthMsg → Bytes
  initiator_th0 i auth =
      transcript0 c proto_version suite_classic (c.x25519_public i.ephemeral) i.nonce
        auth.r_ephemeral auth.r_nonce i.expected_peer_fpr i.secret_commit

  -- The transcript as the responder sees it.
  abbrev pub responder_th0 : Responder → HelloMsg → Bytes
  responder_th0 r hello =
      transcript0 c proto_version suite_classic hello.i_ephemeral hello.i_nonce
        (c.x25519_public r.ephemeral) r.nonce (fingerprint c.hash r.identity.public) r.secret_commit

  -- The identity that the initiator reveals, with its signature.
  abbrev pub inner_of : Identity → AuthMsg → Bytes → ConfirmInner
  inner_of identity auth th0 = record {
    i_identity = identity.public;
    i_sig = c.ed25519_sign identity.sign_secret (
        initiator_sig_msg c th0 auth.r_identity.sign_public auth.r_identity.kem_public
          identity.public.sign_public identity.public.kem_public);
  }

  -- The end of `read_auth_write_confirm`: the sealed proof and the session.
  unfoldable pub write_confirm :
      Initiator → AuthMsg → Bytes → SessionKeys → Result (Bytes × Session)
  write_confirm i auth th0 keys = do
    inner_bytes ← to_vec c.inner_cbor (inner_of i.identity auth th0)
    sealed ←
        aead_seal c.ciphers keys.k_i2r (record_nonce dir_i2r confirm_ctr)
          (record_aad th0 confirm_type confirm_ctr) inner_bytes
    confirm_bytes ← to_vec c.confirm_cbor (record { sealed = sealed })
    ok (confirm_bytes, for_initiator keys.k_i2r keys.k_r2i th0)

  -- The part of `read_auth_write_confirm` behind the decoding.
  unfoldable pub accept_auth : Initiator → AuthMsg → Result (Bytes × Session)
  unfolding write_confirm
  accept_auth i auth = do
    r_sig ← fixed signature_len auth.r_sig
    fail_if (not (ct_eq (fingerprint c.hash auth.r_identity) i.expected_peer_fpr))
        peer_identity_mismatch
    fail_if
        (verify_fails c auth.r_identity.sign_public
          (responder_sig_msg c (initiator_th0 i auth) auth.r_identity.sign_public
            auth.r_identity.kem_public)
          r_sig)
        bad_signature
    ee_dh ← agree c i.ephemeral auth.r_ephemeral
    write_confirm i auth (initiator_th0 i auth) (derive_session_keys c ee_dh (initiator_th0 i auth))

  unfoldable pub read_auth_write_confirm : Initiator → Bytes → Result (Bytes × Session)
  unfolding accept_auth
  read_auth_write_confirm i auth_bytes = do
    auth ← from_slice c.auth_cbor auth_bytes
    accept_auth i auth

  -- What the responder answers, signed.
  abbrev pub auth_of : Responder → Bytes → AuthMsg
  auth_of r th0 = record {
    r_ephemeral = c.x25519_public r.ephemeral;
    r_nonce = r.nonce;
    r_identity = r.identity.public;
    r_sig =
        c.ed25519_sign r.identity.sign_secret
          (responder_sig_msg c th0 r.identity.public.sign_public r.identity.public.kem_public);
  }

  -- The end of `read_hello_write_auth`, behind the gate.
  unfoldable pub write_auth : Responder → HelloMsg → Result (Responder × Bytes)
  write_auth r hello = do
    ee_dh ← agree c r.ephemeral hello.i_ephemeral
    auth_bytes ← to_vec c.auth_cbor (auth_of r (responder_th0 r hello))
    ok (
      record r {
        pending = some (record {
          th0 = responder_th0 r hello;
          keys = derive_session_keys c ee_dh (responder_th0 r hello);
        });
      },
      auth_bytes,
    )

  -- The gate in front of it: the message is of this protocol and proves the secret.
  unfoldable pub check_hello : Responder → HelloMsg → Result (Unit {0})
  check_hello r hello = do
    fail_if (not (text_eq hello.magic magic))
        (handshake_protocol "not a FileSec transfer handshake")
    fail_if (not (hello.version == proto_version))
        (handshake_protocol "unsupported handshake version")
    fail_if (not (hello.suite == suite_classic)) (handshake_protocol "unsupported handshake suite")
    fail_if
        (not (
          ct_eq (hello_proof c r.k_psk hello.version hello.suite hello.i_ephemeral hello.i_nonce)
            hello.i_psk_tag))
        transfer_secret_mismatch

  -- The cache, which all responders of a listener share, keeps an admitted proof also when the answer
  -- fails: the responder, the bytes and the cache that are left.
  unfoldable pub read_hello_write_auth :
      Responder
      → Option HelloReplayCache
      → Bytes
      → Result (Responder × Bytes) × Option HelloReplayCache
  unfolding write_auth check_hello
  read_hello_write_auth r cache hello_bytes = elim (from_slice c.hello_cbor hello_bytes) [
    | err failure ↦ (err failure, cache)
    | ok hello ↦ elim (check_hello r hello) [
      | err failure ↦ (err failure, cache)
      | ok proved ↦ elim (admit_if_shared cache hello.i_psk_tag) [
        | err failure ↦ (err failure, cache)
        | ok next ↦ (write_auth r hello, next)
      ]
    ]
  ]

  -- The end of `read_confirm`, on the opened proof.
  unfoldable pub check_peer :
      Responder → ResponderPending → ConfirmInner → Result (PeerAuth × Session)
  check_peer r pending inner = do
    i_sig ← fixed signature_len inner.i_sig
    verify c inner.i_identity.sign_public
        (initiator_sig_msg c pending.th0 r.identity.public.sign_public r.identity.public.kem_public
          inner.i_identity.sign_public inner.i_identity.kem_public)
        i_sig
    fail_if (is_other_peer r.expected_peer_fpr (fingerprint c.hash inner.i_identity))
        peer_identity_mismatch
    ok (
      record { fingerprint = fingerprint c.hash inner.i_identity; identity = inner.i_identity },
      for_responder pending.keys.k_i2r pending.keys.k_r2i pending.th0,
    )

  -- On the handshake in progress.
  unfoldable pub read_confirm_of :
      Responder → ResponderPending → Bytes → Result (PeerAuth × Session)
  unfolding check_peer
  read_confirm_of r pending confirm_bytes = do
    confirm ← from_slice c.confirm_cbor confirm_bytes
    inner_bytes ←
        aead_open c.ciphers pending.keys.k_i2r (record_nonce dir_i2r confirm_ctr)
          (record_aad pending.th0 confirm_type confirm_ctr) confirm.sealed
    inner ← from_slice c.inner_cbor inner_bytes
    check_peer r pending inner

  unfoldable pub read_confirm : Responder → Bytes → Result (PeerAuth × Session)
  unfolding read_confirm_of
  read_confirm r confirm_bytes = elim r.pending [
    | none ↦ err (handshake_protocol "handshake out of order")
    | some pending ↦ read_confirm_of r pending confirm_bytes
  ]
