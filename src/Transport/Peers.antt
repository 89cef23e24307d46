-- ===== src/Transport/Peers.antt =====
-- crates/filesec-core/src/transport.rs: whom a side talks to when its session opens.
use file_sec.Codec.{from_slice}
use file_sec.Prelude.{
  arith, subst, ◌≡◌, refl, Bool, true, false, not, ◌&&◌, some, length, ◌==◌, Bool-cases,
  Option-cases, inl, inr, text_eq, text_eq_iff, and-eq-true,
}
use file_sec.Errors.{
  bad_key, handshake_protocol, peer_identity_mismatch, bad_signature, Error, Result, ok, err,
  Result-cases,
}
use file_sec.State.{Bytes}
use file_sec.Aead.{aead_open}
use file_sec.Contacts.{fingerprint}
use file_sec.Transport.{
  record_nonce, record_aad, dir_i2r, confirm_ctr, confirm_type, for_responder, Crypto, AuthMsg,
  ConfirmInner, signature_len, Session,
}
use file_sec.Transport.Handshake.{
  SessionKeys, SessionKeys, Initiator, ResponderPending, Responder, PeerAuth, ct_eq, is_other_peer,
  responder_sig_msg, initiator_sig_msg, verify, verify_fails, agree, derive_session_keys,
}
use file_sec.Transport.Messages.{
  accept_auth, initiator_th0, write_confirm, read_auth_write_confirm, check_peer, read_confirm_of,
  read_confirm,
}

abbrev Opens : {A : Type 0} → Result (A × Session) → A → Session → Type 0
Opens r a s = r ≡ ok (a, s)

failed : {A : Type 0} (e : Error) (a : A) (s : Session) → Opens (err e) a s → ⊥
failed e a s h = cc

ct_eq_sound : (a b : Bytes) → ct_eq a b ≡ true → a ≡ b
ct_eq_sound a b h = (text_eq_iff a b).0 (and-eq-true (length a == length b) (text_eq a b) h).1

not-false : (b : Bool) → not b ≡ false → b ≡ true
not-false true h = refl
not-false false h = absurd cc

ok_injective : {A : Type 0} {a b : A} → ok a ≡ ok b → a ≡ b
ok_injective h = cc

module _ (c : Crypto) where
  -- The responder has the identity that the initiator was started for, and signed this handshake, with
  -- that identity in its transcript.
  pub record IsExpectedResponder (i : Initiator) (auth : AuthMsg) (s : Session) : Type 0 where
    pub identity : fingerprint c.hash auth.r_identity ≡ i.expected_peer_fpr
    pub signed :
        c.ed25519_verify auth.r_identity.sign_public
          (responder_sig_msg c
            (initiator_th0 c i auth)
            auth.r_identity.sign_public
            auth.r_identity.kem_public)
          auth.r_sig
        ≡ true
    pub bound : s.th0 ≡ initiator_th0 c i auth

  -- The initiator signed this handshake, with both identities, and is whom the responder designated.
  pub record IsExpectedInitiator (r : Responder) (peer : PeerAuth) (s : Session) : Type 0 where
    pub pending : ResponderPending
    pub in_progress : r.pending ≡ some pending
    pub fpr : peer.fingerprint ≡ fingerprint c.hash peer.identity
    pub signature : Bytes
    pub signed :
        c.ed25519_verify peer.identity.sign_public
          (initiator_sig_msg c pending.th0 r.identity.public.sign_public
            r.identity.public.kem_public peer.identity.sign_public peer.identity.kem_public)
          signature
        ≡ true
    pub designated : is_other_peer r.expected_peer_fpr peer.fingerprint ≡ false
    pub bound : s.th0 ≡ pending.th0

  write_confirm_th0 :
      (i : Initiator) (auth : AuthMsg) (th0 : Bytes) (keys : SessionKeys) (bytes : Bytes)
      (s : Session)
      → write_confirm c i auth th0 keys ≡ ok (bytes, s)
      → s.th0 ≡ th0
  unfolding write_confirm
  write_confirm_th0 i auth th0 keys bytes s h = ground arith

  accept_auth_lem :
      (i : Initiator) (auth : AuthMsg) (bytes : Bytes) (s : Session)
      → accept_auth c i auth ≡ ok (bytes, s)
      → IsExpectedResponder i auth s
  unfolding accept_auth
  accept_auth_lem i auth bytes s h =
      let th0 = initiator_th0 c i auth in
      let public = auth.r_identity.sign_public in
      let m = responder_sig_msg c th0 public auth.r_identity.kem_public in
      elim (Bool-cases (length auth.r_sig == signature_len)) [
        | inr l ↦
            absurd
              (failed (handshake_protocol "wrong field length") bytes s (rw (accept_auth, l) at h))
        | inl l ↦
            elim (Bool-cases (ct_eq (fingerprint c.hash auth.r_identity) i.expected_peer_fpr)) [
              | inr e ↦ absurd (failed peer_identity_mismatch bytes s (rw (accept_auth, l, e) at h))
              | inl e ↦ elim (Bool-cases (verify_fails c public m auth.r_sig)) [
                | inl v ↦ absurd (failed bad_signature bytes s (rw (accept_auth, l, e, v) at h))
                | inr v ↦ elim (Result-cases (agree c i.ephemeral auth.r_ephemeral)) [
                  | inr (x, a) ↦ absurd (failed x bytes s (rw (accept_auth, l, e, v, a) at h))
                  | inl (dh, a) ↦ record {
                    identity =
                        ct_eq_sound (fingerprint c.hash auth.r_identity) i.expected_peer_fpr e;
                    signed =
                        (and-eq-true (c.ed25519_is_key public)
                          (c.ed25519_verify public m auth.r_sig)
                          (not-false
                            (c.ed25519_is_key public && c.ed25519_verify public m auth.r_sig) v)).1;
                    bound =
                        write_confirm_th0 i auth th0 (derive_session_keys c dh th0) bytes s
                          (rw (accept_auth, l, e, v, a) at h);
                  }
                ]
              ]
            ]
      ]

  check_peer_lem :
      (r : Responder) (pending : ResponderPending) (inner : ConfirmInner) (peer : PeerAuth)
      (s : Session)
      → r.pending ≡ some pending
      → check_peer c r pending inner ≡ ok (peer, s)
      → IsExpectedInitiator r peer s
  unfolding check_peer verify
  check_peer_lem r pending inner peer s found h =
      let public = inner.i_identity.sign_public in
      let m =
        initiator_sig_msg c pending.th0 r.identity.public.sign_public r.identity.public.kem_public
          public inner.i_identity.kem_public in
      let fpr = fingerprint c.hash inner.i_identity in
      elim (Bool-cases (length inner.i_sig == signature_len)) [
        | inr l ↦
            absurd
              (failed (handshake_protocol "wrong field length") peer s (rw (check_peer, l) at h))
        | inl l ↦ elim (Bool-cases (c.ed25519_is_key public)) [
          | inr k ↦
              absurd
                (failed (bad_key "ed25519 public key") peer s (rw (check_peer, l, verify, k) at h))
          | inl k ↦ elim (Bool-cases (c.ed25519_verify public m inner.i_sig)) [
            | inr v ↦ absurd (failed bad_signature peer s (rw (check_peer, l, verify, k, v) at h))
            | inl v ↦ elim (Bool-cases (is_other_peer r.expected_peer_fpr fpr)) [
              | inl o ↦
                  absurd (
                    failed peer_identity_mismatch peer s (rw (check_peer, l, verify, k, v, o) at h))
              | inr o ↦
                  let same : ◌≡◌ {A = Result (PeerAuth × Session)}
                      (ok (
                        record { fingerprint = fpr; identity = inner.i_identity },
                        for_responder pending.keys.k_i2r pending.keys.k_r2i pending.th0,
                      ))
                      (ok (peer, s)) =
                    rw (check_peer, l, verify, k, v, o) at h in
                  subst (λ x. IsExpectedInitiator r x.0 x.1) (ok_injective same)
                    (record {
                      pending = pending;
                      in_progress = found;
                      fpr = refl;
                      signature = inner.i_sig;
                      signed = v;
                      designated = o;
                      bound = refl;
                    })
            ]
          ]
        ]
      ]

  read_confirm_of_lem :
      (r : Responder) (pending : ResponderPending) (bytes : Bytes) (peer : PeerAuth) (s : Session)
      → r.pending ≡ some pending
      → read_confirm_of c r pending bytes ≡ ok (peer, s)
      → IsExpectedInitiator r peer s
  unfolding read_confirm_of
  read_confirm_of_lem r pending bytes peer s found h =
      elim (Result-cases (from_slice c.confirm_cbor bytes)) [
        | inr (e, f) ↦ absurd (failed e peer s (rw (read_confirm_of, f) at h))
        | inl (confirm, f) ↦
            elim (Result-cases (
              aead_open c.ciphers pending.keys.k_i2r (record_nonce dir_i2r confirm_ctr)
                (record_aad pending.th0 confirm_type confirm_ctr) confirm.sealed)) [
                  | inr (e, o) ↦ absurd (failed e peer s (rw (read_confirm_of, f, o) at h))
                  | inl (bytes2, o) ↦ elim (Result-cases (from_slice c.inner_cbor bytes2)) [
                    | inr (e, g) ↦ absurd (failed e peer s (rw (read_confirm_of, f, o, g) at h))
                    | inl (inner, g) ↦
                        check_peer_lem r pending inner peer s found
                          (rw (read_confirm_of, f, o, g) at h)
                  ]
                ]
      ]

  -- The session of the initiator opens only on an answer of the responder that it was started for: the
  -- answer has this fingerprint, and its signature covers this handshake, with the fingerprint in the
  -- transcript, and the responder's keys; the session is bound to this transcript.
  pub read_auth_write_confirm_authenticated :
      (i : Initiator) (auth_bytes confirm_bytes : Bytes) (s : Session)
      → read_auth_write_confirm c i auth_bytes ≡ ok (confirm_bytes, s)
      → (auth : AuthMsg) × (from_slice c.auth_cbor auth_bytes ≡ ok auth)
        × IsExpectedResponder i auth s
  unfolding read_auth_write_confirm
  read_auth_write_confirm_authenticated i auth_bytes confirm_bytes s h =
      elim (Result-cases (from_slice c.auth_cbor auth_bytes)) [
        | inr (e, f) ↦ absurd (failed e confirm_bytes s (rw (read_auth_write_confirm, f) at h))
        | inl (auth, f) ↦
            (auth, f, accept_auth_lem i auth confirm_bytes s (rw (read_auth_write_confirm, f) at h))
      ]

  -- The session of the responder opens only in a handshake that it answered, with a signature of the
  -- initiator over this handshake and over the keys of both, and, if the responder designated a sender,
  -- only with this one; the session is bound to the transcript that was signed.
  pub read_confirm_authenticated :
      (r : Responder) (confirm_bytes : Bytes) (peer : PeerAuth) (s : Session)
      → read_confirm c r confirm_bytes ≡ ok (peer, s)
      → IsExpectedInitiator r peer s
  unfolding read_confirm
  read_confirm_authenticated r confirm_bytes peer s h = elim (Option-cases r.pending) [
    | inl n ↦
        absurd
          (failed (handshake_protocol "handshake out of order") peer s (rw (read_confirm, n) at h))
    | inr (pending, n) ↦
        read_confirm_of_lem r pending confirm_bytes peer s n (rw (read_confirm, n) at h)
  ]
