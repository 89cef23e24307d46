-- ===== src/Transport/Gate.antt =====
-- crates/filesec-core/src/transport.rs: what a side has checked when it goes on.
use file_sec.Codec.{from_slice}
use file_sec.Prelude.{
  ap, ◌≡◌, sym, ◌∙◌, true, Option, length, ◌==◌, ==_iff, Bool-cases, inl, inr, text_eq, text_eq_iff,
  and-eq-true, arith,
}
use file_sec.Errors.{Error, Result, ok, err, Result-cases}
use file_sec.State.{Bytes}
use file_sec.Transport.{magic, Crypto, HelloMsg, proto_version, suite_classic}
use file_sec.Transport.Handshake.{Responder, HelloReplayCache, ct_eq, admit_if_shared, hello_proof}
use file_sec.Transport.Messages.{write_auth, check_hello, read_hello_write_auth}

ct_eq_sound : (a b : Bytes) → ct_eq a b ≡ true → a ≡ b
ct_eq_sound a b h = (text_eq_iff a b).0 (and-eq-true (length a == length b) (text_eq a b) h).1

refused :
    (e : Error) (cache next : Option HelloReplayCache) (r2 : Responder) (bytes : Bytes)
    → ◌≡◌ {A = Result (Responder × Bytes) × Option HelloReplayCache}
        (err e, cache)
        (ok (r2, bytes), next)
    → ⊥
refused e cache next r2 bytes h = cc

module _ (c : Crypto) where
  check_hello_sound :
      (r : Responder) (hello : HelloMsg)
      → check_hello c r hello ≡ ok tt
      → hello_proof c r.k_psk proto_version suite_classic hello.i_ephemeral hello.i_nonce
        ≡ hello.i_psk_tag
  unfolding check_hello
  check_hello_sound r hello h =
      let proof = hello_proof c r.k_psk hello.version hello.suite hello.i_ephemeral hello.i_nonce in
      elim (Bool-cases (text_eq hello.magic magic)) [
        | inr m ↦ absurd (ground arith)
        | inl m ↦ elim (Bool-cases (hello.version == proto_version)) [
          | inr v ↦ absurd (ground arith)
          | inl v ↦ elim (Bool-cases (hello.suite == suite_classic)) [
            | inr s ↦ absurd (ground arith)
            | inl s ↦ elim (Bool-cases (ct_eq proof hello.i_psk_tag)) [
              | inr t ↦ absurd (ground arith)
              | inl t ↦
                  rw
                    (
                      (==_iff hello.version proto_version).0 v,
                      (==_iff hello.suite suite_classic).0 s,
                    )
                    at (ct_eq_sound proof hello.i_psk_tag t)
            ]
          ]
        ]
      ]

  -- The responder answers a message only if it proves that its sender knows the transfer secret, for the
  -- protocol version and suite of this program and for the ephemeral key and the nonce in the message,
  -- and only if the shared cache admits this proof, which the cache that is left then holds.
  pub read_hello_write_auth_gated :
      (r r2 : Responder) (cache next : Option HelloReplayCache) (hello_bytes auth_bytes : Bytes)
      → read_hello_write_auth c r cache hello_bytes ≡ (ok (r2, auth_bytes), next)
      → (hello : HelloMsg) × (from_slice c.hello_cbor hello_bytes ≡ ok hello)
        × (hello.i_psk_tag
            ≡ hello_proof c r.k_psk proto_version suite_classic hello.i_ephemeral hello.i_nonce)
        × (admit_if_shared cache hello.i_psk_tag ≡ ok next)
  unfolding read_hello_write_auth
  read_hello_write_auth_gated r r2 cache next hello_bytes auth_bytes h =
      elim (Result-cases (from_slice c.hello_cbor hello_bytes)) [
        | inr (e, f) ↦
            absurd (refused e cache next r2 auth_bytes (rw (read_hello_write_auth, f) at h))
        | inl (hello, f) ↦ elim (Result-cases (check_hello c r hello)) [
          | inr (e, g) ↦
              absurd (refused e cache next r2 auth_bytes (rw (read_hello_write_auth, f, g) at h))
          | inl (proved, g) ↦ elim (Result-cases (admit_if_shared cache hello.i_psk_tag)) [
            | inr (e, a) ↦
                absurd
                  (refused e cache next r2 auth_bytes (rw (read_hello_write_auth, f, g, a) at h))
            | inl (shared, a) ↦
                let answer : (write_auth c r hello, shared) ≡ (ok (r2, auth_bytes), next) =
                  rw (read_hello_write_auth, f, g, a) at h in
                (hello, f, sym (check_hello_sound r hello g), a ∙ ap ok (ap (λ x. x.1) answer))
          ]
        ]
      ]
