-- ===== src/Aead/Refilling.antt =====
-- crates/filesec-core/src/aead.rs: a refill of the reader is a round of the loop that decrypts a stream at once.
use file_sec.Prelude.{
  ℕ, zero, suc, ◌+◌, ◌<◌, ◌≡◌, refl, sym, ap, ◌∙◌, subst, Bool, true, false, Option, none, some, [],
  ◌++◌, length, take, drop, is_empty, Bool-cases, Option-cases, inl, inr, ◌⊎◌, append-cancel,
  ++-assoc, ++-[], arith,
}
use file_sec.Errors.{Result-cases, not_ok_lem, ok_injective, Result, ok, err}
use file_sec.State.{Bytes}
use file_sec.Aead.{stream_checks, decrypt_stream_with, Ciphers, Streamed, finish, decrypt_loop}
use file_sec.Suite.{AeadAlg}
use file_sec.Aead.Totality.{shrinks}
use file_sec.Aead.Reader.{new_with, StreamDecryptReader, refill, refill_last, refill_next, rounds}

some_injective {ℓ} : {A : Type ℓ} {a b : A} → some a ≡ some b → a ≡ b
some_injective h = cc

finish_extends :
    (o : Option Bytes) (acc : Bytes) (w : ℕ) (s : Streamed)
    → finish o acc w ≡ s
    → (more : Bytes) × (s.1 ≡ acc ++ more)
finish_extends none acc w s h = ([], ap (λ x. x.1) (sym h) ∙ sym (++-[] acc))
finish_extends (some pt) acc w s h = (pt, ap (λ x. x.1) (sym h))

no_more : (acc out : Bytes) → acc ≡ acc ++ out → out ≡ []
no_more acc out h = sym (append-cancel acc acc [] out refl (++-[] acc ∙ h)).1

cut : (acc pt more out : Bytes) → (acc ++ pt) ++ more ≡ acc ++ out → out ≡ pt ++ more
cut acc pt more out h =
    (append-cancel acc acc out (pt ++ more) refl (sym h ∙ ++-assoc acc pt more)).1

module _ (c : Ciphers) where
  -- The loop only adds to what it has written.
  decrypt_loop_extends :
      (aad : Bytes) (size fuel : ℕ) (d : c.Decryptor) (current reader acc : Bytes) (w : ℕ)
      (s : Streamed)
      → decrypt_loop c aad size fuel d current reader acc w ≡ some s
      → (more : Bytes) × (s.1 ≡ acc ++ more)
  unfolding decrypt_loop
  decrypt_loop_extends aad size zero d current reader acc w s h = absurd cc
  decrypt_loop_extends aad size (suc fuel) d current reader acc w s h =
      elim (Bool-cases (is_empty (take size reader))) [
        | inl e ↦
            finish_extends (c.decrypt_last d aad current) acc w s
              (some_injective (rw (decrypt_loop, e) at h))
        | inr e ↦ elim (Option-cases (c.decrypt_next d aad current)) [
          | inl n ↦
              let same = some_injective (rw (decrypt_loop, e, n) at h) in
              ([], ap (λ x. x.1) (sym same) ∙ sym (++-[] acc))
          | inr ((d2, pt), n) ↦
              let (more, same) =
                decrypt_loop_extends aad size fuel d2 (take size reader) (drop size reader)
                  (acc ++ pt) (w + length pt) s (rw (decrypt_loop, e, n) at h) in
              (pt ++ more, same ∙ ++-assoc acc pt more)
        ]
      ]

  -- A state from which the loop would still write `out` and end with `res`.
  pub record IsPending (s : StreamDecryptReader c) (res : Result ℕ) (out : Bytes) : Type 0 where
    pub fuel : ℕ
    pub d : c.Decryptor
    pub acc : Bytes
    pub w : ℕ
    pub has_dec : s.dec ≡ some d
    pub unfinished : s.finished ≡ false
    pub runs :
        decrypt_loop c s.aad s.enc_chunk fuel d s.current s.reader acc w ≡ some (res, acc ++ out)

  pub record IsEnded (s : StreamDecryptReader c) (res : Result ℕ) (out : Bytes) : Type 0 where
    pub is_finished : s.finished ≡ true
    pub nothing : out ≡ []
    pub n : ℕ
    pub good : res ≡ ok n

  -- What a state has still to give, by the loop.
  pub record Agrees (s : StreamDecryptReader c) (res : Result ℕ) (whole : Bytes) : Type 0 where
    pub out : Bytes
    pub parts : whole ≡ drop s.pos s.plain ++ out
    pub rest : IsPending s res out ⊎ IsEnded s res out

  -- A refill that gives a chunk, or fails as the loop does.
  abbrev pub Refilled : ℕ → Result ℕ → Bytes → Result Bool × StreamDecryptReader c → Type 0
  Refilled before res out (err e, s2) = (res ≡ err e) × (out ≡ [])
  Refilled before res out (ok false, s2) = ⊥
  Refilled before res out (ok true, s2) = (rounds c s2 < before) × Agrees s2 res out

  pub refill_lem :
      (s : StreamDecryptReader c) (res : Result ℕ) (out : Bytes) (fuel : ℕ) (d : c.Decryptor)
      (acc : Bytes) (w : ℕ)
      → s.dec ≡ some d
      → s.finished ≡ false
      → decrypt_loop c s.aad s.enc_chunk fuel d s.current s.reader acc w ≡ some (res, acc ++ out)
      → Refilled (rounds c s) res out (refill c s)
  unfolding refill decrypt_loop
  refill_lem s res out zero d acc w has un runs = absurd cc
  refill_lem s res out (suc fuel) d acc w has un runs =
      let next = take s.enc_chunk s.reader in
      elim (Bool-cases (is_empty next)) [
        | inl e ↦ elim (Option-cases (c.decrypt_last d s.aad s.current)) [
          | inl n ↦
              let same = some_injective (rw (decrypt_loop, e, n) at runs) in
              rw (refill, un, has, e, refill_last, n)
                (ap (λ x. x.0) (sym same), no_more acc out (ap (λ x. x.1) same))
          | inr (pt, n) ↦
              let same = some_injective (rw (decrypt_loop, e, n) at runs) in
              let last = cut acc pt [] out (++-[] (acc ++ pt) ∙ ap (λ x. x.1) same) in
              rw (refill, un, has, e, refill_last, n)
                (
                  omega arith,
                  record {
                    out = [];
                    parts = last;
                    rest = inr (record {
                      is_finished = refl;
                      nothing = refl;
                      n = w + length pt;
                      good = ap (λ x. x.0) (sym same);
                    });
                  },
                )
        ]
        | inr e ↦ elim (Option-cases (c.decrypt_next d s.aad s.current)) [
          | inl n ↦
              let same = some_injective (rw (decrypt_loop, e, n) at runs) in
              rw (refill, un, has, e, refill_next, n)
                (ap (λ x. x.0) (sym same), no_more acc out (ap (λ x. x.1) same))
          | inr ((d2, pt), n) ↦
              let later = rw (decrypt_loop, e, n) at runs in
              let (more, same) =
                decrypt_loop_extends s.aad s.enc_chunk fuel d2 next (drop s.enc_chunk s.reader)
                  (acc ++ pt) (w + length pt) (res, acc ++ out) later in
              let shorter = shrinks s.enc_chunk s.reader e in
              rw (refill, un, has, e, refill_next, n)
                (
                  rw (un) (omega (arith, shorter)),
                  record {
                    out = more;
                    parts = cut acc pt more out (sym same);
                    rest = inl (record {
                      fuel = fuel;
                      d = d2;
                      acc = acc ++ pt;
                      w = w + length pt;
                      has_dec = refl;
                      unfinished = un;
                      runs = later ∙ ap (λ o. some (res, o)) same;
                    });
                  },
                )
        ]
      ]

  pub new_with-Agrees :
      (alg : AeadAlg) (key stream_nonce aad reader out : Bytes) (size : ℕ) (res : Result ℕ)
      (s : StreamDecryptReader c)
      → new_with c alg key stream_nonce aad reader size ≡ ok s
      → decrypt_stream_with c alg key stream_nonce aad reader [] size ≡ some (res, out)
      → Agrees s res out
  unfolding new_with decrypt_stream_with
  new_with-Agrees alg key stream_nonce aad reader out size res s made runs =
      elim (Result-cases (stream_checks alg stream_nonce size)) [
        | inr (e, bad) ↦ absurd (not_ok_lem (rw (new_with, bad) at made))
        | inl (done, good) ↦
            let same = ok_injective (rw (new_with, good) at made) in
            subst (λ x. Agrees x res out) same
              (record {
                out = out;
                parts = refl;
                rest = inl (record {
                  fuel = suc (length reader);
                  d = c.decryptor alg key stream_nonce;
                  acc = [];
                  w = 0;
                  has_dec = refl;
                  unfinished = refl;
                  runs = rw (decrypt_stream_with, good) at runs;
                });
              })
      ]
