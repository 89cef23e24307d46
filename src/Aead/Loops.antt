-- ===== src/Aead/Loops.antt =====
-- crates/filesec-core/src/aead.rs: the loops over a stream, chunk by chunk.
use mathlib.Core.List.{append_assoc, append-nil}
use mathlib.Core.Path.{ap₂}
use file_sec.Prelude.{
  ◌==◌, drop-append_width, take-all, drop-all, subst, ℕ, zero, suc, ◌+◌, ◌*◌, ◌≡◌, ◌≤◌, ◌<◌, refl,
  sym, ap, ◌∙◌, Bool, true, false, Option, some, [], ◌∷◌, ◌++◌, length, take, drop, length-append,
  length-take, length-drop, take-append-drop, take-append, drop-append, arith,
}
use file_sec.Errors.{ok}
use file_sec.State.{Bytes}
use file_sec.Suite.{AeadAlg, stream_nonce_len}
use file_sec.Manifest.{tag_len, u32_max}
use file_sec.Blobs.{max_chunk_size}
use file_sec.Aead.{Ciphers, Streamed, chunk_nonce, encrypt_loop, decrypt_loop}
use file_sec.Aead.Steps.{encrypt_loop-last, encrypt_loop-next, decrypt_loop-last, decrypt_loop-next}
use file_sec.Aead.Laws.{IsSealed, IsAead, IsStream, length-chunk_nonce}

pub same_end :
    {a b : ℕ} {x y : Bytes}
    → a ≡ b
    → x ≡ y
    → ◌≡◌ {A = Option Streamed} (some (ok a, x)) (some (ok b, y))
same_end e f = ap₂ (λ n out. some (ok n, out)) e f

module _ (c : Ciphers) (alg : AeadAlg) (key stream_nonce aad : Bytes) (size : ℕ)
    (aead : IsAead c alg key) (stream : IsStream c alg key stream_nonce)
    (nonce_fits : length stream_nonce ≡ stream_nonce_len alg) (some_size : 0 < size)
    (small : size ≤ max_chunk_size) where
  -- The chunk `k` of a ciphertext, sealed as the last one or not, opens as the chunk `k` of a text.
  abbrev pub HasChunk : ℕ → ℕ → ℕ → Bytes → Bytes → Type 0
  HasChunk i k j ct text =
      c.decrypt alg key (chunk_nonce stream_nonce (i + k) (k == j)) aad
        (take (size + tag_len) (drop (k * (size + tag_len)) ct))
      ≡ some (take size (drop (k * size) text))

  -- What the loops do from a chunk index on: the ciphertext that the first writes, and the second
  -- writes the plaintext for it.
  pub record Runs (i j fuel : ℕ) (current reader : Bytes) : Type 0 where
    pub ct : Bytes
    pub tagged : length ct ≡ length current + length reader + suc j * tag_len
    pub encrypts :
        (out : Bytes) (written : ℕ)
        → encrypt_loop c aad size fuel (stream.enc_at i) current reader out written
          ≡ some (ok (written + length ct), out ++ ct)
    pub decrypts :
        (fuel2 : ℕ) (out : Bytes) (written : ℕ)
        → j < fuel2
        → decrypt_loop c aad
            (size + tag_len)
            fuel2
            (stream.dec_at i)
            (take (size + tag_len) ct)
            (drop (size + tag_len) ct)
            out
            written
          ≡ some (ok (written + (length current + length reader)), out ++ (current ++ reader))
    pub chunks : (k : ℕ) → k ≤ j → HasChunk i k j ct (current ++ reader)

  chunk :
      (i : ℕ) (last : Bool) (m : Bytes)
      → length m ≤ size
      → IsSealed c alg key (chunk_nonce stream_nonce i last) aad m
  chunk i last m h =
      aead (chunk_nonce stream_nonce i last) aad m
        (length-chunk_nonce alg stream_nonce i last nonce_fits) (omega arith)

  decrypts_last :
      (i fuel : ℕ) (current out : Bytes) (written : ℕ)
      (s : IsSealed c alg key (chunk_nonce stream_nonce i true) aad current)
      → length current ≤ size
      → i ≤ u32_max
      → 0 < fuel
      → decrypt_loop c aad
          (size + tag_len)
          fuel
          (stream.dec_at i)
          (take (size + tag_len) s.ct)
          (drop (size + tag_len) s.ct)
          out
          written
        ≡ some (ok (written + (length current + length {A = ℕ} [])), out ++ (current ++ []))
  decrypts_last i zero current out written s fits h f = absurd (omega arith)
  decrypts_last i (suc fuel) current out written s fits h f =
      let short : length s.ct ≤ size + tag_len = omega (arith, s.tagged) in
      rw (take-all (size + tag_len) s.ct short, drop-all (size + tag_len) s.ct short)
        (decrypt_loop-last aad size stream i fuel current out written s h
          ∙ same_end (omega arith) (ap (λ t. out ++ t) (sym (append-nil current))))

  first-HasChunk :
      (i j : ℕ) (current reader rest : Bytes) (last : Bool)
      (s : IsSealed c alg key (chunk_nonce stream_nonce i last) aad current)
      → last ≡ (0 == j)
      → take (size + tag_len) (s.ct ++ rest) ≡ s.ct
      → take size (current ++ reader) ≡ current
      → HasChunk i 0 j (s.ct ++ rest) (current ++ reader)
  first-HasChunk i j current reader rest last s f e t =
      let index : i + 0 ≡ i = omega arith in
      let start : 0 * (size + tag_len) ≡ 0 = omega arith in
      let start2 : 0 * size ≡ 0 = omega arith in rw (index, ← f, start, start2, e, t) s.opens

  later-HasChunk :
      (i k j : ℕ) (piece ct part text : Bytes)
      → length piece ≡ size + tag_len
      → length part ≡ size
      → HasChunk (suc i) k j ct text
      → HasChunk i (suc k) (suc j) (piece ++ ct) (part ++ text)
  later-HasChunk i k j piece ct part text w v h =
      let index : i + suc k ≡ suc i + k = omega arith in
      let flag : (suc k == suc j) ≡ (k == j) = ground arith in
      rw
        (
          index,
          flag,
          drop-append_width k (size + tag_len) piece ct w,
          drop-append_width k size part text v,
        )
        h

  last_chunks :
      (i : ℕ) (current : Bytes)
      (s : IsSealed c alg key (chunk_nonce stream_nonce i true) aad current)
      → length current ≤ size
      → (k : ℕ) → k ≤ 0
      → HasChunk i k 0 s.ct (current ++ [])
  last_chunks i current s fits zero h =
      let whole = append-nil s.ct in
      let piece : take (size + tag_len) (s.ct ++ []) ≡ s.ct =
        rw (whole) (take-all (size + tag_len) s.ct (omega (arith, s.tagged))) in
      let part : take size (current ++ []) ≡ current =
        rw (append-nil current) (take-all size current fits) in
      subst (λ t. HasChunk i 0 0 t (current ++ [])) whole
        (first-HasChunk i 0 current [] [] true s refl piece part)
  last_chunks i current s fits (suc k) h = absurd (omega arith)

  next_chunks :
      (i j : ℕ) (current reader : Bytes)
      (s : IsSealed c alg key (chunk_nonce stream_nonce i false) aad current) (ct : Bytes)
      → length current ≡ size
      → ((k : ℕ) → k ≤ j → HasChunk (suc i) k j ct (take size reader ++ drop size reader))
      → (k : ℕ) → k ≤ suc j
      → HasChunk i k (suc j) (s.ct ++ ct) (current ++ reader)
  next_chunks i j current reader s ct full others zero h =
      let width : length s.ct ≡ size + tag_len = omega (arith, s.tagged) in
      first-HasChunk i (suc j) current reader ct false s (ground arith)
        (subst (λ n. take n (s.ct ++ ct) ≡ s.ct) width (take-append s.ct ct))
        (subst (λ n. take n (current ++ reader) ≡ current) full (take-append current reader))
  next_chunks i j current reader s ct full others (suc k) h =
      later-HasChunk i k j s.ct ct current reader (omega (arith, s.tagged)) full (
        subst (λ t. HasChunk (suc i) k j ct t) (take-append-drop size reader)
          (others k (omega arith)))

  last-Runs :
      (i fuel : ℕ) (current : Bytes)
      → length current ≤ size
      → i ≤ u32_max
      → Runs i 0 (suc fuel) current []
  last-Runs i fuel current fits h =
      let s = chunk i true current fits in
      record {
        ct = s.ct;
        tagged = omega (arith, s.tagged);
        encrypts =
            (λ out written. encrypt_loop-last aad size stream i fuel current out written s h);
        decrypts = (λ fuel2 out written. decrypts_last i fuel2 current out written s fits h);
        chunks = last_chunks i current s fits;
      }

  decrypts_next :
      (i j fuel : ℕ) (current reader : Bytes)
      (s : IsSealed c alg key (chunk_nonce stream_nonce i false) aad current)
      (r : Runs (suc i) j fuel (take size reader) (drop size reader))
      → length current ≡ size
      → i < u32_max
      → (fuel2 : ℕ) (out : Bytes) (written : ℕ) → suc j < fuel2
      → decrypt_loop c aad
          (size + tag_len)
          fuel2
          (stream.dec_at i)
          (take (size + tag_len) (s.ct ++ r.ct))
          (drop (size + tag_len) (s.ct ++ r.ct))
          out
          written
        ≡ some (ok (written + (length current + length reader)), out ++ (current ++ reader))
  decrypts_next i j fuel current reader s r full h zero out written f = absurd (omega arith)
  decrypts_next i j fuel current reader s r full h (suc fuel2) out written f =
      let width : length s.ct ≡ size + tag_len = omega (arith, s.tagged) in
      let first : take (size + tag_len) (s.ct ++ r.ct) ≡ s.ct =
        subst (λ n. take n (s.ct ++ r.ct) ≡ s.ct) width (take-append s.ct r.ct) in
      let others : drop (size + tag_len) (s.ct ++ r.ct) ≡ r.ct =
        subst (λ n. drop n (s.ct ++ r.ct) ≡ r.ct) width (drop-append s.ct r.ct) in
      let more : 0 < length (take (size + tag_len) r.ct) =
        omega (arith, length-take (size + tag_len) r.ct, r.tagged) in
      let pieces = take-append-drop size reader in
      rw (first, others)
        (decrypt_loop-next aad size stream i fuel2 current r.ct out written s h more
          ∙ r.decrypts fuel2 (out ++ current) (written + length current) (omega arith)
          ∙ same_end
              (omega (arith, length-append (take size reader) (drop size reader), ap length pieces))
              (append_assoc out current (take size reader ++ drop size reader)
                ∙ ap (λ t. out ++ (current ++ t)) pieces))

  next-Runs :
      (i j fuel : ℕ) (current reader : Bytes)
      → length current ≤ size
      → length current ≡ size
      → 0 < length reader
      → i < u32_max
      → Runs (suc i) j fuel (take size reader) (drop size reader)
      → Runs i (suc j) (suc fuel) current reader
  next-Runs i j fuel current reader fits full more h r =
      let s = chunk i false current fits in
      record {
        ct = s.ct ++ r.ct;
        tagged = omega (
          arith,
          s.tagged,
          r.tagged,
          length-append s.ct r.ct,
          length-take size reader,
          length-drop size reader,
        );
        encrypts = (λ out written.
            encrypt_loop-next aad size stream i fuel current reader out written s h
              (omega (arith, length-take size reader))
            ∙ r.encrypts (out ++ s.ct) (written + length s.ct)
            ∙ same_end (omega (arith, length-append s.ct r.ct)) (append_assoc out s.ct r.ct));
        decrypts = decrypts_next i j fuel current reader s r full h;
        chunks = next_chunks i j current reader s r.ct full r.chunks;
      }

  pub runs :
      (j i fuel : ℕ) (current reader : Bytes)
      → length current ≤ size
      → (0 < length reader → length current ≡ size)
      → length reader ≤ j * size
      → ((k : ℕ) → j ≡ suc k → k * size < length reader)
      → j < fuel
      → i + j ≤ u32_max
      → Runs i j fuel current reader
  runs zero i (suc fuel) current [] fits full room need fuelled index =
      last-Runs i fuel current fits (omega arith)
  runs zero i fuel current (x ∷ xs) fits full room need fuelled index = absurd (omega arith)
  runs (suc j) i fuel current [] fits full room need fuelled index =
      absurd (omega (arith, need j refl))
  runs j i zero current reader fits full room need fuelled index = absurd (omega arith)
  runs (suc j) i (suc fuel) current (x ∷ xs) fits full room need fuelled index =
      let reader = x ∷ xs in
      let front = length-take size reader in
      let back = length-drop size reader in
      next-Runs i j fuel current reader fits (full (omega arith)) (omega arith) (omega arith) (
        runs j (suc i) fuel (take size reader) (drop size reader) (omega arith)
          (λ more. omega arith) (omega (arith, room))
          (λ k e. omega (arith, need j refl, ap (λ t. t * size) e)) (omega arith) (omega arith))
