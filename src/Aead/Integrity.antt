-- ===== src/Aead/Integrity.antt =====
-- crates/filesec-core/src/aead.rs: what an altered stream can be decrypted to.
use mathlib.Core.List.{append_assoc, append-nil}
use file_sec.Prelude.{
  get_elem?-bound, get_elem?-append, ℕ, zero, suc, ◌+◌, ◌≡◌, ◌≤◌, refl, sym, ap, ◌∙◌, subst, Bool,
  true, false, some, List, [], ◌∷◌, ◌++◌, length, take, drop, is_empty, get_elem?, length-append,
  append-cancel, Option-cases, Bool-cases, inl, inr, ◌==◌, ==_iff, ltb, be_bytes,
  be_bytes-injective, length-be_bytes, arith,
}
use file_sec.Errors.{Error, Result-cases, ok, err, auth}
use file_sec.State.{Bytes}
use file_sec.Suite.{AeadAlg}
use file_sec.Manifest.{u32_max}
use file_sec.Aead.{
  decrypt_stream_with, stream_checks, Ciphers, Streamed, chunk_nonce, flag_byte, finish,
  decrypt_loop,
}
use file_sec.Manifest.{tag_len}
use file_sec.Aead.Laws.{IsStream}

abbrev pub concat : List Bytes → Bytes
concat [] = []
concat (x ∷ xs) = x ++ concat xs

-- Under this key and prefix, a decryption succeeds only with a chunk of the sender, under the index and
-- the flag that the sender gave it.
abbrev pub IsAuthentic : Ciphers → AeadAlg → Bytes → Bytes → Bytes → List Bytes → Type 0
IsAuthentic c alg key stream_nonce aad chunks =
    (nonce ct m : Bytes)
    → c.decrypt alg key nonce aad ct ≡ some m
    → (i : ℕ) × (nonce ≡ chunk_nonce stream_nonce i (suc i == length chunks))
      × (get_elem? chunks i ≡ some m)

-- The writer got the first chunks of `rest`, and all of them if there is no error.
abbrev pub IsPrefix : List Bytes → Bytes → Streamed → Type 0
IsPrefix rest out s =
    (front back : List Bytes) × (rest ≡ front ++ back)
    × (s.1 ≡ out ++ concat front)
    × ((n : ℕ) → s.0 ≡ ok n → back ≡ [])

err-IsPrefix :
    (failure : Error) (rest : List Bytes) (out : Bytes) → IsPrefix rest out (err failure, out)
err-IsPrefix failure rest out = ([], rest, refl, sym (append-nil out), (λ n h. absurd cc))

cons-IsPrefix :
    (m : Bytes) (rest : List Bytes) (out : Bytes) (s : Streamed)
    → IsPrefix rest (out ++ m) s
    → IsPrefix (m ∷ rest) out s
cons-IsPrefix m rest out s (front, back, e, f, g) =
    (m ∷ front, back, ap (λ t. m ∷ t) e, f ∙ append_assoc out m (concat front), g)

last-IsPrefix : (m : Bytes) (out : Bytes) (n : ℕ) → IsPrefix (m ∷ []) out (ok n, out ++ m)
last-IsPrefix m out n = (m ∷ [], [], refl, ap (λ t. out ++ t) (sym (append-nil m)), (λ k h. refl))

flag_byte-injective : (a b : Bool) → flag_byte a ≡ flag_byte b → a ≡ b
flag_byte-injective true true h = refl
flag_byte-injective true false h = absurd (omega arith)
flag_byte-injective false true h = absurd (omega arith)
flag_byte-injective false false h = refl

-- Two nonces of a stream differ unless the indices and the flags are the same.
pub chunk_nonce-injective :
    (stream_nonce : Bytes) (i j : ℕ) (a b : Bool)
    → i ≤ u32_max
    → j ≤ u32_max
    → chunk_nonce stream_nonce i a ≡ chunk_nonce stream_nonce j b
    → (i ≡ j) × (a ≡ b)
chunk_nonce-injective stream_nonce i j a b h k e =
    let left = length-append stream_nonce (be_bytes 4 i) in
    let right = length-append stream_nonce (be_bytes 4 j) in
    let (front, flags) =
      append-cancel (stream_nonce ++ be_bytes 4 i) (stream_nonce ++ be_bytes 4 j) (flag_byte a ∷ [])
        (flag_byte b ∷ []) (omega (arith, left, right, length-be_bytes 4 i, length-be_bytes 4 j))
        e in
    let (same, indices) =
      append-cancel stream_nonce stream_nonce (be_bytes 4 i) (be_bytes 4 j) refl front in
    (be_bytes-injective 4 i j (omega arith) (omega arith) indices, flag_byte-injective a b cc)

single_lem : (tail : List Bytes) → length tail ≡ 0 → tail ≡ []
single_lem [] h = refl
single_lem (x ∷ xs) h = absurd (omega arith)

some_injective : {A : Type 0} {a b : A} → some a ≡ some b → a ≡ b
some_injective h = cc

module _ (c : Ciphers) (alg : AeadAlg) (key stream_nonce aad : Bytes) (chunks : List Bytes)
    (stream : IsStream c alg key stream_nonce)
    (authentic : IsAuthentic c alg key stream_nonce aad chunks)
    (few : length chunks ≤ suc u32_max) where
  -- A chunk that opens is the next one of the sender, and the flag tells whether it is the last.
  opened_lem :
      (done rest : List Bytes) (last : Bool) (ct m : Bytes)
      → done ++ rest ≡ chunks
      → length done ≤ u32_max
      → c.decrypt alg key (chunk_nonce stream_nonce (length done) last) aad ct ≡ some m
      → (tail : List Bytes) × (rest ≡ m ∷ tail) × (last ≡ true → tail ≡ [])
  opened_lem done rest last ct m whole h d =
      let (j, e, g) = authentic (chunk_nonce stream_nonce (length done) last) ct m d in
      let bound = get_elem?-bound chunks j m g in
      let (same, flags) =
        chunk_nonce-injective stream_nonce (length done) j last (suc j == length chunks) h
          (omega arith) e in
      let here : get_elem? (done ++ rest) (length done) ≡ some m = rw (whole, same) g in
      let (tail, t) = get_elem?-append done rest m here in
      (
        tail,
        t,
        (λ l.
            let sum = length-append done rest in
            let all_of_it : suc j ≡ length chunks =
              (==_iff (suc j) (length chunks)).0 (sym flags ∙ l) in
            single_lem tail (omega (arith, ap length whole, ap length t))),
      )

  stopped :
      (failure : Error) (rest : List Bytes) (out : Bytes) (s : Streamed)
      → (err failure, out) ≡ s
      → IsPrefix rest out s
  stopped failure rest out s h = subst (IsPrefix rest out) h (err-IsPrefix failure rest out)

  last_lem :
      (done rest : List Bytes) (current out : Bytes) (written : ℕ) (s : Streamed)
      → done ++ rest ≡ chunks
      → length done ≤ u32_max
      → finish
          (c.decrypt alg key (chunk_nonce stream_nonce (length done) true) aad current)
          out
          written
        ≡ s
      → IsPrefix rest out s
  last_lem done rest current out written s whole h r =
      elim (Option-cases
        (c.decrypt alg key (chunk_nonce stream_nonce (length done) true) aad current)) [
          | inl n ↦ stopped auth rest out s (rw (n) at r)
          | inr (m, n) ↦
              let (tail, t, ends) = opened_lem done rest true current m whole h n in
              let one : rest ≡ m ∷ [] = t ∙ ap (λ x. m ∷ x) (ends refl) in
              rw (one, ← (rw (n) at r)) (last-IsPrefix m out (written + length m))
        ]

  decrypt_loop-IsPrefix :
      (enc_chunk fuel : ℕ) (done rest : List Bytes) (current reader out : Bytes) (written : ℕ)
      (s : Streamed)
      → done ++ rest ≡ chunks
      → length done ≤ u32_max
      → decrypt_loop c aad enc_chunk fuel (stream.dec_at (length done)) current reader out written
        ≡ some s
      → IsPrefix rest out s
  unfolding decrypt_loop
  decrypt_loop-IsPrefix enc_chunk zero done rest current reader out written s whole h r = absurd cc
  decrypt_loop-IsPrefix enc_chunk (suc fuel) done rest current reader out written s whole h r =
      let i = length done in
      elim (Bool-cases (is_empty (take enc_chunk reader))) [
        | inl e ↦
            last_lem done rest current out written s whole h
              (some_injective (rw (decrypt_loop, e, stream.dec_last i aad current h) at r))
        | inr e ↦ elim (Bool-cases (ltb i u32_max)) [
          | inr full ↦
              let at_end : i ≡ u32_max = ground arith in
              stopped auth rest out s
                (some_injective (rw (decrypt_loop, e, at_end, stream.dec_full aad current) at r))
          | inl below ↦
              elim (Option-cases
                (c.decrypt alg key (chunk_nonce stream_nonce i false) aad current)) [
                  | inl n ↦ stopped auth rest out s (
                      some_injective (
                        rw (decrypt_loop, e, stream.dec_next i aad current (ground arith), n) at r))
                  | inr (m, n) ↦
                      let (tail, t, ends) = opened_lem done rest false current m whole h n in
                      let stopped_or : decrypt_loop c aad enc_chunk fuel (stream.dec_at (suc i))
                            (take enc_chunk reader) (drop enc_chunk reader) (out ++ m)
                            (written + length m)
                          ≡ some s =
                        (rw (decrypt_loop, e, stream.dec_next i aad current (ground arith), n) at
                          r) in
                      let one_more : length (done ++ m ∷ []) ≡ suc i =
                        omega (arith, length-append done (m ∷ [])) in
                      subst (λ x. IsPrefix x out s) (sym t)
                        (cons-IsPrefix m tail out s (
                          decrypt_loop-IsPrefix enc_chunk fuel (done ++ m ∷ []) tail
                            (take enc_chunk reader) (drop enc_chunk reader) (out ++ m)
                            (written + length m) s
                            (append_assoc done (m ∷ []) tail ∙ rw (← t) whole) (ground arith)
                            (rw (one_more) stopped_or)))
                ]
        ]
      ]

  -- Decryption of any input: if every chunk that opens is one of the sender, under its index and its
  -- flag, then the writer gets the first chunks of the sender, in their order and whole, and without an
  -- error it gets all of them. A stream that was cut, reordered or extended is thus never taken for
  -- complete.
  pub decrypt_stream_with-IsPrefix :
      (input out : Bytes) (chunk_size : ℕ) (s : Streamed)
      → decrypt_stream_with c alg key stream_nonce aad input out chunk_size ≡ some s
      → IsPrefix chunks out s
  unfolding decrypt_stream_with
  decrypt_stream_with-IsPrefix input out chunk_size s r =
      elim (Result-cases (stream_checks alg stream_nonce chunk_size)) [
        | inr (e, f) ↦ stopped e chunks out s (some_injective (rw (decrypt_stream_with, f) at r))
        | inl (done, f) ↦
            decrypt_loop-IsPrefix (chunk_size + tag_len) (suc (length input)) [] chunks
              (take (chunk_size + tag_len) input) (drop (chunk_size + tag_len) input) out 0 s refl
              (omega arith) (rw (decrypt_stream_with, f, stream.dec_start) at r)
      ]
