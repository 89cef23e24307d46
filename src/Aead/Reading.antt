-- ===== src/Aead/Reading.antt =====
-- crates/filesec-core/src/aead.rs: reading a stream while it is decrypted gives what decrypting it at once
-- writes.
use file_sec.Prelude.{
  ℕ, zero, suc, ◌+◌, ◌-◌, ◌≤◌, ◌<◌, ◌≡◌, sym, ap, ◌∙◌, subst, Bool, true, false, [], ◌∷◌, ◌++◌,
  length, take, drop, ltb, Bool-cases, inl, inr, ◌⊎◌, min, ++-assoc, length-take, length-drop,
  take-append-drop, drop-drop, drop-all, ltb→lt, arith,
}
use file_sec.Errors.{Error, Result, ok, err}
use file_sec.State.{Bytes}
use file_sec.Aead.{Ciphers}
use file_sec.Aead.Reader.{
  ReadResult, gave, failed, StreamDecryptReader, refill, deliver, after_refill, rounds, read_within,
}
use file_sec.Aead.Wrapping.{IsWrapped, read_error-IsWrapped}
use file_sec.Aead.Refilling.{IsPending, IsEnded, Agrees, Refilled, refill_lem}

no_round : (n : ℕ) → suc n ≤ 0 → ⊥
no_round n h = omega arith

module _ (c : Ciphers) where
  -- What a read gives: a part of what is to come, or nothing at the end, or the loop's error as an error of
  -- the reader.
  abbrev pub ReadOf : ℕ → Result ℕ → Bytes → ReadResult × StreamDecryptReader c → Type 0
  ReadOf room res whole (failed f, s2) = (e : Error) × IsWrapped e f × (res ≡ err e) × (whole ≡ [])
  ReadOf room res whole (gave [], s2) = (whole ≡ []) × (n : ℕ) × (res ≡ ok n)
  ReadOf room res whole (gave (b ∷ bytes), s2) =
      (later : Bytes) × (whole ≡ (b ∷ bytes) ++ later) × Agrees c s2 res later

  split_lem :
      (room : ℕ) (res : Result ℕ) (whole got later : Bytes) (s : StreamDecryptReader c)
      → 1 ≤ length got
      → whole ≡ got ++ later
      → Agrees c s res later
      → ReadOf room res whole (gave got, s)
  split_lem room res whole [] later s h same a = absurd (omega arith)
  split_lem room res whole (b ∷ got) later s h same a = (later, same, a)

  -- The position is no part of what is still to be decrypted.
  moved :
      (s : StreamDecryptReader c) (pos : ℕ) (res : Result ℕ) (out : Bytes)
      → IsPending c s res out ⊎ IsEnded c s res out
      → IsPending c (record s { pos = pos }) res out ⊎ IsEnded c (record s { pos = pos }) res out
  moved s pos res out (inl p) = inl (record {
    fuel = p.fuel;
    d = p.d;
    acc = p.acc;
    w = p.w;
    has_dec = p.has_dec;
    unfinished = p.unfinished;
    runs = p.runs;
  })
  moved s pos res out (inr e) =
      inr (record { is_finished = e.is_finished; nothing = e.nothing; n = e.n; good = e.good })

  deliver_lem :
      (room : ℕ) (s : StreamDecryptReader c) (res : Result ℕ) (whole : Bytes)
      → s.pos < length s.plain
      → Agrees c s res whole
      → ReadOf room res whole (deliver c (suc room) s)
  deliver_lem room s res whole h a =
      let n = min (length s.plain - s.pos) (suc room) in
      let src = drop s.pos s.plain in
      let got_size = length-take n src in
      let src_size = length-drop s.pos s.plain in
      let parts : whole ≡ take n src ++ (drop n src ++ a.out) =
        a.parts
        ∙ ap (λ xs. xs ++ a.out) (sym (take-append-drop n src))
        ∙ ++-assoc (take n src) (drop n src) a.out in
      split_lem room res whole (take n src) (drop n src ++ a.out) (record s { pos = s.pos + n })
        (omega arith) parts
        (record {
          out = a.out;
          parts = ap (λ xs. xs ++ a.out) (sym (drop-drop s.pos n s.plain));
          rest = moved s (s.pos + n) res a.out a.rest;
        })

  after_lem :
      (n room before : ℕ) (res : Result ℕ) (out : Bytes) (r : Result Bool × StreamDecryptReader c)
      → before ≤ suc n
      → Refilled c before res out r
      → ((s2 : StreamDecryptReader c)
          → rounds c s2 ≤ n
          → Agrees c s2 res out
          → ReadOf room res out (read_within c n (suc room) s2))
      → ReadOf room res out (after_refill c (λ s2. read_within c n (suc room) s2) r)
  after_lem n room before res out (err e, s2) h (bad, nothing) next =
      (e, read_error-IsWrapped e, bad, nothing)
  after_lem n room before res out (ok true, s2) h (fewer, a) next = next s2 (omega arith) a
  after_lem n room before res out (ok false, s2) h r next = absurd r

  -- When the chunk is used up, what is to come is what is still to be decrypted.
  used_up :
      (s : StreamDecryptReader c) (res : Result ℕ) (whole : Bytes) (a : Agrees c s res whole)
      → ltb s.pos (length s.plain) ≡ false
      → whole ≡ a.out
  used_up s res whole a h = a.parts ∙ ap (λ xs. xs ++ a.out) (drop-all s.pos s.plain (ground arith))

  pub read_within_lem :
      (n room : ℕ) (s : StreamDecryptReader c) (res : Result ℕ) (whole : Bytes)
      → rounds c s ≤ n
      → Agrees c s res whole
      → ReadOf room res whole (read_within c n (suc room) s)
  unfolding read_within refill
  read_within_lem zero room s res whole h a = elim (Bool-cases (ltb s.pos (length s.plain))) [
    | inl more ↦
        rw (read_within, more) (deliver_lem room s res whole (ltb→lt s.pos (length s.plain) more) a)
    | inr empty ↦ elim a.rest [
      | inl p ↦ absurd (no_round (length s.reader) (rw (p.unfinished) at h))
      | inr e ↦ rw (read_within, empty) (used_up s res whole a empty ∙ e.nothing, e.n, e.good)
    ]
  ]
  read_within_lem (suc n) room s res whole h a = elim (Bool-cases (ltb s.pos (length s.plain))) [
    | inl more ↦
        rw (read_within, more) (deliver_lem room s res whole (ltb→lt s.pos (length s.plain) more) a)
    | inr empty ↦
        let same = used_up s res whole a empty in
        elim a.rest [
          | inl p ↦
              rw (read_within, empty)
                (subst
                  (λ xs.
                    ReadOf room res xs
                      (after_refill c (λ s2. read_within c n (suc room) s2) (refill c s)))
                  (sym same)
                  (after_lem n room (rounds c s) res a.out (refill c s) h
                    (refill_lem c s res a.out p.fuel p.d p.acc p.w p.has_dec p.unfinished p.runs)
                    (λ s2 fewer b. read_within_lem n room s2 res a.out fewer b)))
          | inr e ↦ rw (read_within, empty, refill, e.is_finished) (same ∙ e.nothing, e.n, e.good)
        ]
  ]
