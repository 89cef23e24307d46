-- ===== src/Readers/Contract.antt =====
-- What the readers of crates/filesec-core/src/format.rs promise, and what `read_chunk` of
-- crates/filesec-core/src/aead.rs makes of it.
use file_sec.Prelude.{
  ++-assoc, ++-[], take-append_past, drop-append_past, ℕ, zero, suc, ◌-◌, ◌≤◌, ◌≡◌, refl, sym, ap,
  ◌∙◌, true, false, [], ◌∷◌, ◌++◌, length, take, drop, is_empty, Bool-cases, inl, inr, arith,
}
use file_sec.Errors.{ok}
use file_sec.State.{Bytes}
use file_sec.Readers.{Reader, read_loop, read_chunk}

module _ (r : Reader) where
  -- What is still to come from a source, if it is as it should be. A read into a buffer that is not empty
  -- takes a part off the front of it that fits, and an empty one only at the end.
  pub record Delivers (IsValid : r.Source → Type 0) (remaining : r.Source → Bytes) (room : ℕ)
      (s : r.Source) : Type 0 where
    pub bytes : Bytes
    pub next : r.Source
    pub result : r.read room s ≡ (ok bytes, next)
    pub valid : IsValid next
    pub whole : remaining s ≡ bytes ++ remaining next
    pub fits : length bytes ≤ room
    pub progress : is_empty bytes ≡ true → remaining s ≡ []

  pub record IsReader (IsValid : r.Source → Type 0) (remaining : r.Source → Bytes) : Type 0 where
    pub delivers : (room : ℕ) (s : r.Source) → IsValid s → Delivers IsValid remaining (suc room) s

no_room_lem :
    (r : Reader) (fuel : ℕ) (filled : Bytes) (s : r.Source)
    → read_loop r fuel 0 filled s ≡ (ok filled, s)
unfolding read_loop
no_room_lem r zero filled s = refl
no_room_lem r (suc fuel) filled s = refl

end_lem : (bytes rest : Bytes) → is_empty bytes ≡ true → bytes ++ rest ≡ [] → rest ≡ []
end_lem [] rest e h = h
end_lem (b ∷ bs) rest e h = absurd cc

pub empty_lem : (bytes : Bytes) → is_empty bytes ≡ true → bytes ≡ []
empty_lem [] h = refl
empty_lem (b ∷ bs) h = absurd cc

pub more_lem : (bytes : Bytes) → is_empty bytes ≡ false → suc 0 ≤ length bytes
more_lem [] h = absurd cc
more_lem (b ∷ bs) h = omega arith

module _ (r : Reader) (IsValid : r.Source → Type 0) (remaining : r.Source → Bytes)
    (reader : IsReader r IsValid remaining) where
  -- What a filled buffer is: the front of what was to come, all of it if the buffer has space.
  pub record IsFilled (size : ℕ) (s : r.Source) (filled bytes : Bytes) (next : r.Source)
      : Type 0 where
    pub is_front : bytes ≡ filled ++ take size (remaining s)
    pub is_behind : remaining next ≡ drop size (remaining s)
    pub valid : IsValid next

  read_loop_lem :
      (fuel room : ℕ) (filled : Bytes) (s : r.Source)
      → room ≤ fuel
      → IsValid s
      → (bytes : Bytes) × (next : r.Source) × (read_loop r fuel room filled s ≡ (ok bytes, next))
        × IsFilled room s filled bytes next
  unfolding read_loop
  read_loop_lem fuel zero filled s h v = (
    filled,
    s,
    no_room_lem r fuel filled s,
    record { is_front = sym (++-[] filled); is_behind = refl; valid = v },
  )
  read_loop_lem zero (suc room) filled s h v = absurd (omega arith)
  read_loop_lem (suc fuel) (suc room) filled s h v =
      let d = reader.delivers room s v in
      elim (Bool-cases (is_empty d.bytes)) [
        | inl end ↦
            let nothing : remaining s ≡ [] = d.progress end in
            let left : remaining d.next ≡ [] =
              end_lem d.bytes (remaining d.next) end (sym d.whole ∙ nothing) in
            (
              filled,
              d.next,
              rw (read_loop, d.result, end) (ap (λ p. (ok filled, p.1)) d.result),
              record {
                is_front =
                    sym (++-[] filled) ∙ ap (λ xs. filled ++ take (suc room) xs) (sym nothing);
                is_behind = left ∙ ap (drop (suc room)) (sym nothing);
                valid = d.valid;
              },
            )
        | inr more ↦
            let some_read : suc 0 ≤ length d.bytes = more_lem d.bytes more in
            let (bytes, next, result, f) =
              read_loop_lem fuel (suc room - length d.bytes) (filled ++ d.bytes) d.next
                (omega arith) d.valid in
            (
              bytes,
              next,
              rw (read_loop, d.result, more)
                  (ap (λ p. read_loop r fuel (suc room - length d.bytes) (filled ++ d.bytes) p.1)
                      d.result
                    ∙ result),
              record {
                is_front =
                    f.is_front
                    ∙ ++-assoc filled d.bytes (take (suc room - length d.bytes) (remaining d.next))
                    ∙ ap (λ xs. filled ++ xs)
                        (sym (take-append_past (suc room) d.bytes (remaining d.next) d.fits))
                    ∙ ap (λ xs. filled ++ take (suc room) xs) (sym d.whole);
                is_behind =
                    f.is_behind
                    ∙ sym (drop-append_past (suc room) d.bytes (remaining d.next) d.fits)
                    ∙ ap (drop (suc room)) (sym d.whole);
                valid = f.valid;
              },
            )
      ]

  -- Reading a chunk from a reader that keeps its promise takes what is to come, up to the size of the
  -- chunk, and leaves the rest, whatever the pieces in which the reader gives it.
  pub read_chunk-IsFilled :
      (size : ℕ) (s : r.Source)
      → IsValid s
      → (bytes : Bytes) × (next : r.Source) × (read_chunk r size s ≡ (ok bytes, next))
        × IsFilled size s [] bytes next
  unfolding read_chunk
  read_chunk-IsFilled size s v = read_loop_lem size size [] s (omega arith) v
