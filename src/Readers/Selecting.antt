-- ===== src/Readers/Selecting.antt =====
-- crates/filesec-core/src/format.rs: the reader that keeps some segments of a stream gives these.
use file_sec.Prelude.{
  ℕ, zero, suc, ◌+◌, ◌-◌, ◌≤◌, ◌≡◌, refl, sym, ap, ◌∙◌, min, Bool, true, false, List, [], ◌∷◌, ◌++◌,
  length, take, drop, is_empty, if◌then◌else◌, length-append, length-drop, ++-assoc,
  take-append_past, drop-append_past, arith,
}
use file_sec.Errors.{ok}
use file_sec.State.{Bytes}
use file_sec.Readers.{Reader}
use file_sec.Readers.Contract.{Delivers, IsReader, more_lem}
use file_sec.Readers.Select.{
  scratch_len, SelectReader, discard, read_kept, after_read, after_discard, read_segments,
  select_reader,
}

-- The kept segments of some bytes.
abbrev pub selected : List (ℕ × Bool) → Bytes → Bytes
selected [] bytes = []
selected ((size, keep) ∷ segments) bytes =
    (if keep then take size bytes else []) ++ selected segments (drop size bytes)

abbrev pub total : List (ℕ × Bool) → ℕ
total [] = 0
total ((size, keep) ∷ segments) = size + total segments

no_bytes_lem : (keep : Bool) (ys : Bytes) → (if keep then [] else []) ++ ys ≡ ys
no_bytes_lem true ys = refl
no_bytes_lem false ys = refl

keeps :
    (r : Reader) (room : ℕ) (segments : List (ℕ × Bool)) (left : ℕ) (s : r.Source)
    → read_segments r room segments (suc left) true s ≡ read_kept r room segments (suc left) s
unfolding read_segments
keeps r room [] left s = refl
keeps r room (x ∷ segments) left s = refl

module _ (r : Reader) (IsValid : r.Source → Type 0) (remaining : r.Source → Bytes)
    (reader : IsReader r IsValid remaining) where
  abbrev pub selected_remaining : SelectReader r → Bytes
  selected_remaining s = selected ((s.left, s.keep) ∷ s.segments) (remaining s.inner)

  -- The source has the bytes of every segment.
  abbrev pub IsSelectValid : SelectReader r → Type 0
  IsSelectValid s = IsValid s.inner × (s.left + total s.segments ≤ length (remaining s.inner))

  -- A read that is due gives something.
  some_lem :
      (room : ℕ) (s : r.Source) (v : IsValid s)
      → 1 ≤ length (remaining s)
      → is_empty (reader.delivers room s v).bytes ≡ false
  some_lem room s v h = ground arith

  size_lem :
      (room : ℕ) (s : r.Source) (v : IsValid s)
      → length (remaining s)
        ≡ length (reader.delivers room s v).bytes
          + length (remaining (reader.delivers room s v).next)
  size_lem room s v =
      let d = reader.delivers room s v in
      ap length d.whole ∙ length-append d.bytes (remaining d.next)

  discard_lem :
      (fuel left : ℕ) (s : r.Source)
      → left ≤ fuel
      → IsValid s
      → left ≤ length (remaining s)
      → (s2 : r.Source) × (discard r fuel left s ≡ (ok tt, 0, s2))
        × IsValid s2
        × (remaining s2 ≡ drop left (remaining s))
  unfolding discard
  discard_lem zero zero s h v size = (s, refl, v, refl)
  discard_lem zero (suc left) s h v size = absurd (omega arith)
  discard_lem (suc fuel) zero s h v size = (s, refl, v, refl)
  discard_lem (suc fuel) (suc left) s h v size =
      let room = min left 65535 in
      let d = reader.delivers room s v in
      let want : min (suc left) scratch_len ≡ suc room = omega arith in
      let result = ap (λ n. r.read n s) want ∙ d.result in
      let more = some_lem room s v (omega arith) in
      let took = more_lem d.bytes more in
      let fits = d.fits in
      let all = size_lem room s v in
      let (s2, done, valid, behind) =
        discard_lem fuel (suc left - length d.bytes) d.next (omega arith) d.valid (omega arith) in
      (
        s2,
        rw (discard, result, more)
            (ap (λ p. discard r fuel (suc left - length d.bytes) p.1) result ∙ done),
        valid,
        behind
            ∙ sym (drop-append_past (suc left) d.bytes (remaining d.next) (omega arith))
            ∙ ap (drop (suc left)) (sym d.whole),
      )

  kept_lem :
      (room : ℕ) (segments : List (ℕ × Bool)) (left : ℕ) (s : r.Source)
      → IsValid s
      → suc left + total segments ≤ length (remaining s)
      → Delivers
          (select_reader r)
          IsSelectValid
          selected_remaining
          (suc room)
          (record { inner = s; segments = segments; left = suc left; keep = true })
  unfolding read_segments
  kept_lem room segments left s v size =
      let short = min left room in
      let d = reader.delivers short s v in
      let want : min (suc left) (suc room) ≡ suc short = omega arith in
      let result = ap (λ n. r.read n s) want ∙ d.result in
      let more = some_lem short s v (omega arith) in
      let fits = d.fits in
      let all = size_lem short s v in
      let left2 = suc left - length d.bytes in
      let cut = take-append_past (suc left) d.bytes (remaining d.next) (omega arith) in
      let behind = drop-append_past (suc left) d.bytes (remaining d.next) (omega arith) in
      record {
        bytes = d.bytes;
        next = record { inner = d.next; segments = segments; left = left2; keep = true };
        result =
            keeps r (suc room) segments left s
            ∙ ap (after_read r segments (suc left)) result
            ∙ rw (after_read, more) refl;
        valid = (d.valid, omega arith);
        whole =
            ap (λ xs. take (suc left) xs ++ selected segments (drop (suc left) xs)) d.whole
            ∙ ap (λ xs. xs ++ selected segments (drop (suc left) (d.bytes ++ remaining d.next))) cut
            ∙ ap (λ xs. (d.bytes ++ take left2 (remaining d.next)) ++ selected segments xs) behind
            ∙ ++-assoc d.bytes (take left2 (remaining d.next))
                (selected segments (drop left2 (remaining d.next)));
        fits = omega arith;
        progress = (λ e. absurd cc);
      }

  select_lem :
      (room : ℕ) (segments : List (ℕ × Bool)) (left : ℕ) (keep : Bool) (s : r.Source)
      → IsValid s
      → left + total segments ≤ length (remaining s)
      → Delivers
          (select_reader r)
          IsSelectValid
          selected_remaining
          (suc room)
          (record { inner = s; segments = segments; left = left; keep = keep })
  unfolding read_segments
  select_lem room [] zero keep s v size = record {
    bytes = [];
    next = record { inner = s; segments = []; left = 0; keep = keep };
    result = refl;
    valid = (v, size);
    whole = refl;
    fits = omega arith;
    progress = (λ e. no_bytes_lem keep []);
  }
  select_lem room ((n, k) ∷ segments) zero keep s v size =
      let d = select_lem room segments n k s v (omega arith) in
      let same = no_bytes_lem keep (selected ((n, k) ∷ segments) (remaining s)) in
      record {
        bytes = d.bytes;
        next = d.next;
        result = d.result;
        valid = d.valid;
        whole = same ∙ d.whole;
        fits = d.fits;
        progress = (λ e. same ∙ d.progress e);
      }
  select_lem room segments (suc left) true s v size = kept_lem room segments left s v size
  select_lem room [] (suc left) false s v size =
      let (s2, gone, valid, behind) =
        discard_lem (suc left) (suc left) s (omega arith) v (omega arith) in
      record {
        bytes = [];
        next = record { inner = s2; segments = []; left = 0; keep = false };
        result =
            ap
              (after_discard r []
                (λ x. (ok [], record { inner = x; segments = []; left = 0; keep = false })))
              gone;
        valid = (valid, omega arith);
        whole = refl;
        fits = omega arith;
        progress = (λ e. refl);
      }
  select_lem room ((n, k) ∷ segments) (suc left) false s v size =
      let (s2, gone, valid, behind) =
        discard_lem (suc left) (suc left) s (omega arith) v (omega arith) in
      let d =
        select_lem room segments n k s2 valid
          (omega (arith, ap length behind, length-drop (suc left) (remaining s))) in
      let same = ap (selected ((n, k) ∷ segments)) (sym behind) in
      record {
        bytes = d.bytes;
        next = d.next;
        result =
            ap
              (after_discard r ((n, k) ∷ segments) (λ x. read_segments r (suc room) segments n k x))
              gone
            ∙ d.result;
        valid = d.valid;
        whole = same ∙ d.whole;
        fits = d.fits;
        progress = (λ e. same ∙ d.progress e);
      }

  -- The reader that keeps some segments of a source keeps its promise, over a source that keeps it and has
  -- the bytes of every segment: it gives the kept segments, one behind the other, and nothing of the others.
  pub select_reader-IsReader : IsReader (select_reader r) IsSelectValid selected_remaining
  select_reader-IsReader = record {
    delivers = (λ room c v. select_lem room c.segments c.left c.keep c.inner v.0 v.1);
  }
