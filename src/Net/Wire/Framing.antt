-- ===== src/Net/Wire/Framing.antt =====
-- crates/filesec-gui/src/net/wire.rs: a frame is read as it was written, however its bytes arrive.
use file_sec.Prelude.{
  ++-assoc, ++-[], take-add, ltb→lt, ltb, be_bytes, from_be_bytes, Bool-cases, take-append,
  drop-append, length-append, length-be_bytes, from_be_bytes-be_bytes, none, ℕ, zero, suc, ◌+◌, ◌-◌,
  ◌≤◌, ◌≡◌, ◌≢◌, refl, sym, ap, ◌∙◌, false, List, [], ◌∷◌, ◌++◌, All, length, take, drop, is_empty,
  leb, length-drop, ◌⊎◌, drop-drop, inl, inr, arith,
}
use file_sec.State.{Bytes}
use file_sec.Net.Wire.{
  invalid_input, read_body, read_frame_until, write_frame, IoError, Answer, up_to, again, broken,
  Turn, done, taken, read_exact_deadline,
}

-- In time, and the socket is not broken.
pub record IsTimely (deadline : ℕ) (t : Turn) : Type 0 where
  pub not_cancelled : t.is_cancelled ≡ false
  pub early : leb deadline t.now ≡ false
  pub works : (e : IoError) → t.answer ≢ broken e

abbrev pub is_read : Answer → ℕ
is_read (up_to n) = 1
is_read again = 0
is_read (broken e) = 0

-- The reads that take a byte.
abbrev pub reads : List Turn → ℕ
reads [] = 0
reads (t ∷ ts) = is_read t.answer + reads ts

-- What filling a buffer leaves when turns enough are given.
record IsFilled (deadline room : ℕ) (filled input : Bytes) (turns : List Turn) : Type 0 where
  left : List Turn
  result :
      read_exact_deadline deadline room filled input turns
      ≡ done (filled ++ take room input) (drop room input) left
  timely : All (IsTimely deadline) left
  enough : reads turns ≤ reads left + room

pub Answer-cases :
    (a : Answer) → (a ≡ again) ⊎ (((e : IoError) × (a ≡ broken e)) ⊎ ((n : ℕ) × (a ≡ up_to n)))
Answer-cases again = inl refl
Answer-cases (broken e) = inr (inl (e, refl))
Answer-cases (up_to n) = inr (inr (n, refl))

not_empty : (n : ℕ) (xs : Bytes) → suc n ≤ length xs → is_empty xs ≡ false
not_empty n [] h = absurd (omega arith)
not_empty n (x ∷ xs) h = refl

no_frame : (e : IoError) (wire : Bytes) → ◌≡◌ {A = IoError ⊎ Bytes} (inl e) (inr wire) → ⊥
no_frame e wire h = cc

inr_injective : (a b : Bytes) → ◌≡◌ {A = IoError ⊎ Bytes} (inr a) (inr b) → a ≡ b
inr_injective a b h = cc

module _ (deadline : ℕ) where
  read_lem :
      (room : ℕ) (filled input : Bytes) (t : Turn) (ts : List Turn) (n : ℕ)
      → IsTimely deadline t
      → t.answer ≡ up_to n
      → suc room ≤ length input
      → read_exact_deadline deadline (suc room) filled input (t ∷ ts)
        ≡ read_exact_deadline deadline
            (suc room - taken n (suc room) input)
            (filled ++ take (taken n (suc room) input) input)
            (drop (taken n (suc room) input) input)
            ts
  unfolding read_exact_deadline
  read_lem room filled input t ts n timely a size =
      rw (read_exact_deadline, timely.not_cancelled, timely.early, a, not_empty room input size)
        refl

  fill_lem :
      (room : ℕ) (filled input : Bytes) (turns : List Turn)
      → All (IsTimely deadline) turns
      → room ≤ reads turns
      → room ≤ length input
      → IsFilled deadline room filled input turns
  unfolding read_exact_deadline
  fill_lem zero filled input turns timely h size = record {
    left = turns;
    result = ap (λ xs. done xs input turns) (sym (++-[] filled));
    timely = timely;
    enough = omega arith;
  }
  fill_lem (suc room) filled input [] timely h size = absurd (omega arith)
  fill_lem (suc room) filled input (t ∷ ts) timely h size = elim (Answer-cases t.answer) [
    | inr (inl (e, a)) ↦ absurd (timely.0.works e a)
    | inl a ↦
        let none_read : is_read t.answer ≡ 0 = ap is_read a in
        let rest = fill_lem (suc room) filled input ts timely.1 (omega arith) size in
        record {
          left = rest.left;
          result = rw (read_exact_deadline, timely.0.not_cancelled, timely.0.early, a) rest.result;
          timely = rest.timely;
          enough = omega (arith, rest.enough);
        }
    | inr (inr (n, a)) ↦
        let one_read : is_read t.answer ≡ 1 = ap is_read a in
        let got = taken n (suc room) input in
        let left_size : suc room - got ≤ length (drop got input) =
          omega (arith, length-drop got input) in
        let rest =
          fill_lem (suc room - got) (filled ++ take got input) (drop got input) ts timely.1
            (omega arith) left_size in
        let whole : got + (suc room - got) ≡ suc room = omega arith in
        let bytes : (filled ++ take got input) ++ take (suc room - got) (drop got input)
            ≡ filled ++ take (suc room) input =
          ++-assoc filled (take got input) (take (suc room - got) (drop got input))
          ∙ ap (λ xs. filled ++ xs) (sym (take-add got (suc room - got) input))
          ∙ ap (λ k. filled ++ take k input) whole in
        let behind : drop (suc room - got) (drop got input) ≡ drop (suc room) input =
          sym (drop-drop got (suc room - got) input) ∙ ap (λ k. drop k input) whole in
        record {
          left = rest.left;
          result =
              read_lem room filled input t ts n timely.0 a size
              ∙ rest.result
              ∙ ap (λ xs. done xs (drop (suc room - got) (drop got input)) rest.left) bytes
              ∙ ap (λ xs. done (filled ++ take (suc room) input) xs rest.left) behind;
          timely = rest.timely;
          enough = omega (arith, rest.enough);
        }
  ]

  start_lem :
      (header tail : Bytes) (turns : List Turn)
      → All (IsTimely deadline) turns
      → length header ≤ reads turns
      → IsFilled deadline (length header) [] (header ++ tail) turns
  start_lem header tail turns timely h =
      fill_lem (length header) [] (header ++ tail) turns timely h
        (omega (arith, length-append header tail))

  exact_lem :
      (header tail : Bytes) (turns : List Turn)
      → All (IsTimely deadline) turns
      → length header ≤ reads turns
      → (left : List Turn) × (read_exact_deadline deadline (length header) [] (header ++ tail) turns
          ≡ done header tail left)
        × All (IsTimely deadline) left
        × (reads turns ≤ reads left + length header)
  exact_lem header tail turns timely h =
      let f = start_lem header tail turns timely h in
      (
        f.left,
        f.result
            ∙ ap (λ xs. done xs (drop (length header) (header ++ tail)) f.left)
                (take-append header tail)
            ∙ ap (λ xs. done header xs f.left) (drop-append header tail),
        f.timely,
        f.enough,
      )

  -- A frame that was written is read back, and what came behind it is left on the socket, in whatever
  -- pieces its bytes arrive: if the frame is within the reader's limit, no round is cancelled, past the
  -- deadline or broken, and at least as many reads give something as the frame with its length has bytes.
  pub read_frame_until-write_frame :
      (max : ℕ) (body wire rest : Bytes) (turns : List Turn)
      → write_frame none none none body ≡ inr wire
      → length body ≤ max
      → All (IsTimely deadline) turns
      → length wire ≤ reads turns
      → (left : List Turn) × (read_frame_until max deadline (wire ++ rest) turns
          ≡ done body rest left)
  unfolding write_frame read_frame_until read_body
  read_frame_until-write_frame max body wire rest turns h fits timely enough =
      elim (Bool-cases (ltb (length body) 4294967296)) [
        | inr big ↦ absurd (no_frame invalid_input wire (rw (write_frame, big) at h))
        | inl small ↦
            let header = be_bytes 4 (length body) in
            let same : header ++ body ≡ wire =
              inr_injective (header ++ body) wire (rw (write_frame, small) at h) in
            let four : length header ≡ 4 = length-be_bytes 4 (length body) in
            let size : length wire ≡ 4 + length body =
              ap length (sym same) ∙ omega (arith, length-append header body) in
            let (left, first, timely2, enough2) =
              exact_lem header (body ++ rest) turns timely (omega arith) in
            let (left2, second, timely3, enough3) =
              exact_lem body rest left timely2 (omega arith) in
            let value : from_be_bytes 0 header ≡ length body =
              from_be_bytes-be_bytes 4 (length body) (ltb→lt (length body) 4294967296 small) in
            let under : ltb max (length body) ≡ false = ground arith in
            let start : read_exact_deadline deadline 4 [] (wire ++ rest) turns
                ≡ done header (body ++ rest) left =
              ap (λ xs. read_exact_deadline deadline 4 [] (xs ++ rest) turns) (sym same)
              ∙ ap (λ xs. read_exact_deadline deadline 4 [] xs turns) (++-assoc header body rest)
              ∙ ap (λ n. read_exact_deadline deadline n [] (header ++ (body ++ rest)) turns)
                  (sym four)
              ∙ first in
            (left2, rw (read_frame_until, start, read_body, value, under) second)
      ]
