-- ===== src/Net/Wire/Ending.antt =====
-- crates/filesec-gui/src/net/wire.rs: reading a frame ends.
use file_sec.Prelude.{
  ℕ, zero, suc, ◌-◌, ◌≤◌, ◌≡◌, refl, true, List, [], ◌∷◌, ◌++◌, ◌⊎◌, inl, inr, take, drop, is_empty,
  ltb, leb, from_be_bytes, Bool-cases, arith,
}
use file_sec.State.{Bytes}
use file_sec.Net.Wire.{
  Turn, Outcome, done, failed, waiting, taken, read_exact_deadline, read_body, read_frame_until,
}
use file_sec.Net.Wire.Framing.{Answer-cases}

-- The turns that are left when a loop ends end in the given ones; it does not wait on.
abbrev pub EndsBefore : List Turn → Outcome → Type 0
EndsBefore turns (failed e) = Unit {0}
EndsBefore turns waiting = ⊥
EndsBefore turns (done bytes input left) = (kept : List Turn) × (left ≡ kept ++ turns)

module _ (deadline : ℕ) where
  -- A round at which the loop gives up: the transfer is cancelled, or the deadline is reached.
  abbrev pub GivesUp : Turn → Type 0
  GivesUp t = (t.is_cancelled ≡ true) ⊎ (deadline ≤ t.now)

  exact_ends :
      (room : ℕ) (filled input : Bytes) (before : List Turn) (last : Turn) (after : List Turn)
      → GivesUp last
      → EndsBefore
          (last ∷ after)
          (read_exact_deadline deadline room filled input (before ++ last ∷ after))
  unfolding read_exact_deadline
  exact_ends zero filled input before last after h = (before, refl)
  exact_ends (suc room) filled input [] last after (inl c) = rw (read_exact_deadline, c) tt
  exact_ends (suc room) filled input [] last after (inr l) = elim (Bool-cases last.is_cancelled) [
    | inl c ↦ rw (read_exact_deadline, c) tt
    | inr c ↦
        let late : leb deadline last.now ≡ true = ground arith in
        rw (read_exact_deadline, c, late) tt
  ]
  exact_ends (suc room) filled input (t ∷ ts) last after h = elim (Bool-cases t.is_cancelled) [
    | inl c ↦ rw (read_exact_deadline, c) tt
    | inr c ↦ elim (Bool-cases (leb deadline t.now)) [
      | inl l ↦ rw (read_exact_deadline, c, l) tt
      | inr l ↦ elim (Answer-cases t.answer) [
        | inl a ↦
            rw (read_exact_deadline, c, l, a) (exact_ends (suc room) filled input ts last after h)
        | inr (inl (e, a)) ↦ rw (read_exact_deadline, c, l, a) tt
        | inr (inr (n, a)) ↦ elim (Bool-cases (is_empty input)) [
          | inl none ↦ rw (read_exact_deadline, c, l, a, none) tt
          | inr some ↦
              let got = taken n (suc room) input in
              rw (read_exact_deadline, c, l, a, some)
                (exact_ends (suc room - got) (filled ++ take got input) (drop got input) ts last
                  after h)
        ]
      ]
    ]
  ]

  body_ends :
      (max : ℕ) (last : Turn) (after : List Turn) (o : Outcome)
      → GivesUp last
      → EndsBefore (last ∷ after) o
      → EndsBefore (last ∷ after) (read_body max deadline o)
  unfolding read_body
  body_ends max last after (failed e) h b = tt
  body_ends max last after waiting h b = b
  body_ends max last after (done header input left) h (kept, same) =
      elim (Bool-cases (ltb max (from_be_bytes 0 header))) [
        | inl big ↦ rw (read_body, big) tt
        | inr fits ↦
            rw (read_body, fits, same)
              (exact_ends (from_be_bytes 0 header) [] input kept last after h)
      ]

  -- Reading a frame ends, whatever arrives and however slowly, no later than in the first round that is
  -- cancelled or at its deadline: it fails, or it has a frame from the rounds before that one.
  pub read_frame_until-EndsBefore :
      (max : ℕ) (input : Bytes) (before : List Turn) (last : Turn) (after : List Turn)
      → GivesUp last
      → EndsBefore (last ∷ after) (read_frame_until max deadline input (before ++ last ∷ after))
  unfolding read_frame_until
  read_frame_until-EndsBefore max input before last after h =
      body_ends max last after (read_exact_deadline deadline 4 [] input (before ++ last ∷ after)) h
        (exact_ends 4 [] input before last after h)
