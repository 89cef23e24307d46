-- ===== src/Net/Wire.antt =====
-- crates/filesec-gui/src/net/wire.rs: frames on a socket. The socket is the bytes that arrive and a list
-- of turns: what the cancellation check, the clock and one read of the socket give in each round of the
-- loop that fills a buffer. Time is in milliseconds.
pub mod Framing
pub mod Ending
use file_sec.Prelude.{
  ℕ, zero, suc, ◌-◌, min, Bool, Option, none, some, List, [], ◌∷◌, ◌++◌, length, take, drop,
  is_empty, if◌then◌else◌, true, false, inl, inr, ◌⊎◌, ltb, leb, be_bytes, from_be_bytes,
}
use file_sec.State.{Bytes}

abbrev pub max_frame : ℕ
max_frame = 16777216

abbrev pub max_handshake_frame : ℕ
max_handshake_frame = 65536

-- `io::ErrorKind`, as far as it is made here; `other` is what the socket reports.
pub data IoError : Type 0 where
  invalid_input invalid_data timed_out unexpected_eof cancelled : IoError
  other : ℕ → IoError

-- One read: it takes one byte more than the number at most, or no byte is there yet (`WouldBlock`,
-- `TimedOut`, `Interrupted`), or the socket is broken.
pub data Answer : Type 0 where
  up_to : ℕ → Answer
  again : Answer
  broken : IoError → Answer

pub record Turn : Type 0 where
  pub is_cancelled : Bool
  pub now : ℕ
  pub answer : Answer

-- What is left of the bytes and of the turns; `waiting` is a loop whose turns are used up.
pub data Outcome : Type 0 where
  done : Bytes → Bytes → List Turn → Outcome
  failed : IoError → Outcome
  waiting : Outcome

-- `write_frame`, with the outcome of each of its three calls; the result is what is on the wire.
unfoldable pub write_frame :
    Option IoError → Option IoError → Option IoError → Bytes → IoError ⊎ Bytes
write_frame prefix_error body_error flush_error body =
    if ltb (length body) 4294967296
    then elim prefix_error [
      | some e ↦ inl e
      | none ↦ elim body_error [
        | some e ↦ inl e
        | none ↦ elim flush_error [ some e ↦ inl e | none ↦ inr (be_bytes 4 (length body) ++ body) ]
      ]
    ]
    else inl invalid_input

-- How many bytes a read takes.
abbrev pub taken : ℕ → ℕ → Bytes → ℕ
taken n room input = min (suc n) (min room (length input))

-- `read_exact_deadline`: `room` bytes of the buffer are not filled.
unfoldable pub read_exact_deadline : ℕ → ℕ → Bytes → Bytes → List Turn → Outcome
read_exact_deadline deadline zero filled input turns = done filled input turns
read_exact_deadline deadline (suc room) filled input [] = waiting
read_exact_deadline deadline (suc room) filled input (t ∷ ts) = elim t.is_cancelled [
  | true ↦ failed cancelled
  | false ↦ elim (leb deadline t.now) [
    | true ↦ failed timed_out
    | false ↦ elim t.answer [
      | again ↦ read_exact_deadline deadline (suc room) filled input ts
      | broken e ↦ failed e
      | up_to n ↦ elim (is_empty input) [
        | true ↦ failed unexpected_eof
        | false ↦
            let got = taken n (suc room) input in
            read_exact_deadline deadline (suc room - got) (filled ++ take got input)
              (drop got input) ts
      ]
    ]
  ]
]

-- The body of a frame, behind its length.
unfoldable pub read_body : ℕ → ℕ → Outcome → Outcome
unfolding read_exact_deadline
read_body max deadline (failed e) = failed e
read_body max deadline waiting = waiting
read_body max deadline (done header input turns) =
    if ltb max (from_be_bytes 0 header)
    then failed invalid_data
    else read_exact_deadline deadline (from_be_bytes 0 header) [] input turns

unfoldable pub read_frame_until : ℕ → ℕ → Bytes → List Turn → Outcome
unfolding read_exact_deadline read_body
read_frame_until max deadline input turns =
    read_body max deadline (read_exact_deadline deadline 4 [] input turns)

unfoldable pub read_handshake_frame_deadline : ℕ → Bytes → List Turn → Outcome
unfolding read_frame_until
read_handshake_frame_deadline deadline input turns =
    read_frame_until max_handshake_frame deadline input turns
