-- ===== src/Contacts/Names.antt =====
-- Display names (crates/filesec-core/src/identity.rs): what sanitizing leaves, and when it changes
-- nothing any more.
use file_sec.Prelude.{
  ℕ, ◌+◌, ◌<◌, ◌≤◌, ◌≡◌, refl, ap, ◌∙◌, Bool, true, false, not, ◌&&◌, [], ◌∷◌, All, length, leb,
  ◌==◌, Bool-cases, inl, inr, Text, arith,
}
use file_sec.Paths.{is_spoofing_format_char}
use file_sec.Contacts.{
  max_display_name_len, is_whitespace, is_control, sanitize_loop, sanitize_display_name,
}

-- A character that may be shown: it neither hides nor reorders text, and the only space is the ASCII one.
abbrev pub IsShown : ℕ → Type 0
IsShown c =
    (is_spoofing_format_char c ≡ false)
    × (is_control c ≡ false)
    × (is_whitespace c ≡ true → c ≡ b' ')

space-IsShown : IsShown b' '
unfolding is_spoofing_format_char is_control is_whitespace
space-IsShown = (refl, refl, λ h. refl)

-- What the loop does with one character.
data Step (c : ℕ) (s : Text) (count : ℕ) (pending : Bool) : Type 0 where
  full : sanitize_loop (c ∷ s) count pending ≡ [] → Step c s count pending
  dropped :
      (due : Bool)
      → sanitize_loop (c ∷ s) count pending ≡ sanitize_loop s count due
      → Step c s count pending
  last :
      max_display_name_len ≤ count + 1
      → count < max_display_name_len
      → sanitize_loop (c ∷ s) count pending ≡ b' ' ∷ []
      → Step c s count pending
  spaced :
      IsShown c
      → is_whitespace c ≡ false
      → 0 < count
      → count + 1 < max_display_name_len
      → sanitize_loop (c ∷ s) count pending ≡ b' ' ∷ c ∷ sanitize_loop s (count + 2) false
      → Step c s count pending
  plain :
      IsShown c
      → is_whitespace c ≡ false
      → count < max_display_name_len
      → sanitize_loop (c ∷ s) count pending ≡ c ∷ sanitize_loop s (count + 1) false
      → Step c s count pending

step : (c : ℕ) (s : Text) (count : ℕ) (pending : Bool) → Step c s count pending
unfolding sanitize_loop
step c s count pending = elim (Bool-cases (leb max_display_name_len count)) [
  | inl no_room ↦ full (ground arith)
  | inr room ↦ elim (Bool-cases (is_spoofing_format_char c)) [
    | inl spoof ↦ dropped pending (ground arith)
    | inr honest ↦ elim (Bool-cases (is_whitespace c)) [
      | inl space ↦ dropped true (ground arith)
      | inr ink ↦ elim (Bool-cases (is_control c)) [
        | inl control ↦ dropped pending (ground arith)
        | inr shown ↦
            let here : IsShown c = (honest, shown, λ h. ground arith) in
            elim (Bool-cases (pending && not (count == 0))) [
              | inr tight ↦ plain here ink (ground arith) (ground arith)
              | inl due ↦ elim (Bool-cases (leb max_display_name_len (count + 1))) [
                | inl end ↦ last (ground arith) (ground arith) (ground arith)
                | inr more ↦ spaced here ink (ground arith) (ground arith) (ground arith)
              ]
            ]
      ]
    ]
  ]
]

sanitize_loop-IsShown :
    (s : Text) (count : ℕ) (pending : Bool) → All IsShown (sanitize_loop s count pending)
sanitize_loop-IsShown [] count pending = unfold sanitize_loop in tt
sanitize_loop-IsShown (c ∷ s) count pending = elim (step c s count pending) [
  | full e ↦ rw e tt
  | dropped due e ↦ rw e (sanitize_loop-IsShown s count due)
  | last end room e ↦ rw e (space-IsShown, tt)
  | spaced here ink started room e ↦
      rw e (space-IsShown, (here, sanitize_loop-IsShown s (count + 2) false))
  | plain here ink room e ↦ rw e (here, sanitize_loop-IsShown s (count + 1) false)
]

sanitize_loop-bound :
    (s : Text) (count : ℕ) (pending : Bool)
    → count ≤ max_display_name_len
    → length (sanitize_loop s count pending) + count ≤ max_display_name_len
sanitize_loop-bound [] count pending h = unfold sanitize_loop in omega arith
sanitize_loop-bound (c ∷ s) count pending h = elim (step c s count pending) [
  | full e ↦ rw e (omega arith)
  | dropped due e ↦ rw e (sanitize_loop-bound s count due h)
  | last end room e ↦ rw e (omega arith)
  | spaced here ink started room e ↦
      rw e (omega (arith, sanitize_loop-bound s (count + 2) false (omega arith)))
  | plain here ink room e ↦
      rw e (omega (arith, sanitize_loop-bound s (count + 1) false (omega arith)))
]

-- A name that is shown has at most 96 characters, none of which hides or reorders text or is a control
-- character, and its only white space is the ASCII space.
pub sanitize_display_name-IsShown :
    (raw : Text)
    → All IsShown (sanitize_display_name raw)
      × (length (sanitize_display_name raw) ≤ max_display_name_len)
unfolding sanitize_display_name
sanitize_display_name-IsShown raw = (
  sanitize_loop-IsShown raw 0 false,
  omega (arith, sanitize_loop-bound raw 0 false (omega arith)),
)

-- A shown character that comes again is emitted again, and so is one after a space.
again :
    (c : ℕ) (s : Text) (count : ℕ)
    → IsShown c
    → is_whitespace c ≡ false
    → count < max_display_name_len
    → sanitize_loop (c ∷ s) count false ≡ c ∷ sanitize_loop s (count + 1) false
unfolding sanitize_loop
again c s count (honest, shown, w) ink room = ground arith

is_whitespace-space : is_whitespace b' ' ≡ true
unfolding is_whitespace
is_whitespace-space = refl

space_due :
    (s : Text) (count : ℕ)
    → count < max_display_name_len
    → sanitize_loop (b' ' ∷ s) count false ≡ sanitize_loop s count true
unfolding sanitize_loop
space_due s count room = ground (arith, space-IsShown.0, is_whitespace-space)

spaced_out :
    (c : ℕ) (s : Text) (count : ℕ)
    → IsShown c
    → is_whitespace c ≡ false
    → 0 < count
    → count + 1 < max_display_name_len
    → sanitize_loop (c ∷ s) count true ≡ b' ' ∷ c ∷ sanitize_loop s (count + 2) false
unfolding sanitize_loop
spaced_out c s count (honest, shown, w) ink started room =
    let open_at : leb max_display_name_len count ≡ false = ground arith in
    let begun : (count == 0) ≡ false = ground arith in
    let more : leb max_display_name_len (count + 1) ≡ false = ground arith in
    rw (open_at, honest, ink, shown, begun, more)

again_spaced :
    (c : ℕ) (s : Text) (count : ℕ)
    → IsShown c
    → is_whitespace c ≡ false
    → 0 < count
    → count + 1 < max_display_name_len
    → sanitize_loop (b' ' ∷ c ∷ s) count false ≡ b' ' ∷ c ∷ sanitize_loop s (count + 2) false
again_spaced c s count here ink started room =
    space_due (c ∷ s) count (omega arith) ∙ spaced_out c s count here ink started room

sanitize_loop-idempotent :
    (s : Text) (count : ℕ) (pending : Bool)
    → length (sanitize_loop s count pending) + count < max_display_name_len
    → sanitize_loop (sanitize_loop s count pending) count false ≡ sanitize_loop s count pending
sanitize_loop-idempotent [] count pending h = unfold sanitize_loop in refl
sanitize_loop-idempotent (c ∷ s) count pending h = elim (step c s count pending) [
  | full e ↦ rw e (unfold sanitize_loop in refl)
  | dropped due e ↦ rw e (sanitize_loop-idempotent s count due (rw e at h))
  | last end room e ↦ absurd (omega (arith, ap (length {A = ℕ}) e))
  | spaced here ink started room e ↦
      let short : length (sanitize_loop s (count + 2) false) + (count + 2) < max_display_name_len =
        omega (arith, ap (length {A = ℕ}) e) in
      rw e (
        again_spaced c (sanitize_loop s (count + 2) false) count here ink started room
        ∙ ap (λ t. b' ' ∷ c ∷ t) (sanitize_loop-idempotent s (count + 2) false short))
  | plain here ink room e ↦
      let short : length (sanitize_loop s (count + 1) false) + (count + 1) < max_display_name_len =
        omega (arith, ap (length {A = ℕ}) e) in
      rw e (
        again c (sanitize_loop s (count + 1) false) count here ink room
        ∙ ap (λ t. c ∷ t) (sanitize_loop-idempotent s (count + 1) false short))
]

-- Sanitizing a name again changes nothing, if the first result was not cut off: it has less than 96
-- characters.
pub sanitize_display_name-idempotent :
    (raw : Text)
    → length (sanitize_display_name raw) < max_display_name_len
    → sanitize_display_name (sanitize_display_name raw) ≡ sanitize_display_name raw
unfolding sanitize_display_name
sanitize_display_name-idempotent raw h = sanitize_loop-idempotent raw 0 false (omega arith)
