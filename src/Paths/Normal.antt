-- ===== src/Paths/Normal.antt =====
-- What a normalized path is, in words of its own, and that the function returns only such paths
-- (vault.rs).
use file_sec.Prelude.{
  ℕ, ◌≤◌, ◌≡◌, ◌≢◌, refl, subst, ◌||◌, false, List, [], ◌∷◌, map, any-false, All, length, is_empty,
  Text, text_eq, utf8_len, Bool-cases, inl, inr, arith,
}
use file_sec.Errors.{Result, ok, err, ◌>>=◌, ◌>>◌}
use file_sec.Paths.{
  slash, backslash, max_path_depth, max_path_len, split, join, unify, is_control_byte,
  is_non_portable, ends_badly, is_device, stem, check_component, collect, normalize_stored_path,
}
use file_sec.Paths.Split.{split_from-All, IsNotNil, weight, utf8_len-join, weight-split}

-- A character that every file system takes, and that separates nothing.
pub record IsPlain (c : ℕ) : Type 0 where
  pub printable : 32 ≤ c
  pub not_delete : c ≢ 127
  pub not_slash : c ≢ b'/'
  pub not_backslash : c ≢ 92
  pub not_colon : c ≢ b':'
  pub not_less : c ≢ b'<'
  pub not_greater : c ≢ b'>'
  pub not_quote : c ≢ 34
  pub not_pipe : c ≢ b'|'
  pub not_question : c ≢ b'?'
  pub not_star : c ≢ b'*'

abbrev IsSeparable : ℕ → Type 0
IsSeparable c = (c ≢ slash) × (c ≢ backslash)

IsPlain-tests :
    (c : ℕ) → IsSeparable c → is_control_byte c ≡ false → is_non_portable c ≡ false → IsPlain c
IsPlain-tests c s h k = ground arith

All-IsPlain :
    (s : Text)
    → All IsSeparable s
    → All (λ c. is_control_byte c ≡ false) s
    → All (λ c. is_non_portable c ≡ false) s
    → All IsPlain s
All-IsPlain [] a h k = tt
All-IsPlain (c ∷ s) a h k = (IsPlain-tests c a.0 h.0 k.0, All-IsPlain s a.1 h.1 k.1)

unify-IsSeparable : (s : Text) → All (λ x. x ≢ slash → IsSeparable x) (map unify s)
unify-IsSeparable [] = tt
unify-IsSeparable (c ∷ s) = (λ h. ground arith, unify-IsSeparable s)

utf8_len-unify : (s : Text) → utf8_len (map unify s) ≡ utf8_len s
unfolding utf8_len
utf8_len-unify [] = refl
utf8_len-unify (c ∷ s) = ground (arith, utf8_len-unify s)

module _ (to_upper : ℕ → Text) where
  -- A path component that means the same on every system.
  pub record IsComponent (comp : Text) : Type 0 where
    pub nonempty : comp ≢ []
    pub plain : All IsPlain comp
    pub ending : ends_badly comp ≡ false
    pub not_device : is_device (stem to_upper comp) ≡ false

  -- A normalized path: its components joined by single slashes.
  pub record IsNormal (path : Text) : Type 0 where
    pub components : List Text
    pub joined : path ≡ join components
    pub each : All IsComponent components
    pub some_component : IsNotNil components
    pub depth : length components ≤ max_path_depth
    pub bytes : utf8_len path ≤ max_path_len

  check_component-IsComponent :
      (comp : Text)
      → comp ≢ []
      → All IsSeparable comp
      → check_component to_upper comp ≡ ok tt
      → IsComponent comp
  unfolding check_component
  check_component-IsComponent comp nonempty s h = record {
    nonempty = nonempty;
    plain =
        All-IsPlain comp s (any-false is_control_byte comp (ground arith))
          (any-false is_non_portable comp (ground arith));
    ending = ground arith;
    not_device = ground arith;
  }

  record Kept (comps : List Text) (kept : List Text) : Type 0 where
    each : All IsComponent kept
    weight-le : weight kept ≤ weight comps

  abbrev Keeps : List Text → Result (List Text) → Type 0
  Keeps comps (ok kept) = Kept comps kept
  Keeps comps (err e) = Unit

  Keeps-skip :
      (comp : Text) (comps : List Text) (r : Result (List Text))
      → Keeps comps r
      → Keeps (comp ∷ comps) r
  Keeps-skip comp comps (ok kept) k = record { each = k.each; weight-le = omega arith }
  Keeps-skip comp comps (err e) k = tt

  Keeps-push :
      (comp : Text) (comps : List Text) (r : Result (List Text))
      → IsComponent comp
      → Keeps comps r
      → Keeps (comp ∷ comps) (do rest ← r; ok (comp ∷ rest))
  Keeps-push comp comps (ok kept) c k = record { each = (c, k.each); weight-le = omega arith }
  Keeps-push comp comps (err e) c k = tt

  Keeps-checked :
      (comp : Text) (comps : List Text) (r : Result (List Text)) (checked : Result (Unit {0}))
      → (checked ≡ ok tt → IsComponent comp)
      → Keeps comps r
      → Keeps (comp ∷ comps) (do checked; rest ← r; ok (comp ∷ rest))
  Keeps-checked comp comps r (ok done) c k = Keeps-push comp comps r (c refl) k
  Keeps-checked comp comps r (err e) c k = tt

  nonempty_of : (comp : Text) → is_empty comp ≡ false → comp ≢ []
  nonempty_of [] h e = cc
  nonempty_of (c ∷ comp) h e = cc

  collect-Keeps :
      (comps : List Text) → All (All IsSeparable) comps → Keeps comps (collect to_upper comps)
  unfolding collect
  collect-Keeps [] a = record { each = tt; weight-le = omega arith }
  collect-Keeps (comp ∷ comps) a = elim (Bool-cases (is_empty comp || text_eq comp (b'.' ∷ []))) [
    | inl skipped ↦
        rw skipped (Keeps-skip comp comps (collect to_upper comps) (collect-Keeps comps a.1))
    | inr taken ↦ rw taken (elim (Bool-cases (text_eq comp (b'.' ∷ b'.' ∷ []))) [
      | inl up ↦ rw up tt
      | inr other ↦ rw other (
          Keeps-checked comp comps (collect to_upper comps) (check_component to_upper comp)
            (check_component-IsComponent comp (nonempty_of comp (ground arith)) a.0)
            (collect-Keeps comps a.1))
    ])
  ]

  collect-Kept :
      (comps kept : List Text)
      → All (All IsSeparable) comps
      → collect to_upper comps ≡ ok kept
      → Kept comps kept
  collect-Kept comps kept a e = subst (Keeps comps) e (collect-Keeps comps a)

  -- What a successful call has passed: the tests of the whole path, and the loop.
  record Passed (path norm : Text) : Type 0 where
    kept : List Text
    collected : collect to_upper (split slash (map unify path)) ≡ ok kept
    short : utf8_len path ≤ max_path_len
    shallow : length kept ≤ max_path_depth
    some_kept : is_empty kept ≡ false
    result : norm ≡ join kept

  normalize_stored_path-Passed :
      (path norm : Text) → normalize_stored_path to_upper path ≡ ok norm → Passed path norm
  unfolding normalize_stored_path
  normalize_stored_path-Passed path norm h = ground arith

  IsNotNil-is_empty : (ws : List Text) → is_empty ws ≡ false → IsNotNil ws
  IsNotNil-is_empty [] h = cc
  IsNotNil-is_empty (w ∷ ws) h = tt

  -- Whatever the untrusted path, a successful normalization returns a normal path: one to 64
  -- portable components joined by single slashes, of at most 4096 bytes. So it is not absolute, has
  -- no `..`, no drive, no backslash and no control character.
  pub normalize_stored_path-IsNormal :
      (path norm : Text) → normalize_stored_path to_upper path ≡ ok norm → IsNormal norm
  normalize_stored_path-IsNormal path norm h =
      let p = normalize_stored_path-Passed path norm h in
      let k =
        collect-Kept (split slash (map unify path)) p.kept
          (split_from-All IsSeparable slash [] (map unify path) tt (unify-IsSeparable path))
          p.collected in
      let some_kept = IsNotNil-is_empty p.kept p.some_kept in
      record {
        components = p.kept;
        joined = p.result;
        each = k.each;
        some_component = some_kept;
        depth = p.shallow;
        bytes = rw p.result (
            omega (
              arith,
              utf8_len-join p.kept some_kept,
              k.weight-le,
              weight-split (map unify path),
              utf8_len-unify path,
              p.short,
            ));
      }
