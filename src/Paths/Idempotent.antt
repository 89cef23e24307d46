-- ===== src/Paths/Idempotent.antt =====
-- A normal path normalizes to itself (vault.rs).
use file_sec.Prelude.{
  sym, ℕ, suc, ◌≤◌, ◌≡◌, ◌≢◌, refl, ap, subst, false, ◌||◌, ◌↔◌, List, [], ◌∷◌, ◌++◌, map, any,
  any-false, All, All-map, All-append, length, is_empty, ltb, Text, text_eq, ne-text_eq, utf8_len,
  starts_with, inl, inr, arith,
}
use mathlib.Core.List.{append-nil}
use file_sec.Errors.{ok, Result-cases}
use file_sec.Paths.{
  slash, backslash, max_path_depth, max_path_len, join, unify, is_control_byte, is_non_portable,
  ends_badly, has_drive, check_component, collect, normalize_stored_path, normalize_path,
  is_spoofing_format_char,
}
use file_sec.Paths.Split.{IsNotNil, IsRelative, Slashless, split-join}
use file_sec.Paths.Normal.{IsPlain, IsComponent, IsNormal, normalize_stored_path-IsNormal}

plain-tests :
    (s : Text) → All IsPlain s → (any is_control_byte s ≡ false) × (any is_non_portable s ≡ false)
plain-tests [] h = (refl, refl)
plain-tests (c ∷ s) h = let p = h.0 in let rest = plain-tests s h.1 in (ground arith, ground arith)

-- A character of a normal path: plain, or the separator.
abbrev IsPathChar : ℕ → Type 0
IsPathChar c = (c ≢ backslash) × (c ≢ b':')

join-All : (ws : List Text) → All (All IsPathChar) ws → All IsPathChar (join ws)
unfolding join
join-All [] h = tt
join-All (w ∷ []) h = h.0
join-All (w ∷ v ∷ ws) h =
    All-append IsPathChar w (slash ∷ join (v ∷ ws)) h.0
      ((λ e. omega arith, λ e. omega arith), join-All (v ∷ ws) h.1)

unify_id : (s : Text) → All IsPathChar s → map unify s ≡ s
unify_id [] h = refl
unify_id (c ∷ s) h = ground (arith, unify_id s h.1)

no_drive : (s : Text) → All IsPathChar s → has_drive s ≡ false
unfolding has_drive
no_drive [] h = refl
no_drive (a ∷ []) h = refl
no_drive (a ∷ b ∷ s) h = ground arith

-- The first character of a joined list is that of its first word.
starts_with-join :
    (w : Text) (ws : List Text)
    → w ≢ []
    → Slashless w
    → starts_with (slash ∷ []) (join (w ∷ ws)) ≡ false
unfolding join starts_with
starts_with-join [] ws h a = absurd (h refl)
starts_with-join (c ∷ w) [] h a = ground arith
starts_with-join (c ∷ w) (v ∷ ws) h a = ground arith

is_empty-join : (w : Text) (ws : List Text) → w ≢ [] → is_empty (join (w ∷ ws)) ≡ false
unfolding join
is_empty-join [] ws h = absurd (h refl)
is_empty-join (c ∷ w) [] h = refl
is_empty-join (c ∷ w) (v ∷ ws) h = refl

module _ (to_upper : ℕ → Text) where
  component-Slashless : (w : Text) → IsComponent to_upper w → Slashless w
  component-Slashless w c = All-map IsPlain (λ x. x ≢ slash) (λ x p. p.not_slash) w c.plain

  component-path_chars : (w : Text) → IsComponent to_upper w → All IsPathChar w
  component-path_chars w c =
      All-map IsPlain IsPathChar (λ x p. (p.not_backslash, p.not_colon)) w c.plain

  check_component-passes : (w : Text) → IsComponent to_upper w → check_component to_upper w ≡ ok tt
  unfolding check_component
  check_component-passes w c =
      let t = plain-tests w c.plain in rw (t.0, t.1, c.ending, c.not_device)

  component-not_dots :
      (w : Text)
      → ends_badly w ≡ false
      → (text_eq w (b'.' ∷ []) ≡ false) × (text_eq w (b'.' ∷ b'.' ∷ []) ≡ false)
  unfolding ends_badly
  component-not_dots w h =
      (ne-text_eq w _ (λ e. cc (ap ends_badly e, h)), ne-text_eq w _ (λ e. cc (ap ends_badly e, h)))

  is_empty-component : (w : Text) → w ≢ [] → is_empty w ≡ false
  is_empty-component [] h = absurd (h refl)
  is_empty-component (c ∷ w) h = refl

  collect_id : (ws : List Text) → All (IsComponent to_upper) ws → collect to_upper ws ≡ ok ws
  unfolding collect
  collect_id [] h = refl
  collect_id (w ∷ ws) h =
      let dots = component-not_dots w h.0.ending in
      rw (
        is_empty-component w h.0.nonempty,
        dots.0,
        dots.1,
        check_component-passes w h.0,
        collect_id ws h.1,
      )

  normal_joined :
      (w : Text) (ws : List Text)
      → All (IsComponent to_upper) (w ∷ ws)
      → suc (length ws) ≤ max_path_depth
      → utf8_len (join (w ∷ ws)) ≤ max_path_len
      → normalize_stored_path to_upper (join (w ∷ ws)) ≡ ok (join (w ∷ ws))
  unfolding normalize_stored_path
  normal_joined w ws h depth bytes =
      let chars =
        join-All (w ∷ ws)
          (All-map (IsComponent to_upper) (All IsPathChar) component-path_chars (w ∷ ws) h) in
      let words = All-map (IsComponent to_upper) Slashless component-Slashless (w ∷ ws) h in
      let lengths : (is_empty (join (w ∷ ws)) || ltb max_path_len (utf8_len (join (w ∷ ws))))
          ≡ false =
        ground (arith, is_empty-join w ws h.0.nonempty) in
      let depths : ltb max_path_depth (length (w ∷ ws)) ≡ false = ground arith in
      rw (
        lengths,
        unify_id (join (w ∷ ws)) chars,
        starts_with-join w ws h.0.nonempty words.0,
        no_drive (join (w ∷ ws)) chars,
        split-join (w ∷ ws) tt words,
        collect_id (w ∷ ws) h,
        depths,
      )

  -- A path is left as it is exactly when it is normal.
  pub normalize_stored_path-IsNormal_iff :
      (path : Text) → (normalize_stored_path to_upper path ≡ ok path) ↔ IsNormal to_upper path
  normalize_stored_path-IsNormal_iff path = (
    normalize_stored_path-IsNormal to_upper path path,
    λ n. fixed path n.components n.joined n.each n.some_component n.depth n.bytes,
  )
    where
      fixed :
          (path : Text) (cs : List Text)
          → path ≡ join cs
          → All (IsComponent to_upper) cs
          → IsNotNil cs
          → length cs ≤ max_path_depth
          → utf8_len path ≤ max_path_len
          → normalize_stored_path to_upper path ≡ ok path
      fixed path [] e a s d b = absurd s
      fixed path (w ∷ ws) e a s d b =
          rw e (normal_joined w ws a d (subst (λ p. utf8_len p ≤ max_path_len) e b))

  normalize_path-Result :
      (path norm : Text)
      → normalize_path to_upper path ≡ ok norm
      → (normalize_stored_path to_upper path ≡ ok norm) × (any is_spoofing_format_char norm ≡ false)
  unfolding normalize_path
  normalize_path-Result path norm h = elim (Result-cases (normalize_stored_path to_upper path)) [
    | inl (n, e) ↦ (ground arith, ground arith)
    | inr (x, e) ↦ absurd (ground arith)
  ]

  -- Normalization is idempotent, in its strict and in its lenient form: what it returned once, it
  -- returns again, and the strict form never returns a format character that could disguise a name.
  pub normalize_path-idempotent :
      (path norm : Text)
      → normalize_path to_upper path ≡ ok norm
      → (normalize_path to_upper norm ≡ ok norm)
        × (normalize_stored_path to_upper norm ≡ ok norm)
        × All (λ c. is_spoofing_format_char c ≡ false) norm
  unfolding normalize_path
  normalize_path-idempotent path norm h =
      let (stored, clean) = normalize_path-Result path norm h in
      let again =
        (normalize_stored_path-IsNormal_iff norm).1
          (normalize_stored_path-IsNormal to_upper path norm stored) in
      (rw (again, clean), again, any-false is_spoofing_format_char norm clean)

  word-IsRelative : (w s : Text) → w ≢ [] → Slashless w → IsRelative (w ++ s)
  word-IsRelative [] s h a = absurd (h refl)
  word-IsRelative (c ∷ w) s h a = a.0

  join-IsRelative :
      (cs : List Text) → All (IsComponent to_upper) cs → IsNotNil cs → IsRelative (join cs)
  unfolding join
  join-IsRelative [] a s = absurd s
  join-IsRelative (w ∷ []) a s =
      subst IsRelative (append-nil w)
        (word-IsRelative w [] a.0.nonempty (component-Slashless w a.0))
  join-IsRelative (w ∷ v ∷ ws) a s =
      word-IsRelative w (slash ∷ join (v ∷ ws)) a.0.nonempty (component-Slashless w a.0)

  -- A normal path does not begin with a separator.
  pub IsNormal-IsRelative : (path : Text) → IsNormal to_upper path → IsRelative path
  IsNormal-IsRelative path n =
      subst IsRelative (sym n.joined) (join-IsRelative n.components n.each n.some_component)

  pub normalize_path-IsRelative :
      (path norm : Text) → normalize_path to_upper path ≡ ok norm → IsRelative norm
  normalize_path-IsRelative path norm h =
      IsNormal-IsRelative norm
        (normalize_stored_path-IsNormal to_upper path norm (normalize_path-Result path norm h).0)
