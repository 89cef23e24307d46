-- ===== src/Manifest/Layout.antt =====
-- What a manifest promises that passes the check (format.rs).
use mathlib.Core.List.{append_assoc, append-nil}
use file_sec.Prelude.{
  ℕ, ◌+◌, ◌*◌, ◌≤◌, ◌≡◌, refl, sym, ap, subst, ◌∙◌, true, false, List, [], ◌∷◌, ◌++◌, length,
  if◌then◌else◌, Bool-cases, inl, inr, Text, arith,
}
use file_sec.Errors.{ok, Result-cases}
use file_sec.Paths.{normalize_path}
use file_sec.Tree.{EntryKind, file, dir, is_file}
use file_sec.Tree.Parents.{is_member}
use file_sec.Vault.Shape.{check_tree_shape}
use file_sec.Manifest.{
  Entry, Manifest, max_manifest_entries, u32_max, tag_len, num_chunks, data_ciphertext_len, advance,
  layout_loop, validate_manifest_layout,
}

-- The bytes of all files.
abbrev pub sum_files : List Entry → ℕ
sum_files [] = 0
sum_files (e ∷ es) = (if is_file e.kind then e.size else 0) + sum_files es

-- Each file begins where the files in front of it end.
abbrev pub IsContiguous : ℕ → List Entry → Type 0
IsContiguous offset [] = Unit
IsContiguous offset (e ∷ es) =
    (is_file e.kind ≡ true → e.data_offset ≡ offset)
    × IsContiguous (offset + (if is_file e.kind then e.size else 0)) es

module _ (to_upper : ℕ → Text) where
  -- The tree has the normalized paths of the entries, with their kinds, each path once.
  abbrev pub IsTreeOf : List Entry → List Text → List (Text × EntryKind) → Type 0
  IsTreeOf [] seen [] = Unit
  IsTreeOf [] seen (x ∷ shape) = ⊥
  IsTreeOf (e ∷ es) seen [] = ⊥
  IsTreeOf (e ∷ es) seen ((p, k) ∷ shape) =
      (normalize_path to_upper e.path ≡ ok p)
      × (e.kind ≡ k)
      × (is_member p seen ≡ false)
      × IsTreeOf es (p ∷ seen) shape

  ok_injective : {A : Type 0} {a b : A} → ok a ≡ ok b → a ≡ b
  ok_injective h = cc

  record Checked (es : List Entry) (total : ℕ) (seen : List Text) (shape : List (Text × EntryKind))
      (r : ℕ × List (Text × EntryKind)) : Type 0 where
    tree : List (Text × EntryKind)
    appended : r.1 ≡ shape ++ tree
    is_tree : IsTreeOf es seen tree
    contiguous : IsContiguous total es
    sum : r.0 ≡ total + sum_files es

  advance_lem :
      (k : EntryKind) (e : Entry) (total next : ℕ)
      → advance k e total ≡ ok next
      → (is_file k ≡ true → e.data_offset ≡ total)
        × (next ≡ total + (if is_file k then e.size else 0))
  advance_lem file e total next h = (λ f. ground arith, ground arith)
  advance_lem dir e total next h = (λ f. ground arith, ground arith)

  layout_loop-Checked :
      (es : List Entry) (total : ℕ) (seen : List Text) (shape : List (Text × EntryKind))
      (r : ℕ × List (Text × EntryKind))
      → layout_loop to_upper es total seen shape ≡ ok r
      → Checked es total seen shape r
  unfolding layout_loop
  layout_loop-Checked [] total seen shape r h = record {
    tree = [];
    appended = sym (append-nil shape ∙ ap (λ x. x.1) (ok_injective h));
    is_tree = tt;
    contiguous = tt;
    sum = omega (arith, ap (λ x. x.0) (ok_injective h));
  }
  layout_loop-Checked (e ∷ es) total seen shape r h =
      elim (Result-cases (normalize_path to_upper e.path)) [
        | inr (x, n) ↦ absurd (ground arith)
        | inl (p, n) ↦ elim (Bool-cases (is_member p seen)) [
          | inl twice ↦ absurd (ground arith)
          | inr fresh ↦ elim (Result-cases (advance e.kind e total)) [
            | inr (x, a) ↦ absurd (ground arith)
            | inl (next, a) ↦
                let (offset, step) = advance_lem e.kind e total next a in
                let rest : layout_loop to_upper es next (p ∷ seen) (shape ++ (p, e.kind) ∷ [])
                    ≡ ok r =
                  ground arith in
                let c = layout_loop-Checked es next (p ∷ seen) (shape ++ (p, e.kind) ∷ []) r rest in
                record {
                  tree = (p, e.kind) ∷ c.tree;
                  appended = c.appended ∙ append_assoc shape ((p, e.kind) ∷ []) c.tree;
                  is_tree = (n, refl, fresh, c.is_tree);
                  contiguous = (offset, subst (λ t. IsContiguous t es) step c.contiguous);
                  sum = omega (arith, c.sum, step);
                }
          ]
        ]
      ]

  data_ciphertext_len_lem :
      (total chunk_size : ℕ)
      → data_ciphertext_len total chunk_size ≡ total + num_chunks total chunk_size * tag_len
  unfolding data_ciphertext_len
  data_ciphertext_len_lem total chunk_size = refl

  -- What the check of an untrusted manifest establishes, beside the lengths that it returns.
  pub record IsLayout (m : Manifest) (chunk_size data_len total chunks : ℕ) : Type 0 where
    pub count : length m.entries ≤ max_manifest_entries
    pub tree : List (Text × EntryKind)
    pub is_tree : IsTreeOf m.entries [] tree
    pub shape : check_tree_shape tree ≡ ok tt
    pub contiguous : IsContiguous 0 m.entries
    pub sum : total ≡ sum_files m.entries
    pub chunk_count : chunks ≡ num_chunks total chunk_size
    pub chunk_bound : chunks ≤ u32_max
    pub data_length : data_len ≡ data_ciphertext_len total chunk_size

  -- A manifest that passes names at most a million entries, all with valid and distinct paths and no
  -- file above another entry; its files lie one behind the other from offset 0, their sizes add up to
  -- the plaintext length that is returned, the number of chunks fits 32 bits, and the data section has
  -- exactly the length that this plaintext encrypts to.
  pub validate_manifest_layout-IsLayout :
      (m : Manifest) (chunk_size data_len : ℕ) (r : ℕ × ℕ)
      → validate_manifest_layout to_upper m chunk_size data_len ≡ ok r
      → IsLayout m chunk_size data_len r.0 r.1
  unfolding validate_manifest_layout
  validate_manifest_layout-IsLayout m chunk_size data_len r h =
      elim (Result-cases (layout_loop to_upper m.entries 0 [] [])) [
        | inr (x, l) ↦ absurd (ground arith)
        | inl (looped, l) ↦
            let c = layout_loop-Checked m.entries 0 [] [] looped l in
            let same : looped.1 ≡ c.tree = c.appended in
            record {
              count = ground arith;
              tree = c.tree;
              is_tree = c.is_tree;
              shape = subst (λ t. check_tree_shape t ≡ ok tt) same (ground arith);
              contiguous = c.contiguous;
              sum = ground (arith, c.sum);
              chunk_count = ground arith;
              chunk_bound = ground arith;
              data_length = ground (arith, data_ciphertext_len_lem looped.0 chunk_size);
            }
      ]
