-- ===== src/Readers/Content.antt =====
-- crates/filesec-core/src/format.rs: the reader of a vault's contents gives the files one after the other.
use file_sec.Prelude.{
  ℕ, suc, ◌+◌, ◌≤◌, ◌≡◌, refl, sym, ap, ◌∙◌, true, not, ◌||◌, List, [], ◌∷◌, ◌++◌, length, take,
  drop, min, leb, Bool-cases, inl, inr, length-take, length-drop, drop-drop, drop-all, ++-assoc,
  take-append-drop, if◌then◌else◌, arith,
}
use file_sec.State.{Bytes}
use file_sec.Tree.{is_file}
use file_sec.Vault.{VaultEntry, Vault}
use file_sec.Readers.{read_entries, content_reader, new_content_reader, VaultContentReader}
use file_sec.Readers.Contract.{empty_lem, Delivers, IsReader}

-- The contents of the files, one after the other.
abbrev pub contents : List VaultEntry → Bytes
contents [] = []
contents (e ∷ es) = (if is_file e.kind then e.content else []) ++ contents es

-- What is to come behind a position in the first entry.
abbrev pub contents_from : List VaultEntry → ℕ → Bytes
contents_from [] pos = []
contents_from (e ∷ es) pos = (if is_file e.kind then drop pos e.content else []) ++ contents es

from_start : (es : List VaultEntry) → contents_from es 0 ≡ contents es
from_start [] = refl
from_start (e ∷ es) = refl

abbrev pub AnySource : VaultContentReader → Type 0
AnySource s = Unit {0}

abbrev pub to_come : VaultContentReader → Bytes
to_come s = contents_from s.entries s.pos

-- An entry that is passed over: a directory, or a file that was read to its end.
passed :
    (e : VaultEntry) (es : List VaultEntry) (pos : ℕ)
    → (not (is_file e.kind) || leb (length e.content) pos) ≡ true
    → contents_from (e ∷ es) pos ≡ contents es
passed e es pos h = elim (Bool-cases (is_file e.kind)) [
  | inr d ↦ rw (d) refl
  | inl f ↦
      let ended : leb (length e.content) pos ≡ true = rw (f) at h in
      rw (f) (ap (λ xs. xs ++ contents es) (drop-all pos e.content (ground arith)))
]

entries_lem :
    (room : ℕ) (es : List VaultEntry) (pos : ℕ)
    → Delivers content_reader AnySource to_come (suc room) (record { entries = es; pos = pos })
unfolding read_entries
entries_lem room [] pos = record {
  bytes = [];
  next = record { entries = []; pos = pos };
  result = refl;
  valid = tt;
  whole = refl;
  fits = omega arith;
  progress = (λ e. refl);
}
entries_lem room (e ∷ es) pos =
    elim (Bool-cases (not (is_file e.kind) || leb (length e.content) pos)) [
      | inl over ↦
          let d = entries_lem room es 0 in
          let same : contents_from (e ∷ es) pos ≡ contents_from es 0 =
            passed e es pos over ∙ sym (from_start es) in
          record {
            bytes = d.bytes;
            next = d.next;
            result = rw (read_entries, over) d.result;
            valid = tt;
            whole = same ∙ d.whole;
            fits = d.fits;
            progress = (λ none. same ∙ d.progress none);
          }
      | inr inside ↦
          let src = drop pos e.content in
          let n = min (length src) (suc room) in
          let is_f : is_file e.kind ≡ true = ground arith in
          let more : pos + 1 ≤ length e.content = ground arith in
          let some : 1 ≤ length (take n src) =
            omega (arith, length-take n src, length-drop pos e.content) in
          record {
            bytes = take n src;
            next = record { entries = e ∷ es; pos = pos + n };
            result = rw (read_entries, inside) refl;
            valid = tt;
            whole = rw (is_f) (
                ap (λ xs. xs ++ contents es)
                  (sym (take-append-drop n src)
                    ∙ ap (λ xs. take n src ++ xs) (sym (drop-drop pos n e.content)))
                ∙ ++-assoc (take n src) (drop (pos + n) e.content) (contents es));
            fits = omega (arith, length-take n src);
            progress =
                (λ none. absurd (omega (arith, some, ap length (empty_lem (take n src) none))));
          }
    ]

-- The reader of a vault's contents keeps its promise: from any position it gives what is left of the file
-- there and the files behind it, and no directory, in pieces that fit, and nothing only at the end.
pub content_reader-IsReader : IsReader content_reader AnySource to_come
content_reader-IsReader = record { delivers = (λ room s v. entries_lem room s.entries s.pos) }

new_content_reader_lem : (v : Vault) → to_come (new_content_reader v) ≡ contents v.entries
unfolding new_content_reader
new_content_reader_lem v = from_start v.entries
