-- ===== src/Readers/Chain.antt =====
-- crates/filesec-core/src/format.rs: a chain of readers is a reader.
use file_sec.Prelude.{
  ℕ, suc, ◌≡◌, refl, ap, ◌∙◌, Option, none, some, List, [], ◌∷◌, ◌++◌, All, is_empty, Bool-cases,
  inl, inr, ++-assoc, arith,
}
use file_sec.Errors.{ok}
use file_sec.State.{Bytes}
use file_sec.Readers.{Reader, ChainReader, read_chain, chain_reader}
use file_sec.Readers.Contract.{Delivers, IsReader}

module _ (r : Reader) (IsValid : r.Source → Type 0) (remaining : r.Source → Bytes)
    (reader : IsReader r IsValid remaining) where
  abbrev pub all_remaining : List r.Source → Bytes
  all_remaining [] = []
  all_remaining (s ∷ ss) = remaining s ++ all_remaining ss

  abbrev pub chain_remaining : ChainReader r → Bytes
  chain_remaining c = elim c.current [ none ↦ [] | some s ↦ remaining s ++ all_remaining c.rest ]

  abbrev pub IsCurrentValid : Option r.Source → Type 0
  IsCurrentValid none = Unit {0}
  IsCurrentValid (some s) = IsValid s

  abbrev pub IsChainValid : ChainReader r → Type 0
  IsChainValid c = IsCurrentValid c.current × All IsValid c.rest

  chain_lem :
      (room : ℕ) (s : r.Source) (ss : List r.Source)
      → IsValid s
      → All IsValid ss
      → Delivers
          (chain_reader r)
          IsChainValid
          chain_remaining
          (suc room)
          (record { current = some s; rest = ss })
  unfolding read_chain
  chain_lem room s [] v vs =
      let d = reader.delivers room s v in
      elim (Bool-cases (is_empty d.bytes)) [
        | inl end ↦
            let nothing : remaining s ≡ [] = d.progress end in
            record {
              bytes = [];
              next = record { current = none; rest = [] };
              result = rw (read_chain, d.result, end) refl;
              valid = (tt, tt);
              whole = ap (λ xs. xs ++ []) nothing;
              fits = omega arith;
              progress = (λ e. ap (λ xs. xs ++ []) nothing);
            }
        | inr more ↦ record {
          bytes = d.bytes;
          next = record { current = some d.next; rest = [] };
          result =
              rw (read_chain, d.result, more)
                (ap (λ p. (ok d.bytes, record { current = some p.1; rest = [] })) d.result);
          valid = (d.valid, tt);
          whole = ap (λ xs. xs ++ []) d.whole ∙ ++-assoc d.bytes (remaining d.next) [];
          fits = d.fits;
          progress = (λ e. absurd cc);
        }
      ]
  chain_lem room s (t ∷ ts) v vs =
      let d = reader.delivers room s v in
      elim (Bool-cases (is_empty d.bytes)) [
        | inl end ↦
            let rest = chain_lem room t ts vs.0 vs.1 in
            let passed = ap (λ xs. xs ++ all_remaining (t ∷ ts)) (d.progress end) in
            record {
              bytes = rest.bytes;
              next = rest.next;
              result = rw (read_chain, d.result, end) rest.result;
              valid = rest.valid;
              whole = passed ∙ rest.whole;
              fits = rest.fits;
              progress = (λ e. passed ∙ rest.progress e);
            }
        | inr more ↦ record {
          bytes = d.bytes;
          next = record { current = some d.next; rest = t ∷ ts };
          result =
              rw (read_chain, d.result, more)
                (ap (λ p. (ok d.bytes, record { current = some p.1; rest = t ∷ ts })) d.result);
          valid = (d.valid, vs);
          whole =
              ap (λ xs. xs ++ all_remaining (t ∷ ts)) d.whole
              ∙ ++-assoc d.bytes (remaining d.next) (all_remaining (t ∷ ts));
          fits = d.fits;
          progress = (λ e. absurd cc);
        }
      ]

  current_lem :
      (room : ℕ) (current : Option r.Source) (rest : List r.Source)
      → IsCurrentValid current
      → All IsValid rest
      → Delivers
          (chain_reader r)
          IsChainValid
          chain_remaining
          (suc room)
          (record { current = current; rest = rest })
  current_lem room none rest v vs = record {
    bytes = [];
    next = record { current = none; rest = rest };
    result = refl;
    valid = (tt, vs);
    whole = refl;
    fits = omega arith;
    progress = (λ e. refl);
  }
  current_lem room (some s) rest v vs = chain_lem room s rest v vs

  -- A chain of readers that keep their promise keeps it too: it gives what they give, one behind the other.
  chain_reader-IsReader : IsReader (chain_reader r) IsChainValid chain_remaining
  chain_reader-IsReader = record {
    delivers = (λ room c v. current_lem room c.current c.rest v.0 v.1);
  }
