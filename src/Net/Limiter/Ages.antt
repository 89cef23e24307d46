-- ===== src/Net/Limiter/Ages.antt =====
-- crates/filesec-gui/src/net/concurrency.rs: the table of peers in the order of their age.
use file_sec.Prelude.{
  ℕ, zero, suc, ◌≤◌, ◌≡◌, refl, ap, sym, subst, ◌∙◌, true, false, List, [], ◌∷◌, All, All-map, any,
  take, leb, text_eq_iff, Bool-cases, leb→le, inl, inr, ◌⊎◌, arith,
}
use file_sec.Net.Limiter.{
  PeerKey, v4_key, v6_prefix64, key_eq, Record, RateLimiter, insert_by_age, by_age, remove_key,
  remove_keys,
}
use file_sec.Net.Limiter.Bound.{key_eq_refl}

pub key_eq_sound : (a b : PeerKey) → key_eq a b ≡ true → a ≡ b
key_eq_sound (v4_key a) (v4_key b) h = ap v4_key ((text_eq_iff a b).0 h)
key_eq_sound (v6_prefix64 a) (v6_prefix64 b) h = ap v6_prefix64 ((text_eq_iff a b).0 h)
key_eq_sound (v4_key a) (v6_prefix64 b) h = absurd cc
key_eq_sound (v6_prefix64 a) (v4_key b) h = absurd cc

-- A record of the key that was last seen no later than a time.
abbrev pub HasOlder : PeerKey → ℕ → RateLimiter → Type 0
HasOlder key seen [] = ⊥
HasOlder key seen ((k, r) ∷ peers) =
    ((key_eq key k ≡ true) × (r.last_seen ≤ seen)) ⊎ HasOlder key seen peers

pub HasOlder-later :
    (key : PeerKey) (a b : ℕ) (peers : RateLimiter)
    → a ≤ b
    → HasOlder key a peers
    → HasOlder key b peers
HasOlder-later key a b [] le h = h
HasOlder-later key a b ((k, r) ∷ peers) le (inl h) = inl (h.0, omega (arith, h.1))
HasOlder-later key a b ((k, r) ∷ peers) le (inr h) = inr (HasOlder-later key a b peers le h)

abbrev pub Aged : Type 0
Aged = ℕ × PeerKey

insert_by_age-All :
    (P : Aged → Type 0) (x : Aged) (xs : List Aged) → P x → All P xs → All P (insert_by_age x xs)
insert_by_age-All P x [] h hs = (h, tt)
insert_by_age-All P x (y ∷ ys) h hs = elim (Bool-cases (leb x.0 y.0)) [
  | inl e ↦ rw (e) (h, hs)
  | inr e ↦ rw (e) (hs.0, insert_by_age-All P x ys h hs.1)
]

-- Each line of the list stands for a record of the table.
pub by_age-HasOlder : (peers : RateLimiter) → All (λ x. HasOlder x.1 x.0 peers) (by_age peers)
by_age-HasOlder [] = tt
by_age-HasOlder ((k, r) ∷ peers) =
    insert_by_age-All (λ x. HasOlder x.1 x.0 ((k, r) ∷ peers)) (r.last_seen, k) (by_age peers)
      (inl (key_eq_refl k, omega arith))
      (All-map (λ x. HasOlder x.1 x.0 peers) (λ x. HasOlder x.1 x.0 ((k, r) ∷ peers)) (λ x h. inr h)
        (by_age peers) (by_age-HasOlder peers))

abbrev pub IsAscending : List Aged → Type 0
IsAscending [] = Unit
IsAscending (x ∷ xs) = All (λ y. x.0 ≤ y.0) xs × IsAscending xs

insert_by_age-IsAscending :
    (x : Aged) (xs : List Aged) → IsAscending xs → IsAscending (insert_by_age x xs)
insert_by_age-IsAscending x [] h = (tt, tt)
insert_by_age-IsAscending x (y ∷ ys) h = elim (Bool-cases (leb x.0 y.0)) [
  | inl e ↦
      let below : x.0 ≤ y.0 = leb→le x.0 y.0 e in
      rw (e)
        ((below, All-map (λ z. y.0 ≤ z.0) (λ z. x.0 ≤ z.0) (λ z le. omega (arith, le)) ys h.0), h)
  | inr e ↦ rw (e) (
    insert_by_age-All (λ z. y.0 ≤ z.0) x ys (ground arith) h.0,
    insert_by_age-IsAscending x ys h.1,
  )
]

pub by_age-IsAscending : (peers : RateLimiter) → IsAscending (by_age peers)
by_age-IsAscending [] = tt
by_age-IsAscending ((k, r) ∷ peers) =
    insert_by_age-IsAscending (r.last_seen, k) (by_age peers) (by_age-IsAscending peers)

abbrev pub Listed : Aged → List Aged → Type 0
Listed x [] = ⊥
Listed x (y ∷ ys) = (x ≡ y) ⊎ Listed x ys

insert_by_age-Listed :
    (x y : Aged) (xs : List Aged) → (x ≡ y) ⊎ Listed x xs → Listed x (insert_by_age y xs)
insert_by_age-Listed x y [] h = h
insert_by_age-Listed x y (z ∷ zs) h = elim (Bool-cases (leb y.0 z.0)) [
  | inl e ↦ rw (e) h
  | inr e ↦ rw (e) (elim h [
    | inl same ↦ inr (insert_by_age-Listed x y zs (inl same))
    | inr (inl first) ↦ inl first
    | inr (inr later) ↦ inr (insert_by_age-Listed x y zs (inr later))
  ])
]

pub by_age-Listed :
    (peers : RateLimiter) → All (λ y. Listed (y.1.last_seen, y.0) (by_age peers)) peers
by_age-Listed [] = tt
by_age-Listed ((k, r) ∷ peers) = (
  insert_by_age-Listed (r.last_seen, k) (r.last_seen, k) (by_age peers) (inl refl),
  All-map (λ y. Listed (y.1.last_seen, y.0) (by_age peers))
      (λ y. Listed (y.1.last_seen, y.0) (insert_by_age (r.last_seen, k) (by_age peers)))
      (λ y h. insert_by_age-Listed (y.1.last_seen, y.0) (r.last_seen, k) (by_age peers) (inr h))
      peers (by_age-Listed peers),
)

All-Listed : (P : Aged → Type 0) (x : Aged) (xs : List Aged) → Listed x xs → All P xs → P x
All-Listed P x [] h all = absurd h
All-Listed P x (y ∷ ys) (inl same) h = subst P (sym same) h.0
All-Listed P x (y ∷ ys) (inr later) h = All-Listed P x ys later h.1

-- What is in the list is in its front, or no younger than nothing of the front.
pub front_or_later :
    (n : ℕ) (xs : List Aged) (x : Aged)
    → IsAscending xs
    → Listed x xs
    → (any (λ z. key_eq z.1 x.1) (take n xs) ≡ true) ⊎ All (λ z. z.0 ≤ x.0) (take n xs)
front_or_later n [] x up h = absurd h
front_or_later zero (y ∷ ys) x up h = inr tt
front_or_later (suc n) (y ∷ ys) x up (inl same) = inl (rw (same, key_eq_refl y.1) refl)
front_or_later (suc n) (y ∷ ys) x up (inr later) = elim (front_or_later n ys x up.1 later) [
  | inl found ↦ inl (ground (arith, found))
  | inr all ↦ inr (All-Listed (λ z. y.0 ≤ z.0) x ys later up.0, all)
]

remove_key-All :
    (P : PeerKey × Record → Type 0) (key : PeerKey) (peers : RateLimiter)
    → All (λ y. (key_eq key y.0 ≡ true) ⊎ P y) peers
    → All P (remove_key key peers)
remove_key-All P key [] h = tt
remove_key-All P key ((k, r) ∷ peers) h = elim (Bool-cases (key_eq key k)) [
  | inl e ↦ rw (e) (remove_key-All P key peers h.1)
  | inr e ↦ rw (e) (elim h.0 [
    | inl same ↦ absurd (let wrong = sym e ∙ same in cc)
    | inr holds ↦ (holds, remove_key-All P key peers h.1)
  ])
]

any_or :
    (key : PeerKey) (ks : List Aged) (x : Aged) (Q : Type 0)
    → (any (λ z. key_eq z.1 key) (x ∷ ks) ≡ true) ⊎ Q
    → (key_eq x.1 key ≡ true) ⊎ ((any (λ z. key_eq z.1 key) ks ≡ true) ⊎ Q)
any_or key ks x Q (inr q) = inr (inr q)
any_or key ks x Q (inl found) = elim (Bool-cases (key_eq x.1 key)) [
  | inl e ↦ inl e
  | inr e ↦ inr (inl (rw (e) at found))
]

pub remove_keys-All :
    (P : PeerKey × Record → Type 0) (ks : List Aged) (peers : RateLimiter)
    → All (λ y. (any (λ z. key_eq z.1 y.0) ks ≡ true) ⊎ P y) peers
    → All P (remove_keys ks peers)
remove_keys-All P [] peers h =
    All-map (λ y. (false ≡ true) ⊎ P y) P
      (λ y g. elim g [ inl wrong ↦ absurd cc | inr holds ↦ holds ]) peers h
remove_keys-All P ((seen, key) ∷ ks) peers h = remove_keys-All P ks (remove_key key peers) (
    remove_key-All (λ y. (any (λ z. key_eq z.1 y.0) ks ≡ true) ⊎ P y) key peers
      (All-map _ _ (λ y g. any_or y.0 ks (seen, key) (P y) g) peers h))
