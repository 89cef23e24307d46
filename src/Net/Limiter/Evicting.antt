-- ===== src/Net/Limiter/Evicting.antt =====
-- crates/filesec-gui/src/net/concurrency.rs: which peers are forgotten when the table is full.
use file_sec.Prelude.{
  ℕ, zero, suc, ◌≤◌, ◌-◌, ◌≡◌, refl, ap, sym, subst, ◌∙◌, true, false, List, [], ◌∷◌, All, All-map,
  length, take, ltb, Bool-cases, inl, inr, arith,
}
use file_sec.Net.Limiter.{
  max_tracked_peers, forget_after, PeerKey, key_eq, RateLimiter, lookup, remove_key, prune, by_age,
  remove_keys, make_room, is_tracked,
}
use file_sec.Net.Limiter.Ages.{
  key_eq_sound, HasOlder, HasOlder-later, Aged, by_age-HasOlder, by_age-IsAscending, by_age-Listed,
  front_or_later, remove_keys-All,
}

-- The records of a table are as young as a record of the key, or younger.
abbrev pub AreYounger : PeerKey → RateLimiter → RateLimiter → Type 0
AreYounger key peers = All (λ y. HasOlder key y.1.last_seen peers)

prune-HasOlder :
    (now : ℕ) (key : PeerKey) (seen : ℕ) (peers : RateLimiter)
    → HasOlder key seen (prune now peers)
    → HasOlder key seen peers
unfolding prune
prune-HasOlder now key seen [] h = h
prune-HasOlder now key seen ((k, r) ∷ peers) h =
    elim (Bool-cases (ltb (now - r.last_seen) forget_after)) [
      | inl e ↦ elim (rw (prune, e) at h) [
        | inl here ↦ inl here
        | inr behind ↦ inr (prune-HasOlder now key seen peers behind)
      ]
      | inr e ↦ inr (prune-HasOlder now key seen peers (rw (prune, e) at h))
    ]

prune-young :
    (now : ℕ) (peers : RateLimiter)
    → All (λ y. ltb (now - y.1.last_seen) forget_after ≡ true) (prune now peers)
unfolding prune
prune-young now [] = tt
prune-young now ((k, r) ∷ peers) = elim (Bool-cases (ltb (now - r.last_seen) forget_after)) [
  | inl e ↦ rw (prune, e) (e, prune-young now peers)
  | inr e ↦ rw (prune, e) (prune-young now peers)
]

-- A key that pruning forgets has a record that is older than all that are young.
pruned-HasOlder :
    (now : ℕ) (key : PeerKey) (seen : ℕ) (peers : RateLimiter)
    → is_tracked (lookup key peers) ≡ true
    → is_tracked (lookup key (prune now peers)) ≡ false
    → ltb (now - seen) forget_after ≡ true
    → HasOlder key seen peers
unfolding prune
pruned-HasOlder now key seen [] h gone young = absurd cc
pruned-HasOlder now key seen ((k, r) ∷ peers) h gone young = elim (Bool-cases (key_eq key k)) [
  | inl same ↦ elim (Bool-cases (ltb (now - r.last_seen) forget_after)) [
    | inl e ↦ absurd (let wrong = rw (prune, e, same) at gone in cc)
    | inr e ↦ inl (same, ground arith)
  ]
  | inr other ↦
      let tracked = rw (other) at h in
      elim (Bool-cases (ltb (now - r.last_seen) forget_after)) [
        | inl e ↦
            inr (pruned-HasOlder now key seen peers tracked (rw (prune, e, other) at gone) young)
        | inr e ↦ inr (pruned-HasOlder now key seen peers tracked (rw (prune, e) at gone) young)
      ]
]

lookup-remove_key_other :
    (key gone : PeerKey) (peers : RateLimiter)
    → key_eq key gone ≡ false
    → lookup key (remove_key gone peers) ≡ lookup key peers
lookup-remove_key_other key gone [] h = refl
lookup-remove_key_other key gone ((k, r) ∷ peers) h = elim (Bool-cases (key_eq gone k)) [
  | inl e ↦
      let other : key_eq key k ≡ false = ap (key_eq key) (sym (key_eq_sound gone k e)) ∙ h in
      rw (e, other) (lookup-remove_key_other key gone peers h)
  | inr e ↦ elim (Bool-cases (key_eq key k)) [
    | inl here ↦ rw (e, here) refl
    | inr behind ↦ rw (e, behind) (lookup-remove_key_other key gone peers h)
  ]
]

evicted-HasOlder :
    (table : RateLimiter) (key : PeerKey) (seen : ℕ) (ks : List Aged) (peers : RateLimiter)
    → is_tracked (lookup key peers) ≡ true
    → is_tracked (lookup key (remove_keys ks peers)) ≡ false
    → All (λ x. HasOlder x.1 x.0 table) ks
    → All (λ x. x.0 ≤ seen) ks
    → HasOlder key seen table
evicted-HasOlder table key seen [] peers h gone there older = absurd cc
evicted-HasOlder table key seen ((age, k) ∷ ks) peers h gone there older =
    elim (Bool-cases (key_eq key k)) [
      | inl same ↦
          subst (λ x. HasOlder x seen table) (sym (key_eq_sound key k same))
            (HasOlder-later k age seen table older.0 there.0)
      | inr other ↦
          evicted-HasOlder table key seen ks (remove_key k peers)
            (ap is_tracked (lookup-remove_key_other key k peers other) ∙ h) gone there.1 older.1
    ]

take-All : (P : Aged → Type 0) (n : ℕ) (xs : List Aged) → All P xs → All P (take n xs)
take-All P zero xs h = tt
take-All P (suc n) [] h = tt
take-All P (suc n) (x ∷ xs) h = (h.0, take-All P n xs h.1)

-- The oldest records of a table make room.
evicted-AreYounger :
    (n : ℕ) (key : PeerKey) (peers : RateLimiter)
    → is_tracked (lookup key peers) ≡ true
    → is_tracked (lookup key (remove_keys (take n (by_age peers)) peers)) ≡ false
    → AreYounger key peers (remove_keys (take n (by_age peers)) peers)
evicted-AreYounger n key peers h gone =
    let ks = take n (by_age peers) in
    remove_keys-All (λ y. HasOlder key y.1.last_seen peers) ks peers
      (All-map _ _
        (λ y listed.
          elim (front_or_later n (by_age peers) (y.1.last_seen, y.0) (by_age-IsAscending peers)
            listed) [
              | inl found ↦ inl found
              | inr older ↦ inr (
                  evicted-HasOlder peers key y.1.last_seen ks peers h gone
                    (take-All (λ x. HasOlder x.1 x.0 peers) n (by_age peers)
                      (by_age-HasOlder peers))
                    older)
            ])
        peers (by_age-Listed peers))

pub make_room-AreYounger :
    (now : ℕ) (key : PeerKey) (peers : RateLimiter)
    → is_tracked (lookup key peers) ≡ true
    → is_tracked (lookup key (make_room now peers)) ≡ false
    → AreYounger key peers (make_room now peers)
unfolding make_room
make_room-AreYounger now key peers h gone =
    let kept = prune now peers in
    elim (Bool-cases (is_tracked (lookup key kept))) [
      | inr pruned ↦
          let older =
            All-map (λ y. ltb (now - y.1.last_seen) forget_after ≡ true)
              (λ y. HasOlder key y.1.last_seen peers)
              (λ y young. pruned-HasOlder now key y.1.last_seen peers h pruned young) kept
              (prune-young now peers) in
          elim (Bool-cases (ltb (length kept) max_tracked_peers)) [
            | inl e ↦ rw (make_room, e) older
            | inr e ↦
                rw (make_room, e)
                  (remove_keys-All (λ y. HasOlder key y.1.last_seen peers) (take 512 (by_age kept))
                    kept (All-map _ _ (λ y g. inr g) kept older))
          ]
      | inl stays ↦ elim (Bool-cases (ltb (length kept) max_tracked_peers)) [
        | inl e ↦ absurd (let wrong = rw (make_room, e, stays) at gone in cc)
        | inr e ↦
            rw (make_room, e)
              (All-map (λ y. HasOlder key y.1.last_seen kept)
                (λ y. HasOlder key y.1.last_seen peers)
                (λ y g. prune-HasOlder now key y.1.last_seen peers g)
                (remove_keys (take 512 (by_age kept)) kept)
                (evicted-AreYounger 512 key kept stays (rw (make_room, e) at gone)))
      ]
    ]
