-- ===== src/Net/Limiter/Backoff.antt =====
-- crates/filesec-gui/src/net/concurrency.rs: how long a peer is refused.
use file_sec.Prelude.{
  ℕ, suc, subst, ◌%◌, ◌+◌, ◌-◌, ◌*◌, ◌^◌, zero, ◌≤◌, ◌≡◌, refl, ap, ◌∙◌, true, false, ◌||◌, none,
  some, List, [], ◌∷◌, All, length, min, ltb, leb, if◌then◌else◌, Bool-cases, inl, inr, arith,
}
use native.Mathlib.Nat.{pow-suc}
use file_sec.Net.Limiter.{
  is_unblocked, backoff_after, failure_threshold, allow, is_unblocked, failure_threshold, IpAddr,
  PeerKey, Record, RateLimiter, lookup, failed_once, or_new, peer_key, allow, is_unblocked,
  backoff_after, record_failure,
}
use file_sec.Net.Limiter.Lookups.{lookup-record_failure}

abbrev pub wait : ℕ → ℕ
wait over = min (1000 * 2 ^ over) 60000

pow_mono : (a d : ℕ) → 2 ^ a ≤ 2 ^ (d + a)
pow_mono a zero =
    let same : 2 ^ (0 + a) ≡ 2 ^ a = ap (λ n. 2 ^ n) (omega arith) in omega (arith, same)
pow_mono a (suc d) =
    let same : 2 ^ (suc d + a) ≡ 2 ^ suc (d + a) = ap (λ n. 2 ^ n) (omega arith) in
    let double : 2 ^ suc (d + a) ≡ 2 ^ (d + a) * 2 = pow-suc 2 (d + a) in
    omega (arith, pow_mono a d)

pow_le : (a b : ℕ) → a ≤ b → 2 ^ a ≤ 2 ^ b
pow_le a b h =
    let same : 2 ^ (b - a + a) ≡ 2 ^ b = ap (λ n. 2 ^ n) (omega arith) in
    omega (arith, pow_mono a (b - a))

backoff_after-wait : (over : ℕ) → backoff_after over ≡ wait over
unfolding backoff_after
backoff_after-wait over = elim (Bool-cases (leb over 16)) [
  | inl few ↦
      let same : min over 16 ≡ over = ground arith in
      let bound : 2 ^ over ≤ 65536 = pow_le over 16 (ground arith) in
      let shifts : ltb over 32 ≡ true = ground arith in
      let fits : 2 ^ over % 4294967296 ≡ 2 ^ over = omega arith in
      let no_overflow : ltb (1 * 2 ^ over) 18446744073709551616 ≡ true = ground arith in
      rw (backoff_after, same, shifts, fits, no_overflow) refl
  | inr many ↦
      let same : min over 16 ≡ 16 = ground arith in
      let bound : 65536 ≤ 2 ^ over = pow_le 16 over (ground arith) in
      let minute : wait over ≡ 60000 = omega arith in rw (backoff_after, same, minute) refl
]

-- The record of a peer after some failures in a row.
record IsAfter (failures last : ℕ) (r : Record) : Type 0 where
  counted : r.failures ≡ failures
  blocked : r.blocked_until ≡ (
      if leb failure_threshold failures
      then some (last + wait (failures - failure_threshold))
      else none)

failed_once-IsAfter :
    (n last now : ℕ) (r : Record)
    → suc n ≤ 4294967295
    → IsAfter n last r
    → IsAfter (suc n) now (failed_once now r)
unfolding failed_once
failed_once-IsAfter n last now r h a =
    let count : min (r.failures + 1) 4294967295 ≡ suc n = omega (arith, a.counted) in
    elim (Bool-cases (leb failure_threshold (suc n))) [
      | inl over ↦ record {
        counted = count;
        blocked =
            rw (count, over)
              (ap (λ w. some (now + w)) (backoff_after-wait (suc n - failure_threshold)));
      }
      | inr under ↦
          let before : leb failure_threshold n ≡ false = ground arith in
          record { counted = count; blocked = rw (count, under) (a.blocked ∙ rw (before) refl) }
    ]

abbrev pub fail_all : RateLimiter → List (IpAddr × ℕ) → RateLimiter
fail_all peers [] = peers
fail_all peers ((ip, now) ∷ failures) = fail_all (record_failure peers ip now) failures

-- When the last of some failures was.
abbrev pub last_of : ℕ → List (IpAddr × ℕ) → ℕ
last_of last [] = last
last_of last ((ip, now) ∷ failures) = last_of now failures

fail_all_lem :
    (key : PeerKey) (peers : RateLimiter) (failures : List (IpAddr × ℕ)) (n last : ℕ) (r : Record)
    → All (λ f. peer_key f.0 ≡ key) failures
    → n + length failures ≤ 4294967295
    → lookup key peers ≡ some r
    → IsAfter n last r
    → (r2 : Record) × (lookup key (fail_all peers failures) ≡ some r2)
      × IsAfter (n + length failures) (last_of last failures) r2
fail_all_lem key peers [] n last r same size found a =
    (r, found, subst (λ m. IsAfter m last r) (omega arith) a)
fail_all_lem key peers ((ip, now) ∷ failures) n last r same size found a =
    let found2 : lookup key (record_failure peers ip now) ≡ some (failed_once now r) =
      subst
        (λ k.
          lookup k peers ≡ some r
          → lookup k (record_failure peers ip now) ≡ some (failed_once now r))
        same.0
        (λ f.
          lookup-record_failure peers ip now ∙ ap (λ o. some (failed_once now (or_new now o))) f)
        found in
    let (r2, there, after) =
      fail_all_lem key (record_failure peers ip now) failures (suc n) now (failed_once now r) same.1
        (omega arith) found2 (failed_once-IsAfter n last now r (omega arith) a) in
    (r2, there, subst (λ m. IsAfter m (last_of now failures) r2) (omega arith) after)

allow_lem :
    (key : PeerKey) (peers : RateLimiter) (ip : IpAddr) (now : ℕ) (r : Record)
    → peer_key ip ≡ key
    → lookup key peers ≡ some r
    → allow peers ip now ≡ is_unblocked now r.blocked_until
unfolding allow
allow_lem key peers ip now r same found =
    let there : lookup (peer_key ip) peers ≡ some r = ap (λ k. lookup k peers) same ∙ found in
    rw (allow, there) refl

-- A peer that fails again and again is let in again at a time that depends only on how often it failed and
-- on when it failed last: at once up to the fourth failure, and from the fifth on after a second, doubled
-- by every further failure, and a minute at most. Addresses of one IPv6 prefix of 64 bits count as one
-- peer, and it makes no difference whether other peers had to be forgotten for it.
pub allow-fail_all :
    (key : PeerKey) (peers : RateLimiter) (first : IpAddr × ℕ) (failures : List (IpAddr × ℕ))
    (ip : IpAddr) (now : ℕ)
    → lookup key peers ≡ none
    → All (λ f. peer_key f.0 ≡ key) (first ∷ failures)
    → peer_key ip ≡ key
    → length (first ∷ failures) ≤ 4294967295
    → allow (fail_all peers (first ∷ failures)) ip now ≡ (
        ltb (length (first ∷ failures)) 5
        || leb (last_of first.1 failures + wait (length (first ∷ failures) - 5)) now)
unfolding allow failed_once
allow-fail_all key peers (first, at) failures ip now new same asking size =
    let start : Record = record { failures = 0; blocked_until = none; last_seen = at } in
    let found : lookup key (record_failure peers first at) ≡ some (failed_once at start) =
      subst
        (λ k.
          lookup k peers ≡ none
          → lookup k (record_failure peers first at) ≡ some (failed_once at start))
        same.0
        (λ f.
          lookup-record_failure peers first at ∙ ap (λ o. some (failed_once at (or_new at o))) f)
        new in
    let (r, there, after) =
      fail_all_lem key (record_failure peers first at) failures 1 at (failed_once at start) same.1
        (omega arith) found
        (failed_once-IsAfter 0 at at start (omega arith)
          (record { counted = refl; blocked = refl })) in
    let count : 1 + length failures ≡ suc (length failures) = omega arith in
    let answer =
      allow_lem key (fail_all (record_failure peers first at) failures) ip now r asking there in
    answer ∙ elim (Bool-cases (leb failure_threshold (suc (length failures)))) [
      | inl over ↦
          let many : ltb (suc (length failures)) 5 ≡ false = ground arith in
          rw (after.blocked, count, over, many) refl
      | inr under ↦
          let few : ltb (suc (length failures)) 5 ≡ true = ground arith in
          rw (after.blocked, count, under, few) refl
    ]
