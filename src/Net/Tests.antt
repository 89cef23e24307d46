-- ===== src/Net/Tests.antt =====
-- Concrete runs of crates/filesec-gui/src/net/wire.rs and concurrency.rs.
use file_sec.Prelude.{
  ◌⊎◌, All, false, ℕ, ◌+◌, ◌-◌, ◌≤◌, ◌≡◌, refl, true, false, ◌||◌, none, inl, inr, List, [], ◌∷◌,
  ◌++◌, length, ltb, leb, be_bytes, arith,
}
use file_sec.Net.Wire.{Turn, up_to, again, done, write_frame, read_frame_until}
use file_sec.Net.Wire.Framing.{read_frame_until-write_frame, IsTimely}
use file_sec.Net.Wire.Ending.{EndsBefore, read_frame_until-EndsBefore}
use file_sec.Net.Permits.{
  start, exchange, new_semaphore, run_schedule, IsBalanced, run_schedule-IsBalanced,
}
use file_sec.Net.Limiter.{
  key_eq, lookup, is_tracked, record_failure, IpAddr, v4, v6, peer_key, v6_prefix64,
  max_tracked_peers, allow,
}
use file_sec.Net.Limiter.Bound.{Event, failure, success, pruning, after_events}
use file_sec.Net.Limiter.Ages.{HasOlder}
use file_sec.Net.Limiter.Forgetting.{after_events-bounded}
use file_sec.Net.Limiter.Backoff.{wait, last_of, fail_all, allow-fail_all}

abbrev at : ℕ → Turn
at n = record { is_cancelled = false; now = n; answer = up_to 2 }

abbrev stalled : Turn
stalled = record { is_cancelled = false; now = 3; answer = again }

at_lem : (n : ℕ) → leb 100 n ≡ false → IsTimely 100 (at n)
at_lem n h = record { not_cancelled = refl; early = h; works = (λ e w. cc) }

stalled-IsTimely : IsTimely 100 stalled
stalled-IsTimely = record { not_cancelled = refl; early = refl; works = (λ e w. cc) }

-- Two bytes behind a length, and another byte; the socket stalls once.
read_frame_until-write_frame_example :
    (left : List Turn) × (read_frame_until 16 100
        ((be_bytes 4 2 ++ 8 ∷ 9 ∷ []) ++ 7 ∷ [])
        (at 1 ∷ at 2 ∷ stalled ∷ at 4 ∷ at 5 ∷ at 6 ∷ at 7 ∷ [])
      ≡ done (8 ∷ 9 ∷ []) (7 ∷ []) left)
unfolding write_frame be_bytes
read_frame_until-write_frame_example =
    read_frame_until-write_frame 100 16 (8 ∷ 9 ∷ []) (be_bytes 4 2 ++ 8 ∷ 9 ∷ []) (7 ∷ [])
      (at 1 ∷ at 2 ∷ stalled ∷ at 4 ∷ at 5 ∷ at 6 ∷ at 7 ∷ []) refl (omega arith)
      (
        at_lem 1 refl,
        (
          at_lem 2 refl,
          (
            stalled-IsTimely,
            (at_lem 4 refl, (at_lem 5 refl, (at_lem 6 refl, (at_lem 7 refl, tt)))),
          ),
        ),
      )
      (omega arith)

-- A byte in each round does not keep the connection past its deadline.
read_frame_until-EndsBefore_example :
    EndsBefore
      (at 3 ∷ at 4 ∷ [])
      (read_frame_until 16 3 (0 ∷ 0 ∷ 0 ∷ 5 ∷ 1 ∷ []) (at 1 ∷ at 3 ∷ at 4 ∷ []))
read_frame_until-EndsBefore_example =
    read_frame_until-EndsBefore 3 16 (0 ∷ 0 ∷ 0 ∷ 5 ∷ 1 ∷ []) (at 1 ∷ []) (at 3) (at 4 ∷ [])
      (inr (omega arith))

-- Two workers race for one permit.
run_schedule-IsBalanced_example : IsBalanced 1 (
    run_schedule
      (new_semaphore 1 2)
      ((0, start) ∷ (1, start) ∷ (0, exchange true) ∷ (1, exchange true) ∷ (1, exchange true) ∷ []))
run_schedule-IsBalanced_example =
    run_schedule-IsBalanced 1 2
      ((0, start) ∷ (1, start) ∷ (0, exchange true) ∷ (1, exchange true) ∷ (1, exchange true) ∷ [])
      (omega arith)

abbrev addr : ℕ → IpAddr
addr n = v4 (1 ∷ 2 ∷ 3 ∷ n ∷ [])

abbrev events : List Event
events = failure (addr 4) 0 ∷ failure (addr 5) 7 ∷ pruning 9 ∷ success (addr 4) ∷ []

after_events-bounded_example :
    (length (after_events [] events) ≤ max_tracked_peers)
    × ((is_tracked (lookup (peer_key (addr 5)) (after_events [] events)) ≡ false)
        ⊎ ((is_tracked
                (lookup (peer_key (addr 5)) (record_failure (after_events [] events) (addr 6) 20))
              ≡ true)
            ⊎ All
                (λ y.
                  (key_eq (peer_key (addr 6)) y.0 ≡ true)
                  ⊎ HasOlder (peer_key (addr 5)) y.1.last_seen (after_events [] events))
                (record_failure (after_events [] events) (addr 6) 20)))
after_events-bounded_example =
    after_events-bounded [] events (addr 6) 20 (peer_key (addr 5)) (omega arith)

-- The host number at the end of an address of one prefix.
abbrev host : ℕ → IpAddr
host n = v6 (32 ∷ 1 ∷ 13 ∷ 184 ∷ 0 ∷ 1 ∷ 0 ∷ 2 ∷ 0 ∷ 0 ∷ 0 ∷ 0 ∷ 0 ∷ 0 ∷ 0 ∷ n ∷ [])

abbrev five : List (IpAddr × ℕ)
five = (host 2, 10) ∷ (host 3, 20) ∷ (host 4, 30) ∷ (host 5, 40) ∷ []

allow-fail_all_example : allow (fail_all [] ((host 1, 0) ∷ five)) (host 9) 1000 ≡ (
    ltb (length ((host 1, 0) ∷ five)) 5
    || leb (last_of 0 five + wait (length ((host 1, 0) ∷ five) - 5)) 1000)
unfolding peer_key file_sec.Prelude.text_eq
allow-fail_all_example =
    allow-fail_all (v6_prefix64 (32 ∷ 1 ∷ 13 ∷ 184 ∷ 0 ∷ 1 ∷ 0 ∷ 2 ∷ [])) [] (host 1, 0) five
      (host 9) 1000 refl (refl, (refl, (refl, (refl, (refl, tt))))) refl (omega arith)
