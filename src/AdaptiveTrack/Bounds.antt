-- ===== src/AdaptiveTrack/Bounds.antt =====
-- The bounds that every transition of adaptive_track.py keeps.
use Prim.Native.Nat.{max}
use levelup_bench.Prelude.{In, ℕ, ◌≤◌, ◌≡◌, some, arith, List}
use levelup_bench.Prelude.Ranges.{upto, In-upto, pairs, In-pairs}
use levelup_bench.Course.Oracle.Optimum.{IsBounded}
use levelup_bench.Track.{OpaqueAction, State}
use levelup_bench.AdaptiveTrack.{Track, course}
use levelup_bench.AdaptiveTrack.Rules.{Family, plain, transition}

-- The most resource that a state can hold.
abbrev pub most : Track → ℕ
most t = max t.capacity t.start_resource

pub record IsWithin (t : Track) (s : State) : Type 0 where
  pub progress : s.progress ≤ t.target
  pub resource : s.resource ≤ most t
  pub pressure : s.pressure ≤ t.pressure_cap

-- From a state within the bounds, no transition passes the target, the pressure cap, or a bound on the
-- resource that is at least the capacity.
pub transition-IsWithin :
    (f : Family) (target capacity cap r : ℕ) (s : State) (a : OpaqueAction) {s' : State} {ticks : ℕ}
    → transition f target capacity cap s a ≡ some (s', ticks)
    → capacity ≤ r
    → s.progress ≤ target
    → s.resource ≤ r
    → s.pressure ≤ cap
    → (s'.progress ≤ target) × (s'.resource ≤ r) × (s'.pressure ≤ cap)
unfolding transition
transition-IsWithin plain target capacity cap r s a h le p q w = ground arith
transition-IsWithin _ target capacity cap r s a h le p q w = ground arith

-- Every state within the bounds of a track.
unfoldable pub states : Track → List State
states t =
    pairs (λ p (q : ℕ × ℕ). record { progress = p; resource = q.0; pressure = q.1 }) (upto t.target)
      (pairs (λ r h. (r, h)) (upto (most t)) (upto t.pressure_cap))

pub In-states : (t : Track) (s : State) → IsWithin t s → In s (states t)
unfolding states
In-states t s w =
    In-pairs _ (upto t.target) _ s.progress (s.resource, s.pressure) (In-upto _ _ w.progress)
      (In-pairs _ (upto (most t)) (upto t.pressure_cap) s.resource s.pressure
        (In-upto _ _ w.resource) (In-upto _ _ w.pressure))

-- Whatever its actions, a track has finitely many states.
unfoldable pub course-IsBounded : (t : Track) → IsBounded (course t)
unfolding course
course-IsBounded t = record {
  IsWithin = IsWithin t;
  states = states t;
  listed = In-states t;
  starts = ground arith;
  leads = λ s a s' n h w.
      let (p, q, r) =
        transition-IsWithin t.family t.target t.capacity t.pressure_cap (most t) s a h (omega arith)
          w.progress w.resource w.pressure in
      record { progress = p; resource = q; pressure = r };
}
