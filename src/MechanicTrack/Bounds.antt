-- ===== src/MechanicTrack/Bounds.antt =====
-- The bounds that every transition of mechanictrack.py keeps.
use Prim.Native.Nat.{max}
use levelup_bench.Prelude.{In, ℕ, ◌≤◌, ◌≡◌, some, arith, List}
use levelup_bench.Prelude.Ranges.{upto, In-upto, pairs, In-pairs}
use levelup_bench.Course.Oracle.Optimum.{IsBounded}
use levelup_bench.Track.{OpaqueAction, State}
use levelup_bench.MechanicTrack.{mechanic_course}
use levelup_bench.MechanicTrack.Rules.{MechanicTrack, mechanic_transition}

-- The most resource that a state can hold.
abbrev pub most_resource : MechanicTrack → ℕ
most_resource t = max t.capacity t.start_resource

pub record IsContained (t : MechanicTrack) (s : State) : Type 0 where
  pub progress : s.progress ≤ t.target
  pub resource : s.resource ≤ most_resource t
  pub pressure : s.pressure ≤ t.pressure_cap

-- From a state within the bounds, no transition passes the target, the pressure cap, or the larger of
-- the capacity and the starting resource.
pub mechanic_transition-IsContained :
    (t : MechanicTrack) (s : State) (a : OpaqueAction) (s' : State) (n : ℕ)
    → mechanic_transition t s a ≡ some (s', n)
    → IsContained t s
    → IsContained t s'
unfolding mechanic_transition
mechanic_transition-IsContained t s a s' n h w = record {
  progress = ground (arith, w.progress);
  resource = ground (arith, w.resource);
  pressure = ground (arith, w.pressure);
}

-- Every state within the bounds of a track.
pub mechanic_states : MechanicTrack → List State
mechanic_states t =
    pairs (λ p (q : ℕ × ℕ). record { progress = p; resource = q.0; pressure = q.1 }) (upto t.target)
      (pairs (λ r h. (r, h)) (upto (most_resource t)) (upto t.pressure_cap))

pub In-mechanic_states :
    (t : MechanicTrack) (s : State) → IsContained t s → In s (mechanic_states t)
unfolding mechanic_states
In-mechanic_states t s w =
    In-pairs _ (upto t.target) _ s.progress (s.resource, s.pressure) (In-upto _ _ w.progress)
      (In-pairs _ (upto (most_resource t)) (upto t.pressure_cap) s.resource s.pressure
        (In-upto _ _ w.resource) (In-upto _ _ w.pressure))

-- Whatever its actions, a track has finitely many states.
unfoldable pub mechanic_course-IsBounded : (t : MechanicTrack) → IsBounded (mechanic_course t)
unfolding mechanic_course
mechanic_course-IsBounded t = record {
  IsWithin = IsContained t;
  states = mechanic_states t;
  listed = In-mechanic_states t;
  starts = record { progress = omega arith; resource = omega arith; pressure = omega arith };
  leads = mechanic_transition-IsContained t;
}
