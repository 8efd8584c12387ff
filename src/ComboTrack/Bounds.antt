-- ===== src/ComboTrack/Bounds.antt =====
-- The bounds that every transition of levelup/envs/challenge_track.py keeps.
use levelup_bench.Prelude.{In, ℕ, ◌≤◌, ◌≡◌, some, arith, List}
use levelup_bench.Prelude.Ranges.{upto, In-upto, pairs, In-pairs}
use levelup_bench.Course.Oracle.Optimum.{IsBounded}
use levelup_bench.Track.{OpaqueAction}
use levelup_bench.ComboTrack.{ComboTrack, ComboState, combo_transition, combo_course}

pub record IsCharged (t : ComboTrack) (s : ComboState) : Type 0 where
  pub progress : s.progress ≤ t.target
  pub combo : s.combo ≤ t.combo_cap

-- From a state within the bounds, no transition passes the target or the combo cap.
pub combo_transition-IsCharged :
    (t : ComboTrack) (s : ComboState) (a : OpaqueAction) (s' : ComboState) (n : ℕ)
    → combo_transition t s a ≡ some (s', n)
    → IsCharged t s
    → IsCharged t s'
unfolding combo_transition
combo_transition-IsCharged t s a s' n h w = record {
  progress = ground (arith, w.progress);
  combo = ground (arith, w.combo);
}

-- Every state within the bounds of a track.
unfoldable pub combo_states : ComboTrack → List ComboState
combo_states t =
    pairs (λ p k. record { progress = p; combo = k }) (upto t.target) (upto t.combo_cap)

pub In-combo_states : (t : ComboTrack) (s : ComboState) → IsCharged t s → In s (combo_states t)
unfolding combo_states
In-combo_states t s w =
    In-pairs _ (upto t.target) (upto t.combo_cap) s.progress s.combo (In-upto _ _ w.progress)
      (In-upto _ _ w.combo)

-- Whatever its actions, a track has finitely many states.
unfoldable pub combo_course-IsBounded : (t : ComboTrack) → IsBounded (combo_course t)
unfolding combo_course
combo_course-IsBounded t = record {
  IsWithin = IsCharged t;
  states = combo_states t;
  listed = In-combo_states t;
  starts = record { progress = omega arith; combo = omega arith };
  leads = combo_transition-IsCharged t;
}
