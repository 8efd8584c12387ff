-- ===== src/MacroTrack/Bundle.antt =====
-- `_stage_actions` and `macro_track_bundle` of levelup/envs/macrotrack.py.
pub mod Stages
use levelup_bench.Prelude.{
  ℕ, zero, suc, ◌-◌, String, Bool, true, false, not, ◌&&◌, List, [], ◌∷◌, map, contains, string_eq,
  ◌==◌, ltb, Result, ok, raise, raise_if, ◌>>=◌, ◌>>◌, if◌then◌else◌, none,
}
use levelup_bench.Prelude.Arrays.{replicate}
use levelup_bench.Prelude.Texts.{join}
use levelup_bench.Core.Faults.{Fault, value_error, key_error, no_leap, ladder_not_improving}
use levelup_bench.Core.Json.{no_fields, field, text, boolean}
use levelup_bench.Core.Ladder.{ImprovementStage, ImprovementLadder, check_ladder, stage}
use levelup_bench.Core.Numbers.{float}
use levelup_bench.Core.Task.{minimize}
use levelup_bench.Core.Trajectory.{Trajectory, reference, check_trajectory, steps_from}
use levelup_bench.MacroTrack.{MacroTrack, macro_track, macro_task_spec}
use levelup_bench.MacroTrack.Oracle.{optimal_valid_actions, cost_of}

-- An entry of `stages`.
pub record StageActions : Type 0 where
  pub label : String
  pub actions : List String

-- `optimum[:leap_index] + ["dash", "run"] + optimum[leap_index + 1 :]`, at the first leap.
unfoldable pub replace_leap : List String → List String
replace_leap [] = []
replace_leap (name ∷ rest) =
    if name == "leap" then "dash" ∷ "run" ∷ rest else name ∷ replace_leap rest

-- `all(later < earlier for earlier, later in zip(costs, costs[1:]))`
unfoldable pub decreasing : List ℕ → Bool
decreasing [] = true
decreasing (c ∷ []) = true
decreasing (c ∷ d ∷ rest) = ltb d c && decreasing (d ∷ rest)

unfoldable pub costs_of : List StageActions → Result Fault (List ℕ)
costs_of [] = ok []
costs_of (s ∷ rest) = do n ← cost_of s.actions; others ← costs_of rest; ok (n ∷ others)

-- `stages`, in the order of `STAGE_LABELS`.
abbrev pub staged : ℕ → List String → List StageActions
staged distance optimum =
    record { label = "primitive"; actions = replicate distance "walk" }
    ∷ record { label = "competent"; actions = replicate distance "run" }
    ∷ record { label = "optimized"; actions = "dash" ∷ replicate (distance - 2) "run" }
    ∷ record { label = "frontier"; actions = replace_leap optimum }
    ∷ record { label = "optimum"; actions = optimum }
    ∷ []

-- `_stage_actions`
unfoldable pub stage_actions : ℕ → Result Fault (List StageActions)
stage_actions distance = do
  optimum ← optimal_valid_actions distance
  raise_if (not (contains "leap" optimum)) (value_error no_leap)
  costs ← costs_of (staged distance optimum)
  raise_if (not (decreasing costs)) (value_error ladder_not_improving)
  ok (staged distance optimum)

pub record MacroTrackBundle : Type 0 where
  pub distance : ℕ
  pub ladder : ImprovementLadder
  pub trajectories : List Trajectory

-- The loop over the stages, from an ordinal.
unfoldable pub bundle_stages :
    String → ℕ → List StageActions → Result Fault (List Trajectory × List ImprovementStage)
bundle_stages task_id ordinal [] = ok ([], [])
bundle_stages task_id ordinal (s ∷ rest) = do
  trajectory ← check_trajectory (record {
    trajectory_id = join (task_id ∷ "." ∷ s.label ∷ []);
    task_id = task_id;
    source = reference;
    environment_seed = none;
    steps = steps_from 0 s.actions;
    final_state_hash = none;
  })
  n ← cost_of s.actions
  (trajectories, stages) ← bundle_stages task_id (suc ordinal) rest
  ok (
    trajectory ∷ trajectories,
    record {
      stage_id = join (task_id ∷ ":" ∷ s.label ∷ []);
      ordinal = ordinal;
      label = s.label;
      trajectory_id = join (task_id ∷ "." ∷ s.label ∷ []);
      performance_value = float n;
      provenance = field "kind" (text "synthetic_policy") (
          field "human_observed" (boolean false)
            (field "generated_from_hidden_oracle" (boolean (s.label == "optimum")) no_fields));
    }
        ∷ stages,
  )

unfoldable pub macro_track_bundle : ℕ → Result Fault MacroTrackBundle
macro_track_bundle distance = do
  env ← macro_track distance
  actions ← stage_actions distance
  (trajectories, stages) ← bundle_stages (macro_task_spec env).task_id 0 actions
  ladder ←
      check_ladder
        (record { task_id = (macro_task_spec env).task_id; direction = minimize; stages = stages })
  ok (record { distance = distance; ladder = ladder; trajectories = trajectories })

-- `trajectories[trajectory_id]`
unfoldable pub find_trajectory : String → List Trajectory → Result Fault Trajectory
find_trajectory id [] = raise key_error
find_trajectory id (t ∷ rest) = if t.trajectory_id == id then ok t else find_trajectory id rest

-- `MacroTrackBundle.trajectory_for`
unfoldable pub trajectory_for : MacroTrackBundle → String → Result Fault Trajectory
trajectory_for b label =
    stage b.ladder label >>= λ s. find_trajectory s.trajectory_id b.trajectories
