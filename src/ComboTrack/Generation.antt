-- ===== src/ComboTrack/Generation.antt =====
-- `make_combo_track` of levelup/envs/challenge_track.py.
pub mod Succeeds
use levelup_bench.Prelude.{ℕ, List, [], ◌∷◌, Option, none, some, Result, ok, raise, ◌>>=◌}
use levelup_bench.Core.Faults.{Fault}
use levelup_bench.Sampling.{
  Rng, task_rng, random_aliases, Aliases, unpack, simple_action, override_of,
}
use levelup_bench.Track.{OpaqueAction}
use levelup_bench.ComboTrack.{ComboTrack, combo_track}

module _ (rng : Rng) where
  -- From the aliases on. The fourth of them names the charge, and the cap is the default.
  unfoldable pub build_combo_track : ℕ → ℕ → ℕ → Aliases → rng.Random → Result Fault ComboTrack
  build_combo_track task_index generator_seed target names r =
      let (step_cost, r1) = rng.randint 6 8 r in
      let (stride_cost, r2) = rng.randint 9 11 r1 in
      let (burst_cost, r3) = rng.randint 4 6 r2 in
      let (charge_cost, _) = rng.randint 3 5 r3 in
      combo_track target
        (record (simple_action names.step 1 step_cost) { pressure_gain = 1 }
          ∷ record (simple_action names.stride 2 stride_cost) { pressure_gain = 1 }
          ∷ record (simple_action names.burst 1 burst_cost) { pressure_clear = 3 }
          ∷ record (simple_action names.utility 0 charge_cost) { pressure_gain = 2 }
          ∷ override_of names.override
          ∷ [])
        task_index generator_seed 3

  -- `none` where the draw of the aliases has not ended within the fuel.
  unfoldable pub make_combo_track : ℕ → ℕ → ℕ → Option (Result Fault ComboTrack)
  unfolding build_combo_track
  make_combo_track fuel task_index generator_seed =
      let (target, r) = rng.randint 9 16 (task_rng rng task_index generator_seed) in
      elim (random_aliases rng fuel 5 [] r) [
        | none ↦ none
        | some (aliases, r') ↦
            some (do
              names ← unpack aliases
              build_combo_track task_index generator_seed target names r')
      ]
