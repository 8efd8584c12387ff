-- ===== src/MechanicTrack/Generation.antt =====
-- `make_mechanic_track` of levelup/envs/mechanictrack.py.
pub mod Succeeds
use levelup_bench.Prelude.{
  ℕ, String, List, [], ◌∷◌, ◌++◌, Option, none, some, Result, ok, raise, ◌>>=◌,
}
use levelup_bench.Core.Faults.{Fault, value_error, unsupported_family}
use levelup_bench.Sampling.{
  Rng, task_rng, random_aliases, Aliases, unpack, simple_action, override_of,
}
use levelup_bench.Track.{OpaqueAction}
use levelup_bench.MechanicTrack.{mechanic_track}
use levelup_bench.MechanicTrack.Rules.{
  MechanicTrack, MechanicFamily, plain, battery, cooldown, heat, mechanic_family_of_name,
}

-- The local variables that the branches of `make_mechanic_track` assign.
pub record MechanicLayout : Type 0 where
  pub actions : List OpaqueAction
  pub capacity : ℕ
  pub start_resource : ℕ
  pub pressure_cap : ℕ

module _ (rng : Rng) where
  -- The branches, from the generator as the first two draws of tick costs leave it.
  unfoldable pub mechanic_layout : MechanicFamily → Aliases → ℕ → ℕ → rng.Random → MechanicLayout
  mechanic_layout plain names step_cost stride_cost r =
      let (burst_cost, _) = rng.randint 11 13 r in
      record {
        actions =
            simple_action names.step 1 step_cost
            ∷ simple_action names.stride 2 stride_cost
            ∷ simple_action names.burst 3 burst_cost
            ∷ [];
        capacity = 0;
        start_resource = 0;
        pressure_cap = 0;
      }
  mechanic_layout battery names step_cost stride_cost r =
      let (burst_cost, r1) = rng.randint 8 10 r in
      let (utility_cost, _) = rng.randint 3 5 r1 in
      record {
        actions =
            simple_action names.step 1 step_cost
            ∷ simple_action names.stride 2 stride_cost
            ∷ record (simple_action names.burst 3 burst_cost) { resource_use = 2 }
            ∷ record (simple_action names.utility 0 utility_cost) { resource_gain = 4 }
            ∷ [];
        capacity = 4;
        start_resource = 2;
        pressure_cap = 0;
      }
  mechanic_layout cooldown names step_cost stride_cost r =
      let (burst_cost, r1) = rng.randint 8 10 r in
      let (utility_cost, _) = rng.randint 3 4 r1 in
      record {
        actions =
            simple_action names.step 1 step_cost
            ∷ simple_action names.stride 2 stride_cost
            ∷ record (simple_action names.burst 3 burst_cost) { pressure_gain = 1 }
            ∷ record (simple_action names.utility 0 utility_cost) { pressure_clear = 1 }
            ∷ [];
        capacity = 0;
        start_resource = 0;
        pressure_cap = 1;
      }
  mechanic_layout heat names step_cost stride_cost r =
      let (burst_cost, r1) = rng.randint 8 10 r in
      let (stride_cost', r2) = rng.randint 9 11 r1 in
      let (utility_cost, _) = rng.randint 3 5 r2 in
      record {
        actions =
            simple_action names.step 1 step_cost
            ∷ record (simple_action names.stride 2 stride_cost') { pressure_gain = 1 }
            ∷ record (simple_action names.burst 3 burst_cost) { pressure_gain = 2 }
            ∷ record (simple_action names.utility 0 utility_cost) { pressure_clear = 3 }
            ∷ [];
        capacity = 0;
        start_resource = 0;
        pressure_cap = 3;
      }

  -- From the aliases on.
  unfoldable pub build_mechanic_track :
      String → MechanicFamily → ℕ → ℕ → ℕ → Aliases → rng.Random → Result Fault MechanicTrack
  unfolding mechanic_layout
  build_mechanic_track family_text family task_index generator_seed target names r =
      let (step_cost, r1) = rng.randint 6 8 r in
      let (stride_cost, r2) = rng.randint 9 11 r1 in
      let l = mechanic_layout family names step_cost stride_cost r2 in
      mechanic_track family_text target (l.actions ++ override_of names.override ∷ []) task_index
        generator_seed l.capacity l.start_resource l.pressure_cap

  -- `none` where the draw of the aliases has not ended within the fuel.
  unfoldable pub make_mechanic_track : ℕ → String → ℕ → ℕ → Option (Result Fault MechanicTrack)
  unfolding build_mechanic_track
  make_mechanic_track fuel family_text task_index generator_seed =
      elim (mechanic_family_of_name family_text) [
        | none ↦ some (raise (value_error unsupported_family))
        | some family ↦
            let (target, r) = rng.randint 9 16 (task_rng rng task_index generator_seed) in
            elim (random_aliases rng fuel 5 [] r) [
              | none ↦ none
              | some (aliases, r') ↦ some (do
                names ← unpack aliases
                build_mechanic_track family_text family task_index generator_seed target names r')
            ]
      ]
