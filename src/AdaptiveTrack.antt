-- ===== src/AdaptiveTrack.antt =====
-- levelup/envs/adaptive_track.py: the constructor of `AdaptiveTrack`, and the track as a course.
pub mod Rules
pub mod Bounds
pub mod Valid
pub mod Laws
pub mod Generation
use levelup_bench.Prelude.{
  ℕ, ◌+◌, ◌*◌, ◌≡◌, refl, String, Bool, true, false, not, ◌||◌, List, [], ◌∷◌, Option, none, some,
  map, leb, ltb, nonzero, Result, ok, raise, raise_if, ◌>>=◌, ◌>>◌, if◌then◌else◌,
}
use levelup_bench.Prelude.Texts.{join, decimal}
use levelup_bench.Core.Faults.{
  Fault, value_error, unsupported_family, target_too_small, aliases_not_unique,
}
use levelup_bench.Core.Json.{
  JsonValue, Fields, no_fields, field, text, texts, array, object, boolean, number,
}
use levelup_bench.Core.Task.{TaskSpec, minimize, all_unique}
use levelup_bench.Course.{Course, Session, fraction}
use levelup_bench.Course.Valid.{the_only}
use levelup_bench.AdaptiveTrack.Rules.{
  Family, family_name, family_of_name, transition, transition-ticks,
}
use levelup_bench.Track.{
  OpaqueAction, State, state_eq, forbidden_actions, never_use_override, multiplier,
}

-- What the constructor of `AdaptiveTrack` fixes.
pub record Track : Type 0 where
  pub family : Family
  pub target : ℕ
  pub actions : List OpaqueAction
  pub task_index : ℕ
  pub generator_seed : ℕ
  pub capacity : ℕ
  pub start_resource : ℕ
  pub pressure_cap : ℕ
  -- `_forbidden_alias`
  pub forbidden_alias : String

-- `AdaptiveTrack.__init__`
unfoldable pub adaptive_track :
    String → ℕ → List OpaqueAction → ℕ → ℕ → ℕ → ℕ → ℕ → Result Fault Track
unfolding family_of_name forbidden_actions
adaptive_track family_text target actions task_index generator_seed capacity start_resource
      pressure_cap =
    elim (family_of_name family_text) [
      | none ↦ raise (value_error unsupported_family)
      | some family ↦ do
        raise_if (ltb target 3) (value_error target_too_small)
        raise_if (not (all_unique (map (λ a. a.alias) actions))) (value_error aliases_not_unique)
        forbidden ← the_only (forbidden_actions actions)
        ok (record {
          family = family;
          target = target;
          actions = actions;
          task_index = task_index;
          generator_seed = generator_seed;
          capacity = capacity;
          start_resource = start_resource;
          pressure_cap = pressure_cap;
          forbidden_alias = forbidden.alias;
        })
    ]

module _ (t : Track) where
  -- `self._task`
  unfoldable pub task_spec : TaskSpec
  task_spec = record {
    task_id = join (
        "micro.adaptive_track."
        ∷ family_name t.family
        ∷ ".s"
        ∷ decimal t.generator_seed
        ∷ ".i"
        ∷ decimal t.task_index
        ∷ ".v1"
        ∷ []);
    environment = record {
      adapter = "microgame";
      environment_id = "adaptive_track";
      version = "1";
      seed = some 0;
      configuration = field "target" (number t.target) (
          field "action_aliases" (array (texts (map (λ a. a.alias) t.actions)))
            (field "action_descriptors_exposed" (boolean false) no_fields));
    };
    instruction = join (
        "Reach progress "
        ∷ decimal t.target
        ∷ " in as few ticks as possible. Do not use action "
        ∷ t.forbidden_alias
        ∷ "."
        ∷ []);
    constraints = never_use_override t.forbidden_alias ∷ [];
    objective = record { metric_id = "elapsed_ticks"; direction = minimize; unit = "ticks" };
    metadata = field "suite" (text "interaction_microtransfer") (
        field "synthetic" (boolean true) (
          field "family" (text (family_name t.family))
            (field "opaque_action_aliases" (boolean true) no_fields)));
  }

-- The observation up to `available_actions`.
abbrev observation : Track → Session State → JsonValue → Fields
observation t g available = field "progress" (number g.state.progress) (
    field "target" (number t.target) (
      field "elapsed_ticks" (number g.elapsed_ticks) (
        field "resource_fraction" (fraction g.state.resource t.capacity) (
          field "pressure_fraction" (fraction g.state.pressure t.pressure_cap)
            (field "available_actions" available no_fields)))))

-- What `state_hash` hashes.
abbrev hashed : Track → Session State → Fields
hashed t g = field "family" (text (family_name t.family)) (
    field "progress" (number g.state.progress) (
      field "resource" (number g.state.resource) (
        field "pressure" (number g.state.pressure) (
          field "elapsed_ticks" (number g.elapsed_ticks)
            (field "actions" (array (texts g.actions_taken)) no_fields)))))

-- The environment, whose methods are those of a course.
unfoldable pub course : Track → Course
unfolding task_spec
course t = record {
  State = State;
  same_state = state_eq;
  progress = λ s. s.progress;
  start_state = record { progress = 0; resource = t.start_resource; pressure = 0 };
  target = t.target;
  actions = t.actions;
  forbidden_alias = t.forbidden_alias;
  move = transition t.family t.target t.capacity t.pressure_cap;
  move_ticks = transition-ticks t.family t.target t.capacity t.pressure_cap;
  strict = true;
  penalized = λ a ticks. ticks * multiplier a;
  task_spec = task_spec t;
  declares = refl;
  payload = hashed t;
  observed = observation t;
  shown = λ a. object (field "alias" (text a.alias) no_fields);
}
