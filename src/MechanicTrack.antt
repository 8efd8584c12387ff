-- ===== src/MechanicTrack.antt =====
-- levelup/envs/mechanictrack.py: the constructor of `MechanicTrack`, its transition function, and the
-- track as a course. `ActionMechanic` has the fields of `OpaqueAction`.
pub mod Rules
pub mod Bounds
pub mod Valid
pub mod Laws
pub mod Generation
use levelup_bench.Prelude.{
  ℕ, ◌+◌, ◌-◌, ◌*◌, ◌≡◌, refl, min, String, Bool, true, false, not, ◌||◌, ◌&&◌, List, [], ◌∷◌,
  Option, none, some, map, eqb, ltb, nonzero, string_eq, ◌==◌, Result, ok, raise, raise_if, ◌>>=◌,
  ◌>>◌, if◌then◌else◌, arith,
}
use levelup_bench.Prelude.Texts.{join, decimal}
use levelup_bench.Core.Faults.{
  Fault, value_error, unsupported_family, target_too_small, aliases_not_unique,
}
use levelup_bench.Core.Json.{
  JsonValue, Items, nil, item, Fields, no_fields, field, text, texts, array, object, boolean,
  number, ratio,
}
use levelup_bench.Core.Task.{TaskSpec, minimize, all_unique}
use levelup_bench.Course.{Course, Session, fraction}
use levelup_bench.Course.Valid.{the_only}
use levelup_bench.MechanicTrack.Rules.{
  mechanic_family_name, mechanic_family_of_name, MechanicTrack, mechanic_transition,
  mechanic_transition-ticks,
}
use levelup_bench.Track.{
  OpaqueAction, State, state_eq, advance, forbidden_actions, never_use_override, multiplier,
}

-- `MechanicTrack.__init__`
unfoldable pub mechanic_track :
    String → ℕ → List OpaqueAction → ℕ → ℕ → ℕ → ℕ → ℕ → Result Fault MechanicTrack
unfolding mechanic_family_of_name forbidden_actions
mechanic_track family_text target actions task_index generator_seed capacity start_resource
      pressure_cap =
    elim (mechanic_family_of_name family_text) [
      | none ↦ raise (value_error unsupported_family)
      | some family ↦ do
        raise_if (ltb target 3) (value_error target_too_small)
        raise_if (not (all_unique (map (λ a. a.alias) actions))) (value_error aliases_not_unique)
        forbidden ← the_only (forbidden_actions actions)
        ok (record {
          family = family;
          target = target;
          actions = actions;
          task_index = task_index;
          generator_seed = generator_seed;
          capacity = capacity;
          start_resource = start_resource;
          pressure_cap = pressure_cap;
          forbidden_alias = forbidden.alias;
        })
    ]

-- `float(bool(...))`
abbrev flag : Bool → JsonValue
flag b = if b then ratio 1 1 else ratio 0 1

-- `feature_vector`
pub feature_vector : ℕ → OpaqueAction → Items
feature_vector target a =
    let is_enabler = eqb a.progress 0 && (nonzero a.resource_gain || nonzero a.pressure_clear) in
    item (ratio a.progress 3) (
      item (ratio a.tick_cost 13) (
        item (flag (nonzero a.resource_use)) (
          item (flag (nonzero a.resource_gain)) (
            item (flag (nonzero a.pressure_gain)) (
              item (flag (nonzero a.pressure_clear))
                (item (flag is_enabler) (item (ratio target 16) nil)))))))

-- An action with its descriptor, in the configuration and in the observations.
abbrev described : ℕ → OpaqueAction → JsonValue
described target a =
    object
      (field "alias" (text a.alias) (field "features" (array (feature_vector target a)) no_fields))

abbrev described_all : ℕ → List OpaqueAction → Items
described_all target [] = nil
described_all target (a ∷ rest) = item (described target a) (described_all target rest)

-- `FEATURE_NAMES`
abbrev feature_names : List String
feature_names =
    "progress" ∷ "tick_cost" ∷ "uses_resource" ∷ "restores_resource" ∷ "raises_pressure"
    ∷ "clears_pressure" ∷ "is_enabler" ∷ "target_scale" ∷ []

-- `self._task`
unfoldable pub mechanic_task_spec : MechanicTrack → TaskSpec
unfolding feature_vector
mechanic_task_spec t = record {
  task_id = join (
      "micro.mechanic_track."
      ∷ mechanic_family_name t.family
      ∷ ".s"
      ∷ decimal t.generator_seed
      ∷ ".i"
      ∷ decimal t.task_index
      ∷ ".v1"
      ∷ []);
  environment = record {
    adapter = "microgame";
    environment_id = "mechanic_track";
    version = "1";
    seed = some 0;
    configuration = field "family" (text (mechanic_family_name t.family)) (
        field "target" (number t.target) (
          field "capacity" (number t.capacity) (
            field "start_resource" (number t.start_resource) (
              field "pressure_cap" (number t.pressure_cap) (
                field "feature_names" (array (texts feature_names))
                  (field "actions" (array (described_all t.target t.actions)) no_fields))))));
  };
  instruction = join (
      "Reach progress "
      ∷ decimal t.target
      ∷ " in as few ticks as possible. Do not use action "
      ∷ t.forbidden_alias
      ∷ "."
      ∷ []);
  constraints = never_use_override t.forbidden_alias ∷ [];
  objective = record { metric_id = "elapsed_ticks"; direction = minimize; unit = "ticks" };
  metadata = field "suite" (text "neural_microtransfer") (
      field "synthetic" (boolean true) (
        field "family" (text (mechanic_family_name t.family))
          (field "randomized_action_aliases" (boolean true) no_fields)));
}

-- The observation up to `available_actions`.
abbrev mechanic_observation : MechanicTrack → Session State → JsonValue → Fields
mechanic_observation t g available = field "progress" (number g.state.progress) (
    field "target" (number t.target) (
      field "elapsed_ticks" (number g.elapsed_ticks) (
        field "resource_fraction" (fraction g.state.resource t.capacity) (
          field "pressure_fraction" (fraction g.state.pressure t.pressure_cap)
            (field "available_actions" available no_fields)))))

-- What `state_hash` hashes.
abbrev mechanic_hashed : MechanicTrack → Session State → Fields
mechanic_hashed t g = field "family" (text (mechanic_family_name t.family)) (
    field "progress" (number g.state.progress) (
      field "resource" (number g.state.resource) (
        field "pressure" (number g.state.pressure) (
          field "elapsed_ticks" (number g.elapsed_ticks)
            (field "actions" (array (texts g.actions_taken)) no_fields)))))

-- The environment, whose methods are those of a course. `step` does not refuse what overshoots.
unfoldable pub mechanic_course : MechanicTrack → Course
unfolding mechanic_task_spec feature_vector
mechanic_course t = record {
  State = State;
  same_state = state_eq;
  progress = λ s. s.progress;
  start_state = record { progress = 0; resource = t.start_resource; pressure = 0 };
  target = t.target;
  actions = t.actions;
  forbidden_alias = t.forbidden_alias;
  move = mechanic_transition t;
  move_ticks = mechanic_transition-ticks t;
  strict = false;
  penalized = λ a ticks. ticks * multiplier a;
  task_spec = mechanic_task_spec t;
  declares = refl;
  payload = mechanic_hashed t;
  observed = mechanic_observation t;
  shown = described t.target;
}
