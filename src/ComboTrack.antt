-- ===== src/ComboTrack.antt =====
-- levelup/envs/challenge_track.py: the constructor of `ComboTrack`, its transition function, and the
-- track as a course.
pub mod Bounds
pub mod Valid
pub mod Laws
pub mod Generation
use Prim.Native.Nat.{◌/◌}
use levelup_bench.Prelude.{
  ℕ, ◌+◌, ◌*◌, ◌≡◌, ◌↔◌, refl, min, String, Bool, true, false, not, ◌||◌, ◌&&◌, List, [], ◌∷◌,
  Option, none, some, map, eqb, ltb, nonzero, Eq, Result, ok, raise, raise_if, ◌>>=◌, ◌>>◌,
  if◌then◌else◌, arith,
}
use levelup_bench.Prelude.Texts.{join, decimal}
use levelup_bench.Core.Faults.{
  Fault, value_error, target_too_small, combo_cap_not_positive, aliases_not_unique,
}
use levelup_bench.Core.Json.{
  JsonValue, Fields, no_fields, field, text, texts, array, object, boolean, number, ratio,
}
use levelup_bench.Core.Task.{TaskSpec, minimize, all_unique}
use levelup_bench.Course.{Course, Session}
use levelup_bench.Course.Valid.{the_only}
use levelup_bench.Track.{OpaqueAction, advance, forbidden_actions, never_use_override}

-- `ComboState`, the tuple (progress, combo charge).
pub record ComboState : Type 0 where
  pub progress : ℕ
  pub combo : ℕ

abbrev pub same_combo_state : ComboState → ComboState → Bool
same_combo_state s t = eqb s.progress t.progress && eqb s.combo t.combo

pub same_combo_state_iff : (s t : ComboState) → (same_combo_state s t ≡ true) ↔ (s ≡ t)
same_combo_state_iff s t = ground arith

instance abbrev pub combo_state_eq : Eq ComboState
combo_state_eq = record { beq = same_combo_state; beq_iff = same_combo_state_iff }

-- What the constructor of `ComboTrack` fixes.
pub record ComboTrack : Type 0 where
  pub target : ℕ
  pub actions : List OpaqueAction
  pub task_index : ℕ
  pub generator_seed : ℕ
  pub combo_cap : ℕ
  -- `_forbidden_alias`
  pub forbidden_alias : String

-- `_transition`; `none` where the source returns None.
unfoldable pub combo_transition : ComboTrack → ComboState → OpaqueAction → Option (ComboState × ℕ)
combo_transition t s a =
    if a.forbidden
    then some (record s { progress = t.target }, a.tick_cost)
    else if nonzero a.pressure_clear
    then if eqb s.combo 0
      then none
      else some (
        record { progress = advance t.target s.progress (a.progress + s.combo); combo = 0 },
        a.tick_cost,
      )
    else some (
      record {
        progress = advance t.target s.progress a.progress;
        combo = min t.combo_cap (s.combo + a.pressure_gain);
      },
      a.tick_cost,
    )

-- Every transition takes the ticks of its action.
pub combo_transition-ticks :
    (t : ComboTrack) (s : ComboState) (a : OpaqueAction) (s' : ComboState) (n : ℕ)
    → combo_transition t s a ≡ some (s', n)
    → n ≡ a.tick_cost
unfolding combo_transition
combo_transition-ticks t s a s' n h = ground arith

-- `ComboTrack.__init__`
unfoldable pub combo_track : ℕ → List OpaqueAction → ℕ → ℕ → ℕ → Result Fault ComboTrack
unfolding forbidden_actions
combo_track target actions task_index generator_seed combo_cap = do
  raise_if (ltb target 3) (value_error target_too_small)
  raise_if (ltb combo_cap 1) (value_error combo_cap_not_positive)
  raise_if (not (all_unique (map (λ a. a.alias) actions))) (value_error aliases_not_unique)
  forbidden ← the_only (forbidden_actions actions)
  ok (record {
    target = target;
    actions = actions;
    task_index = task_index;
    generator_seed = generator_seed;
    combo_cap = combo_cap;
    forbidden_alias = forbidden.alias;
  })

-- `self._task`
unfoldable pub combo_task_spec : ComboTrack → TaskSpec
combo_task_spec t = record {
  task_id =
      join (
        "micro.combo_track.s"
        ∷ decimal t.generator_seed
        ∷ ".i"
        ∷ decimal t.task_index
        ∷ ".v1"
        ∷ []);
  environment = record {
    adapter = "microgame";
    environment_id = "combo_track";
    version = "1";
    seed = some 0;
    configuration = field "target" (number t.target) (
        field "action_aliases" (array (texts (map (λ a. a.alias) t.actions))) (
          field "action_descriptors_exposed" (boolean false)
            (field "state_dependent_action_effects" (boolean true) no_fields)));
  };
  instruction = join (
      "Reach progress "
      ∷ decimal t.target
      ∷ " in as few ticks as possible. Do not use action "
      ∷ t.forbidden_alias
      ∷ "."
      ∷ []);
  constraints = never_use_override t.forbidden_alias ∷ [];
  objective = record { metric_id = "elapsed_ticks"; direction = minimize; unit = "ticks" };
  metadata = field "suite" (text "interaction_microtransfer") (
      field "synthetic" (boolean true) (
        field "family" (text "combo") (
          field "opaque_action_aliases" (boolean true)
            (field "state_dependent_action_effects" (boolean true) no_fields))));
}

-- The observation up to `available_actions`. The cap is positive.
abbrev combo_observation : ComboTrack → Session ComboState → JsonValue → Fields
combo_observation t g available = field "progress" (number g.state.progress) (
    field "target" (number t.target) (
      field "elapsed_ticks" (number g.elapsed_ticks) (
        field "resource_fraction" (ratio 0 1) (
          field "pressure_fraction" (ratio g.state.combo t.combo_cap)
            (field "available_actions" available no_fields)))))

-- What `state_hash` hashes.
abbrev combo_hashed : Session ComboState → Fields
combo_hashed g = field "progress" (number g.state.progress) (
    field "combo" (number g.state.combo) (
      field "elapsed_ticks" (number g.elapsed_ticks)
        (field "actions" (array (texts g.actions_taken)) no_fields)))

-- `int(candidate_cost * 1.6)` where the action clears the charge or makes no progress. The float
-- product is the exact one, rounded down, for costs below 2 ** 50.
abbrev combo_penalized : OpaqueAction → ℕ → ℕ
combo_penalized a tick_cost =
    if nonzero a.pressure_clear || eqb a.progress 0 then tick_cost * 8 / 5 else tick_cost

-- The environment, whose methods are those of a course.
unfoldable pub combo_course : ComboTrack → Course
unfolding combo_task_spec
combo_course t = record {
  State = ComboState;
  same_state = combo_state_eq;
  progress = λ s. s.progress;
  start_state = record { progress = 0; combo = 0 };
  target = t.target;
  actions = t.actions;
  forbidden_alias = t.forbidden_alias;
  move = combo_transition t;
  move_ticks = combo_transition-ticks t;
  strict = true;
  penalized = combo_penalized;
  task_spec = combo_task_spec t;
  declares = refl;
  payload = combo_hashed;
  observed = combo_observation t;
  shown = λ a. object (field "alias" (text a.alias) no_fields);
}
