-- ===== src/Course.antt =====
-- What the three tracks have in common. AdaptiveTrack, ComboTrack and MechanicTrack are written out
-- separately in levelup/envs/, line for line the same but for their states, their transition
-- function and the fields below; here their methods are functions of a record of these.
pub mod Valid
pub mod Runs
pub mod Oracle
pub mod References
use levelup_bench.Prelude.{
  ℕ, ◌+◌, ◌≡◌, String, Bool, true, false, not, ◌&&◌, List, [], ◌∷◌, ◌++◌, Option, none, some,
  collect, eqb, ltb, nonzero, Eq, Result, ok, raise, raise_if, ◌>>=◌, ◌>>◌, if◌then◌else◌,
}
use levelup_bench.Core.Faults.{
  Fault, value_error, unsupported_seed, arguments_given, unsupported_action, action_unavailable,
  would_overshoot,
}
use levelup_bench.Core.Json.{
  JsonValue, Items, nil, item, Fields, no_fields, field, object, number, ratio,
}
use levelup_bench.Core.Numbers.{Float, float}
use levelup_bench.Core.Task.{TaskSpec}
use levelup_bench.Core.Trajectory.{ActionRecord}
use levelup_bench.Environment.{Environment, StepOutcome}
use levelup_bench.Runtime.{Runtime}
use levelup_bench.Track.{
  OpaqueAction, find_action, bad_seed, has_arguments, verify_never_used, never_use_override,
}

-- What `reset` and `step` assign, over a track's states.
pub record Session (S : Type 0) : Type 0 where
  pub state : S
  pub elapsed_ticks : ℕ
  pub actions_taken : List String

pub record Course : Type 1 where
  pub State : Type 0
  pub same_state : Eq State
  pub progress : State → ℕ
  pub start_state : State
  pub target : ℕ
  pub actions : List OpaqueAction
  pub forbidden_alias : String
  -- `self._transition`
  pub move : State → OpaqueAction → Option (State × ℕ)
  pub move_ticks :
      (s : State) (a : OpaqueAction) (s' : State) (n : ℕ)
      → move s a ≡ some (s', n)
      → n ≡ a.tick_cost
  -- Whether `step` refuses an action that overshoots.
  pub strict : Bool
  -- The perceived cost under `penalize_complexity`.
  pub penalized : OpaqueAction → ℕ → ℕ
  pub task_spec : TaskSpec
  pub declares : task_spec.constraints ≡ never_use_override forbidden_alias ∷ []
  -- The fields of the hash's payload, and of the observation up to `available_actions`.
  pub payload : Session State → Fields
  pub observed : Session State → JsonValue → Fields
  -- How an available action is shown.
  pub shown : OpaqueAction → JsonValue

-- `a / b if b else 0.0`
abbrev pub fraction : ℕ → ℕ → JsonValue
fraction a b = if nonzero b then ratio a b else ratio 0 1

module _ (c : Course) where
  -- `action.progress > 0 and not action.forbidden and next_state[0] == state[0]`
  abbrev pub overshoots : OpaqueAction → c.State → c.State → Bool
  overshoots a s s' = ltb 0 a.progress && (not a.forbidden && eqb (c.progress s') (c.progress s))

  -- The body of the loop in `available_aliases`; `none` is a `continue`.
  abbrev pub offered : c.State → OpaqueAction → Option OpaqueAction
  offered s a = elim (c.move s a) [
    | none ↦ none
    | some (s', _) ↦ if overshoots a s s' then none else some a
  ]

  -- The actions that `available_aliases` or `available_actions` lists.
  unfoldable pub available_actions : c.State → List OpaqueAction
  available_actions s = collect (offered s) c.actions

  abbrev shown_all : List OpaqueAction → Items
  shown_all [] = nil
  shown_all (a ∷ rest) = item (c.shown a) (shown_all rest)

  abbrev pub fresh_session : Session c.State
  fresh_session = record { state = c.start_state; elapsed_ticks = 0; actions_taken = [] }

  -- `step`, once the action has been found by its name.
  unfoldable pub take_action :
      Session c.State → String → OpaqueAction → Result Fault (Session c.State)
  take_action g name a = elim (c.move g.state a) [
    | none ↦ raise (value_error action_unavailable)
    | some (s', tick_cost) ↦
        if c.strict && overshoots a g.state s'
        then raise (value_error would_overshoot)
        else ok (record {
          state = s';
          elapsed_ticks = g.elapsed_ticks + tick_cost;
          actions_taken = g.actions_taken ++ name ∷ [];
        })
  ]

  unfoldable pub objective_value : Session c.State → Float
  objective_value g = float g.elapsed_ticks

module _ (rt : Runtime) (c : Course) where
  unfoldable pub state_hash : Session c.State → String
  state_hash g = rt.stable_hash (object (c.payload g))

  -- `_outcome`
  unfoldable pub outcome : Session c.State → StepOutcome
  outcome g = record {
    observation = c.observed g (JsonValue.array (shown_all c (available_actions c g.state)));
    completed = eqb (c.progress g.state) c.target;
    state_hash = state_hash g;
  }

  unfoldable pub reset : Option ℕ → Result Fault (Session c.State × StepOutcome)
  reset seed =
      raise_if (bad_seed seed) (value_error unsupported_seed)
      >> ok (fresh_session c, outcome (fresh_session c))

  unfoldable pub step :
      Session c.State → ActionRecord → Result Fault (Session c.State × StepOutcome)
  step g action =
      if has_arguments action.arguments
      then raise (value_error arguments_given)
      else elim (find_action action.name c.actions) [
        | none ↦ raise (value_error unsupported_action)
        | some a ↦ do g' ← take_action c g action.name a; ok (g', outcome g')
      ]

  abbrev pub environment : Environment
  environment = record {
    State = Session c.State;
    task_spec = c.task_spec;
    reset = reset;
    step = step;
    verify_constraint = λ g. verify_never_used rt g.actions_taken;
    objective_value = objective_value c;
    state_hash = state_hash;
  }
