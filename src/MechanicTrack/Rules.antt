-- ===== src/MechanicTrack/Rules.antt =====
-- `_transition` of levelup/envs/mechanictrack.py, and what the constructor of a track fixes.
use levelup_bench.Prelude.{
  ℕ, ◌+◌, ◌-◌, ◌≡◌, min, String, ◌&&◌, List, Option, none, some, ltb, nonzero, string_eq, ◌==◌,
  if◌then◌else◌, arith,
}
use levelup_bench.Track.{OpaqueAction, State, advance}

-- `TRAIN_FAMILIES` and `HELD_OUT_FAMILY`
pub data MechanicFamily : Type 0 where
  plain battery cooldown heat : MechanicFamily

abbrev pub mechanic_family_name : MechanicFamily → String
mechanic_family_name plain = "plain"
mechanic_family_name battery = "battery"
mechanic_family_name cooldown = "cooldown"
mechanic_family_name heat = "heat"

-- `family not in (*TRAIN_FAMILIES, HELD_OUT_FAMILY)` is `none`.
unfoldable pub mechanic_family_of_name : String → Option MechanicFamily
mechanic_family_of_name name =
    if name == "plain"
    then some plain
    else if name == "battery"
    then some battery
    else if name == "cooldown"
    then some cooldown
    else if name == "heat"
    then some heat
    else none

-- What the constructor of `MechanicTrack` fixes.
pub record MechanicTrack : Type 0 where
  pub family : MechanicFamily
  pub target : ℕ
  pub actions : List OpaqueAction
  pub task_index : ℕ
  pub generator_seed : ℕ
  pub capacity : ℕ
  pub start_resource : ℕ
  pub pressure_cap : ℕ
  -- `_forbidden_alias`
  pub forbidden_alias : String

-- The pressure after an action of the cooldown family.
abbrev cooled : ℕ → ℕ → OpaqueAction → ℕ
cooled cap pressure a =
    if nonzero a.pressure_clear
    then pressure - a.pressure_clear
    else if nonzero a.pressure_gain
    then min cap (pressure + a.pressure_gain)
    else if ltb 0 pressure
    then pressure - 1
    else pressure

-- `_transition`; `none` where the source returns None.
unfoldable pub mechanic_transition : MechanicTrack → State → OpaqueAction → Option (State × ℕ)
mechanic_transition t s a =
    if a.forbidden then some (record s { progress = t.target }, a.tick_cost) else elim t.family [
      | plain ↦ some (record s { progress = advance t.target s.progress a.progress }, a.tick_cost)
      | battery ↦
          if ltb s.resource a.resource_use
          then none
          else some (
            record s {
              progress = advance t.target s.progress a.progress;
              resource = min t.capacity (s.resource - a.resource_use + a.resource_gain);
            },
            a.tick_cost,
          )
      | cooldown ↦
          if nonzero a.pressure_gain && ltb 0 s.pressure
          then none
          else some (
            record s {
              progress = advance t.target s.progress a.progress;
              pressure = cooled t.pressure_cap s.pressure a;
            },
            a.tick_cost,
          )
      | heat ↦
          if nonzero a.pressure_clear
          then some (
            record s {
              progress = advance t.target s.progress a.progress;
              pressure = s.pressure - a.pressure_clear;
            },
            a.tick_cost,
          )
          else if ltb t.pressure_cap (s.pressure + a.pressure_gain)
          then none
          else some (
            record s {
              progress = advance t.target s.progress a.progress;
              pressure = s.pressure + a.pressure_gain;
            },
            a.tick_cost,
          )
    ]

-- Every transition takes the ticks of its action.
pub mechanic_transition-ticks :
    (t : MechanicTrack) (s : State) (a : OpaqueAction) (s' : State) (n : ℕ)
    → mechanic_transition t s a ≡ some (s', n)
    → n ≡ a.tick_cost
unfolding mechanic_transition
mechanic_transition-ticks t s a s' n h = ground arith
