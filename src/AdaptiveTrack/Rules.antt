-- ===== src/AdaptiveTrack/Rules.antt =====
-- `_transition` of levelup/envs/adaptive_track.py, and the names of its families.
use levelup_bench.Prelude.{
  ℕ, ◌+◌, ◌-◌, ◌≡◌, min, String, ◌&&◌, Option, none, some, string_eq, ◌==◌, ltb, nonzero,
  if◌then◌else◌, arith,
}
use levelup_bench.Track.{OpaqueAction, State, advance}

-- `ALL_FAMILIES`
pub data Family : Type 0 where
  plain battery cooldown heat momentum overdrive : Family

abbrev pub family_name : Family → String
family_name plain = "plain"
family_name battery = "battery"
family_name cooldown = "cooldown"
family_name heat = "heat"
family_name momentum = "momentum"
family_name overdrive = "overdrive"

-- `family not in ALL_FAMILIES` is `none`.
unfoldable pub family_of_name : String → Option Family
family_of_name name =
    if name == "plain"
    then some plain
    else if name == "battery"
    then some battery
    else if name == "cooldown"
    then some cooldown
    else if name == "heat"
    then some heat
    else if name == "momentum"
    then some momentum
    else if name == "overdrive"
    then some overdrive
    else none

-- The pressure after an ordinary or an enabling action of the cooldown family.
abbrev cool : ℕ → ℕ → OpaqueAction → ℕ
cool cap pressure a =
    if nonzero a.pressure_clear
    then pressure - a.pressure_clear
    else if nonzero a.pressure_gain
    then min cap (pressure + a.pressure_gain)
    else if ltb 0 pressure
    then pressure - 1
    else pressure

-- The pressure in the heat and overdrive families, where it may not pass the cap.
abbrev vent : ℕ → ℕ → OpaqueAction → Option ℕ
vent cap pressure a =
    if nonzero a.pressure_clear
    then some (pressure - a.pressure_clear)
    else if ltb cap (pressure + a.pressure_gain)
    then none
    else some (pressure + a.pressure_gain)

-- The pressure in the momentum family, where clearing spends what has been built up.
abbrev spend : ℕ → ℕ → OpaqueAction → Option ℕ
spend cap pressure a =
    if nonzero a.pressure_clear
    then if ltb pressure a.pressure_clear then none else some (pressure - a.pressure_clear)
    else some (min cap (pressure + a.pressure_gain))

-- `_transition`; `none` where the source returns None.
unfoldable pub transition : Family → ℕ → ℕ → ℕ → State → OpaqueAction → Option (State × ℕ)
transition family target capacity pressure_cap s a =
    if a.forbidden then some (record s { progress = target }, a.tick_cost) else elim family [
      | plain ↦ some (record s { progress = advance target s.progress a.progress }, a.tick_cost)
      | battery ↦
          if ltb s.resource a.resource_use
          then none
          else some (
            record s {
              progress = advance target s.progress a.progress;
              resource = min capacity (s.resource - a.resource_use + a.resource_gain);
            },
            a.tick_cost,
          )
      | cooldown ↦
          if nonzero a.pressure_gain && ltb 0 s.pressure
          then none
          else some (
            record s {
              progress = advance target s.progress a.progress;
              pressure = cool pressure_cap s.pressure a;
            },
            a.tick_cost,
          )
      | heat ↦ elim (vent pressure_cap s.pressure a) [
        | none ↦ none
        | some p ↦ some (
          record s { progress = advance target s.progress a.progress; pressure = p },
          a.tick_cost,
        )
      ]
      | momentum ↦ elim (spend pressure_cap s.pressure a) [
        | none ↦ none
        | some p ↦ some (
          record s { progress = advance target s.progress a.progress; pressure = p },
          a.tick_cost,
        )
      ]
      | overdrive ↦
          if ltb s.resource a.resource_use then none else elim (vent pressure_cap s.pressure a) [
            | none ↦ none
            | some p ↦ some (
              record {
                progress = advance target s.progress a.progress;
                resource = min capacity (s.resource - a.resource_use + a.resource_gain);
                pressure = p;
              },
              a.tick_cost,
            )
          ]
    ]

-- Every transition takes the ticks of its action.
pub transition-ticks :
    (f : Family) (target capacity cap : ℕ) (s : State) (a : OpaqueAction) (s' : State) (n : ℕ)
    → transition f target capacity cap s a ≡ some (s', n)
    → n ≡ a.tick_cost
unfolding transition
transition-ticks _ target capacity cap s a s' n h = ground arith
