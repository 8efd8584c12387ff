-- ===== src/ComboTrack/Generation/Succeeds.antt =====
-- The constructor accepts whatever `make_combo_track` passes to it.
use levelup_bench.Prelude.{ℕ, ◌≤◌, ◌≡◌, refl, true, List, [], ◌∷◌, ok, IsUnique, string_eq}
use levelup_bench.Core.Task.{all_unique}
use levelup_bench.Core.Ladder.Order.{all_unique_iff}
use levelup_bench.Sampling.{Rng, Aliases, override_of}
use levelup_bench.Sampling.Names.{listed, not-ltb}
use levelup_bench.Track.{OpaqueAction, forbidden_actions}
use levelup_bench.Track.Actions.{aliases_of}
use levelup_bench.ComboTrack.{ComboTrack, combo_track}
use levelup_bench.ComboTrack.Generation.{build_combo_track}

-- What passes the checks is constructed.
combo_track-ok :
    (target : ℕ) (actions : List OpaqueAction) (o : OpaqueAction) (index seed : ℕ)
    → 3 ≤ target
    → all_unique (aliases_of actions) ≡ true
    → forbidden_actions actions ≡ o ∷ []
    → (t : ComboTrack) × (combo_track target actions index seed 3 ≡ ok t)
      × (t.target ≡ target)
      × (t.combo_cap ≡ 3)
unfolding combo_track
combo_track-ok target actions o index seed tall unique single = (
  record {
    target = target;
    actions = actions;
    task_index = index;
    generator_seed = seed;
    combo_cap = 3;
    forbidden_alias = o.alias;
  },
  rw (not-ltb target 3 tall) (rw unique (rw single refl)),
  refl,
  refl,
)

-- Whatever the generator yields, with five different names and a target of at least 3, the constructor
-- does not raise, and the track has that target and the combo cap 3.
pub build_combo_track-ok :
    (rng : Rng) (index seed target : ℕ) (names : Aliases) (r : rng.Random)
    → IsUnique (listed names)
    → 3 ≤ target
    → (t : ComboTrack) × (build_combo_track rng index seed target names r ≡ ok t)
      × (t.target ≡ target)
      × (t.combo_cap ≡ 3)
unfolding build_combo_track forbidden_actions
build_combo_track-ok rng index seed target names r u tall =
    combo_track-ok target _ (override_of names.override) index seed tall
      ((all_unique_iff (listed names)).1 u) refl
