-- ===== src/AdaptiveTrack/Generation/Succeeds.antt =====
-- The constructor accepts whatever `make_adaptive_track` passes to it.
use levelup_bench.Prelude.{
  ℕ, ◌≤◌, ◌≡◌, refl, String, true, List, [], ◌∷◌, some, ok, IsUnique, string_eq,
}
use levelup_bench.Core.Task.{all_unique}
use levelup_bench.Core.Ladder.Order.{all_unique_iff}
use levelup_bench.Sampling.{Rng, Aliases, override_of}
use levelup_bench.Sampling.Names.{listed, four, four-IsUnique, not-ltb}
use levelup_bench.Track.{OpaqueAction, forbidden_actions}
use levelup_bench.Track.Actions.{aliases_of}
use levelup_bench.AdaptiveTrack.{Track, adaptive_track}
use levelup_bench.AdaptiveTrack.Rules.{
  Family, plain, battery, cooldown, heat, momentum, overdrive, family_of_name,
}
use levelup_bench.AdaptiveTrack.Generation.{build_adaptive_track, layout}

-- What passes the checks is constructed.
adaptive_track-ok :
    (family_text : String) (family : Family) (target : ℕ) (actions : List OpaqueAction)
    (o : OpaqueAction) (index seed capacity resource cap : ℕ)
    → family_of_name family_text ≡ some family
    → 3 ≤ target
    → all_unique (aliases_of actions) ≡ true
    → forbidden_actions actions ≡ o ∷ []
    → (t : Track) × (adaptive_track family_text target actions index seed capacity resource cap
        ≡ ok t)
      × (t.target ≡ target)
      × (t.family ≡ family)
unfolding adaptive_track
adaptive_track-ok family_text family target actions o index seed capacity resource cap known tall
      unique single =
    (
      record {
        family = family;
        target = target;
        actions = actions;
        task_index = index;
        generator_seed = seed;
        capacity = capacity;
        start_resource = resource;
        pressure_cap = cap;
        forbidden_alias = o.alias;
      },
      rw (known, adaptive_track) (rw (not-ltb target 3 tall) (rw unique (rw single refl))),
      refl,
      refl,
    )

-- Whatever the generator yields, with five different names, a target of at least 3 and a family of
-- the table, the constructor does not raise, and the track has that target and that family.
pub build_adaptive_track-ok :
    (rng : Rng) (family_text : String) (family : Family) (index seed target : ℕ) (names : Aliases)
    (r : rng.Random)
    → family_of_name family_text ≡ some family
    → IsUnique (listed names)
    → 3 ≤ target
    → (t : Track) × (build_adaptive_track rng family_text family index seed target names r ≡ ok t)
      × (t.target ≡ target)
      × (t.family ≡ family)
unfolding build_adaptive_track forbidden_actions layout
build_adaptive_track-ok rng family_text plain index seed target names r known u tall =
    adaptive_track-ok family_text plain target _ (override_of names.override) index seed _ _ _ known
      tall ((all_unique_iff (four names)).1 (four-IsUnique names u)) refl
build_adaptive_track-ok rng family_text battery index seed target names r known u tall =
    adaptive_track-ok family_text battery target _ (override_of names.override) index seed _ _ _
      known tall ((all_unique_iff (listed names)).1 u) refl
build_adaptive_track-ok rng family_text cooldown index seed target names r known u tall =
    adaptive_track-ok family_text cooldown target _ (override_of names.override) index seed _ _ _
      known tall ((all_unique_iff (listed names)).1 u) refl
build_adaptive_track-ok rng family_text heat index seed target names r known u tall =
    adaptive_track-ok family_text heat target _ (override_of names.override) index seed _ _ _ known
      tall ((all_unique_iff (listed names)).1 u) refl
build_adaptive_track-ok rng family_text momentum index seed target names r known u tall =
    adaptive_track-ok family_text momentum target _ (override_of names.override) index seed _ _ _
      known tall ((all_unique_iff (listed names)).1 u) refl
build_adaptive_track-ok rng family_text overdrive index seed target names r known u tall =
    adaptive_track-ok family_text overdrive target _ (override_of names.override) index seed _ _ _
      known tall ((all_unique_iff (listed names)).1 u) refl
