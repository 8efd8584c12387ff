-- ===== src/MechanicTrack/Generation/Succeeds.antt =====
-- The constructor accepts whatever `make_mechanic_track` passes to it.
use levelup_bench.Prelude.{
  ℕ, ◌≤◌, ◌≡◌, refl, String, true, List, [], ◌∷◌, some, ok, IsUnique, string_eq,
}
use levelup_bench.Core.Task.{all_unique}
use levelup_bench.Core.Ladder.Order.{all_unique_iff}
use levelup_bench.Sampling.{Rng, Aliases, override_of}
use levelup_bench.Sampling.Names.{listed, four, four-IsUnique, not-ltb}
use levelup_bench.Track.{OpaqueAction, forbidden_actions}
use levelup_bench.Track.Actions.{aliases_of}
use levelup_bench.MechanicTrack.{mechanic_track}
use levelup_bench.MechanicTrack.Rules.{
  MechanicTrack, MechanicFamily, plain, battery, cooldown, heat, mechanic_family_of_name,
}
use levelup_bench.MechanicTrack.Generation.{build_mechanic_track, mechanic_layout}

-- What passes the checks is constructed.
mechanic_track-ok :
    (family_text : String) (family : MechanicFamily) (target : ℕ) (actions : List OpaqueAction)
    (o : OpaqueAction) (index seed capacity resource cap : ℕ)
    → mechanic_family_of_name family_text ≡ some family
    → 3 ≤ target
    → all_unique (aliases_of actions) ≡ true
    → forbidden_actions actions ≡ o ∷ []
    → (t : MechanicTrack) × (mechanic_track family_text target actions index seed capacity resource
          cap
        ≡ ok t)
      × (t.target ≡ target)
      × (t.family ≡ family)
unfolding mechanic_track
mechanic_track-ok family_text family target actions o index seed capacity resource cap known tall
      unique single =
    (
      record {
        family = family;
        target = target;
        actions = actions;
        task_index = index;
        generator_seed = seed;
        capacity = capacity;
        start_resource = resource;
        pressure_cap = cap;
        forbidden_alias = o.alias;
      },
      rw (known, mechanic_track) (rw (not-ltb target 3 tall) (rw unique (rw single refl))),
      refl,
      refl,
    )

-- Whatever the generator yields, with five different names, a target of at least 3 and a family of
-- the table, the constructor does not raise, and the track has that target and that family.
pub build_mechanic_track-ok :
    (rng : Rng) (family_text : String) (family : MechanicFamily) (index seed target : ℕ)
    (names : Aliases) (r : rng.Random)
    → mechanic_family_of_name family_text ≡ some family
    → IsUnique (listed names)
    → 3 ≤ target
    → (t : MechanicTrack) × (build_mechanic_track rng family_text family index seed target names r
        ≡ ok t)
      × (t.target ≡ target)
      × (t.family ≡ family)
unfolding build_mechanic_track forbidden_actions mechanic_layout
build_mechanic_track-ok rng family_text plain index seed target names r known u tall =
    mechanic_track-ok family_text plain target _ (override_of names.override) index seed _ _ _ known
      tall ((all_unique_iff (four names)).1 (four-IsUnique names u)) refl
build_mechanic_track-ok rng family_text battery index seed target names r known u tall =
    mechanic_track-ok family_text battery target _ (override_of names.override) index seed _ _ _
      known tall ((all_unique_iff (listed names)).1 u) refl
build_mechanic_track-ok rng family_text cooldown index seed target names r known u tall =
    mechanic_track-ok family_text cooldown target _ (override_of names.override) index seed _ _ _
      known tall ((all_unique_iff (listed names)).1 u) refl
build_mechanic_track-ok rng family_text heat index seed target names r known u tall =
    mechanic_track-ok family_text heat target _ (override_of names.override) index seed _ _ _ known
      tall ((all_unique_iff (listed names)).1 u) refl
