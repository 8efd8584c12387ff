-- ===== src/Tests/Generated.antt =====
-- Tracks made from a generator that counts.
use levelup_bench.Prelude.{
  ℕ, ◌+◌, ◌≡◌, refl, [], ◌∷◌, some, none, Option, Result, ok, raise, IsUnique, string_eq, arith,
}
use levelup_bench.Prelude.Lists.{contains, to_set}
use levelup_bench.Prelude.Texts.{join, decimal}
use levelup_bench.Core.Task.{all_unique}
use levelup_bench.Core.Ladder.Order.{all_unique_iff}
use levelup_bench.Sampling.{Rng, Aliases, alias_text, random_aliases, unpack}
use levelup_bench.Sampling.Names.{listed}
use levelup_bench.AdaptiveTrack.{Track, adaptive_track}
use levelup_bench.AdaptiveTrack.Rules.{overdrive, family_of_name}
use levelup_bench.AdaptiveTrack.Generation.{build_adaptive_track, make_adaptive_track, layout}
use levelup_bench.AdaptiveTrack.Generation.Succeeds.{build_adaptive_track-ok}
use levelup_bench.ComboTrack.{ComboTrack, combo_track}
use levelup_bench.MechanicTrack.{mechanic_track}
use levelup_bench.Track.{forbidden_actions}
use levelup_bench.Core.Faults.{Fault}
use levelup_bench.ComboTrack.Generation.{build_combo_track, make_combo_track}
use levelup_bench.ComboTrack.Generation.Succeeds.{build_combo_track-ok}
use levelup_bench.MechanicTrack.Generation.{
  build_mechanic_track, make_mechanic_track, mechanic_layout,
}
use levelup_bench.MechanicTrack.Rules.{mechanic_family_of_name}

-- Always the least whole number of a range, and every number below a bound in turn.
abbrev pub counting : Rng
counting = record {
  Random = ℕ;
  seeded = λ seed. seed;
  randint = λ a b r. (a, r);
  randrange = λ n r. (r, r + 1);
}

abbrev five_names : Aliases
five_names = record { step = "a0"; stride = "a1"; burst = "a2"; utility = "a3"; override = "a4" }

five_names-IsUnique : IsUnique (listed five_names)
unfolding all_unique to_set contains
five_names-IsUnique = (all_unique_iff (listed five_names)).0 refl

random_aliases_test :
    random_aliases counting 9 5 [] 254
    ≡ some ("a0000fe" ∷ "a0000ff" ∷ "a000100" ∷ "a000101" ∷ "a000102" ∷ [], 259)
unfolding random_aliases alias_text contains join decimal
random_aliases_test = refl

build_adaptive_track-ok_example :
    (t : Track) × (build_adaptive_track counting "overdrive" overdrive 0 1 9 five_names 0 ≡ ok t)
    × (t.target ≡ 9)
    × (t.family ≡ overdrive)
unfolding family_of_name
build_adaptive_track-ok_example =
    build_adaptive_track-ok counting "overdrive" overdrive 0 1 9 five_names 0 refl
      five_names-IsUnique (omega arith)

build_combo_track-ok_example :
    (t : ComboTrack) × (build_combo_track counting 0 1 9 five_names 0 ≡ ok t)
    × (t.target ≡ 9)
    × (t.combo_cap ≡ 3)
build_combo_track-ok_example =
    build_combo_track-ok counting 0 1 9 five_names 0 five_names-IsUnique (omega arith)

-- Whether a track was made, and its target.
abbrev target_of : {T : Type 0} → (T → ℕ) → Option (Result Fault T) → Option ℕ
target_of target (some (ok t)) = some (target t)
target_of target (some (raise f)) = none
target_of target none = none

make_adaptive_track_test :
    target_of (λ t. t.target) (make_adaptive_track counting 9 "overdrive" 2 1) ≡ some 9
unfolding make_adaptive_track build_adaptive_track layout adaptive_track family_of_name all_unique
    random_aliases alias_text unpack to_set contains join decimal forbidden_actions
make_adaptive_track_test = refl

make_mechanic_track_test :
    target_of (λ t. t.target) (make_mechanic_track counting 9 "heat" 2 1) ≡ some 9
unfolding make_mechanic_track build_mechanic_track mechanic_layout mechanic_track
    mechanic_family_of_name all_unique random_aliases alias_text unpack to_set contains join decimal
    forbidden_actions
make_mechanic_track_test = refl

make_combo_track_test : target_of (λ t. t.target) (make_combo_track counting 9 2 1) ≡ some 9
unfolding make_combo_track build_combo_track combo_track all_unique random_aliases alias_text unpack
    to_set contains join decimal forbidden_actions
make_combo_track_test = refl
