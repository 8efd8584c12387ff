-- ===== src/Bundles/Families.antt =====
-- The held-out tasks and the bundles of the three track modules.
use levelup_bench.Prelude.{
  ℕ, ◌≤◌, ◌≡◌, subst, inl, inr, String, false, List, [], Option, none, some, length, All-In, In,
  string_eq, ◌==◌, Option-cases, Result, ok, raise, ◌>>=◌, >>=-eq-ok,
}
use levelup_bench.Core.Faults.{Fault}
use levelup_bench.Core.Json.{Fields, no_fields, field, text, boolean}
use levelup_bench.Core.Numbers.{Float, float}
use levelup_bench.Course.Oracle.Optimum.{Completes, IsDelivered, IsLeast, enough_fuel}
use levelup_bench.Runtime.{Runtime}
use levelup_bench.Sampling.{Rng, task_rng, random_aliases, unpack}
use levelup_bench.Track.{OpaqueAction}
use levelup_bench.AdaptiveTrack.{Track, adaptive_track, course}
use levelup_bench.AdaptiveTrack.Bounds.{states}
use levelup_bench.AdaptiveTrack.Generation.{build_adaptive_track, make_adaptive_track}
use levelup_bench.AdaptiveTrack.Laws.{adaptive_optimum-IsLeast}
use levelup_bench.AdaptiveTrack.Rules.{family_of_name}
use levelup_bench.ComboTrack.{ComboTrack, combo_course}
use levelup_bench.ComboTrack.Generation.{make_combo_track}
use levelup_bench.MechanicTrack.{mechanic_course}
use levelup_bench.MechanicTrack.Rules.{MechanicTrack}
use levelup_bench.MechanicTrack.Generation.{make_mechanic_track}
use levelup_bench.Bundles.{Bundle, Paired, held_out, collect_bundles}
use levelup_bench.Bundles.Gaps.{HasGap, IsHeldOut, held_out-IsHeldOut}

module _ (rng : Rng) (alias_fuel fuel rounds : ℕ) where
  unfoldable pub held_out_adaptive_tasks :
      String → ℕ → ℕ → Option (Result Fault (List (Paired Track Float)))
  held_out_adaptive_tasks family count seed =
      held_out (λ i. make_adaptive_track rng alias_fuel family i seed) course fuel rounds count 0 []

  -- `held_out_tasks` of mechanictrack.py, on `HELD_OUT_FAMILY`.
  unfoldable pub held_out_tasks : ℕ → ℕ → Option (Result Fault (List (Paired MechanicTrack Float)))
  held_out_tasks count seed =
      held_out (λ i. make_mechanic_track rng alias_fuel "heat" i seed) mechanic_course fuel rounds
        count 0 []

  unfoldable pub held_out_combo_tasks :
      ℕ → ℕ → Option (Result Fault (List (Paired ComboTrack Float)))
  held_out_combo_tasks count seed =
      held_out (λ i. make_combo_track rng alias_fuel i seed) combo_course fuel rounds count 0 []

  abbrev pub adaptive_provenance : String → String → Fields
  adaptive_provenance family label = field "kind" (text "synthetic_policy") (
      field "human_observed" (boolean false) (
        field "generated_from_hidden_oracle" (boolean (label == "optimum")) (
          field "mechanic_family" (text family)
            (field "action_descriptors_exposed" (boolean false) no_fields))))

  unfoldable pub collect_adaptive_bundles :
      String → ℕ → ℕ → Option (Result Fault (List (Paired Track Bundle)))
  collect_adaptive_bundles family count seed =
      collect_bundles (λ i. make_adaptive_track rng alias_fuel family i seed) course fuel
        (adaptive_provenance family) rounds count 0 []

  abbrev pub mechanic_provenance : String → String → Fields
  mechanic_provenance family label = field "kind" (text "synthetic_policy") (
      field "human_observed" (boolean false) (
        field "generated_from_hidden_oracle" (boolean (label == "optimum"))
          (field "mechanic_family" (text family) no_fields)))

  -- `collect_bundles` of mechanictrack.py
  unfoldable pub collect_mechanic_bundles :
      String → ℕ → ℕ → Option (Result Fault (List (Paired MechanicTrack Bundle)))
  collect_mechanic_bundles family count seed =
      collect_bundles (λ i. make_mechanic_track rng alias_fuel family i seed) mechanic_course fuel
        (mechanic_provenance family) rounds count 0 []

  -- A track that was made has been through the constructor.
  record IsBuilt (t : Track) : Type 0 where
    family : String
    target : ℕ
    actions : List OpaqueAction
    index : ℕ
    seed : ℕ
    capacity : ℕ
    resource : ℕ
    cap : ℕ
    built : adaptive_track family target actions index seed capacity resource cap ≡ ok t

  make_adaptive_track-IsBuilt :
      (family : String) (index seed : ℕ) (t : Track)
      → make_adaptive_track rng alias_fuel family index seed ≡ some (ok t)
      → IsBuilt t
  unfolding make_adaptive_track build_adaptive_track
  make_adaptive_track-IsBuilt family index seed t h = elim (Option-cases (family_of_name family)) [
    | inl missing ↦
        absurd
          (let k : some (raise _) ≡ some (ok t) = rw (missing, make_adaptive_track) at h in cc k)
    | inr (f, here) ↦
        let target = (rng.randint 9 16 (task_rng rng index seed)).0 in
        let r = (rng.randint 9 16 (task_rng rng index seed)).1 in
        elim (Option-cases (random_aliases rng alias_fuel 5 [] r)) [
          | inl endless ↦
              absurd
                (let k : none ≡ some (ok t) = rw (here, endless, make_adaptive_track) at h in cc k)
          | inr (drawn, ended) ↦
              let k : some (
                    unpack drawn.0 >>= λ names.
                    build_adaptive_track rng family f index seed target names drawn.1)
                  ≡ some (ok t) =
                rw (here, ended, make_adaptive_track) at h in
              let l : (unpack drawn.0 >>= λ names.
              build_adaptive_track rng family f index seed target names drawn.1)
                  ≡ ok t =
                cc k in
              let (names, _, m) = >>=-eq-ok (unpack drawn.0) _ l in
              record {
                family = family;
                target = target;
                actions = _;
                index = index;
                seed = seed;
                capacity = _;
                resource = _;
                cap = _;
                built = m;
              }
        ]
  ]

  -- Of held-out adaptive tasks that are returned, each is paired with the number of ticks of a run that completes it without the forbidden action, no such run takes fewer, and frontier_path returns strictly more, where the fuel is enough for a track of its size.
  pub held_out_adaptive_tasks-IsLeast :
      (rt : Runtime) (family : String) (count seed : ℕ) (result : List (Paired Track Float))
      → held_out_adaptive_tasks family count seed ≡ some (ok result)
      → (p : Paired Track Float) → In p result
      → enough_fuel (length (states p.track)) ≤ fuel
      → (best : ℕ) × (p.value ≡ float best)
        × (gap : HasGap fuel (course p.track) best) × Completes rt (course p.track) gap.path best
        × IsLeast rt (course p.track) (some (ok (best, gap.path)))
  unfolding held_out_adaptive_tasks
  held_out_adaptive_tasks-IsLeast rt family count seed result h p m enough =
      let make = λ (i : ℕ). make_adaptive_track rng alias_fuel family i seed in
      let (_, all) = held_out-IsHeldOut make course fuel rounds count result h in
      let i : IsHeldOut make course fuel p = All-In (IsHeldOut make course fuel) result all m in
      let b : IsBuilt p.track = make_adaptive_track-IsBuilt family i.index seed p.track i.made in
      let (delivered, least) =
        adaptive_optimum-IsLeast b.family b.target b.actions b.index b.seed b.capacity b.resource
          b.cap p.track b.built rt fuel enough in
      (
        i.best,
        i.valued,
        i.gap,
        subst (IsDelivered rt (course p.track)) i.gap.optimum_found delivered,
        subst (IsLeast rt (course p.track)) i.gap.optimum_found least,
      )
