-- ===== src/Tests/Selection.antt =====
-- The theorems on the Phase 3 reduction, applied to a small matrix.
use levelup_bench.Prelude.{
  ℕ, ◌≤◌, ◌≡◌, ◌↔◌, refl, String, true, false, List, [], ◌∷◌, ◌++◌, none, some, map, ok, In,
}
use levelup_bench.Prelude.Arrays.{replicate, item_at}
use levelup_bench.Prelude.Fractions.{
  over, whole, less_fraction, same_fraction, sub_fraction, add_fraction, divide_fraction,
}
use levelup_bench.Prelude.Lists.{contains, to_set}
use levelup_bench.Prelude.Orders.{least}
use levelup_bench.Prelude.Texts.{join, decimal}
use levelup_bench.Core.Outcome.{same_set, subset}
use levelup_bench.Core.Reference.{insert, sorted}
use levelup_bench.Core.Task.{minimize}
use levelup_bench.Core.Numbers.{float}
use levelup_bench.Core.Trajectory.{range_from}
use levelup_bench.Phase3.Outcomes.{UnitOutcome, restricted_interactions, restricted_interactions-le}
use levelup_bench.Phase3.Metrics.{
  expected_tuples, UnitRecord, ModelOwner, OwnerCost, SelectedMetric, families, median,
  all_restricted, family_metric, family_metrics, min_of, max_of, find_owner, find_cost, total_cost,
}
use levelup_bench.Phase3.Selection.{
  Variant, ConditionSelection, find_variant, unknown_family, wrong_coverage, candidate,
  candidates_of, select_condition, s_condition, h0_condition, h4_condition, h4_shuffled_condition,
}
use levelup_bench.Phase3.Selection.Best.{IsBest, select_condition-IsBest}
use levelup_bench.Phase3.Claims.{
  Choice, ClaimResult, same_texts, some_malformed, is_expected, require_metric, find_choice,
  require_all, rate_of, drops_of, all_tolerated, evaluate_claims,
}
use levelup_bench.Phase3.Claims.Gates.{Advances, evaluate_claims-Advances}

abbrev pub hit : UnitOutcome
hit = record {
  evaluator_ran = true;
  valid = true;
  completed = true;
  success = true;
  quality_value = none;
  performance_metric_id = "elapsed_ticks";
  performance_value = some (float 9);
  performance_direction = minimize;
  first_valid_completion_episode = some 1;
  first_threshold_episode = some 1;
  first_optimum_episode = some 1;
  first_optimum_adaptation_actions = some 100;
  censored = false;
  censoring_budget = none;
  censoring_reason = none;
}

restricted_interactions-le_example : (100 ≤ 2049) × ((true ≡ true) ↔ (100 ≤ 2048))
unfolding restricted_interactions
restricted_interactions-le_example = restricted_interactions-le hit 100 refl

abbrev join_lists : List (List UnitRecord) → List UnitRecord
join_lists [] = []
join_lists (x ∷ xs) = x ++ join_lists xs

abbrev hits : List UnitRecord
hits = join_lists (map (λ f. replicate 40 (record { family_id = f; outcome = hit })) families)

abbrev owner_names : String → List String
owner_names training = map (λ i. join (training ∷ decimal i ∷ [])) (range_from 0 30)

abbrev owner_list : String → List ModelOwner
owner_list training =
    map (λ id. record { owner_id = id; condition_id = s_condition; training_tuple_id = training })
      (owner_names training)

abbrev all_owners : List ModelOwner
all_owners =
    owner_list "lr0p003-e120"
    ++ owner_list "lr0p003-e180"
    ++ owner_list "lr0p01-e120"
    ++ owner_list "lr0p01-e180"

abbrev all_costs : List OwnerCost
all_costs =
    map
      (λ o. record {
        owner_id = o.owner_id;
        optimizer_steps = 120;
        forward_passes = 240;
        recurrent_steps = 0;
      })
      all_owners

abbrev all_variants : List Variant
all_variants =
    map
      (λ t. record {
        tuple_id = t.tuple_id;
        records = hits;
        owner_ids = owner_names t.training_tuple_id;
      })
      expected_tuples

sample_candidates :
    (cs : List SelectedMetric) × (candidates_of s_condition all_variants all_owners all_costs none
        none expected_tuples
      ≡ ok cs)
unfolding candidates_of candidate find_variant unknown_family wrong_coverage family_metrics
    family_metric all_restricted median sorted insert item_at restricted_interactions min_of max_of
    least less_fraction find_owner find_cost total_cost contains to_set replicate join decimal
    range_from
sample_candidates = (_, refl)

select_condition-IsBest_example :
    (s : ConditionSelection) × (select_condition s_condition all_variants all_owners all_costs none
        none
      ≡ ok s)
    × (map (λ (m : SelectedMetric). m.candidate_tuple) s.candidates ≡ expected_tuples)
    × IsBest s
select_condition-IsBest_example =
    select_condition-IsBest s_condition all_variants all_owners all_costs none none
      sample_candidates.0 sample_candidates.1

-- A metric with so many successes in each family.
abbrev metric_of : String → ℕ → SelectedMetric
metric_of condition wins = record {
  condition_id = condition;
  candidate_tuple = record {
    tuple_id = "lr0p01-e120-t0p9";
    training_tuple_id = "lr0p01-e120";
    learning_rate = over 1 99;
    epochs = 120;
    temperature = over 9 9;
  };
  family_metrics =
      map
        (λ f. record {
          family_id = f;
          units = 40;
          successes = wins;
          success_rate = over wins 39;
          median_interactions = whole 100;
        })
        families;
  minimum_rate = over wins 39;
  worst_median = whole 100;
  macro_average = whole 100;
  optimizer_steps = 120;
  forward_passes = 240;
  recurrent_steps = 0;
  heldout_shuffle_eligible = some true;
  training_shuffle_eligible = some true;
}

abbrev b2_metric : SelectedMetric
b2_metric = metric_of "B2-global-listwise-optimum" 30

abbrev t_metric : SelectedMetric
t_metric = metric_of "T-markov-state-transition-listwise-optimum" 20

abbrev choices : List Choice
choices =
    record { condition = s_condition; metric = metric_of s_condition 12 }
    ∷ record { condition = h0_condition; metric = metric_of h0_condition 20 }
    ∷ record { condition = h4_condition; metric = metric_of h4_condition 30 }
    ∷ record { condition = h4_shuffled_condition; metric = metric_of h4_shuffled_condition 20 }
    ∷ []

sample_claims :
    (r : ClaimResult) × (evaluate_claims choices b2_metric t_metric none ≡ ok r)
    × (r.advancement ≡ true)
unfolding evaluate_claims require_metric require_all find_choice rate_of drops_of all_tolerated
    same_texts some_malformed is_expected same_fraction sub_fraction add_fraction divide_fraction
    min_of max_of least less_fraction same_set subset contains
sample_claims = (_, refl, refl)

evaluate_claims-Advances_example :
    (h0 h4 shuffled : SelectedMetric) × In
      (record { condition = h0_condition; metric = h0 })
      choices
    × In (record { condition = h4_condition; metric = h4 }) choices
    × In (record { condition = h4_shuffled_condition; metric = shuffled }) choices
    × ((sample_claims.0.advancement ≡ true) ↔ Advances b2_metric t_metric h0 h4 shuffled none)
evaluate_claims-Advances_example =
    evaluate_claims-Advances choices b2_metric t_metric none sample_claims.0 sample_claims.1
