-- ===== src/Tests/Histories.antt =====
-- The theorems on shuffled histories, applied to a trace of six decisions.
use levelup_bench.Prelude.{ℕ, ◌≡◌, refl, List, [], ◌∷◌, some, length, ok, arith}
use levelup_bench.Prelude.Int.{pos, negsuc, ◌+ℤ◌}
use levelup_bench.Core.Json.{JsonValue}
use levelup_bench.Learning.Derangements.{HistoryIdentity, deterministic_history_derangement}
use levelup_bench.Learning.History.{
  PermutationRecord, check_records, check_windows, int_range, same_ints, sorted_ints, insert_int,
  trace_records,
}
use levelup_bench.Learning.History.Chosen.{Deranges, deterministic_history_derangement-Deranges}
use levelup_bench.Learning.History.Traces.{trace_records-accepted}

abbrev sample_identity : HistoryIdentity
sample_identity = record {
  fold_id = "fold";
  replicate = pos 2;
  task_id = "task";
  phase = "train";
  trace_or_episode_id = "trace";
  decision_index = pos 0;
}

abbrev sample_digest : JsonValue → ℕ
sample_digest _ = 1234567

deterministic_history_derangement-Deranges_example :
    (p : List ℕ) × (deterministic_history_derangement sample_digest
        (pos 4)
        6700000
        (some sample_identity)
      ≡ ok p)
    × Deranges 4 p
deterministic_history_derangement-Deranges_example =
    deterministic_history_derangement-Deranges sample_digest 4 6700000 sample_identity (omega arith)

trace_records-accepted_example :
    (rs : List PermutationRecord) × (trace_records sample_digest "shuffled" 6700000 sample_identity
        0 6
      ≡ ok rs)
    × (check_records [] rs ≡ ok tt)
    × (length rs ≡ 6)
trace_records-accepted_example =
    trace_records-accepted sample_digest 6700000 sample_identity 6 refl refl

-- The window check takes an index before the first transition: decision 0 has no preceding ones.
negative_window_test : check_windows (pos 0) (negsuc 0 ∷ []) (negsuc 0 ∷ []) ≡ ok tt
unfolding check_windows int_range same_ints sorted_ints insert_int ◌+ℤ◌
negative_window_test = refl
