-- ===== src/Learning/History.antt =====
-- The windows of a shuffled history, and the validation of their records, in
-- levelup/learning/state_conditioned.py.
pub mod Chosen
pub mod Accepted
pub mod Traces
use levelup_bench.Prelude.{
  ℕ, zero, suc, ◌+◌, ◌-◌, String, Bool, true, false, not, ◌&&◌, ◌||◌, List, [], ◌∷◌, Option, none,
  some, map, length, string_eq, ◌==◌, eqb, ltb, Result, ok, raise, raise_if, ◌>>=◌, ◌>>◌,
  if◌then◌else◌,
}
use levelup_bench.Prelude.Arrays.{item_at}
use levelup_bench.Prelude.Int.{ℤ, pos, negsuc, ltb_ℤ, eqb_ℤ, ◌+ℤ◌, sub_ℕ}
use levelup_bench.Core.Faults.{
  Fault, value_error, index_error, unknown_mode, blank_identity, negative_identity,
  duplicate_identity, wrong_window_length, not_causal_window, not_same_multiset,
  short_window_changed, not_derangement,
}
use levelup_bench.Core.Json.{JsonValue}
use levelup_bench.Core.Trajectory.{range_from}
use levelup_bench.Learning.Derangements.{
  HistoryIdentity, history_length, deterministic_history_derangement,
}

-- `tuple(input_indices[index] for index in permutation)`
unfoldable pub indexed_by : List ℕ → List ℕ → Result Fault (List ℕ)
indexed_by xs [] = ok []
indexed_by xs (i ∷ rest) =
    let others = indexed_by xs rest in
    elim (item_at i xs) [ none ↦ raise index_error | some x ↦ others >>= λ ys. ok (x ∷ ys) ]

abbrev pub known_mode : String → Bool
known_mode mode = mode == "causal" || (mode == "null" || mode == "shuffled")

-- The input and output indices of `_history_rows`.
unfoldable pub history_windows :
    (JsonValue → ℕ) → String → ℕ → HistoryIdentity → ℕ → Result Fault (List ℕ × List ℕ)
history_windows digest mode base identity decision =
    let start = decision - history_length in
    let inputs = range_from start (decision - start) in
    if not (known_mode mode)
    then raise (value_error unknown_mode)
    else if mode == "shuffled"
    then (deterministic_history_derangement digest (pos (length inputs)) base (some identity)
        >>= λ permutation. indexed_by inputs permutation >>= λ outputs. ok (inputs, outputs))
    else ok (inputs, inputs)

-- A record of a permutation map. Its fields have the types that the code asks for.
pub record PermutationRecord : Type 0 where
  pub identity : HistoryIdentity
  pub input_indices : List ℤ
  pub permuted_indices : List ℤ

-- `list(range(start, start + count))`
unfoldable pub int_range : ℤ → ℕ → List ℤ
int_range start zero = []
int_range start (suc count) = start ∷ int_range (start +ℤ pos 1) count

unfoldable pub same_ints : List ℤ → List ℤ → Bool
same_ints [] [] = true
same_ints [] (y ∷ ys) = false
same_ints (x ∷ xs) [] = false
same_ints (x ∷ xs) (y ∷ ys) = eqb_ℤ x y && same_ints xs ys

-- `sorted`, by insertion.
unfoldable pub insert_int : ℤ → List ℤ → List ℤ
insert_int x [] = x ∷ []
insert_int x (y ∷ ys) = if ltb_ℤ y x then y ∷ insert_int x ys else x ∷ y ∷ ys

unfoldable pub sorted_ints : List ℤ → List ℤ
sorted_ints [] = []
sorted_ints (x ∷ xs) = insert_int x (sorted_ints xs)

-- `any(left == right for left, right in zip(xs, ys))`
unfoldable pub some_match : List ℤ → List ℤ → Bool
some_match [] ys = false
some_match (x ∷ xs) [] = false
some_match (x ∷ xs) (y ∷ ys) = eqb_ℤ x y || some_match xs ys

-- `decision_index - len(input_indices)`
abbrev pub minus : ℤ → ℕ → ℤ
minus a zero = a
minus a (suc n) = a +ℤ negsuc n

-- The checks of the two windows, for a decision.
unfoldable pub check_windows : ℤ → List ℤ → List ℤ → Result Fault Unit
check_windows decision inputs outputs =
    raise_if (ltb history_length (length inputs) || not (eqb (length outputs) (length inputs)))
      (value_error wrong_window_length)
    >> raise_if
        (not (same_ints inputs (int_range (minus decision (length inputs)) (length inputs))))
        (value_error not_causal_window)
    >> raise_if (not (same_ints (sorted_ints outputs) inputs)) (value_error not_same_multiset)
    >> (if ltb (length inputs) 2
        then raise_if (not (same_ints outputs inputs)) (value_error short_window_changed)
        else raise_if (some_match inputs outputs) (value_error not_derangement))

abbrev same_identity : HistoryIdentity → HistoryIdentity → Bool
same_identity i j =
    i.fold_id == j.fold_id
    && (eqb_ℤ i.replicate j.replicate
        && (i.task_id == j.task_id
            && (i.phase == j.phase
                && (i.trace_or_episode_id == j.trace_or_episode_id
                    && eqb_ℤ i.decision_index j.decision_index))))

unfoldable pub seen_identity : HistoryIdentity → List HistoryIdentity → Bool
seen_identity i [] = false
seen_identity i (j ∷ rest) = same_identity i j || seen_identity i rest

abbrev pub blank : HistoryIdentity → Bool
blank i = i.fold_id == "" || (i.task_id == "" || (i.phase == "" || i.trace_or_episode_id == ""))

abbrev pub negative : HistoryIdentity → Bool
negative i = ltb_ℤ i.replicate (pos 0) || ltb_ℤ i.decision_index (pos 0)

-- The loop of `canonical_permutation_map_bytes`, from the identities that it has met.
unfoldable pub check_records : List HistoryIdentity → List PermutationRecord → Result Fault Unit
check_records identities [] = ok tt
check_records identities (r ∷ rest) = do
  raise_if (blank r.identity) (value_error blank_identity)
  raise_if (negative r.identity) (value_error negative_identity)
  raise_if (seen_identity r.identity identities) (value_error duplicate_identity)
  check_windows r.identity.decision_index r.input_indices r.permuted_indices
  check_records (r.identity ∷ identities) rest

-- The identity of a decision of a trace, as `_history_identity` makes it.
abbrev pub identity_at : HistoryIdentity → ℕ → HistoryIdentity
identity_at i decision = record {
  fold_id = i.fold_id;
  replicate = i.replicate;
  task_id = i.task_id;
  phase = i.phase;
  trace_or_episode_id = i.trace_or_episode_id;
  decision_index = pos decision;
}

-- What the loop of `history_optimum_examples` over the decisions of a trace appends to
-- `permutation_records`: so many decisions, from one on.
unfoldable pub trace_records :
    (JsonValue → ℕ) → String → ℕ → HistoryIdentity → ℕ → ℕ → Result Fault (List PermutationRecord)
trace_records digest mode base i decision zero = ok []
trace_records digest mode base i decision (suc count) = do
  windows ← history_windows digest mode base (identity_at i decision) decision
  others ← trace_records digest mode base i (suc decision) count
  ok (
      record {
        identity = identity_at i decision;
        input_indices = map pos windows.0;
        permuted_indices = map pos windows.1;
      }
      ∷ others)
