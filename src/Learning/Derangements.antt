-- ===== src/Learning/Derangements.antt =====
-- `lexicographic_derangements` and `deterministic_history_derangement` of
-- levelup/learning/state_conditioned.py.
use levelup_bench.Prelude.{
  ℕ, zero, suc, ◌+◌, String, Bool, true, not, ◌&&◌, List, [], ◌∷◌, ◌++◌, Option, none, some, map,
  length, select, eqb, ltb, Result, ok, raise, ◌>>=◌, if◌then◌else◌,
}
use Prim.Native.Nat.{◌%◌}
use levelup_bench.Prelude.Arrays.{item_at}
use levelup_bench.Prelude.Int.{ℤ, pos, negsuc}
use levelup_bench.Core.Faults.{
  Fault, value_error, index_error, negative_length, window_too_long, identity_required,
}
use levelup_bench.Core.Json.{JsonValue, nil, item, text, int, array, number}
use levelup_bench.Core.Trajectory.{range_from}

-- Each element with the elements that are left, in order.
unfoldable pub picks : List ℕ → List (ℕ × List ℕ)
picks [] = []
picks (x ∷ xs) = (x, xs) ∷ map (λ p. (p.0, x ∷ p.1)) (picks xs)

abbrev join_all : List (List (List ℕ)) → List (List ℕ)
join_all [] = []
join_all (x ∷ xs) = x ++ join_all xs

-- `itertools.permutations`, of a list of that length: lexicographic by the positions.
unfoldable pub permutations : ℕ → List ℕ → List (List ℕ)
permutations zero xs = [] ∷ []
permutations (suc n) xs =
    join_all (map (λ p. map (λ rest. p.0 ∷ rest) (permutations n p.1)) (picks xs))

-- `all(index != value for index, value in enumerate(permutation))`, from an index on.
unfoldable pub moves_all : ℕ → List ℕ → Bool
moves_all index [] = true
moves_all index (value ∷ rest) = not (eqb index value) && moves_all (index + 1) rest

-- `HISTORY_LENGTH`
abbrev pub history_length : ℕ
history_length = 4

unfoldable pub lexicographic_derangements : ℤ → Result Fault (List (List ℕ))
lexicographic_derangements (negsuc n) = raise (value_error negative_length)
lexicographic_derangements (pos n) =
    if ltb history_length n
    then raise (value_error window_too_long)
    else if ltb n 2
    then ok (range_from 0 n ∷ [])
    else ok (select (moves_all 0) (permutations n (range_from 0 n)))

-- `HistoryPermutationIdentity`
pub record HistoryIdentity : Type 0 where
  pub fold_id : String
  pub replicate : ℤ
  pub task_id : String
  pub phase : String
  pub trace_or_episode_id : String
  pub decision_index : ℤ

-- `[history_shuffle_base, *identity.as_list()]`
abbrev pub digested : ℕ → HistoryIdentity → JsonValue
digested base i = array (
    item (number base) (
      item (text i.fold_id) (
        item (int i.replicate) (
          item (text i.task_id) (
            item (text i.phase)
              (item (text i.trace_or_episode_id) (item (int i.decision_index) nil)))))))

-- `choices[i]`
abbrev pub chosen : Option (List ℕ) → Result Fault (List ℕ)
chosen none = raise index_error
chosen (some p) = ok p

-- `digest` is the number in the first eight bytes of the SHA-256 of the canonical JSON text.
unfoldable pub deterministic_history_derangement :
    (JsonValue → ℕ) → ℤ → ℕ → Option HistoryIdentity → Result Fault (List ℕ)
deterministic_history_derangement digest size base identity =
    lexicographic_derangements size >>= λ choices.
    if is_short size then chosen (item_at 0 choices) else elim identity [
      | none ↦ raise (value_error identity_required)
      | some i ↦ chosen (item_at (digest (digested base i) % length choices) choices)
    ]
  where
    is_short : ℤ → Bool
    is_short (pos n) = ltb n 2
    is_short (negsuc n) = true
