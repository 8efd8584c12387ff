-- ===== src/Learning/History/Traces.antt =====
-- The records of a shuffled trace are accepted by `canonical_permutation_map_bytes`.
use levelup_bench.Prelude.{
  ℕ, zero, suc, ◌+◌, ◌-◌, ◌≤◌, ◌<◌, ◌≡◌, refl, ap, subst, false, List, [], ◌∷◌, map, length,
  string_eq, arith, ok,
}
use levelup_bench.Prelude.Int.{pos, ltb_ℤ, eqb_ℤ}
use levelup_bench.Core.Json.{JsonValue}
use levelup_bench.Core.Trajectory.{range_from}
use levelup_bench.Learning.Derangements.{HistoryIdentity}
use levelup_bench.Learning.History.{
  history_windows, PermutationRecord, check_windows, seen_identity, blank, check_records,
  identity_at, trace_records,
}
use levelup_bench.Learning.History.Chosen.{derangement_chosen}
use levelup_bench.Learning.History.Accepted.{
  indexed_by-range_from, length-range_from, shift, check_windows-shift,
}

-- The windows of a shuffled decision exist and pass the checks, whatever the digest.
pub history_windows-accepted :
    (digest : JsonValue → ℕ) (base decision : ℕ) (i : HistoryIdentity)
    → (windows : List ℕ × List ℕ) × (history_windows digest "shuffled" base i decision ≡ ok windows)
      × (check_windows (pos decision) (map pos windows.0) (map pos windows.1) ≡ ok tt)
unfolding history_windows
history_windows-accepted digest base decision i =
    let s = decision - 4 in
    let n = decision - s in
    let few : n ≤ 4 = omega arith in
    let whole : s + n ≡ decision = omega arith in
    let (p, made, good) = derangement_chosen digest n base i few in
    let size = length-range_from s n in
    let taken = indexed_by-range_from s n p (ground arith) in
    (
      (range_from s n, shift s p),
      rw (size, made, taken) refl,
      subst (λ d. check_windows (pos d) (map pos (range_from s n)) (map pos (shift s p)) ≡ ok tt)
          whole (check_windows-shift s n p few good),
    )

-- Every identity that was met is of an earlier decision.
abbrev Earlier : ℕ → List HistoryIdentity → Type 0
Earlier k [] = Unit
Earlier k (j ∷ rest) = ((m : ℕ) × (j.decision_index ≡ pos m) × (m < k)) × Earlier k rest

Earlier-suc : (k : ℕ) (seen : List HistoryIdentity) → Earlier k seen → Earlier (suc k) seen
Earlier-suc k [] h = tt
Earlier-suc k (j ∷ rest) ((m, e, lt), h) = ((m, e, omega (arith, lt)), Earlier-suc k rest h)

not_seen :
    (i : HistoryIdentity) (k : ℕ) (seen : List HistoryIdentity)
    → Earlier k seen
    → seen_identity (identity_at i k) seen ≡ false
unfolding seen_identity
not_seen i k [] h = refl
not_seen i k (j ∷ rest) ((m, e, lt), h) =
    let apart : eqb_ℤ (pos k) j.decision_index ≡ false = rw e (ground arith) in
    let tail = not_seen i k rest h in ground arith

trace_records-Checked :
    (digest : JsonValue → ℕ) (base : ℕ) (i : HistoryIdentity) (k count : ℕ)
    (seen : List HistoryIdentity)
    → blank i ≡ false
    → ltb_ℤ i.replicate (pos 0) ≡ false
    → Earlier k seen
    → (rs : List PermutationRecord) × (trace_records digest "shuffled" base i k count ≡ ok rs)
      × (check_records seen rs ≡ ok tt)
      × (length rs ≡ count)
unfolding trace_records check_records
trace_records-Checked digest base i k zero seen named counted h = ([], refl, refl, refl)
trace_records-Checked digest base i k (suc count) seen named counted h =
    let (windows, made, passed) = history_windows-accepted digest base k (identity_at i k) in
    let (rs, others, checked, size) =
      trace_records-Checked digest base i (suc k) count (identity_at i k ∷ seen) named counted
        ((k, refl, omega arith), Earlier-suc k seen h) in
    let fresh = not_seen i k seen h in
    let natural : ltb_ℤ (pos k) (pos 0) ≡ false = ground arith in
    (
      record {
        identity = identity_at i k;
        input_indices = map pos windows.0;
        permuted_indices = map pos windows.1;
      }
          ∷ rs,
      rw (made, others) refl,
      rw (named, counted, natural, fresh, passed) checked,
      ap suc size,
    )

-- For a trace whose identity texts are not empty and whose replicate is not negative, one record is made for each decision, whatever the digest, and the validation of the permutation map accepts them all.
pub trace_records-accepted :
    (digest : JsonValue → ℕ) (base : ℕ) (i : HistoryIdentity) (count : ℕ)
    → blank i ≡ false
    → ltb_ℤ i.replicate (pos 0) ≡ false
    → (rs : List PermutationRecord) × (trace_records digest "shuffled" base i 0 count ≡ ok rs)
      × (check_records [] rs ≡ ok tt)
      × (length rs ≡ count)
trace_records-accepted digest base i count named counted =
    trace_records-Checked digest base i 0 count [] named counted tt
