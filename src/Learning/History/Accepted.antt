-- ===== src/Learning/History/Accepted.antt =====
-- The windows that `_history_rows` makes pass the checks of `canonical_permutation_map_bytes`.
use levelup_bench.Prelude.{
  ℕ, zero, suc, ◌+◌, ◌≤◌, ◌<◌, ◌≡◌, ◌∙◌, refl, ap, subst, true, false, List, [], ◌∷◌, some, map,
  length, string_eq, eqb, eqb_iff, ltb, leb, inl, inr, arith, ok, Bool-cases,
}
use levelup_bench.Prelude.Arrays.{item_at}
use levelup_bench.Prelude.Int.{ℤ, pos, ltb_ℤ, ◌+ℤ◌}
use levelup_bench.Core.Reference.{insert, sorted}
use levelup_bench.Core.Trajectory.{range_from}
use levelup_bench.Core.Trajectory.Indices.{same_numbers_iff}
use levelup_bench.Learning.Derangements.{history_length}
use levelup_bench.Learning.History.{
  indexed_by, int_range, same_ints, insert_int, sorted_ints, some_match, minus, check_windows,
}
use levelup_bench.Learning.History.Chosen.{all_below, none_stays, is_derangement}

abbrev pub shift : ℕ → List ℕ → List ℕ
shift s = map (λ i. s + i)

abbrev ints : List ℕ → List ℤ
ints = map pos

item_at-range_from : (s n i : ℕ) → i < n → item_at i (range_from s n) ≡ some (s + i)
unfolding item_at range_from
item_at-range_from s zero i h = absurd (omega arith)
item_at-range_from s (suc n) zero h = ap some (omega arith)
item_at-range_from s (suc n) (suc i) h =
    item_at-range_from (s + 1) n i (omega arith) ∙ ap some (omega arith)

pub indexed_by-range_from :
    (s n : ℕ) (p : List ℕ) → all_below n p ≡ true → indexed_by (range_from s n) p ≡ ok (shift s p)
unfolding indexed_by
indexed_by-range_from s n [] h = refl
indexed_by-range_from s n (i ∷ p) h =
    let lt : i < n = ground arith in
    rw (item_at-range_from s n i lt, indexed_by-range_from s n p (ground arith), indexed_by) refl

shift-range_from : (s k n : ℕ) → shift s (range_from k n) ≡ range_from (s + k) n
unfolding range_from
shift-range_from s k zero = refl
shift-range_from s k (suc n) =
    ap (λ (l : List ℕ). (s + k) ∷ l)
      (shift-range_from s (k + 1) n
        ∙ ap (λ (m : ℕ). range_from m n) (let e : s + (k + 1) ≡ s + k + 1 = omega arith in e))

insert-shift : (s x : ℕ) (xs : List ℕ) → insert (s + x) (shift s xs) ≡ shift s (insert x xs)
unfolding insert
insert-shift s x [] = refl
insert-shift s x (y ∷ ys) = elim (Bool-cases (leb x y)) [
  | inl le ↦ let shifted : leb (s + x) (s + y) ≡ true = ground arith in rw (le, shifted) refl
  | inr gt ↦
      let shifted : leb (s + x) (s + y) ≡ false = ground arith in
      rw (gt, shifted) (ap (λ (l : List ℕ). (s + y) ∷ l) (insert-shift s x ys))
]

sorted-shift : (s : ℕ) (xs : List ℕ) → sorted (shift s xs) ≡ shift s (sorted xs)
unfolding sorted
sorted-shift s [] = refl
sorted-shift s (x ∷ xs) = ap (insert (s + x)) (sorted-shift s xs) ∙ insert-shift s x (sorted xs)

insert_int-ints : (x : ℕ) (xs : List ℕ) → insert_int (pos x) (ints xs) ≡ ints (insert x xs)
unfolding insert_int insert
insert_int-ints x [] = refl
insert_int-ints x (y ∷ ys) = elim (Bool-cases (leb x y)) [
  | inl le ↦ let below : ltb_ℤ (pos y) (pos x) ≡ false = ground arith in rw (le, below) refl
  | inr gt ↦
      let below : ltb_ℤ (pos y) (pos x) ≡ true = ground arith in
      rw (gt, below) (ap (λ (l : List ℤ). pos y ∷ l) (insert_int-ints x ys))
]

sorted_ints-ints : (xs : List ℕ) → sorted_ints (ints xs) ≡ ints (sorted xs)
unfolding sorted_ints sorted
sorted_ints-ints [] = refl
sorted_ints-ints (x ∷ xs) =
    ap (insert_int (pos x)) (sorted_ints-ints xs) ∙ insert_int-ints x (sorted xs)

same_ints_refl : (xs : List ℕ) → same_ints (ints xs) (ints xs) ≡ true
unfolding same_ints
same_ints_refl [] = refl
same_ints_refl (x ∷ xs) = rw ((eqb_iff x x).1 refl, same_ints_refl xs) refl

int_range-ints : (s n : ℕ) → int_range (pos s) n ≡ ints (range_from s n)
unfolding int_range range_from ◌+ℤ◌
int_range-ints s zero = refl
int_range-ints s (suc n) =
    let next : pos s +ℤ pos 1 ≡ pos (s + 1) = ground arith in
    ap (λ (l : List ℤ). pos s ∷ l) (ap (λ (i : ℤ). int_range i n) next ∙ int_range-ints (s + 1) n)

minus-pos : (s n : ℕ) → minus (pos (s + n)) n ≡ pos s
unfolding ◌+ℤ◌
minus-pos s zero = ap pos (omega arith)
minus-pos s (suc n) = ground arith

some_match-moved :
    (s k n : ℕ) (p : List ℕ)
    → none_stays k p ≡ true
    → some_match (ints (shift s (range_from k n))) (ints (shift s p)) ≡ false
unfolding some_match range_from
some_match-moved s k zero p h = refl
some_match-moved s k (suc n) [] h = refl
some_match-moved s k (suc n) (x ∷ p) h =
    let apart : eqb (s + k) (s + x) ≡ false = ground arith in
    rw (apart, some_match-moved s (k + 1) n p (ground arith)) refl

length-map : {A B : Type 0} (f : A → B) (xs : List A) → length (map f xs) ≡ length xs
length-map f [] = refl
length-map f (x ∷ xs) = ap suc (length-map f xs)

pub length-range_from : (s n : ℕ) → length (range_from s n) ≡ n
unfolding range_from
length-range_from s zero = refl
length-range_from s (suc n) = ap suc (length-range_from (s + 1) n)

-- The windows of a derangement pass the checks, and so does a window that is left as it is where it has fewer than two indices.
pub check_windows-shift :
    (s n : ℕ) (p : List ℕ)
    → n ≤ 4
    → is_derangement n p ≡ true
    → check_windows (pos (s + n)) (ints (range_from s n)) (ints (shift s p)) ≡ ok tt
unfolding check_windows
check_windows-shift s n p h good =
    let size : length (ints (range_from s n)) ≡ n =
      length-map pos (range_from s n) ∙ length-range_from s n in
    let long : length p ≡ n = (eqb_iff _ _).0 (ground arith) in
    let same_size : length (ints (shift s p)) ≡ n =
      length-map pos (shift s p) ∙ length-map (λ i. s + i) p ∙ long in
    let enough : ltb history_length n ≡ false = ground arith in
    let alike : eqb n n ≡ true = (eqb_iff n n).1 refl in
    let base : shift s (range_from 0 n) ≡ range_from s n =
      shift-range_from s 0 n
      ∙ ap (λ (m : ℕ). range_from m n) (let e : s + 0 ≡ s = omega arith in e) in
    let window : same_ints (ints (range_from s n)) (int_range (minus (pos (s + n)) n) n) ≡ true =
      rw (minus-pos s n, int_range-ints s n) (same_ints_refl (range_from s n)) in
    let ordered : sorted p ≡ range_from 0 n = (same_numbers_iff _ _).0 (ground arith) in
    let multiset : same_ints (sorted_ints (ints (shift s p))) (ints (range_from s n)) ≡ true =
      rw (sorted_ints-ints (shift s p), sorted-shift s p, ordered, base)
        (same_ints_refl (range_from s n)) in
    elim (Bool-cases (ltb n 2)) [
      | inl short ↦
          let fixed : p ≡ range_from 0 n = (same_numbers_iff _ _).0 (ground arith) in
          let kept : same_ints (ints (shift s p)) (ints (range_from s n)) ≡ true =
            rw (fixed, base) (same_ints_refl (range_from s n)) in
          rw (size, same_size, enough, alike, window, multiset, short, kept) refl
      | inr deranged ↦
          let moved : none_stays 0 p ≡ true = ground arith in
          let apart : some_match (ints (range_from s n)) (ints (shift s p)) ≡ false =
            subst (λ l. some_match (ints l) (ints (shift s p)) ≡ false) base
              (some_match-moved s 0 n p moved) in
          rw (size, same_size, enough, alike, window, multiset, deranged, apart) refl
    ]
