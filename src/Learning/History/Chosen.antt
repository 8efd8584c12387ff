-- ===== src/Learning/History/Chosen.antt =====
-- What `deterministic_history_derangement` chooses.
use levelup_bench.Prelude.{
  ℕ, zero, suc, ◌+◌, ◌≤◌, ◌<◌, ◌≡◌, ◌≢◌, ◌⊎◌, not, In, refl, Bool, true, ◌&&◌, List, [], ◌∷◌, some,
  length, string_eq, eqb, eqb_iff, ltb, inl, inr, arith, ok, Bool-cases, if◌then◌else◌,
}
use Prim.Native.Nat.{◌%◌}
use levelup_bench.Prelude.Arrays.{item_at}
use levelup_bench.Prelude.Int.{pos}
use levelup_bench.Core.Json.{JsonValue}
use levelup_bench.Core.Reference.{insert, sorted}
use levelup_bench.Core.Trajectory.{range_from, same_numbers}
use levelup_bench.Learning.Derangements.{
  picks, permutations, moves_all, digested, lexicographic_derangements, HistoryIdentity,
  deterministic_history_derangement,
}

abbrev pub all_below : ℕ → List ℕ → Bool
all_below n [] = true
all_below n (x ∷ xs) = ltb x n && all_below n xs

-- From an index on, no element is its own index, or all are.
abbrev pub none_stays : ℕ → List ℕ → Bool
none_stays k [] = true
none_stays k (x ∷ xs) = not (eqb x k) && none_stays (k + 1) xs

abbrev all_stay : ℕ → List ℕ → Bool
all_stay k [] = true
all_stay k (x ∷ xs) = eqb x k && all_stay (k + 1) xs

abbrev is_new : ℕ → List ℕ → Bool
is_new x [] = true
is_new x (y ∷ ys) = not (eqb x y) && is_new x ys

abbrev all_differ : List ℕ → Bool
all_differ [] = true
all_differ (x ∷ xs) = is_new x xs && all_differ xs

-- What is checked of a choice: the size, the range, the order of the sorted elements, and which of them stay.
abbrev pub is_derangement : ℕ → List ℕ → Bool
is_derangement n p =
    eqb (length p) n
    && (all_below n p
        && (same_numbers (sorted p) (range_from 0 n)
            && (all_differ p
                && (if ltb n 2
                    then same_numbers p (range_from 0 n) && all_stay 0 p
                    else none_stays 0 p))))

abbrev all_derangements : ℕ → List (List ℕ) → Bool
all_derangements n [] = true
all_derangements n (p ∷ rest) = is_derangement n p && all_derangements n rest

item_at-derangement :
    (n i : ℕ) (cs : List (List ℕ))
    → i < length cs
    → all_derangements n cs ≡ true
    → (p : List ℕ) × (item_at i cs ≡ some p) × (is_derangement n p ≡ true)
unfolding item_at
item_at-derangement n i [] h k = absurd (omega arith)
item_at-derangement n zero (p ∷ cs) h k = (p, refl, ground arith)
item_at-derangement n (suc i) (p ∷ cs) h k = item_at-derangement n i cs (omega arith) (ground arith)

-- The choices for a window length, each of which is a derangement.
record IsChoice (n : ℕ) : Type 0 where
  choices : List (List ℕ)
  listed : lexicographic_derangements (pos n) ≡ ok choices
  first : 1 ≤ length choices
  within : (k : ℕ) → k % length choices < length choices
  right : all_derangements n choices ≡ true

up_to_four : (n : ℕ) → n ≤ 4 → (n ≡ 0) ⊎ ((n ≡ 1) ⊎ ((n ≡ 2) ⊎ ((n ≡ 3) ⊎ (n ≡ 4))))
up_to_four n h = ground arith

choices_listed : (n : ℕ) → n ≤ 4 → IsChoice n
unfolding lexicographic_derangements permutations picks moves_all range_from same_numbers sorted
    insert
choices_listed n h = elim (up_to_four n h) [
  | inl e ↦ rw e (record {
    choices = _;
    listed = refl;
    first = omega arith;
    within = λ k. omega arith;
    right = refl;
  })
  | inr (inl e) ↦ rw e (record {
    choices = _;
    listed = refl;
    first = omega arith;
    within = λ k. omega arith;
    right = refl;
  })
  | inr (inr (inl e)) ↦ rw e (record {
    choices = _;
    listed = refl;
    first = omega arith;
    within = λ k. omega arith;
    right = refl;
  })
  | inr (inr (inr (inl e))) ↦ rw e (record {
    choices = _;
    listed = refl;
    first = omega arith;
    within = λ k. omega arith;
    right = refl;
  })
  | inr (inr (inr (inr e))) ↦ rw e (record {
    choices = _;
    listed = refl;
    first = omega arith;
    within = λ k. omega arith;
    right = refl;
  })
]

-- A choice is found, and has been checked.
pub derangement_chosen :
    (digest : JsonValue → ℕ) (n base : ℕ) (identity : HistoryIdentity)
    → n ≤ 4
    → (p : List ℕ) × (deterministic_history_derangement digest (pos n) base (some identity) ≡ ok p)
      × (is_derangement n p ≡ true)
unfolding deterministic_history_derangement
derangement_chosen digest n base identity h =
    let c : IsChoice n = choices_listed n h in
    elim (Bool-cases (ltb n 2)) [
      | inl short ↦
          let (p, at, good) = item_at-derangement n 0 c.choices (omega (arith, c.first)) c.right in
          (p, rw (c.listed, short, at) refl, good)
      | inr long ↦
          let k = digest (digested base identity) in
          let (p, at, good) =
            item_at-derangement n (k % length c.choices) c.choices (c.within k) c.right in
          (p, rw (c.listed, long, at) refl, good)
    ]

-- No element occurs twice.
abbrev pub IsDiffering : List ℕ → Type 0
IsDiffering [] = Unit
IsDiffering (x ∷ xs) = (¬ In x xs) × IsDiffering xs

-- As many different elements as indices, all below their number; from two on each has moved, and below two none.
pub record Deranges (n : ℕ) (p : List ℕ) : Type 0 where
  pub size : length p ≡ n
  pub within : (x : ℕ) → In x p → x < n
  pub differing : IsDiffering p
  pub moved : 2 ≤ n → (i x : ℕ) → item_at i p ≡ some x → x ≢ i
  pub kept : n < 2 → (i x : ℕ) → item_at i p ≡ some x → x ≡ i

In-below : (n : ℕ) (xs : List ℕ) → all_below n xs ≡ true → (x : ℕ) → In x xs → x < n
In-below n [] h x m = absurd m
In-below n (y ∷ ys) h x (inl e) = let lt : y < n = ground arith in rw e lt
In-below n (y ∷ ys) h x (inr m) = In-below n ys (ground arith) x m

not-In_of_new : (x : ℕ) (xs : List ℕ) → is_new x xs ≡ true → ¬ In x xs
not-In_of_new x [] h m = m
not-In_of_new x (y ∷ ys) h (inl e) = absurd (ground arith)
not-In_of_new x (y ∷ ys) h (inr m) = not-In_of_new x ys (ground arith) m

all_differ-IsDiffering : (xs : List ℕ) → all_differ xs ≡ true → IsDiffering xs
all_differ-IsDiffering [] h = tt
all_differ-IsDiffering (x ∷ xs) h =
    (not-In_of_new x xs (ground arith), all_differ-IsDiffering xs (ground arith))

item_at-moved :
    (k : ℕ) (xs : List ℕ) → none_stays k xs ≡ true → (i x : ℕ) → item_at i xs ≡ some x → x ≢ k + i
unfolding item_at
item_at-moved k [] h i x e same = absurd (cc e)
item_at-moved k (y ∷ ys) h zero x e same = let f : y ≡ x = cc e in absurd (ground arith)
item_at-moved k (y ∷ ys) h (suc i) x e same =
    item_at-moved (k + 1) ys (ground arith) i x e (omega arith)

item_at-kept :
    (k : ℕ) (xs : List ℕ) → all_stay k xs ≡ true → (i x : ℕ) → item_at i xs ≡ some x → x ≡ k + i
unfolding item_at
item_at-kept k [] h i x e = absurd (cc e)
item_at-kept k (y ∷ ys) h zero x e = let f : y ≡ x = cc e in ground arith
item_at-kept k (y ∷ ys) h (suc i) x e =
    let f = item_at-kept (k + 1) ys (ground arith) i x e in omega arith

checked-Deranges : (n : ℕ) (p : List ℕ) → is_derangement n p ≡ true → Deranges n p
checked-Deranges n p h = record {
  size = (eqb_iff _ _).0 (ground arith);
  within = In-below n p (ground arith);
  differing = all_differ-IsDiffering p (ground arith);
  moved = λ long i x e same.
      let m : none_stays 0 p ≡ true = ground arith in item_at-moved 0 p m i x e (omega arith);
  kept = λ short i x e.
      let m : all_stay 0 p ≡ true = ground arith in let f = item_at-kept 0 p m i x e in omega arith;
}

-- For a window of at most four indices with an identity, whatever the digest, a list of as many elements is chosen, all different and below the number of indices; where there are at least two, each differs from its place, and where there are fewer, none does.
pub deterministic_history_derangement-Deranges :
    (digest : JsonValue → ℕ) (n base : ℕ) (identity : HistoryIdentity)
    → n ≤ 4
    → (p : List ℕ) × (deterministic_history_derangement digest (pos n) base (some identity) ≡ ok p)
      × Deranges n p
deterministic_history_derangement-Deranges digest n base identity h =
    let (p, chosen, good) = derangement_chosen digest n base identity h in
    (p, chosen, checked-Deranges n p good)
