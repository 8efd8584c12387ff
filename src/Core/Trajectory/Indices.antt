-- ===== src/Core/Trajectory/Indices.antt =====
-- The lists of whole numbers that the validators compare.
use levelup_bench.Prelude.{
  ℕ, suc, ◌+◌, ◌≡◌, ◌↔◌, refl, sym, ap, ◌∙◌, true, not, List, [], ◌∷◌, map, length, arith, ok,
  raise_if-eq-ok, ok-injective, String,
}
use levelup_bench.Core.Faults.{value_error, steps_not_contiguous}
use levelup_bench.Core.Trajectory.{
  Trajectory, TrajectoryStep, same_numbers, range_from, check_trajectory, steps_from,
}

pub same_numbers_iff : (xs ys : List ℕ) → (same_numbers xs ys ≡ true) ↔ (xs ≡ ys)
unfolding same_numbers
same_numbers_iff [] [] = (λ h. refl, λ h. refl)
same_numbers_iff [] (y ∷ ys) = (λ h. cc h, λ h. cc h)
same_numbers_iff (x ∷ xs) [] = (λ h. cc h, λ h. cc h)
same_numbers_iff (x ∷ xs) (y ∷ ys) = ground (arith, same_numbers_iff xs ys)

indices_of : List TrajectoryStep → List ℕ
indices_of = map (λ s. s.index)

length-indices : (xs : List TrajectoryStep) → length (indices_of xs) ≡ length xs
unfolding indices_of
length-indices [] = refl
length-indices (x ∷ xs) = ap suc (length-indices xs)

-- The validator of `Trajectory` accepts exactly the trajectories whose step indices are 0, 1, and so
-- on up to their number, and changes nothing.
pub check_trajectory_iff :
    (t t' : Trajectory)
    → (check_trajectory t ≡ ok t')
      ↔ ((t ≡ t') × (map (λ (s : TrajectoryStep). s.index) t.steps ≡ range_from 0 (length t.steps)))
unfolding check_trajectory indices_of
check_trajectory_iff t t' = (forward, backward)
  where
    forward :
        check_trajectory t ≡ ok t' → (t ≡ t') × (indices_of t.steps ≡ range_from 0 (length t.steps))
    forward h =
        let (fine, made) =
          raise_if-eq-ok
            (not (same_numbers (indices_of t.steps) (range_from 0 (length (indices_of t.steps)))))
            (value_error steps_not_contiguous) (ok t) h in
        (
          ok-injective made,
          (same_numbers_iff (indices_of t.steps) (range_from 0 (length (indices_of t.steps)))).0
                (ground arith)
              ∙ ap (range_from 0) (length-indices t.steps),
        )

    backward :
        (t ≡ t') × (indices_of t.steps ≡ range_from 0 (length t.steps)) → check_trajectory t ≡ ok t'
    backward (same, h) =
        let fine : same_numbers (indices_of t.steps) (range_from 0 (length (indices_of t.steps)))
            ≡ true =
          (same_numbers_iff (indices_of t.steps) (range_from 0 (length (indices_of t.steps)))).1
            (h ∙ ap (range_from 0) (sym (length-indices t.steps))) in
        rw fine (ap ok same)

-- The steps that are made of a list of names are numbered from where they start.
pub steps_from-indices :
    (start : ℕ) (names : List String)
    → map (λ (s : TrajectoryStep). s.index) (steps_from start names)
      ≡ range_from start (length names)
unfolding steps_from range_from
steps_from-indices start [] = refl
steps_from-indices start (name ∷ rest) = ap (◌∷◌ start) (steps_from-indices (start + 1) rest)
