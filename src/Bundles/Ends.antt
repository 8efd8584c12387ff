-- ===== src/Bundles/Ends.antt =====
-- That the loop of the held-out tasks ends.
use levelup_bench.Prelude.{
  ℕ, zero, suc, ◌+◌, ◌≤◌, ◌<◌, ◌≡◌, ◌∙◌, refl, Bool, true, false, List, [], ◌∷◌, ◌++◌, Option, some,
  length, length-append, arith, ltb, Bool-cases, Result, ok, if◌then◌else◌, inl, inr,
}
use levelup_bench.Core.Faults.{Fault}
use levelup_bench.Core.Numbers.{Float, float}
use levelup_bench.Course.{Course}
use levelup_bench.Bundles.{Costs, both_costs, has_gap, Paired, held_out}

-- How many of so many indices, from one on, have a gap.
abbrev pub gaps : (ℕ → Bool) → ℕ → ℕ → ℕ
gaps g i zero = 0
gaps g i (suc n) = (if g i then 1 else 0) + gaps g (suc i) n

module _ {T : Type 0} (make : ℕ → Option (Result Fault T)) (course_of : T → Course) (fuel : ℕ) where
  -- The track of an index, with what the oracles return for it.
  pub record IsMeasured (g : ℕ → Bool) (i : ℕ) : Type 0 where
    pub track : T
    pub costs : Costs
    pub made : make i ≡ some (ok track)
    pub found : both_costs fuel (course_of track) ≡ some (ok costs)
    pub gap : has_gap costs ≡ g i

  kept_with : List (Paired T Float) → T → Costs → List (Paired T Float)
  kept_with tasks t o =
      if has_gap o then tasks ++ record { track = t; value = float o.optimum_cost } ∷ [] else tasks

  held_out-round :
      (rounds count index : ℕ) (tasks : List (Paired T Float)) (t : T) (o : Costs)
      → ltb (length tasks) count ≡ true
      → make index ≡ some (ok t)
      → both_costs fuel (course_of t) ≡ some (ok o)
      → held_out make course_of fuel (suc rounds) count index tasks
        ≡ held_out make course_of fuel rounds count (suc index) (kept_with tasks t o)
  unfolding held_out kept_with
  held_out-round rounds count index tasks t o short made found =
      rw (held_out, short, made, found) refl

  kept-enough :
      (g : ℕ → Bool) (rounds count index : ℕ) (tasks : List (Paired T Float))
      (m : IsMeasured g index)
      → count ≤ length tasks + gaps g index (suc rounds)
      → count ≤ length (kept_with tasks m.track m.costs) + gaps g (suc index) rounds
  unfolding kept_with
  kept-enough g rounds count index tasks m enough = elim (Bool-cases (has_gap m.costs)) [
    | inl with_gap ↦
        let k : count ≤ length tasks + (1 + gaps g (suc index) rounds) =
          rw (← m.gap, with_gap) at enough in
        rw
          (
            with_gap,
            length-append tasks
                (record { track = m.track; value = float m.costs.optimum_cost } ∷ []),
          )
          (omega arith)
    | inr without ↦
        let k : count ≤ length tasks + (0 + gaps g (suc index) rounds) =
          rw (← m.gap, without) at enough in
        rw without (omega arith)
  ]

  -- Where making the track of each of the first indices and both oracles return, and at least as many of these tracks as asked for have a gap, the held-out tasks are returned within one more round than there are such indices.
  pub held_out-Ends :
      (g : ℕ → Bool) (limit : ℕ)
      → ((i : ℕ) → i < limit → IsMeasured g i)
      → (rounds count index : ℕ) (tasks : List (Paired T Float)) → index + rounds ≤ limit
      → count ≤ length tasks + gaps g index rounds
      → (result : List (Paired T Float)) × (held_out make course_of fuel
            (suc rounds)
            count
            index
            tasks
          ≡ some (ok result))
  unfolding held_out
  held_out-Ends g limit measured zero count index tasks within enough =
      let full : ltb (length tasks) count ≡ false = ground arith in
      (tasks, rw (held_out, full) refl)
  held_out-Ends g limit measured (suc rounds) count index tasks within enough =
      elim (Bool-cases (ltb (length tasks) count)) [
        | inr full ↦ (tasks, rw (held_out, full) refl)
        | inl short ↦
            let m = measured index (omega arith) in
            let (result, e) =
              held_out-Ends g limit measured rounds count (suc index)
                (kept_with tasks m.track m.costs) (omega arith)
                (kept-enough g rounds count index tasks m enough) in
            (
              result,
              held_out-round (suc rounds) count index tasks m.track m.costs short m.made m.found
                  ∙ e,
            )
      ]
