-- ===== src/Phase3/Selection/Tolerance.antt =====
-- What the tolerance and the key of `_select` compare.
use levelup_bench.Prelude.{
  ℕ, ◌+◌, ◌*◌, ◌<◌, ◌≡◌, ◌⊎◌, ◌↔◌, refl, Bool, true, false, inl, inr, arith, ltb, leb, Bool-cases,
  if◌then◌else◌,
}
use levelup_bench.Prelude.Fractions.{Fraction, denominator, less_fraction, sub_fraction}
use levelup_bench.Phase3.Metrics.{SelectedMetric}
use levelup_bench.Phase3.Selection.{exceeds_tolerance, within_tolerance, better}

-- The first fraction is above the second by more than one twentieth.
abbrev pub Leads : Fraction → Fraction → Type 0
Leads p q =
    q.numerator * denominator p * 20 + denominator p * denominator q
    < p.numerator * denominator q * 20

pub exceeds_iff : (p q : Fraction) → (exceeds_tolerance (sub_fraction p q) ≡ true) ↔ Leads p q
unfolding sub_fraction
exceeds_iff p q =
    elim (Bool-cases (leb (q.numerator * denominator p) (p.numerator * denominator q))) [
      | inl above ↦ rw above (ground arith)
      | inr below ↦ rw below ((λ h. absurd (cc h)), λ lead. absurd (ground arith))
    ]

pub within_iff :
    (best : Fraction) (m : SelectedMetric)
    → (within_tolerance best m ≡ true) ↔ (¬ Leads best m.minimum_rate)
within_iff best m =
    let e = exceeds_iff best m.minimum_rate in
    (
      (λ h lead. let k = e.1 lead in absurd (ground arith)),
      λ h. elim (Bool-cases (exceeds_tolerance (sub_fraction best m.minimum_rate))) [
        | inl over ↦ absurd (h (e.0 over))
        | inr under ↦ rw under refl
      ],
    )

-- A fraction is less than another one, or the same.
abbrev pub Below : Fraction → Fraction → Type 0
Below p q = p.numerator * denominator q < q.numerator * denominator p

abbrev pub Same : Fraction → Fraction → Type 0
Same p q = p.numerator * denominator q ≡ q.numerator * denominator p

-- The first metric comes before the second: by the worst median, then the macro average, the optimizer steps, the forward passes, the recurrent steps, the learning rate, the epochs and the temperature, the less first.
abbrev pub Precedes : SelectedMetric → SelectedMetric → Type 0
Precedes x y =
    Below x.worst_median y.worst_median
    ⊎ (Same x.worst_median y.worst_median
        × (Below x.macro_average y.macro_average
            ⊎ (Same x.macro_average y.macro_average
                × ((x.optimizer_steps < y.optimizer_steps)
                    ⊎ ((x.optimizer_steps ≡ y.optimizer_steps)
                        × ((x.forward_passes < y.forward_passes)
                            ⊎ ((x.forward_passes ≡ y.forward_passes)
                                × ((x.recurrent_steps < y.recurrent_steps)
                                    ⊎ ((x.recurrent_steps ≡ y.recurrent_steps)
                                        × (Below x.candidate_tuple.learning_rate
                                              y.candidate_tuple.learning_rate
                                            ⊎ (Same x.candidate_tuple.learning_rate
                                                  y.candidate_tuple.learning_rate
                                                × ((x.candidate_tuple.epochs
                                                      < y.candidate_tuple.epochs)
                                                    ⊎ ((x.candidate_tuple.epochs
                                                          ≡ y.candidate_tuple.epochs)
                                                        × Below x.candidate_tuple.temperature
                                                            y.candidate_tuple.temperature)))))))))))))

-- A comparison by two keys holds where the first is less, or the same and the rest holds.
lex-Below :
    (p q : Fraction) (b : Bool) (Rest : Type 0)
    → (Rest → b ≡ true)
    → Below p q ⊎ (Same p q × Rest)
    → (if less_fraction p q then true else if less_fraction q p then false else b) ≡ true
unfolding less_fraction
lex-Below p q b Rest rest (inl less) = ground arith
lex-Below p q b Rest rest (inr (same, more)) = let h = rest more in ground arith

lex_less :
    (m n : ℕ) (b : Bool) (Rest : Type 0)
    → (Rest → b ≡ true)
    → (m < n) ⊎ ((m ≡ n) × Rest)
    → (if ltb m n then true else if ltb n m then false else b) ≡ true
lex_less m n b Rest rest (inl less) = ground arith
lex_less m n b Rest rest (inr (same, more)) = let h = rest more in ground arith

pub Below-less_fraction : (p q : Fraction) → Below p q → less_fraction p q ≡ true
unfolding less_fraction
Below-less_fraction p q h = ground arith

pub Precedes-better : (x y : SelectedMetric) → Precedes x y → better x y ≡ true
unfolding better
Precedes-better x y = lex-Below x.worst_median y.worst_median _ _ (
    lex-Below x.macro_average y.macro_average _ _ (
      lex_less x.optimizer_steps y.optimizer_steps _ _ (
        lex_less x.forward_passes y.forward_passes _ _ (
          lex_less x.recurrent_steps y.recurrent_steps _ _ (
            lex-Below x.candidate_tuple.learning_rate y.candidate_tuple.learning_rate _ _ (
              lex_less x.candidate_tuple.epochs y.candidate_tuple.epochs _ _ (
                Below-less_fraction x.candidate_tuple.temperature
                  y.candidate_tuple.temperature)))))))
