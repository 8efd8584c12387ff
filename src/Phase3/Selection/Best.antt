-- ===== src/Phase3/Selection/Best.antt =====
-- What `_select` chooses.
use levelup_bench.Prelude.{
  ℕ, suc, ◌≡◌, ◌∙◌, refl, sym, ap, subst, Bool, true, false, not, List, [], ◌∷◌, Option, length,
  map, select, In, In-select, In-select_of, inl, inr, arith, ltb, eqb, ok, raise, ◌>>=◌, >>=-eq-ok,
  raise_if-eq-ok, ok-injective, Option-cases, String, to_set, string_eq,
}
use levelup_bench.Prelude.Fractions.{Fraction, less_fraction, less_fraction-IsOrder, sub_fraction}
use levelup_bench.Prelude.Orders.{IsOrder, lex-IsOrder, least-In, least-le}
use levelup_bench.Phase3.Metrics.{
  CandidateTuple, expected_tuples, ModelOwner, OwnerCost, SelectedMetric, families, family_metrics,
  find_owner, trained_for, total_cost, min_of, max_of,
}
use levelup_bench.Phase3.Selection.Tolerance.{
  Leads, Below, Below-less_fraction, Precedes, Precedes-better, within_iff,
}
use levelup_bench.Phase3.Selection.{
  Variant, find_variant, ConditionSelection, unknown_family, wrong_coverage, better,
  exceeds_tolerance, within_tolerance, candidate, candidates_of, choose, select_condition,
}

number-IsOrder : (f : SelectedMetric → ℕ) → IsOrder (λ x y. ltb (f x) (f y))
number-IsOrder f = record { asym = λ x y h. ground arith; cotrans = λ x y z h. ground arith }

fraction-IsOrder : (f : SelectedMetric → Fraction) → IsOrder (λ x y. less_fraction (f x) (f y))
fraction-IsOrder f = record {
  asym = λ x y h. less_fraction-IsOrder.asym (f x) (f y) h;
  cotrans = λ x y z h. less_fraction-IsOrder.cotrans (f x) (f y) (f z) h;
}

better-IsOrder : IsOrder better
unfolding better
better-IsOrder = lex-IsOrder _ _ (fraction-IsOrder (λ m. m.worst_median)) (
    lex-IsOrder _ _ (fraction-IsOrder (λ m. m.macro_average)) (
      lex-IsOrder _ _ (number-IsOrder (λ m. m.optimizer_steps)) (
        lex-IsOrder _ _ (number-IsOrder (λ m. m.forward_passes)) (
          lex-IsOrder _ _ (number-IsOrder (λ m. m.recurrent_steps)) (
            lex-IsOrder _ _ (fraction-IsOrder (λ m. m.candidate_tuple.learning_rate)) (
              lex-IsOrder _ _ (number-IsOrder (λ m. m.candidate_tuple.epochs))
                (fraction-IsOrder (λ m. m.candidate_tuple.temperature))))))))

reverse-IsOrder : IsOrder (λ (x y : Fraction). less_fraction y x)
reverse-IsOrder = record {
  asym = λ x y h. less_fraction-IsOrder.asym y x h;
  cotrans =
      λ x y z h. elim (less_fraction-IsOrder.cotrans y x z h) [ inl a ↦ inr a | inr b ↦ inl b ];
}

-- What `min` returns.
min_of-Least :
    {A : Type 0} (lt : A → A → Bool)
    → IsOrder lt
    → (xs : List A) (m : A) → min_of lt xs ≡ ok m
    → In m xs × ((x : A) → In x xs → lt x m ≡ false)
unfolding min_of
min_of-Least lt o [] m h = cc
min_of-Least lt o (x ∷ xs) m h =
    subst (λ z. In z (x ∷ xs) × ((y : _) → In y (x ∷ xs) → lt y z ≡ false)) (ok-injective h)
      (least-In lt x xs, least-le lt o x xs)

min_of_some :
    {A : Type 0} (lt : A → A → Bool) (xs : List A) (x : A)
    → In x xs
    → (m : A) × (min_of lt xs ≡ ok m)
unfolding min_of
min_of_some lt [] x m = absurd m
min_of_some lt (y ∷ ys) x m = (_, refl)

In-map :
    {A B : Type 0} (f : A → B) (xs : List A) (b : B)
    → In b (map f xs)
    → (a : A) × In a xs × (f a ≡ b)
In-map f [] b m = absurd m
In-map f (x ∷ xs) b (inl e) = (x, inl refl, sym e)
In-map f (x ∷ xs) b (inr m) = let (a, n, p) = In-map f xs b m in (a, inr n, p)

length-map : {A B : Type 0} (f : A → B) (xs : List A) → length (map f xs) ≡ length xs
length-map f [] = refl
length-map f (x ∷ xs) = ap suc (length-map f xs)

pub map-In : {A B : Type 0} (f : A → B) (xs : List A) (a : A) → In a xs → In (f a) (map f xs)
map-In f [] a m = absurd m
map-In f (x ∷ xs) a (inl e) = inl (ap f e)
map-In f (x ∷ xs) a (inr m) = inr (map-In f xs a m)

-- The choice is a candidate whose minimum rate is not below the best one by more than one twentieth, and no other such candidate comes before it.
pub record IsBest (s : ConditionSelection) : Type 0 where
  pub among : In s.selected s.candidates
  pub within : ¬ Leads s.best_minimum_rate s.selected.minimum_rate
  pub top : (m : SelectedMetric) → In m s.candidates → ¬ Below s.best_minimum_rate m.minimum_rate
  pub attained : (m : SelectedMetric) × In m s.candidates × (m.minimum_rate ≡ s.best_minimum_rate)
  pub unbeaten :
      (m : SelectedMetric)
      → In m s.candidates
      → ¬ Leads s.best_minimum_rate m.minimum_rate
      → ¬ Precedes m s.selected

-- The best candidate is within the tolerance.
within_tolerance_self :
    (best : Fraction) (m : SelectedMetric) → m.minimum_rate ≡ best → within_tolerance best m ≡ true
unfolding sub_fraction
within_tolerance_self best m e =
    subst (λ r. not (exceeds_tolerance (sub_fraction best r)) ≡ true) (sym e) (ground arith)

module _ (condition : String) (variants : List Variant) (owners : List ModelOwner)
    (diagnostics : List OwnerCost) (heldout training : Option Bool) where
  candidate-tuple :
      (t : CandidateTuple) (v : Variant) (m : SelectedMetric)
      → candidate condition variants owners diagnostics heldout training t v ≡ ok m
      → m.candidate_tuple ≡ t
  unfolding candidate
  candidate-tuple t v m h =
      let (_, h1) = raise_if-eq-ok (unknown_family v.records) _ _ h in
      let (metrics, _, h2) = >>=-eq-ok (family_metrics v.records families) _ h1 in
      let (_, h3) = raise_if-eq-ok (wrong_coverage metrics) _ _ h2 in
      let ids =
        select (λ id. trained_for condition t (find_owner id owners)) (to_set v.owner_ids) in
      let (_, h4) = raise_if-eq-ok (not (eqb (length ids) 30)) _ _ h3 in
      let (_, _, h5) = >>=-eq-ok (min_of less_fraction (map (λ m. m.success_rate) metrics)) _ h4 in
      let (_, _, h6) =
        >>=-eq-ok (max_of less_fraction (map (λ m. m.median_interactions) metrics)) _ h5 in
      let (_, _, h7) = >>=-eq-ok (total_cost (λ c. c.optimizer_steps) diagnostics ids) _ h6 in
      let (_, _, h8) = >>=-eq-ok (total_cost (λ c. c.forward_passes) diagnostics ids) _ h7 in
      let (_, _, h9) = >>=-eq-ok (total_cost (λ c. c.recurrent_steps) diagnostics ids) _ h8 in
      ap (λ (x : SelectedMetric). x.candidate_tuple) (sym (ok-injective h9))

  candidates_of-tuples :
      (ts : List CandidateTuple) (cs : List SelectedMetric)
      → candidates_of condition variants owners diagnostics heldout training ts ≡ ok cs
      → map (λ (m : SelectedMetric). m.candidate_tuple) cs ≡ ts
  unfolding candidates_of
  candidates_of-tuples [] cs h =
      ap (map (λ (m : SelectedMetric). m.candidate_tuple)) (sym (ok-injective h))
  candidates_of-tuples (t ∷ ts) cs h = elim (Option-cases (find_variant t.tuple_id variants)) [
    | inl missing ↦ absurd (cc (let k : raise _ ≡ ok cs = rw (missing, candidates_of) at h in k))
    | inr (v, found) ↦
        let k : (candidate condition variants owners diagnostics heldout training t v >>= λ m.
        candidates_of condition variants owners diagnostics heldout training ts >>= λ ms.
        ok (m ∷ ms))
            ≡ ok cs =
          rw (found, candidates_of) at h in
        let (m, made, k1) =
          >>=-eq-ok (candidate condition variants owners diagnostics heldout training t v) _ k in
        let (ms, rest, k2) =
          >>=-eq-ok (candidates_of condition variants owners diagnostics heldout training ts) _
            k1 in
        subst (λ l. map (λ (x : SelectedMetric). x.candidate_tuple) l ≡ t ∷ ts) (ok-injective k2)
          (rw (candidate-tuple t v m made, candidates_of-tuples ts ms rest) refl)
  ]

  -- The part after the loop returns, for twelve candidates.
  choose-IsBest :
      (cs : List SelectedMetric)
      → length cs ≡ 12
      → (s : ConditionSelection) × (choose condition variants owners diagnostics heldout training cs
          ≡ ok s)
        × (s.candidates ≡ cs)
        × IsBest s
  unfolding choose max_of
  choose-IsBest [] e = absurd (omega (arith, e))
  choose-IsBest (c ∷ cs) e =
      let rates = map (λ (m : SelectedMetric). m.minimum_rate) (c ∷ cs) in
      let (best, found) = min_of_some (λ x y. less_fraction y x) rates c.minimum_rate (inl refl) in
      let (m, top) = min_of-Least (λ x y. less_fraction y x) reverse-IsOrder rates best found in
      let (one, n, same) = In-map (λ (x : SelectedMetric). x.minimum_rate) (c ∷ cs) best m in
      let eligible = select (within_tolerance best) (c ∷ cs) in
      let kept : In one eligible =
        In-select_of (within_tolerance best) (c ∷ cs) one n (within_tolerance_self best one same) in
      let (selected, picked) = min_of_some better eligible one kept in
      let (here, least_key) = min_of-Least better better-IsOrder eligible selected picked in
      let (among, within) = In-select (within_tolerance best) (c ∷ cs) selected here in
      let twelve : eqb (length (c ∷ cs)) 12 ≡ true = ground arith in
      let s : ConditionSelection = record {
        condition_id = condition;
        candidates = c ∷ cs;
        best_minimum_rate = best;
        retained_tuple_ids = map (λ m. m.candidate_tuple.tuple_id) eligible;
        selected = selected;
      } in
      (
        s,
        rw (twelve, found, picked) refl,
        refl,
        record {
          among = among;
          within = (within_iff best selected).0 within;
          top = λ x i less.
              let a =
                top x.minimum_rate (map-In (λ (y : SelectedMetric). y.minimum_rate) (c ∷ cs) x i) in
              let b : true ≡ false = sym (Below-less_fraction best x.minimum_rate less) ∙ a in cc b;
          attained = (one, n, same);
          unbeaten = λ x i w before.
              let a =
                least_key x
                  (In-select_of (within_tolerance best) (c ∷ cs) x i ((within_iff best x).1 w)) in
              let b : true ≡ false = sym (Precedes-better x selected before) ∙ a in cc b;
        },
      )

  -- Where the loop returns candidates, `_select` returns. The candidates are those of the twelve expected tuples, in this order, and the choice is a candidate within one twentieth of the best minimum rate, such that no other such candidate has a smaller key of worst median, macro average, optimizer steps, forward passes, recurrent steps, learning rate, epochs and temperature.
  pub select_condition-IsBest :
      (cs : List SelectedMetric)
      → candidates_of condition variants owners diagnostics heldout training expected_tuples ≡ ok cs
      → (s : ConditionSelection) × (select_condition condition variants owners diagnostics heldout
            training
          ≡ ok s)
        × (map (λ (m : SelectedMetric). m.candidate_tuple) s.candidates ≡ expected_tuples)
        × IsBest s
  unfolding select_condition
  select_condition-IsBest cs h =
      let covers = candidates_of-tuples expected_tuples cs h in
      let twelve : length cs ≡ 12 =
        sym (length-map (λ (m : SelectedMetric). m.candidate_tuple) cs) ∙ ap length covers in
      let (s, chosen, same, best) = choose-IsBest cs twelve in
      (s, rw h chosen, rw same covers, best)
