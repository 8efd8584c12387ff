-- ===== src/Phase3/Claims/Gates.antt =====
-- When `evaluate_phase3_claims` advances to the paired objectives.
use levelup_bench.Prelude.{
  ◌≡◌, ◌⊎◌, ◌↔◌, IsUnique, none, some, ◌∙◌, refl, sym, subst, String, Bool, true, false, not, List,
  [], ◌∷◌, Option, map, In, inl, inr, arith, ok, >>=-eq-ok, raise_if-eq-ok, ok-injective,
  Bool-cases, string_eq,
}
use levelup_bench.Prelude.Fractions.{Fraction, sub_fraction}
use levelup_bench.Core.Outcome.{same_set}
use levelup_bench.Phase3.Metrics.{FamilyMetric, SelectedMetric, families}
use levelup_bench.Phase3.Selection.{
  exceeds_tolerance, s_condition, h0_condition, h4_condition, h4_shuffled_condition,
}
use levelup_bench.Phase3.Selection.Best.{map-In}
use levelup_bench.Phase3.Selection.Tolerance.{Leads, exceeds_iff}
use levelup_bench.Phase3.Claims.Lookups.{
  require_metric-families, families-IsUnique, require_all-In, find_choice-In, rate_of-In,
  rate_of-found, is_true_iff, or_else_iff,
}
use levelup_bench.Phase3.Claims.{
  new_conditions, require_metric, Choice, find_choice, require_all, rate_of, FamilyDrop, drops_of,
  all_tolerated, ClaimResult, disagree, claims_from, evaluate_claims,
}

-- No rate that is looked up drops by more than one twentieth.
abbrev IsTolerated : List FamilyMetric → List FamilyMetric → List String → Type 0
IsTolerated b2 h4 names =
    (family : String)
    → In family names
    → (p q : Fraction) → rate_of family b2 ≡ ok p
    → rate_of family h4 ≡ ok q
    → ¬ Leads p q

all_tolerated_iff :
    (b2 h4 : List FamilyMetric) (names : List String) (ds : List FamilyDrop)
    → drops_of b2 h4 names ≡ ok ds
    → (all_tolerated ds ≡ true) ↔ IsTolerated b2 h4 names
unfolding drops_of all_tolerated
all_tolerated_iff b2 h4 [] ds h = rw (← ok-injective h) ((λ _ family m. absurd m), λ _. refl)
all_tolerated_iff b2 h4 (name ∷ rest) ds h =
    let (p, first, h1) = >>=-eq-ok (rate_of name b2) _ h in
    let (q, second, h2) = >>=-eq-ok (rate_of name h4) _ h1 in
    let (others, later, h3) = >>=-eq-ok (drops_of b2 h4 rest) _ h2 in
    let tail = all_tolerated_iff b2 h4 rest others later in
    let head = exceeds_iff p q in
    subst (λ l. (all_tolerated l ≡ true) ↔ IsTolerated b2 h4 (name ∷ rest)) (ok-injective h3)
      (
        (λ w family m p' q' e f lead. elim m [
          | inl same ↦
              let pp : p ≡ p' =
                ok-injective (sym first ∙ subst (λ n. rate_of n b2 ≡ ok p') same e) in
              let qq : q ≡ q' =
                ok-injective (sym second ∙ subst (λ n. rate_of n h4 ≡ ok q') same f) in
              let over : exceeds_tolerance (sub_fraction p q) ≡ true =
                head.1 (subst (λ a. Leads a q) (sym pp) (subst (λ b. Leads p' b) (sym qq) lead)) in
              absurd (ground arith)
          | inr n ↦ tail.0 (ground arith) family n p' q' e f lead
        ]),
        λ keeps.
            let kept : all_tolerated others ≡ true = tail.1 (λ family m. keeps family (inr m)) in
            let near : exceeds_tolerance (sub_fraction p q) ≡ false =
              elim (Bool-cases (exceeds_tolerance (sub_fraction p q))) [
                | inl over ↦ absurd (keeps name (inl refl) p q first second (head.0 over))
                | inr under ↦ under
              ] in
            rw (near, kept) refl,
      )

-- No family's rate drops by more than one twentieth.
abbrev pub IsKept : List FamilyMetric → List FamilyMetric → Type 0
IsKept b2 h4 =
    (b h : FamilyMetric)
    → In b b2
    → In h h4
    → b.family_id ≡ h.family_id
    → ¬ Leads b.success_rate h.success_rate

-- With six families on both sides, each once, all are looked up.
IsTolerated-IsKept :
    (b2 h4 : List FamilyMetric)
    → map (λ (m : FamilyMetric). m.family_id) b2 ≡ families
    → map (λ (m : FamilyMetric). m.family_id) h4 ≡ families
    → IsTolerated b2 h4 families ↔ IsKept b2 h4
IsTolerated-IsKept b2 h4 all_b2 all_h4 =
    let unique_b2 = subst IsUnique (sym all_b2) families-IsUnique in
    let unique_h4 = subst IsUnique (sym all_h4) families-IsUnique in
    (
      (λ w b h i j same.
          w b.family_id
            (subst (In b.family_id) all_b2 (map-In (λ (m : FamilyMetric). m.family_id) b2 b i))
            b.success_rate h.success_rate (rate_of-found b2 unique_b2 b i)
            (rw same (rate_of-found h4 unique_h4 h j))),
      λ w family m p q e f.
          let (b, i, named_b, rate_b) = rate_of-In family b2 p e in
          let (h, j, named_h, rate_h) = rate_of-In family h4 q f in
          rw (← rate_b, ← rate_h) (w b h i j (named_b ∙ sym named_h)),
    )

-- What advancing takes: H4's minimum rate is above those of T, H0 and H4-shuffled by more than one twentieth, both shuffles are eligible, and no family's rate, nor the minimum rate, is below that of B2 by more than one twentieth.
pub record Advances (b2 t h0 h4 shuffled : SelectedMetric) (training : Option Bool) : Type 0 where
  pub over_t : Leads h4.minimum_rate t.minimum_rate
  pub over_h0 : Leads h4.minimum_rate h0.minimum_rate
  pub over_shuffled : Leads h4.minimum_rate shuffled.minimum_rate
  pub trained :
      (training ≡ some true)
      ⊎ ((training ≡ none) × (shuffled.training_shuffle_eligible ≡ some true))
  pub held_out : shuffled.heldout_shuffle_eligible ≡ some true
  pub families_kept : IsKept b2.family_metrics h4.family_metrics
  pub minimum_kept : ¬ Leads b2.minimum_rate h4.minimum_rate

claims_from-Advances :
    (b2 t s h0 h4 shuffled : SelectedMetric) (training : Option Bool) (ds : List FamilyDrop)
    → (all_tolerated ds ≡ true) ↔ IsKept b2.family_metrics h4.family_metrics
    → ((claims_from b2 t s h0 h4 shuffled training ds).advancement ≡ true)
      ↔ Advances b2 t h0 h4 shuffled training
claims_from-Advances b2 t s h0 h4 shuffled training ds kept =
    let one = exceeds_iff h4.minimum_rate t.minimum_rate in
    let two = exceeds_iff h4.minimum_rate h0.minimum_rate in
    let three = exceeds_iff h4.minimum_rate shuffled.minimum_rate in
    let four = exceeds_iff b2.minimum_rate h4.minimum_rate in
    let five = or_else_iff training shuffled.training_shuffle_eligible in
    let six = is_true_iff shuffled.heldout_shuffle_eligible in
    (
      (λ h. record {
        over_t = one.0 (ground arith);
        over_h0 = two.0 (ground arith);
        over_shuffled = three.0 (ground arith);
        trained = five.0 (ground arith);
        held_out = six.0 (ground arith);
        families_kept = kept.0 (ground arith);
        minimum_kept = λ lead. let w = four.1 lead in absurd (ground arith);
      }),
      λ a.
          let p = one.1 a.over_t in
          let q = two.1 a.over_h0 in
          let r = three.1 a.over_shuffled in
          let u = kept.1 a.families_kept in
          let v : exceeds_tolerance (sub_fraction b2.minimum_rate h4.minimum_rate) ≡ false =
            elim (Bool-cases (exceeds_tolerance (sub_fraction b2.minimum_rate h4.minimum_rate))) [
              | inl over ↦ absurd (a.minimum_kept (four.0 over))
              | inr under ↦ under
            ] in
          rw (p, q, r, five.1 a.trained, six.1 a.held_out, u, v) refl,
    )

-- A claim evaluation that returns advances exactly if H4's minimum rate is above those of T, H0 and H4-shuffled by more than one twentieth, the training shuffle is eligible by the flag that is given, or by H4-shuffled's own where none is, the held-out shuffle is eligible, and neither a family's rate nor the minimum rate is below that of B2 by more than one twentieth.
pub evaluate_claims-Advances :
    (choices : List Choice) (b2 t : SelectedMetric) (training : Option Bool) (r : ClaimResult)
    → evaluate_claims choices b2 t training ≡ ok r
    → (h0 h4 shuffled : SelectedMetric) × In
        (record { condition = h0_condition; metric = h0 })
        choices
      × In (record { condition = h4_condition; metric = h4 }) choices
      × In (record { condition = h4_shuffled_condition; metric = shuffled }) choices
      × ((r.advancement ≡ true) ↔ Advances b2 t h0 h4 shuffled training)
unfolding evaluate_claims
evaluate_claims-Advances choices b2 t training r h =
    let (_, whole_b2, a) = >>=-eq-ok (require_metric b2 "B2-global-listwise-optimum") _ h in
    let (_, _, b) = >>=-eq-ok (require_metric t "T-markov-state-transition-listwise-optimum") _ a in
    let (_, c) =
      raise_if-eq-ok (not (same_set (map (λ c. c.condition) choices) new_conditions)) _ _ b in
    let (_, whole, d) = >>=-eq-ok (require_all choices) _ c in
    let (s, _, e) = >>=-eq-ok (find_choice s_condition choices) _ d in
    let (h0, at_h0, f) = >>=-eq-ok (find_choice h0_condition choices) _ e in
    let (h4, at_h4, g) = >>=-eq-ok (find_choice h4_condition choices) _ f in
    let (shuffled, at_shuffled, i) = >>=-eq-ok (find_choice h4_shuffled_condition choices) _ g in
    let (_, j) = raise_if-eq-ok (disagree training shuffled.training_shuffle_eligible) _ _ i in
    let (ds, drops, k) = >>=-eq-ok (drops_of b2.family_metrics h4.family_metrics families) _ j in
    let in_h4 = find_choice-In h4_condition choices h4 at_h4 in
    let all_b2 = require_metric-families b2 "B2-global-listwise-optimum" whole_b2 in
    let all_h4 = require_metric-families h4 h4_condition (require_all-In choices whole _ in_h4) in
    let looked = all_tolerated_iff b2.family_metrics h4.family_metrics families ds drops in
    let kept = IsTolerated-IsKept b2.family_metrics h4.family_metrics all_b2 all_h4 in
    (
      h0,
      h4,
      shuffled,
      find_choice-In h0_condition choices h0 at_h0,
      in_h4,
      find_choice-In h4_shuffled_condition choices shuffled at_shuffled,
      subst (λ (x : ClaimResult). (x.advancement ≡ true) ↔ Advances b2 t h0 h4 shuffled training)
          (ok-injective k)
          (claims_from-Advances b2 t s h0 h4 shuffled training ds
            ((λ w. kept.0 (looked.0 w)), λ w. looked.1 (kept.1 w))),
    )
