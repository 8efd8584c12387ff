-- ===== src/Phase3/Claims/Lookups.antt =====
-- What the lookups of `evaluate_phase3_claims` find.
use levelup_bench.Prelude.{
  ◌≡◌, ◌⊎◌, ◌↔◌, refl, sym, ap, subst, String, Bool, true, not, List, [], ◌∷◌, Option, none, some,
  map, In, IsUnique, inl, inr, arith, string_eq, ◌==◌, ==→≡, ==_refl, ok, >>=-eq-ok, raise_if-eq-ok,
  ok-injective, Bool-cases,
}
use levelup_bench.Prelude.Lists.{contains, to_set}
use levelup_bench.Prelude.Fractions.{Fraction}
use levelup_bench.Core.Ladder.Order.{all_unique_iff, not-false}
use levelup_bench.Core.Task.{all_unique}
use levelup_bench.Phase3.Metrics.{FamilyMetric, SelectedMetric, families}
use levelup_bench.Phase3.Selection.Best.{map-In}
use levelup_bench.Phase3.Claims.{
  same_texts, require_metric, Choice, find_choice, require_all, rate_of, is_true, or_else,
}

same_texts→≡ : (xs ys : List String) → same_texts xs ys ≡ true → xs ≡ ys
unfolding same_texts
same_texts→≡ [] [] h = refl
same_texts→≡ [] (y ∷ ys) h = cc h
same_texts→≡ (x ∷ xs) [] h = cc h
same_texts→≡ (x ∷ xs) (y ∷ ys) h =
    let first : x ≡ y = ==→≡ (ground arith) in
    let rest : xs ≡ ys = same_texts→≡ xs ys (ground arith) in cc

-- A metric that is accepted has the six families, each once.
pub require_metric-families :
    (m : SelectedMetric) (condition : String)
    → require_metric m condition ≡ ok tt
    → map (λ (f : FamilyMetric). f.family_id) m.family_metrics ≡ families
unfolding require_metric
require_metric-families m condition h =
    let (_, h1) = raise_if-eq-ok (not (m.condition_id == condition)) _ _ h in
    let (same, _) =
      raise_if-eq-ok
        (not (same_texts (map (λ (f : FamilyMetric). f.family_id) m.family_metrics) families)) _ _
        h1 in
    same_texts→≡ _ _ (not-false _ same)

pub families-IsUnique : IsUnique families
unfolding all_unique contains to_set
families-IsUnique = (all_unique_iff families).0 refl

pub require_all-In :
    (cs : List Choice)
    → require_all cs ≡ ok tt
    → (c : Choice) → In c cs
    → require_metric c.metric c.condition ≡ ok tt
unfolding require_all
require_all-In [] h c m = absurd m
require_all-In (x ∷ xs) h c m =
    let (u, first, rest) = >>=-eq-ok (require_metric x.metric x.condition) _ h in
    elim m [
      | inl same ↦
          subst (λ (d : Choice). require_metric d.metric d.condition ≡ ok tt) (sym same) first
      | inr n ↦ require_all-In xs rest c n
    ]

pub find_choice-In :
    (name : String) (cs : List Choice) (m : SelectedMetric)
    → find_choice name cs ≡ ok m
    → In (record { condition = name; metric = m }) cs
unfolding find_choice
find_choice-In name [] m h = cc h
find_choice-In name (c ∷ cs) m h = elim (Bool-cases (c.condition == name)) [
  | inl here ↦
      let found : c.metric ≡ m = ok-injective (rw here at h) in
      let named : c.condition ≡ name = ==→≡ here in
      inl (
        subst (λ n. record { condition = n; metric = m } ≡ c) named
          (subst (λ k. record { condition = c.condition; metric = k } ≡ c) found refl))
  | inr there ↦ inr (find_choice-In name cs m (rw there at h))
]

pub rate_of-In :
    (family : String) (ms : List FamilyMetric) (p : Fraction)
    → rate_of family ms ≡ ok p
    → (m : FamilyMetric) × In m ms × (m.family_id ≡ family) × (m.success_rate ≡ p)
unfolding rate_of
rate_of-In family [] p h = absurd (cc h)
rate_of-In family (m ∷ ms) p h = elim (Bool-cases (m.family_id == family)) [
  | inl here ↦ (m, inl refl, ==→≡ here, ok-injective (rw here at h))
  | inr there ↦ let (n, i, e, f) = rate_of-In family ms p (rw there at h) in (n, inr i, e, f)
]

pub rate_of-found :
    (ms : List FamilyMetric)
    → IsUnique (map (λ (m : FamilyMetric). m.family_id) ms)
    → (m : FamilyMetric) → In m ms
    → rate_of m.family_id ms ≡ ok m.success_rate
unfolding rate_of
rate_of-found [] u m i = absurd i
rate_of-found (x ∷ xs) u m (inl same) =
    subst (λ (y : FamilyMetric). rate_of y.family_id (x ∷ xs) ≡ ok y.success_rate) (sym same)
      (rw (==_refl x.family_id) refl)
rate_of-found (x ∷ xs) u m (inr i) = elim (Bool-cases (x.family_id == m.family_id)) [
  | inl again ↦ absurd (
      u.0 (
        subst (λ n. In n (map (λ (y : FamilyMetric). y.family_id) xs)) (sym (==→≡ again))
          (map-In (λ (y : FamilyMetric). y.family_id) xs m i)))
  | inr other ↦ rw other (rate_of-found xs u.1 m i)
]

pub is_true_iff : (flag : Option Bool) → (is_true flag ≡ true) ↔ (flag ≡ some true)
is_true_iff none = (λ h. cc h, λ h. cc h)
is_true_iff (some b) = (λ h. ap some h, λ h. cc h)

-- The flag that is given counts, and the other one where none is.
pub or_else_iff :
    (given other : Option Bool)
    → (is_true (or_else given other) ≡ true)
      ↔ ((given ≡ some true) ⊎ ((given ≡ none) × (other ≡ some true)))
or_else_iff none other = (
  (λ h. inr (refl, (is_true_iff other).0 h)),
  λ w. elim w [ inl e ↦ absurd (cc e) | inr (_, e) ↦ (is_true_iff other).1 e ],
)
or_else_iff (some b) other =
    ((λ h. inl (ap some h)), λ w. elim w [ inl e ↦ cc e | inr (e, _) ↦ absurd (cc e) ])
