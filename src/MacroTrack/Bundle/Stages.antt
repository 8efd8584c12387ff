-- ===== src/MacroTrack/Bundle/Stages.antt =====
-- The costs of the stages, and the distances at which they make a ladder.
use levelup_bench.Prelude.{
  ℕ, zero, suc, ◌+◌, ◌*◌, ◌-◌, ◌≤◌, ◌<◌, ◌≡◌, ◌⊎◌, refl, sym, ap, ◌∙◌, subst, String, true, false,
  List, [], ◌∷◌, ◌++◌, some, contains_iff, In, inl, inr, arith, string_eq, ◌==◌, ==→≡, ltb, ltb→lt,
  Bool-cases, Option-cases, ok, raise, ◌>>=◌, >>=-eq-ok, ok-injective,
}
use levelup_bench.Prelude.Lists.{contains}
use levelup_bench.Prelude.Arrays.{replicate, item_at, write_at}
use levelup_bench.Core.Faults.{value_error, ladder_not_improving}
use levelup_bench.Core.Numbers.{float}
use levelup_bench.MacroTrack.{
  ActionSpec, valid_specs, action_specs, find_spec, walk, run, dash, leap,
}
use levelup_bench.MacroTrack.Oracle.{
  optimal_valid_actions, optimum_value, cost_of, fill_table, try_actions, try_action,
}
use levelup_bench.MacroTrack.Oracle.Routes.{Route, stay, go}
use levelup_bench.MacroTrack.Oracle.Costs.{cost_of-Route, optimum_value-IsLeast}
use levelup_bench.MacroTrack.Bundle.{replace_leap, decreasing, costs_of, staged, stage_actions}

cost_of-replicate :
    (name : String) (a : ActionSpec)
    → find_spec name action_specs ≡ some a
    → (n : ℕ) → cost_of (replicate n name) ≡ ok (n * a.tick_cost)
unfolding replicate cost_of
cost_of-replicate name a found zero = ap ok (omega arith)
cost_of-replicate name a found (suc n) =
    rw (found, cost_of-replicate name a found n, cost_of) (ap ok (omega arith))

In-append_front : (xs : List String) (a b : String) → In a xs ⊎ (a ≡ b) → In a (xs ++ b ∷ [])
In-append_front [] a b (inl m) = absurd m
In-append_front [] a b (inr e) = inl e
In-append_front (x ∷ xs) a b (inl (inl e)) = inl e
In-append_front (x ∷ xs) a b (inl (inr m)) = inr (In-append_front xs a b (inl m))
In-append_front (x ∷ xs) a b (inr e) = inr (In-append_front xs a b (inr e))

-- Without a leap, two checkpoints cost three ticks at least.
slow_cases :
    (a : ActionSpec) → In a valid_specs → (a.name ≡ "leap") ⊎ (3 * a.progress ≤ 2 * a.tick_cost)
slow_cases a (inl e) = inr (rw e (omega arith))
slow_cases a (inr (inl e)) = inr (rw e (omega arith))
slow_cases a (inr (inr (inl e))) = inr (rw e (omega arith))
slow_cases a (inr (inr (inr (inl e)))) = inl (rw e refl)
slow_cases a (inr (inr (inr (inr m)))) = absurd m

Route-slow : {p k : ℕ} {names : List String} → Route p k names → ¬ In "leap" names → 3 * p ≤ 2 * k
Route-slow stay none_leap = omega arith
Route-slow (go {p} {k} {q} {c} {names} {longer} a m e f g rest) none_leap =
    let before =
      Route-slow rest (λ n.
        none_leap (subst (In "leap") (sym g) (In-append_front names "leap" a.name (inl n)))) in
    elim (slow_cases a m) [
      | inl same ↦ absurd (
          none_leap
            (subst (In "leap") (sym g) (In-append_front names "leap" a.name (inr (sym same)))))
      | inr slow ↦ omega (arith, e, f, before, slow)
    ]

-- There is a path of leaps, and a dash or a run.
Route-fast : (d : ℕ) → (k : ℕ) × (names : List String) × Route d k names × (3 * k ≤ 4 * d + 2)
Route-fast zero = (0, [], stay, omega arith)
Route-fast (suc zero) = (2, "run" ∷ [], go run (inr (inl refl)) refl refl refl stay, omega arith)
Route-fast (suc (suc zero)) =
    (3, "dash" ∷ [], go dash (inr (inr (inl refl))) refl refl refl stay, omega arith)
Route-fast (suc (suc (suc d))) =
    let (k, names, path, le) = Route-fast d in
    (
      k + 4,
      names ++ "leap" ∷ [],
      go leap (inr (inr (inr (inl refl)))) (omega arith) refl refl path,
      omega (arith, le),
    )

first_leap :
    (name : String) (rest : List String) (k : ℕ) (b : ActionSpec) (n : ℕ)
    → b.tick_cost + n ≡ k
    → find_spec name action_specs ≡ some b
    → cost_of rest ≡ ok n
    → name ≡ "leap"
    → cost_of (replace_leap (name ∷ rest)) ≡ ok (suc k)
unfolding find_spec cost_of replace_leap
first_leap name rest k b n total here costs same =
    let is_leap : some leap ≡ some b =
      subst (λ (x : String). find_spec x action_specs ≡ some b) same here in
    let four : 4 ≡ b.tick_cost =
      ap (λ (o : ActionSpec). o.tick_cost) (let p : leap ≡ b = cc is_leap in p) in
    rw (same, replace_leap) (rw (costs, cost_of) (ap ok (omega arith)))

-- Replacing a leap by a dash and a run costs one tick more.
cost_of-replace_leap :
    (names : List String) (k : ℕ)
    → cost_of names ≡ ok k
    → In "leap" names
    → cost_of (replace_leap names) ≡ ok (suc k)
unfolding cost_of replace_leap
cost_of-replace_leap [] k h m = absurd m
cost_of-replace_leap (name ∷ rest) k h m = elim (Option-cases (find_spec name action_specs)) [
  | inl missing ↦ absurd (cc (let w : raise _ ≡ ok k = rw (missing, cost_of) at h in w))
  | inr (b, here) ↦
      let w : (cost_of rest >>= λ n. ok (b.tick_cost + n)) ≡ ok k = rw (here, cost_of) at h in
      let (n, costs, e) = >>=-eq-ok (cost_of rest) _ w in
      let total : b.tick_cost + n ≡ k = ok-injective e in
      elim (Bool-cases (name == "leap")) [
        | inl same ↦ first_leap name rest k b n total here costs (==→≡ same)
        | inr other ↦
            let deeper : In "leap" rest = elim m [
              | inl e ↦ absurd (
                  let w : true ≡ false = sym ((string_eq.beq_iff name "leap").1 (sym e)) ∙ other in
                  cc w)
              | inr m' ↦ m'
            ] in
            rw (other, replace_leap)
              (rw (here, cost_of-replace_leap rest n costs deeper, cost_of) (ap ok (omega arith)))
      ]
]

module _ (d best : ℕ) (names : List String) (path : Route d best names)
    (least : (k : ℕ) (others : List String) → Route d k others → best ≤ k) where
  optimum_leaps : 5 ≤ d → In "leap" names
  optimum_leaps far = elim (Bool-cases (contains "leap" names)) [
    | inl present ↦ (contains_iff "leap" names).0 present
    | inr missing ↦
        let slow = Route-slow path (λ m.
          absurd
            (let w : true ≡ false = sym ((contains_iff "leap" names).1 m) ∙ missing in cc w)) in
        let (k, others, fast, le) = Route-fast d in
        absurd (omega (arith, slow, le, least k others fast))
  ]

  costs_of-staged :
      2 ≤ d
      → In "leap" names
      → costs_of (staged d names)
        ≡ ok ((d * 4) ∷ (d * 2) ∷ (3 + (d - 2) * 2) ∷ suc best ∷ best ∷ [])
  unfolding costs_of find_spec cost_of
  costs_of-staged h m =
      rw
        (
          cost_of-replicate "walk" walk refl d,
          cost_of-replicate "run" run refl d,
          cost_of-replicate "run" run refl (d - 2),
          cost_of-replace_leap names best (cost_of-Route path) m,
          cost_of-Route path,
        )
        refl

-- The stages, of which the costs fall strictly, down to the optimum.
pub record IsLadder (d : ℕ) (best : ℕ) (names : List String) : Type 0 where
  pub optimal : optimal_valid_actions d ≡ ok names
  pub value : optimum_value d ≡ ok (float best)
  pub staged_costs :
      costs_of (staged d names) ≡ ok ((d * 4) ∷ (d * 2) ∷ (3 + (d - 2) * 2) ∷ suc best ∷ best ∷ [])
  pub returns : stage_actions d ≡ ok (staged d names)

decreasing_costs :
    (d best : ℕ)
    → 5 ≤ d
    → 3 * best ≤ 4 * d + 2
    → decreasing ((d * 4) ∷ (d * 2) ∷ (3 + (d - 2) * 2) ∷ suc best ∷ best ∷ []) ≡ true
unfolding decreasing
decreasing_costs d best far le = ground arith

stage_actions-IsLadder :
    (d : ℕ) → 5 ≤ d → (best : ℕ) × (names : List String) × IsLadder d best names
unfolding stage_actions
stage_actions-IsLadder d far =
    let (best, names, value, found, path, least) = optimum_value-IsLeast d in
    let m : In "leap" names = optimum_leaps d best names path least far in
    let (k, others, fast, le) = Route-fast d in
    let costs = costs_of-staged d best names path least (omega arith) m in
    let falls = decreasing_costs d best far (omega (arith, le, least k others fast)) in
    (
      best,
      names,
      record {
        optimal = found;
        value = value;
        staged_costs = costs;
        returns = rw (found, (contains_iff "leap" names).1 m, costs, falls) refl;
      },
    )

stage_actions_at_three : stage_actions 3 ≡ raise (value_error ladder_not_improving)
unfolding stage_actions costs_of decreasing replace_leap optimal_valid_actions cost_of fill_table
    try_actions try_action find_spec replicate item_at write_at contains
stage_actions_at_three = refl

stage_actions_at_four : stage_actions 4 ≡ raise (value_error ladder_not_improving)
unfolding stage_actions costs_of decreasing replace_leap optimal_valid_actions cost_of fill_table
    try_actions try_action find_spec replicate item_at write_at contains
stage_actions_at_four = refl

three_or_four : (d : ℕ) → 3 ≤ d → d < 5 → (d ≡ 3) ⊎ (d ≡ 4)
three_or_four d h k = ground arith

-- Of the distances from 3 on: below 5, the stages are refused, since their costs do not fall strictly;
-- from 5 on, they are returned, and with n checkpoints their costs are 4 n, 2 n, 3 + 2 (n - 2), one
-- tick over the optimum, and the optimum.
pub stage_actions_branches :
    (d : ℕ)
    → 3 ≤ d
    → ((d < 5) × (stage_actions d ≡ raise (value_error ladder_not_improving)))
      ⊎ ((5 ≤ d) × (best : ℕ) × (names : List String) × IsLadder d best names)
stage_actions_branches d h = elim (Bool-cases (ltb d 5)) [
  | inl near ↦ inl (
    ltb→lt _ _ near,
    elim (three_or_four d h (ltb→lt _ _ near)) [
      | inl e ↦ rw e stage_actions_at_three
      | inr e ↦ rw e stage_actions_at_four
    ],
  )
  | inr far ↦
      let le : 5 ≤ d = ground arith in
      let (best, names, l) = stage_actions-IsLadder d le in inr (le, best, names, l)
]
