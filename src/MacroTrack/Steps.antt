-- ===== src/MacroTrack/Steps.antt =====
-- `reset` and `step` of levelup/envs/macrotrack.py: the actions that advance make a path.
use levelup_bench.Prelude.{
  ℕ, ◌+◌, ◌≤◌, ◌≡◌, ◌⊎◌, ◌∙◌, refl, sym, ap, subst, String, Bool, false, List, [], ◌∷◌, ◌++◌, some,
  In, inl, inr, arith, ok, leb, eqb, string_eq, ◌==◌, ==→≡, ==_ne, ok-injective, Bool-cases,
  raise_if-eq-ok, lookup-eq-ok,
}
use levelup_bench.Core.Trajectory.{ActionRecord}
use levelup_bench.Environment.{StepOutcome}
use levelup_bench.Evaluation.Invariants.{Keeps}
use levelup_bench.Runtime.{Runtime}
use levelup_bench.Track.{has_arguments}
use levelup_bench.MacroTrack.{
  ActionSpec, MacroTrack, MacroSession, valid_specs, action_specs, find_spec, next_position,
  macro_start, macro_outcome, macro_advance, macro_reset, macro_step, macro_environment,
}
use levelup_bench.MacroTrack.Oracle.Routes.{Route, stay, go}

pub find_spec-In :
    (name : String) (specs : List ActionSpec) (a : ActionSpec)
    → find_spec name specs ≡ some a
    → In a specs × (a.name ≡ name)
unfolding find_spec
find_spec-In name [] a h = cc
find_spec-In name (x ∷ xs) a h = elim (Bool-cases (x.name == name)) [
  | inl same ↦
      let k : some x ≡ some a = rw same at h in
      let p : x ≡ a = cc k in (inl (sym p), ap (λ (b : ActionSpec). b.name) (sym p) ∙ ==→≡ same)
  | inr other ↦
      let k : find_spec name xs ≡ some a = rw other at h in
      let (m, p) = find_spec-In name xs a k in (inr m, p)
]

-- A supported action is `warp`, or valid.
valid_or_warp : (a : ActionSpec) → In a action_specs → In a valid_specs ⊎ (a.name ≡ "warp")
valid_or_warp a (inl e) = inl (inl e)
valid_or_warp a (inr (inl e)) = inl (inr (inl e))
valid_or_warp a (inr (inr (inl e))) = inl (inr (inr (inl e)))
valid_or_warp a (inr (inr (inr (inl e)))) = inl (inr (inr (inr (inl e))))
valid_or_warp a (inr (inr (inr (inr (inl e))))) = inr (rw e refl)
valid_or_warp a (inr (inr (inr (inr (inr m))))) = absurd m

In_last : (xs : List String) (a : String) → In a (xs ++ a ∷ [])
In_last [] a = inl refl
In_last (x ∷ xs) a = inr (In_last xs a)

In_front : (xs : List String) (a b : String) → In a xs → In a (xs ++ b ∷ [])
In_front [] a b m = absurd m
In_front (x ∷ xs) a b (inl e) = inl e
In_front (x ∷ xs) a b (inr m) = inr (In_front xs a b m)

module _ (rt : Runtime) (t : MacroTrack) where
  -- What a step that is accepted has done.
  record Stepped (g : MacroSession) (name : String) (g' : MacroSession) (o : StepOutcome)
      : Type 0 where
    spec : ActionSpec
    supported : In spec action_specs
    named : spec.name ≡ name
    advanced : g' ≡ macro_advance rt t g name spec
    observed : o.completed ≡ eqb g'.position t.distance

  macro_step-Stepped :
      (g : MacroSession) (a : ActionRecord) (g' : MacroSession) (o : StepOutcome)
      → macro_step rt t g a ≡ ok (g', o)
      → Stepped g a.name g' o
  unfolding macro_step macro_outcome
  macro_step-Stepped g a g' o h =
      let (spec, found, e) =
        lookup-eq-ok (has_arguments a.arguments) (find_spec a.name action_specs) _ _
          (λ spec. (
            macro_advance rt t g a.name spec,
            macro_outcome rt t (macro_advance rt t g a.name spec),
          ))
          h in
      let (m, p) = find_spec-In a.name action_specs spec found in
      record {
        spec = spec;
        supported = m;
        named = p;
        advanced = ap (λ (q : MacroSession × StepOutcome). q.0) (sym e);
        observed =
            subst (λ (q : MacroSession × StepOutcome). q.1.completed ≡ eqb q.0.position t.distance)
              e refl;
      }

  -- Completion is read off the position, and without `warp` the position is reached by a path that cost no more than the ticks elapsed.
  pub record IsSession (g : MacroSession) (completed : Bool) : Type 0 where
    pub complete : completed ≡ eqb g.position t.distance
    pub walked :
        ¬ In "warp" g.actions
        → (k : ℕ) × (names : List String) × Route g.position k names × (k ≤ g.elapsed_ticks)

  -- An action that is not `warp` extends the path, or overshoots and costs its ticks.
  next_position-walked :
      (g : MacroSession) (a : ActionSpec)
      → In a valid_specs
      → (a.name == "warp") ≡ false
      → (k : ℕ) (names : List String) → Route g.position k names
      → k ≤ g.elapsed_ticks
      → (k' : ℕ) × (names' : List String) × Route (next_position t.distance g.position a) k' names'
        × (k' ≤ g.elapsed_ticks + a.tick_cost)
  unfolding next_position
  next_position-walked g a m other k names path le =
      elim (Bool-cases (leb (g.position + a.progress) t.distance)) [
        | inl fits ↦
            rw (other, fits)
              (k + a.tick_cost, names ++ a.name ∷ [], go a m refl refl refl path, omega arith)
        | inr overshoots ↦ rw (other, overshoots) (k, names, path, omega arith)
      ]

  pub IsSession-kept : Keeps (macro_environment rt t) IsSession
  unfolding macro_reset macro_outcome
  IsSession-kept = record {
    at_reset = λ seed g o h.
        let (_, k) = raise_if-eq-ok _ _ _ h in
        let e : ◌≡◌ {A = MacroSession × StepOutcome} (macro_start, macro_outcome rt t macro_start)
            (g, o) =
          ok-injective k in
        subst (λ (q : MacroSession × StepOutcome). IsSession q.0 q.1.completed) e
          (record { complete = refl; walked = λ _. (0, [], stay, omega arith) });
    at_step = λ g a g' o i h.
        let s : Stepped g a.name g' o = macro_step-Stepped g a g' o h in
        subst
          (λ (q : MacroSession).
            (o.completed ≡ eqb q.position t.distance) → IsSession q o.completed)
          (sym s.advanced)
          (λ observed. record {
            complete = observed;
            walked = λ lawful.
                let (k, names, path, le) =
                  i.walked (λ m. lawful (In_front g.actions "warp" a.name m)) in
                let other : (s.spec.name == "warp") ≡ false = ==_ne s.spec.name "warp" (λ e.
                  lawful (
                    subst (λ n. In "warp" (g.actions ++ n ∷ [])) (sym e ∙ s.named)
                      (In_last g.actions "warp"))) in
                elim (valid_or_warp s.spec s.supported) [
                  | inl valid ↦ next_position-walked g s.spec valid other k names path le
                  | inr e ↦ absurd (
                      lawful (
                        subst (λ n. In "warp" (g.actions ++ n ∷ [])) (sym e ∙ s.named)
                          (In_last g.actions "warp")))
                ];
          })
          s.observed;
  }
