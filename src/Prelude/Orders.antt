-- ===== src/Prelude/Orders.antt =====
-- Strict orders as tests, the lexicographic order of two, and the first least element of a list, as
-- Python's `min` and `max` with a key find it.
use mathlib.Core.Path.{◌≡◌, refl, sym, ◌∙◌}
use mathlib.Core.Logic.{◌⊎◌, inl, inr}
use mathlib.Core.Bool.{Bool, true, false}
use mathlib.Core.List.{List, [], ◌∷◌}
use native.Mathlib.Omega.{arith}
use levelup_bench.Prelude.Lists.{In}
use levelup_bench.Prelude.Tests.{if◌then◌else◌, Bool-cases}

module _ {A : Type 0} where
  -- A strict weak order.
  pub record IsOrder (lt : A → A → Bool) : Type 0 where
    pub asym : (x y : A) → lt x y ≡ true → lt y x ≡ false
    pub cotrans : (x y z : A) → lt x y ≡ true → (lt x z ≡ true) ⊎ (lt z y ≡ true)

  -- The comparison of tuples: by the first components, and by the rest where these are equal.
  abbrev pub lex : (A → A → Bool) → (A → A → Bool) → A → A → Bool
  lex f g x y = if f x y then true else if f y x then false else g x y

  pub lex-IsOrder : (f g : A → A → Bool) → IsOrder f → IsOrder g → IsOrder (lex f g)
  lex-IsOrder f g p q = record {
    asym = λ x y h.
        let a : f x y ≡ true → f y x ≡ false = p.asym x y in
        let b : g x y ≡ true → g y x ≡ false = q.asym x y in ground arith;
    cotrans = λ x y z h. elim (Bool-cases (f x y)) [
      | inl less ↦ elim (p.cotrans x y z less) [
        | inl l ↦ inl (ground arith)
        | inr r ↦ inr (ground arith)
      ]
      | inr not_less ↦
          let tail : g x y ≡ true = ground arith in
          let back : f y x ≡ false = ground arith in
          let xz : f x z ≡ true → (f x y ≡ true) ⊎ (f y z ≡ true) = p.cotrans x z y in
          let zx : f z x ≡ true → (f z y ≡ true) ⊎ (f y x ≡ true) = p.cotrans z x y in
          let zy : f z y ≡ true → (f z x ≡ true) ⊎ (f x y ≡ true) = p.cotrans z y x in
          let yz : f y z ≡ true → (f y x ≡ true) ⊎ (f x z ≡ true) = p.cotrans y z x in
          elim (q.cotrans x y z tail) [ inl l ↦ ground arith | inr r ↦ ground arith ]
    ];
  }

  -- `min`, from the best element so far.
  unfoldable pub least : (A → A → Bool) → A → List A → A
  least lt best [] = best
  least lt best (x ∷ xs) = least lt (if lt x best then x else best) xs

  pub least-In : (lt : A → A → Bool) (best : A) (xs : List A) → In (least lt best xs) (best ∷ xs)
  unfolding least
  least-In lt best [] = inl refl
  least-In lt best (x ∷ xs) =
      one_of_two (lt x best) _ (least-In lt (if lt x best then x else best) xs)
    where
      one_of_two : (b : Bool) (z : A) → In z ((if b then x else best) ∷ xs) → In z (best ∷ x ∷ xs)
      one_of_two true z m = inr m
      one_of_two false z (inl e) = inl e
      one_of_two false z (inr m) = inr (inr m)

  pub trans_of_order :
      (lt : A → A → Bool) → IsOrder lt → (x y z : A) → lt x y ≡ true → lt y z ≡ true → lt x z ≡ true
  trans_of_order lt o x y z h k = elim (o.cotrans x y z h) [
    | inl done ↦ done
    | inr back ↦ absurd (let w : true ≡ false = sym back ∙ o.asym y z k in cc w)
  ]

  -- The element that is found is not above any other.
  pub least-le :
      (lt : A → A → Bool)
      → IsOrder lt
      → (best : A) (xs : List A) (x : A) → In x (best ∷ xs)
      → lt x (least lt best xs) ≡ false
  unfolding least
  least-le lt o best [] x (inl e) = elim (Bool-cases (lt x best)) [
    | inl h ↦ absurd (let w : true ≡ false = sym h ∙ (rw e (o.asym best best (rw e at h))) in cc w)
    | inr h ↦ h
  ]
  least-le lt o best [] x (inr m) = absurd m
  least-le lt o best (y ∷ ys) x m = elim (Bool-cases (lt y best)) [
    | inl h ↦ rw h (elim m [
      | inl e ↦ rw e (above best y h (least lt y ys) (least-le lt o y ys y (inl refl)))
      | inr n ↦ least-le lt o y ys x n
    ])
    | inr h ↦ rw h (elim m [
      | inl e ↦ least-le lt o best ys x (inl e)
      | inr (inl e) ↦
          rw e (not_below best y h (least lt best ys) (least-le lt o best ys best (inl refl)))
      | inr (inr n) ↦ least-le lt o best ys x (inr n)
    ])
  ]
    where
      above : (b y : A) → lt y b ≡ true → (c : A) → lt y c ≡ false → lt b c ≡ false
      above b y h c k = elim (Bool-cases (lt b c)) [
        | inl w ↦ absurd (let v : true ≡ false = sym (trans_of_order lt o y b c h w) ∙ k in cc v)
        | inr w ↦ w
      ]

      not_below : (b y : A) → lt y b ≡ false → (c : A) → lt b c ≡ false → lt y c ≡ false
      not_below b y h c k = elim (Bool-cases (lt y c)) [
        | inl w ↦ elim (o.cotrans y c b w) [
          | inl v ↦ absurd (let u : true ≡ false = sym v ∙ h in cc u)
          | inr v ↦ absurd (let u : true ≡ false = sym v ∙ k in cc u)
        ]
        | inr w ↦ w
      ]
