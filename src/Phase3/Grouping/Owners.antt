-- ===== src/Phase3/Grouping/Owners.antt =====
-- The owners of a bucket are a set.
use levelup_bench.Prelude.{
  ◌≡◌, ◌⊎◌, ◌↔◌, sym, subst, String, List, [], ◌∷◌, ◌++◌, In, IsUnique, contains, contains_iff,
  not-In_of_contains, In-append_left, In-append_right, inl, inr, string_eq, Bool-cases,
}
use levelup_bench.Phase3.Grouping.{add_owner}

-- The owners that are added one by one.
unfoldable pub added_all : List String → List String → List String
added_all ids [] = ids
added_all ids (o ∷ os) = added_all (add_owner o ids) os

In-append : (xs ys : List String) (a : String) → In a (xs ++ ys) → In a xs ⊎ In a ys
In-append [] ys a m = inr m
In-append (x ∷ xs) ys a (inl e) = inl (inl e)
In-append (x ∷ xs) ys a (inr m) = elim (In-append xs ys a m) [ inl n ↦ inl (inr n) | inr n ↦ inr n ]

IsUnique-append_one :
    (xs : List String) (x : String) → IsUnique xs → ¬ In x xs → IsUnique (xs ++ x ∷ [])
IsUnique-append_one [] x u n = ((λ m. m), tt)
IsUnique-append_one (y ∷ ys) x (first, u) n = (
  (λ m. elim (In-append ys (x ∷ []) y m) [
    | inl i ↦ first i
    | inr (inl e) ↦ n (inl (sym e))
    | inr (inr i) ↦ i
  ]),
  IsUnique-append_one ys x u (λ m. n (inr m)),
)

add_owner-set :
    (o : String) (ids : List String)
    → IsUnique ids
    → IsUnique (add_owner o ids) × ((a : String) → In a (add_owner o ids) ↔ ((a ≡ o) ⊎ In a ids))
unfolding add_owner
add_owner-set o ids u = elim (Bool-cases (contains o ids)) [
  | inl old ↦
      let i : In o ids = (contains_iff o ids).0 old in
      rw old (
        u,
        λ a. ((λ m. inr m), λ w. elim w [ inl e ↦ subst (λ z. In z ids) (sym e) i | inr m ↦ m ]),
      )
  | inr new ↦ rw new (
    IsUnique-append_one ids o u (not-In_of_contains o ids new),
    λ a. (
      (λ m. elim (In-append ids (o ∷ []) a m) [
        | inl i ↦ inr i
        | inr (inl e) ↦ inl e
        | inr (inr i) ↦ absurd i
      ]),
      λ w. elim w [
        | inl e ↦ In-append_right ids (o ∷ []) a (inl e)
        | inr m ↦ In-append_left ids (o ∷ []) a m
      ],
    ),
  )
]

pub added_all-set :
    (ids os : List String)
    → IsUnique ids
    → IsUnique (added_all ids os) × ((a : String) → In a (added_all ids os) ↔ (In a ids ⊎ In a os))
unfolding added_all
added_all-set ids [] u = (u, λ a. ((λ m. inl m), λ w. elim w [ inl m ↦ m | inr m ↦ absurd m ]))
added_all-set ids (o ∷ os) u =
    let (v, one) = add_owner-set o ids u in
    let (w, all) = added_all-set (add_owner o ids) os v in
    (
      w,
      λ a. (
        (λ m. elim ((all a).0 m) [
          | inl i ↦ elim ((one a).0 i) [ inl e ↦ inr (inl e) | inr j ↦ inl j ]
          | inr j ↦ inr (inr j)
        ]),
        λ x. elim x [
          | inl i ↦ (all a).1 (inl ((one a).1 (inr i)))
          | inr (inl e) ↦ (all a).1 (inl ((one a).1 (inl e)))
          | inr (inr j) ↦ (all a).1 (inr j)
        ],
      ),
    )
