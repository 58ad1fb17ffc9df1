-- ===== src/Set.antt =====
-- lib/set.go: a set of values that can be keys of a map, as the list of its elements in the order of
-- an iteration.
use paxi.Common.{
  Bool, true, false, ◌≡◌, ◌↔◌, ◌⊎◌, inl, inr, sym, subst, List, [], ◌∷◌, ◌++◌, if◌then◌else◌, In,
  Distinct, Eq, same, same_iff, same→eq, ◌∙◌, Bool-cases, arith,
}

-- type Set map[interface{}]struct{}
abbrev pub Set : Type 0 → Type 0
Set A = List A

module _ {A : Type 0} ⦃e : Eq A⦄ where
  -- Set.Has
  unfoldable pub has : Set A → A → Bool
  has [] x = false
  has (y ∷ s) x = if same y x then true else has s x

  -- Set.Add
  unfoldable pub add : Set A → A → Set A
  unfolding has
  add s x = if has s x then s else s ++ x ∷ []

  -- Set.Remove
  unfoldable pub remove : Set A → A → Set A
  remove [] x = []
  remove (y ∷ s) x = let rest = remove s x in if same y x then rest else y ∷ rest

  -- Set.Clone, which adds the elements to a new set one by one.
  unfoldable pub add_all : Set A → Set A → Set A
  unfolding add
  add_all s [] = s
  add_all s (x ∷ xs) = add_all (add s x) xs

  unfoldable pub clone : Set A → Set A
  unfolding add_all
  clone s = add_all [] s

  pub has_iff : (s : Set A) (x : A) → (has s x ≡ true) ↔ In x s
  unfolding has
  has_iff [] x = ground arith
  has_iff (y ∷ s) x = ground (arith, has_iff s x, same_iff y x)

  pub In-append : (s t : List A) (x : A) → In x (s ++ t) ↔ (In x s ⊎ In x t)
  In-append [] t x = ground arith
  In-append (y ∷ s) t x = ground (arith, In-append s t x)

  pub In-add : (s : Set A) (y x : A) → In x (add s y) ↔ (In x s ⊎ (x ≡ y))
  unfolding add
  In-add s y x = elim (Bool-cases (has s y)) [
    | inl old ↦
        rw old (
          inl,
          λ h. elim h [ inl i ↦ i | inr q ↦ subst (λ z. In z s) (sym q) ((has_iff s y).0 old) ],
        )
    | inr new ↦ rw new (ground (arith, In-append s (y ∷ []) x))
  ]

  pub In-remove : (s : Set A) (y x : A) → In x (remove s y) ↔ (In x s × (x ≡ y → ⊥))
  unfolding remove
  In-remove [] y x = ground arith
  In-remove (z ∷ s) y x = elim (Bool-cases (same z y)) [
    | inl gone ↦
        let old : z ≡ y = same→eq z y gone in
        rw gone (
          (λ i. let (j, other) = (In-remove s y x).0 i in (inr j, other)),
          λ (i, other). elim i [
            | inl q ↦ absurd (other (q ∙ old))
            | inr j ↦ (In-remove s y x).1 (j, other)
          ],
        )
    | inr stays ↦ rw stays (
      (λ i. elim i [
        | inl q ↦ (inl q, λ p. absurd (cc ((same_iff z y).1 (sym q ∙ p), stays)))
        | inr j ↦ let (k, other) = (In-remove s y x).0 j in (inr k, other)
      ]),
      λ (i, other). elim i [ inl q ↦ inl q | inr j ↦ inr ((In-remove s y x).1 (j, other)) ],
    )
  ]

  pub Distinct-snoc : (s : List A) (x : A) → Distinct s → (In x s → ⊥) → Distinct (s ++ x ∷ [])
  Distinct-snoc [] x d fresh = ground arith
  Distinct-snoc (y ∷ s) x (new, d) fresh =
      ground (arith, Distinct-snoc s x d, In-append s (x ∷ []) y)

  pub Distinct-add : (s : Set A) (x : A) → Distinct s → Distinct (add s x)
  unfolding add
  Distinct-add s x d = elim (Bool-cases (has s x)) [
    | inl old ↦ rw old d
    | inr new ↦ rw new (Distinct-snoc s x d (λ i. ground (arith, has_iff s x)))
  ]

  pub Distinct-remove : (s : Set A) (y : A) → Distinct s → Distinct (remove s y)
  unfolding remove
  Distinct-remove [] y d = tt
  Distinct-remove (z ∷ s) y (new, d) = elim (Bool-cases (same z y)) [
    | inl gone ↦ rw gone (Distinct-remove s y d)
    | inr stays ↦ rw stays ((λ i. new (((In-remove s y z).0 i).0)), Distinct-remove s y d)
  ]

  add_all_lem :
      (s t : Set A)
      → Distinct s
      → Distinct (add_all s t) × ((x : A) → In x (add_all s t) ↔ (In x s ⊎ In x t))
  unfolding add_all
  add_all_lem s [] d = (d, λ x. ground arith)
  add_all_lem s (y ∷ t) d =
      let (d', iff) = add_all_lem (add s y) t (Distinct-add s y d) in
      (d', λ x. ground (arith, iff x, In-add s y x))

  -- A clone is a set of the same elements.
  pub clone_lem : (s : Set A) → Distinct (clone s) × ((x : A) → In x (clone s) ↔ In x s)
  unfolding clone
  clone_lem s = let (d, iff) = add_all_lem [] s tt in (d, λ x. ground (arith, iff x))
