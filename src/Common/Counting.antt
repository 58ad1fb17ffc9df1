-- ===== src/Common/Counting.antt =====
-- Counting the elements of a list that pass a test: membership, lists with no repetition, and the
-- pigeonhole principles that quorum systems rest on.
use Prim.Native.Nat.{ℕ, ◌+◌, ◌<◌, ◌≤◌}
use mathlib.Core.Path.{◌≡◌, refl, sym, subst, ap}
use mathlib.Core.Logic.{◌⊎◌, inl, inr, ◌↔◌}
use mathlib.Core.Bool.{Bool, true, false, ◌&&◌}
use mathlib.Core.List.{List, [], ◌∷◌}
use native.Mathlib.Omega.{arith}
use paxi.Common.Lists.{length}
use paxi.Common.Tests.{if◌then◌else◌, Bool-cases}

module _ {A : Type 0} where
  -- `x` is an element of the list.
  abbrev pub In : A → List A → Type 0
  In x [] = ⊥
  In x (y ∷ ys) = (x ≡ y) ⊎ In x ys

  -- No element occurs twice.
  abbrev pub Distinct : List A → Type 0
  Distinct [] = Unit {0}
  Distinct (x ∷ xs) = (In x xs → ⊥) × Distinct xs

  abbrev pub count : (A → Bool) → List A → ℕ
  count p [] = 0
  count p (x ∷ xs) = (if p x then 1 else 0) + count p xs

module _ {A : Type 0} where
  pub count-ext :
      (p q : A → Bool) (xs : List A) → ((x : A) → In x xs → p x ≡ q x) → count p xs ≡ count q xs
  count-ext p q [] h = refl
  count-ext p q (x ∷ xs) h = ground (arith, h x (inl refl), count-ext p q xs (λ y i. h y (inr i)))

  pub count_le_length : (p : A → Bool) (xs : List A) → count p xs ≤ length xs
  count_le_length p [] = omega arith
  count_le_length p (x ∷ xs) = ground (arith, count_le_length p xs)

  -- Two groups that together outnumber the list share an element of it.
  pub count_overlap :
      (p q r : A → Bool) (xs : List A)
      → count r xs < count (λ x. p x && r x) xs + count (λ x. q x && r x) xs
      → (x : A) × In x xs × (p x ≡ true) × (q x ≡ true) × (r x ≡ true)
  count_overlap p q r [] h = absurd (omega arith)
  count_overlap p q r (x ∷ xs) h = elim (Bool-cases (p x && (q x && r x))) [
    | inl all ↦ (x, inl refl, ground arith, ground arith, ground arith)
    | inr some_fail ↦
        let rest = count_overlap p q r xs (ground arith) in
        (rest.0, inr rest.1, rest.2, rest.3, rest.4)
  ]

  pub count_overlap_all :
      (p q : A → Bool) (xs : List A)
      → length xs < count p xs + count q xs
      → (x : A) × In x xs × (p x ≡ true) × (q x ≡ true)
  count_overlap_all p q [] h = absurd (omega arith)
  count_overlap_all p q (x ∷ xs) h = elim (Bool-cases (p x && q x)) [
    | inl all ↦ (x, inl refl, ground arith, ground arith)
    | inr some_fail ↦
        let rest = count_overlap_all p q xs (ground arith) in (rest.0, inr rest.1, rest.2, rest.3)
  ]

  -- Two groups share at least as many elements as they are too many for the list.
  pub count_both :
      (p q : A → Bool) (xs : List A)
      → count p xs + count q xs ≤ count (λ x. p x && q x) xs + length xs
  count_both p q [] = omega arith
  count_both p q (x ∷ xs) = ground (arith, count_both p q xs)

  pub count_pos : (p : A → Bool) (xs : List A) → 0 < count p xs → (x : A) × In x xs × (p x ≡ true)
  count_pos p [] h = absurd (omega arith)
  count_pos p (x ∷ xs) h = elim (Bool-cases (p x)) [
    | inl e ↦ (x, inl refl, e)
    | inr e ↦ let rest = count_pos p xs (ground arith) in (rest.0, inr rest.1, rest.2)
  ]

  pub count-eq_length :
      (p : A → Bool) (xs : List A) → ((x : A) → In x xs → p x ≡ true) → count p xs ≡ length xs
  count-eq_length p [] h = refl
  count-eq_length p (x ∷ xs) h =
      ground (arith, h x (inl refl), count-eq_length p xs (λ y i. h y (inr i)))

  pub count_lt_length :
      (p : A → Bool) (a : A) (xs : List A) → In a xs → p a ≡ false → count p xs < length xs
  count_lt_length p a [] i f = absurd i
  count_lt_length p a (x ∷ xs) (inl e) f = ground (arith, ap p e, count_le_length p xs)
  count_lt_length p a (x ∷ xs) (inr i) f = ground (arith, count_lt_length p a xs i f)

-- Over a type with a decidable equality given as a Boolean test.
module _ {A : Type 0} (eqb : A → A → Bool) (eqb_iff : (a b : A) → (eqb a b ≡ true) ↔ (a ≡ b)) where
  -- The group `p` with `a` put in or left out, as `b` says.
  abbrev pub assign : (A → Bool) → A → Bool → A → Bool
  assign p a b x = if eqb a x then b else p x

  count-assign_absent :
      (p : A → Bool) (a : A) (b : Bool) (xs : List A)
      → (In a xs → ⊥)
      → count (assign p a b) xs ≡ count p xs
  count-assign_absent p a b xs no_a = count-ext (assign p a b) p xs (λ y i.
      elim (Bool-cases (eqb a y)) [
        | inl e ↦ absurd (no_a (subst (λ z. In z xs) (sym ((eqb_iff a y).0 e)) i))
        | inr n ↦ rw n
      ])

  -- Moving one element of a list with no repetition into a group, or out of it.
  pub count-assign :
      (p : A → Bool) (a : A) (b : Bool) (xs : List A)
      → Distinct xs
      → In a xs
      → count (assign p a b) xs + (if p a then 1 else 0) ≡ count p xs + (if b then 1 else 0)
  count-assign p a b [] d i = absurd i
  count-assign p a b (x ∷ xs) (fresh, d) (inl e) =
      let rest : count (assign p a b) xs ≡ count p xs =
        count-assign_absent p a b xs (λ i. fresh (subst (λ z. In z xs) e i)) in
      ground (arith, (eqb_iff a x).1 e, ap p e)
  count-assign p a b (x ∷ xs) (fresh, d) (inr i) = elim (Bool-cases (eqb a x)) [
    | inl e ↦ absurd (fresh (subst (λ z. In z xs) ((eqb_iff a x).0 e) i))
    | inr n ↦ rw n (omega (arith, count-assign p a b xs d i))
  ]

  -- A list with no repetition, all of it inside another, has no more elements in a group.
  pub count_mono :
      (p : A → Bool) (xs ys : List A)
      → Distinct xs
      → Distinct ys
      → ((x : A) → In x xs → In x ys)
      → count p xs ≤ count p ys
  count_mono p [] ys dx dy sub = omega arith
  count_mono p (x ∷ xs) ys (fresh, dx) dy sub =
      let here = count-assign p x false ys dy (sub x (inl refl)) in
      let tail = count_mono (assign p x false) xs ys dx dy (λ y i. sub y (inr i)) in
      let same = count-assign_absent p x false xs fresh in ground arith

module _ {A : Type 0} where
  pub count_le :
      (p q : A → Bool) (xs : List A) → ((x : A) → q x ≡ true → p x ≡ true) → count q xs ≤ count p xs
  count_le p q [] h = omega arith
  count_le p q (x ∷ xs) h = ground (arith, h x, count_le p q xs h)

  -- A smaller group, without an element of the list that the larger one has.
  pub count_less :
      (p q : A → Bool) (a : A) (xs : List A)
      → ((x : A) → q x ≡ true → p x ≡ true)
      → In a xs
      → p a ≡ true
      → q a ≡ false
      → count q xs < count p xs
  count_less p q a [] h i pa qa = absurd i
  count_less p q a (x ∷ xs) h (inl here) pa qa =
      ground (arith, ap p here, ap q here, count_le p q xs h)
  count_less p q a (x ∷ xs) h (inr i) pa qa = ground (arith, h x, count_less p q a xs h i pa qa)
