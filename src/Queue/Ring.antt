-- ===== src/Queue/Ring.antt =====
-- The cells of a ring buffer in the order of the queue, and what the writes do to them.
use paxi.Common.{
  ℕ, zero, suc, ◌+◌, ◌-◌, ◌≤◌, ◌<◌, ◌≡◌, refl, ap, subst, List, [], ◌∷◌, ◌++◌, ltb, leb, ◌==◌,
  if◌then◌else◌, length, get_elem?, set, take, drop, arith, some, ◌&&◌,
}
use native.Mathlib.Numerals.{unary_clauses}
use paxi.Queue.{Queue, copy, copy_at}

-- The index of the `j`-th cell from the start of the array, for `j` below twice the length.
unfoldable pub cell : ℕ → ℕ → ℕ
cell n j = if ltb j n then j else j - n

module _ {A : Type 0} (nil : A) where
  -- The element at an index.
  unfoldable pub item : List A → ℕ → A
  item [] i = nil
  item (x ∷ xs) zero = x
  item (x ∷ xs) (suc i) = item xs i

  -- The `k` elements from cell `h` on.
  unfoldable pub ring : List A → ℕ → ℕ → List A
  unfolding item cell
  ring xs h zero = []
  ring xs h (suc k) = item xs (cell (length xs) h) ∷ ring xs (suc h) k

  -- What a queue holds, first in first.
  unfoldable pub contents : Queue A → List A
  unfolding ring
  contents q = ring q.queue q.head q.size

  pub ring_ext :
      (xs ys : List A) (h g k : ℕ)
      → ((i : ℕ) → i < k → item xs (cell (length xs) (h + i)) ≡ item ys (cell (length ys) (g + i)))
      → ring xs h k ≡ ring ys g k
  unfolding ring
  ring_ext xs ys h g zero same = refl
  ring_ext xs ys h g (suc k) same =
      let first : item xs (cell (length xs) h) ≡ item ys (cell (length ys) g) =
        simp unary_clauses at (same 0 (omega arith)) in
      let rest = ring_ext xs ys (suc h) (suc g) k (λ i below.
        let at_h : suc h + i ≡ h + suc i = omega arith in
        let at_g : suc g + i ≡ g + suc i = omega arith in
        rw (at_h, at_g) (same (suc i) (omega (arith, below)))) in
      rw (first, rest) refl

  pub ring_last :
      (xs : List A) (h k : ℕ)
      → ring xs h (suc k) ≡ ring xs h k ++ item xs (cell (length xs) (h + k)) ∷ []
  unfolding ring
  ring_last xs h zero = simp unary_clauses refl
  ring_last xs h (suc k) =
      let shift : suc h + k ≡ h + suc k = omega arith in
      subst (λ j. ring xs h (suc (suc k)) ≡ ring xs h (suc k) ++ item xs (cell (length xs) j) ∷ [])
        shift (ap (λ r. item xs (cell (length xs) h) ∷ r) (ring_last xs (suc h) k))

  pub item-set :
      (xs : List A) (i : ℕ) (v : A) (j : ℕ)
      → i < length xs
      → item (set xs i v) j ≡ (if i == j then v else item xs j)
  unfolding item
  item-set [] i v j h = absurd (omega (arith, h))
  item-set (x ∷ xs) zero v zero h = ground arith
  item-set (x ∷ xs) zero v (suc j) h = ground arith
  item-set (x ∷ xs) (suc i) v zero h = ground arith
  item-set (x ∷ xs) (suc i) v (suc j) h = ground (arith, item-set xs i v j)

  pub item-drop : (h : ℕ) (xs : List A) (i : ℕ) → item (drop h xs) i ≡ item xs (h + i)
  unfolding item
  item-drop zero xs i = let same : 0 + i ≡ i = omega arith in rw same refl
  item-drop (suc h) [] i = refl
  item-drop (suc h) (x ∷ xs) i =
      let shift : suc h + i ≡ suc (h + i) = omega arith in rw shift (item-drop h xs i)

  pub item-take : (h : ℕ) (xs : List A) (i : ℕ) → i < h → item (take h xs) i ≡ item xs i
  unfolding item
  item-take zero xs i below = absurd (omega (arith, below))
  item-take (suc h) [] i below = refl
  item-take (suc h) (x ∷ xs) zero below = refl
  item-take (suc h) (x ∷ xs) (suc i) below = item-take h xs i (omega (arith, below))

  pub item-copy :
      (dst src : List A) (i : ℕ)
      → i < length dst
      → item (copy dst src) i ≡ (if ltb i (length src) then item src i else item dst i)
  unfolding item
  item-copy [] src i h = absurd (omega (arith, h))
  item-copy (d ∷ dst) [] i h = ground arith
  item-copy (d ∷ dst) (s ∷ src) zero h = ground arith
  item-copy (d ∷ dst) (s ∷ src) (suc i) h = ground (arith, item-copy dst src i)

  pub item-copy_at :
      (k : ℕ) (dst src : List A) (i : ℕ)
      → i < length dst
      → item (copy_at k dst src) i
        ≡ (if leb k i && ltb (i - k) (length src) then item src (i - k) else item dst i)
  unfolding item
  item-copy_at zero dst src i h = ground (arith, item-copy dst src i h)
  item-copy_at (suc k) [] src i h = absurd (omega (arith, h))
  item-copy_at (suc k) (d ∷ dst) src zero h = ground arith
  item-copy_at (suc k) (d ∷ dst) src (suc i) h = ground (arith, item-copy_at k dst src i)

  pub get_elem?-item : (xs : List A) (i : ℕ) → i < length xs → get_elem? xs i ≡ some (item xs i)
  unfolding item
  get_elem?-item [] i h = absurd (omega (arith, h))
  get_elem?-item (x ∷ xs) zero h = refl
  get_elem?-item (x ∷ xs) (suc i) h = get_elem?-item xs i (omega (arith, h))

pub length-copy : {A : Type 0} (dst src : List A) → length (copy dst src) ≡ length dst
length-copy [] src = refl
length-copy (d ∷ dst) [] = refl
length-copy (d ∷ dst) (s ∷ src) = ap suc (length-copy dst src)

pub length-copy_at :
    {A : Type 0} (k : ℕ) (dst src : List A) → length (copy_at k dst src) ≡ length dst
length-copy_at zero dst src = length-copy dst src
length-copy_at (suc k) [] src = refl
length-copy_at (suc k) (d ∷ dst) src = ap suc (length-copy_at k dst src)

pub length-take : {A : Type 0} (h : ℕ) (xs : List A) → h ≤ length xs → length (take h xs) ≡ h
length-take zero xs below = refl
length-take (suc h) [] below = absurd (omega (arith, below))
length-take (suc h) (x ∷ xs) below = ap suc (length-take h xs (omega (arith, below)))
