-- ===== src/Common/Maps.antt =====
-- Go maps. One that is only read and written is a function; one that is counted or iterated is an
-- association list with each key once.
use Prim.Native.Nat.{ℕ, suc, ◌<◌}
use mathlib.Core.Path.{fun_ext, ◌≡◌, sym, ap, ◌∙◌}
use mathlib.Core.Logic.{◌⊎◌, inl, inr}
use mathlib.Core.List.{List, [], ◌∷◌}
use native.Mathlib.Omega.{arith}
use paxi.Common.Counting.{In, Distinct}
use paxi.Common.Tests.{◌==◌, ==→eq, if◌then◌else◌, Bool-cases, Bytes, bytes_eq}

-- `m[k] = v` on a map with number keys.
abbrev pub put {ℓ} : {A : Type ℓ} → (ℕ → A) → ℕ → A → ℕ → A
put m k v j = if k == j then v else m j

-- Writing what is there changes nothing.
pub put_same {ℓ} : {A : Type ℓ} (m : ℕ → A) (k : ℕ) (v : A) → m k ≡ v → put m k v ≡ m
put_same m k v h = fun_ext (λ j. elim (Bool-cases (k == j)) [
  | inl same ↦ rw same (sym h ∙ ap m (==→eq k j same))
  | inr apart ↦ rw apart
])

-- `m[k] = v` on a map with string keys.
abbrev pub put_id {ℓ} : {A : Type ℓ} → (Bytes → A) → Bytes → A → Bytes → A
put_id m k v j = if bytes_eq k j then v else m j

-- A `map[int]int` that counts.
abbrev pub Tally : Type 0
Tally = List (ℕ × ℕ)

-- `m[k]`, which is 0 at a key that is not there.
unfoldable pub at : Tally → ℕ → ℕ
at [] k = 0
at ((j, n) ∷ m) k = if j == k then n else at m k

-- `m[k]++`, which adds a missing key.
unfoldable pub bump : Tally → ℕ → Tally
bump [] k = (k, 1) ∷ []
bump ((j, n) ∷ m) k = if j == k then (j, suc n) ∷ m else (j, n) ∷ bump m k

abbrev pub keys : Tally → List ℕ
keys [] = []
keys ((j, n) ∷ m) = j ∷ keys m

pub at-bump : (m : Tally) (k j : ℕ) → at (bump m k) j ≡ (if k == j then suc (at m j) else at m j)
unfolding at bump
at-bump [] k j = ground arith
at-bump ((i, n) ∷ m) k j = ground (arith, at-bump m k j)

pub In-keys-bump : (m : Tally) (k j : ℕ) → In j (keys (bump m k)) → (j ≡ k) ⊎ In j (keys m)
unfolding bump
In-keys-bump [] k j h = ground arith
In-keys-bump ((i, n) ∷ m) k j h = ground (arith, In-keys-bump m k j)

pub bump-In-keys : (m : Tally) (k j : ℕ) → (j ≡ k) ⊎ In j (keys m) → In j (keys (bump m k))
unfolding bump
bump-In-keys [] k j h = ground arith
bump-In-keys ((i, n) ∷ m) k j h = ground (arith, bump-In-keys m k j)

pub Distinct-keys-bump : (m : Tally) (k : ℕ) → Distinct (keys m) → Distinct (keys (bump m k))
unfolding bump
Distinct-keys-bump [] k d = ((λ h. h), tt)
Distinct-keys-bump ((i, n) ∷ m) k (fresh, d) = elim (Bool-cases (i == k)) [
  | inl e ↦ rw e (fresh, d)
  | inr e ↦ rw e ((λ h. ground (arith, In-keys-bump m k i h)), Distinct-keys-bump m k d)
]

-- A key that counts something is there.
pub at_pos-In : (m : Tally) (k : ℕ) → 0 < at m k → In k (keys m)
unfolding at
at_pos-In [] k h = absurd (omega arith)
at_pos-In ((j, n) ∷ m) k h = ground (arith, at_pos-In m k)
