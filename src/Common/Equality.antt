-- ===== src/Common/Equality.antt =====
-- The equality of Go values that can be keys of a map, as a Boolean test.
use mathlib.Core.Path.{◌≡◌, refl, sym}
use mathlib.Core.Logic.{◌↔◌, ◌⊎◌, inl, inr}
use mathlib.Core.Bool.{Bool, true, false}
use Prim.Native.Nat.{ℕ}
use native.Mathlib.Omega.{arith}
use paxi.Common.Tests.{◌==◌}

pub record Eq (A : Type 0) : Type 0 where
  pub eqb : A → A → Bool
  pub eqb_iff : (a b : A) → (eqb a b ≡ true) ↔ (a ≡ b)

pub iff_refl : {P : Type 0} → P ↔ P
iff_refl = (λ p. p, λ p. p)

pub iff_trans : {P Q R : Type 0} → (P ↔ Q) → (Q ↔ R) → (P ↔ R)
iff_trans f g = (λ p. g.0 (f.0 p), λ r. f.1 (g.1 r))

pub or_assoc : {P Q R : Type 0} → ((P ⊎ Q) ⊎ R) ↔ (P ⊎ (Q ⊎ R))
or_assoc = (
  λ h. elim h [ inl k ↦ elim k [ inl p ↦ inl p | inr q ↦ inr (inl q) ] | inr r ↦ inr (inr r) ],
  λ h. elim h [ inl p ↦ inl (inl p) | inr k ↦ elim k [ inl q ↦ inl (inr q) | inr r ↦ inr r ] ],
)

module _ {A : Type 0} ⦃e : Eq A⦄ where
  abbrev pub same : A → A → Bool
  same a b = e.eqb a b

  pub same_self : (a : A) → same a a ≡ true
  same_self a = (e.eqb_iff a a).1 refl

  pub same→eq : (a b : A) → same a b ≡ true → a ≡ b
  same→eq a b h = (e.eqb_iff a b).0 h

  pub same_iff : (a b : A) → (same a b ≡ true) ↔ (a ≡ b)
  same_iff a b = e.eqb_iff a b

  pub not_same : (a b : A) → same a b ≡ false → b ≡ a → ⊥
  not_same a b h p = cc ((e.eqb_iff a b).1 (sym p), h)

pub nat_eqb_iff : (a b : ℕ) → ((a == b) ≡ true) ↔ (a ≡ b)
nat_eqb_iff a b = (λ h. ground arith, λ h. ground arith)

instance abbrev pub nat_eq : Eq ℕ
nat_eq = record { eqb = ◌==◌; eqb_iff = nat_eqb_iff }
