-- ===== src/Prelude/Equality.antt =====
-- Rust's `PartialEq` with its law, as an interface with an instance for each type of key.
use Prim.Native.Nat.{ℕ, compare, Ordering}
use Prim.Native.String.{String}
use mathlib.Core.Path.{◌≡◌, refl}
use mathlib.Core.Logic.{◌↔◌}
use mathlib.Core.Bool.{Bool, true, false, ◌&&◌}
use mathlib.Core.Option.{Option, none, some}
use mathlib.Core.List.{List, [], ◌∷◌}
use native.Mathlib.Omega.{arith}
use text.Mathlib.Text.{◌==◌ as text_same}
use text.Mathlib.TextEquality.{eq_iff}

pub record KeyEq {ℓ} (K : Type ℓ) : Type ℓ where
  pub same : K → K → Bool
  pub same_iff : (k j : K) → (same k j ≡ true) ↔ (k ≡ j)

abbrev pub number_same : ℕ → ℕ → Bool
number_same m n = elim (compare m n) [
  | Ordering.lt ↦ false
  | Ordering.eq ↦ true
  | Ordering.gt ↦ false
]

pub number_same_iff : (m n : ℕ) → (number_same m n ≡ true) ↔ (m ≡ n)
number_same_iff m n = ground arith

-- Identifiers and numbers.
instance abbrev pub nat_eq : KeyEq ℕ
nat_eq = record { same = number_same; same_iff = number_same_iff }

-- Peers, sessions and other texts.
instance abbrev pub string_eq : KeyEq String
string_eq = record { same = text_same; same_iff = eq_iff }

abbrev pub ◌==◌ {ℓ} : {K : Type ℓ} ⦃e : KeyEq K⦄ → K → K → Bool
◌==◌ ⦃e⦄ k j = e.same k j

infix 50 ◌==◌
module _ {ℓ} {A : Type ℓ} ⦃e : KeyEq A⦄ where
  abbrev pub list_beq : List A → List A → Bool
  list_beq [] [] = true
  list_beq (x ∷ xs) (y ∷ ys) = e.same x y && list_beq xs ys
  list_beq _ _ = false

  pub list_beq_iff : (xs ys : List A) → (list_beq xs ys ≡ true) ↔ (xs ≡ ys)
  list_beq_iff [] [] = ground arith
  list_beq_iff [] (y ∷ ys) = ground arith
  list_beq_iff (x ∷ xs) [] = ground arith
  list_beq_iff (x ∷ xs) (y ∷ ys) = ground (arith, e.same_iff x y, list_beq_iff xs ys)

  pub beq_refl : (a : A) → e.same a a ≡ true
  beq_refl a = (e.same_iff a a).1 refl

instance abbrev pub list_eq {ℓ} : {A : Type ℓ} ⦃e : KeyEq A⦄ → KeyEq (List A)
list_eq = record { same = list_beq; same_iff = list_beq_iff }

module _ {ℓ} {A : Type ℓ} ⦃e : KeyEq A⦄ where
  abbrev pub option_beq : Option A → Option A → Bool
  option_beq none none = true
  option_beq (some x) (some y) = e.same x y
  option_beq _ _ = false

  pub option_beq_iff : (xs ys : Option A) → (option_beq xs ys ≡ true) ↔ (xs ≡ ys)
  option_beq_iff none none = ground arith
  option_beq_iff none (some y) = ground arith
  option_beq_iff (some x) none = ground arith
  option_beq_iff (some x) (some y) = ground (arith, e.same_iff x y)

module _ {ℓ κ} {A : Type ℓ} {B : Type κ} ⦃e : KeyEq A⦄ ⦃f : KeyEq B⦄ where
  abbrev pub pair_beq : A × B → A × B → Bool
  pair_beq (a, b) (c, d) = e.same a c && f.same b d

  pub pair_beq_iff : (p q : A × B) → (pair_beq p q ≡ true) ↔ (p ≡ q)
  pair_beq_iff (a, b) (c, d) = ground (arith, e.same_iff a c, f.same_iff b d)

instance abbrev pub pair_eq {ℓ κ} :
    {A : Type ℓ} {B : Type κ} ⦃e : KeyEq A⦄ ⦃f : KeyEq B⦄ → KeyEq (A × B)
pair_eq = record { same = pair_beq; same_iff = pair_beq_iff }
