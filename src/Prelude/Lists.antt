-- ===== src/Prelude/Lists.antt =====
-- Lists measured by native numbers, and Boolean folds over them.
use Prim.Native.Nat.{ℕ, zero, suc, ◌+◌}
use mathlib.Core.Path.{◌≡◌, refl, ap}
use mathlib.Core.Bool.{Bool, true, false, not, ◌&&◌, ◌||◌}
use mathlib.Core.Logic.{inl, inr}
use mathlib.Core.List.{List, [], ◌∷◌, ◌++◌}
use native.Mathlib.Omega.{arith}
use samod.Prelude.Tests.{if◌then◌else◌, Bool-cases, if_both}
use samod.Prelude.Equality.{KeyEq, ◌==◌}

module _ {ℓ} {A : Type ℓ} where
  abbrev pub length : List A → ℕ
  length [] = 0
  length (x ∷ xs) = suc (length xs)

  pub length-append : (xs ys : List A) → length (xs ++ ys) ≡ length xs + length ys
  length-append [] ys = omega arith
  length-append (x ∷ xs) ys = omega (arith, length-append xs ys)

  pub append_nil : (xs : List A) → xs ++ [] ≡ xs
  append_nil [] = refl
  append_nil (x ∷ xs) = ap (λ ys. x ∷ ys) (append_nil xs)

  pub append_assoc : (xs ys zs : List A) → (xs ++ ys) ++ zs ≡ xs ++ (ys ++ zs)
  append_assoc [] ys zs = refl
  append_assoc (x ∷ xs) ys zs = ap (λ ws. x ∷ ws) (append_assoc xs ys zs)

  -- `iter().any(p)` and `iter().all(p)`
  abbrev pub any : (A → Bool) → List A → Bool
  any p [] = false
  any p (x ∷ xs) = p x || any p xs

  abbrev pub all : (A → Bool) → List A → Bool
  all p [] = true
  all p (x ∷ xs) = p x && all p xs

  abbrev pub take : ℕ → List A → List A
  take zero xs = []
  take (suc n) [] = []
  take (suc n) (x ∷ xs) = x ∷ take n xs

  abbrev pub filter : (A → Bool) → List A → List A
  filter p [] = []
  filter p (x ∷ xs) = let rest = filter p xs in if p x then x ∷ rest else rest

  abbrev pub All {κ} : (A → Type κ) → List A → Type κ
  All P [] = Unit
  All P (x ∷ xs) = P x × All P xs

  abbrev pub is_empty : List A → Bool
  is_empty [] = true
  is_empty (x ∷ xs) = false

pub All-mono {ℓ κ ι} :
    {A : Type ℓ} (P : A → Type κ) (Q : A → Type ι)
    → ((x : A) → P x → Q x)
    → (xs : List A) → All P xs
    → All Q xs
All-mono P Q f [] h = tt
All-mono P Q f (x ∷ xs) h = (f x h.0, All-mono P Q f xs h.1)

module _ {ℓ κ} {A : Type ℓ} (P : A → Type κ) where
  pub All-append : (xs ys : List A) → All P xs → All P ys → All P (xs ++ ys)
  All-append [] ys hx hy = hy
  All-append (x ∷ xs) ys hx hy = (hx.0, All-append xs ys hx.1 hy)

  pub All-snoc : (xs : List A) {x : A} → All P xs → P x → All P (xs ++ x ∷ [])
  All-snoc xs {x} h p = All-append xs (x ∷ []) h (p, tt)

  pub All-filter : (p : A → Bool) (xs : List A) → All P xs → All P (filter p xs)
  All-filter p [] h = tt
  All-filter p (x ∷ xs) h = let rest = All-filter p xs h.1 in if_both (All P) (p x) (h.0, rest) rest

module _ {ℓ} {A : Type ℓ} ⦃e : KeyEq A⦄ where
  abbrev pub contains : List A → A → Bool
  contains [] a = false
  contains (x ∷ xs) a = x == a || contains xs a

  -- `HashSet::insert` and `HashSet::remove`
  abbrev pub set_insert : A → List A → List A
  set_insert a xs = if contains xs a then xs else a ∷ xs

  abbrev pub set_remove : A → List A → List A
  set_remove a [] = []
  set_remove a (x ∷ xs) = elim (x == a) [ true ↦ set_remove a xs | false ↦ x ∷ set_remove a xs ]

module _ {ℓ} {A : Type ℓ} ⦃e : KeyEq A⦄ where
  pub contains-set_insert :
      (a k : A) (xs : List A) → contains (set_insert a xs) k ≡ (a == k || contains xs k)
  contains-set_insert a k xs = elim (Bool-cases (contains xs a)) [
    | inl h ↦ ground (arith, h, e.same_iff a k)
    | inr h ↦ ground (arith, h)
  ]

  pub contains-set_remove :
      (a k : A) (xs : List A) → contains (set_remove a xs) k ≡ (not (a == k) && contains xs k)
  contains-set_remove a k [] = ground arith
  contains-set_remove a k (x ∷ xs) =
      ground (arith, contains-set_remove a k xs, e.same_iff x a, e.same_iff x k, e.same_iff a k)

  pub set_remove_gone : (a : A) (xs : List A) → contains (set_remove a xs) a ≡ false
  set_remove_gone a xs = ground (arith, contains-set_remove a a xs, e.same_iff a a)

  pub All-contains {κ} :
      (P : A → Type κ) (xs : List A) → ((k : A) → contains xs k ≡ true → P k) → All P xs
  All-contains P [] h = tt
  All-contains P (x ∷ xs) h =
      (h x (ground (arith, e.same_iff x x)), All-contains P xs λ k m. h k (ground (arith, m)))
