-- ===== src/Prelude/Map.antt =====
-- Finite maps and sets: association lists under an equality on keys. An insertion replaces the
-- entry of its key or comes last; the order of a `HashMap`'s iteration, which Rust leaves open, is
-- the order of the list.
use mathlib.Core.Path.{◌≡◌, refl, subst, sym, ap, ◌∙◌}
use mathlib.Core.Bool.{Bool, true, false}
use mathlib.Core.Option.{Option, none, some}
use mathlib.Core.List.{List, [], ◌∷◌, ◌++◌}
use native.Mathlib.Omega.{arith}
use mathlib.Core.Logic.{inl, inr}
use samod.Prelude.Tests.{if◌then◌else◌, Bool-cases}
use samod.Prelude.Lists.{contains, All, append_nil, append_assoc}
use samod.Prelude.Panic.{some_cancel}
use samod.Prelude.Equality.{KeyEq, ◌==◌}

abbrev pub Map {ℓ κ} : Type ℓ → Type κ → Type (ℓ ⊔ κ)
Map K V = List (K × V)

module _ {ℓ κ} {K : Type ℓ} {V : Type κ} where
  abbrev pub keys : Map K V → List K
  keys [] = []
  keys ((k, v) ∷ m) = k ∷ keys m

  abbrev pub values : Map K V → List V
  values [] = []
  values ((k, v) ∷ m) = v ∷ values m

module _ {ℓ κ} {K : Type ℓ} {V : Type κ} ⦃e : KeyEq K⦄ where
  unfoldable pub get : K → Map K V → Option V
  get key [] = none
  get key ((own, val) ∷ rest) = if own == key then some val else get key rest

  unfoldable pub insert : K → V → Map K V → Map K V
  insert key val [] = (key, val) ∷ []
  insert key val ((own, old) ∷ rest) = elim (own == key) [
    | true ↦ (own, val) ∷ rest
    | false ↦ (own, old) ∷ insert key val rest
  ]

  unfoldable pub remove : K → Map K V → Map K V
  remove key [] = []
  remove key ((own, val) ∷ rest) = elim (own == key) [
    | true ↦ remove key rest
    | false ↦ (own, val) ∷ remove key rest
  ]

  pub get-insert :
      (k j : K) (v : V) (m : Map K V) → get j (insert k v m) ≡ (if k == j then some v else get j m)
  unfolding get insert
  get-insert k j v [] = refl
  get-insert k j v ((i, w) ∷ m) =
      ground (arith, e.same_iff k j, e.same_iff i k, e.same_iff i j, get-insert k j v m)

  pub get-insert_same : (k : K) (v : V) (m : Map K V) → get k (insert k v m) ≡ some v
  get-insert_same k v m = ground (arith, get-insert k k v m, e.same_iff k k)

  pub get-remove : (k j : K) (m : Map K V) → get j (remove k m) ≡ (if k == j then none else get j m)
  unfolding get remove
  get-remove k j [] = ground arith
  get-remove k j ((i, w) ∷ m) =
      ground (arith, get-remove k j m, e.same_iff i k, e.same_iff i j, e.same_iff k j)

module _ {ℓ κ} {K : Type ℓ} {V : Type κ} ⦃e : KeyEq K⦄ where
  -- `for k in ks { m.remove(k) }`
  abbrev pub remove_each : List K → Map K V → Map K V
  remove_each [] m = m
  remove_each (k ∷ ks) m = remove_each ks (remove k m)

  nothing_left : (m : Map K V) → ((j : K) → get j m ≡ none) → m ≡ []
  unfolding get
  nothing_left [] h = refl
  nothing_left ((k, v) ∷ m) h = ground (arith, h k, e.same_iff k k)

  pub remove_absent : (k : K) (m : Map K V) → get k m ≡ none → remove k m ≡ m
  unfolding get remove
  remove_absent k [] h = refl
  remove_absent k ((i, v) ∷ m) h = elim (Bool-cases (e.same i k)) [
    | inl same ↦ ground (arith, h, same)
    | inr other ↦ ground (arith, h, other, remove_absent k m (ground (arith, h, other)))
  ]

  pub get-absent : (j : K) (m : Map K V) → contains (keys m) j ≡ false → get j m ≡ none
  unfolding get
  get-absent j [] h = refl
  get-absent j ((k, v) ∷ m) h = elim (Bool-cases (e.same k j)) [
    | inl same ↦ ground (arith, h, same)
    | inr other ↦ ground (arith, h, other, get-absent j m (ground (arith, h, other)))
  ]

  pub get-remove_each :
      (ks : List K) (j : K) (m : Map K V)
      → get j (remove_each ks m) ≡ (if contains ks j then none else get j m)
  get-remove_each [] j m = refl
  get-remove_each (k ∷ ks) j m = elim (Bool-cases (e.same k j)) [
    | inl same ↦ ground (arith, same, get-remove_each ks j (remove k m), get-remove k j m)
    | inr other ↦ ground (arith, other, get-remove_each ks j (remove k m), get-remove k j m)
  ]

  pub remove_each-keys : (m : Map K V) → remove_each (keys m) m ≡ []
  remove_each-keys m = nothing_left (remove_each (keys m) m) λ j.
      elim (Bool-cases (contains (keys m) j)) [
        | inl h ↦ ground (arith, h, get-remove_each (keys m) j m)
        | inr h ↦ ground (arith, h, get-remove_each (keys m) j m, get-absent j m h)
      ]

abbrev pub contains_key {ℓ κ} : {K : Type ℓ} {V : Type κ} ⦃e : KeyEq K⦄ → K → Map K V → Bool
contains_key k m = elim (get k m) [ none ↦ false | some v ↦ true ]

pub get-empty {ℓ κ} : {K : Type ℓ} {V : Type κ} ⦃e : KeyEq K⦄ (k : K) → get {V = V} k [] ≡ none
unfolding get
get-empty k = refl

-- What holds of every value of a map.
module _ {ℓ κ ι} {K : Type ℓ} {V : Type κ} (P : V → Type ι) ⦃e : KeyEq K⦄ where
  pub get-All : (k : K) (m : Map K V) (v : V) → All P (values m) → get k m ≡ some v → P v
  unfolding get
  get-All k [] v h f = ground (arith, f)
  get-All k ((i, w) ∷ m) v h f = elim (Bool-cases (e.same i k)) [
    | inl same ↦ subst P (some_cancel (ground (arith, same, f))) h.0
    | inr other ↦ get-All k m v h.1 (ground (arith, other, f))
  ]

  pub insert-All :
      (k : K) (v : V) (m : Map K V) → P v → All P (values m) → All P (values (insert k v m))
  unfolding insert
  insert-All k v [] p h = (p, tt)
  insert-All k v ((i, w) ∷ m) p h = elim (Bool-cases (e.same i k)) [
    | inl same ↦ rw (same, All) (p, h.1)
    | inr other ↦ rw (other, All) (h.0, insert-All k v m p h.1)
  ]

  pub remove-All : (k : K) (m : Map K V) → All P (values m) → All P (values (remove k m))
  unfolding remove
  remove-All k [] h = tt
  remove-All k ((i, w) ∷ m) h = elim (Bool-cases (e.same i k)) [
    | inl same ↦ rw (same, All) (remove-All k m h.1)
    | inr other ↦ rw (other, All) (h.0, remove-All k m h.1)
  ]

-- A map whose keys differ is what its entries give when they are inserted in order.
module _ {ℓ κ} {K : Type ℓ} {V : Type κ} ⦃e : KeyEq K⦄ where
  abbrev pub Distinct : Map K V → Type 0
  Distinct [] = Unit
  Distinct ((k, v) ∷ m) = (contains (keys m) k ≡ false) × Distinct m

  abbrev pub insert_all : Map K V → Map K V → Map K V
  insert_all [] m = m
  insert_all ((k, v) ∷ entries) m = insert_all entries (insert k v m)

  insert_new :
      (k : K) (v : V) (m : Map K V) → contains (keys m) k ≡ false → insert k v m ≡ m ++ (k, v) ∷ []
  unfolding insert
  insert_new k v [] h = refl
  insert_new k v ((j, w) ∷ m) h = ground (arith, insert_new k v m)

  is_other :
      (k j : K) (v : V) (m n : Map K V)
      → contains (keys (m ++ (k, v) ∷ n)) j ≡ false
      → (k == j) ≡ false
  is_other k j v [] n h = ground (arith, h)
  is_other k j v ((i, w) ∷ m) n h = is_other k j v m n (ground (arith, h))

  is_new :
      (k : K) (v : V) (m n : Map K V) → Distinct (m ++ (k, v) ∷ n) → contains (keys m) k ≡ false
  is_new k v [] n h = refl
  is_new k v ((j, w) ∷ m) n h =
      ground (arith, is_other k j v m n h.0, is_new k v m n h.1, e.same_iff k j, e.same_iff j k)

  insert_all-append :
      (entries m : Map K V) → Distinct (m ++ entries) → insert_all entries m ≡ m ++ entries
  insert_all-append [] m h = sym (append_nil m)
  insert_all-append ((k, v) ∷ entries) m h =
      let regroup : (m ++ (k, v) ∷ []) ++ entries ≡ m ++ (k, v) ∷ entries =
        append_assoc m ((k, v) ∷ []) entries in
      rw (insert_new k v m (is_new k v m entries h))
        (insert_all-append entries (m ++ (k, v) ∷ []) (subst Distinct (sym regroup) h) ∙ regroup)

  pub insert_all_lem : (m : Map K V) → Distinct m → insert_all m [] ≡ m
  insert_all_lem m h = insert_all-append m [] h

-- `HashMap::retain` by the key.
abbrev pub retain {ℓ κ} : {K : Type ℓ} {V : Type κ} → (K → Bool) → Map K V → Map K V
retain keep [] = []
retain keep ((k, v) ∷ m) = let rest = retain keep m in if keep k then (k, v) ∷ rest else rest

pub get-retain {ℓ κ} :
    {K : Type ℓ} {V : Type κ} ⦃e : KeyEq K⦄ (keep : K → Bool) (k : K) (m : Map K V)
    → get k (retain keep m) ≡ (if keep k then get k m else none)
unfolding get
get-retain keep k [] = ground arith
get-retain ⦃e⦄ keep k ((j, v) ∷ m) = elim (Bool-cases (e.same j k)) [
  | inl same ↦ ground (arith, same, get-retain keep k m, ap keep ((e.same_iff j k).0 same))
  | inr other ↦ ground (arith, other, get-retain keep k m)
]
