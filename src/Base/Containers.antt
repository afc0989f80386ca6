-- ===== src/Base/Containers.antt =====
-- `std::map`, `std::unordered_map` and `std::set` as lists, with the laws that clients use.
use mathlib.Core.Path.{◌≡◌, refl}
use mathlib.Core.Logic.{inl, inr}
use mathlib.Core.Bool.{Bool, false, ◌||◌, ◌&&◌, not}
use mathlib.Core.List.{List, [], ◌∷◌}
use mathlib.Core.Option.{Option, none, some}
use native.Mathlib.Omega.{arith}
use biboumi.Base.Tests.{if◌then◌else◌, Eq, Bool-cases}
use biboumi.Base.Text.{Bytes, eq_bytes, eq_bytes_iff, lt_bytes, bytes_eq}

module _ {ℓ} {K V : Type ℓ} ⦃e : Eq K⦄ where
  unfoldable pub lookup : K → List (K × V) → Option V
  lookup k [] = none
  lookup k ((j, v) ∷ m) = if e.beq j k then some v else lookup k m

  unfoldable pub insert : K → V → List (K × V) → List (K × V)
  insert k v [] = (k, v) ∷ []
  insert k v ((j, w) ∷ m) = if e.beq j k then (k, v) ∷ m else (j, w) ∷ insert k v m

  unfoldable pub erase : K → List (K × V) → List (K × V)
  erase k [] = []
  erase k ((j, w) ∷ m) = let rest = erase k m in if e.beq j k then rest else (j, w) ∷ rest

  pub lookup-insert :
      (k j : K) (v : V) (m : List (K × V))
      → lookup j (insert k v m) ≡ (if e.beq k j then some v else lookup j m)
  unfolding lookup insert
  lookup-insert k j v [] = refl
  lookup-insert k j v ((i, w) ∷ m) =
      ground (arith, e.beq_iff k j, e.beq_iff i k, e.beq_iff i j, lookup-insert k j v m)

  pub lookup-erase :
      (k j : K) (m : List (K × V)) → lookup j (erase k m) ≡ (if e.beq k j then none else lookup j m)
  unfolding lookup erase
  lookup-erase k j [] = ground arith
  lookup-erase k j ((i, w) ∷ m) =
      ground (arith, e.beq_iff k j, e.beq_iff i k, e.beq_iff i j, lookup-erase k j m)

-- `operator[]` of a `std::map` from texts, assigned to, in the order of `operator<`.
unfoldable pub put {ℓ} : {V : Type ℓ} → Bytes → V → List (Bytes × V) → List (Bytes × V)
put k v [] = (k, v) ∷ []
put k v ((j, w) ∷ m) =
    if eq_bytes j k
    then (k, v) ∷ m
    else if lt_bytes k j
    then (k, v) ∷ (j, w) ∷ m
    else (j, w) ∷ put k v m

pub lookup-put :
    {V : Type 0} (k j : Bytes) (v : V) (m : List (Bytes × V))
    → lookup j (put k v m) ≡ (if eq_bytes k j then some v else lookup j m)
unfolding lookup put
lookup-put k j v [] = refl
lookup-put k j v ((i, w) ∷ m) =
    ground (arith, eq_bytes_iff k j, eq_bytes_iff i k, eq_bytes_iff i j, lookup-put k j v m)

-- `std::set<std::string>`, in the order of `operator<`; `contains` is `count(a) != 0`.
unfoldable pub contains : Bytes → List Bytes → Bool
contains a [] = false
contains a (x ∷ xs) = eq_bytes x a || contains a xs

unfoldable pub set_insert : Bytes → List Bytes → List Bytes
set_insert a [] = a ∷ []
set_insert a (x ∷ xs) =
    if eq_bytes x a then x ∷ xs else if lt_bytes a x then a ∷ x ∷ xs else x ∷ set_insert a xs

unfoldable pub set_erase : Bytes → List Bytes → List Bytes
set_erase a [] = []
set_erase a (x ∷ xs) = let rest = set_erase a xs in if eq_bytes x a then rest else x ∷ rest

pub contains-set_insert :
    (a b : Bytes) (xs : List Bytes) → contains b (set_insert a xs) ≡ (eq_bytes a b || contains b xs)
unfolding contains set_insert
contains-set_insert a b [] = refl
contains-set_insert a b (x ∷ xs) =
    ground (arith, eq_bytes_iff x a, eq_bytes_iff x b, eq_bytes_iff a b, contains-set_insert a b xs)

pub contains-set_erase :
    (a b : Bytes) (xs : List Bytes)
    → contains b (set_erase a xs) ≡ (not (eq_bytes a b) && contains b xs)
unfolding contains set_erase
contains-set_erase a b [] = ground arith
contains-set_erase a b (x ∷ xs) =
    ground (arith, eq_bytes_iff x a, eq_bytes_iff x b, eq_bytes_iff a b, contains-set_erase a b xs)

-- What holds of every entry that can be found.
module _ {ℓ} {K V : Type ℓ} ⦃e : Eq K⦄ (P : K → V → Type ℓ) where
  abbrev pub AllFound : List (K × V) → Type ℓ
  AllFound m = (k : K) (v : V) → lookup k m ≡ some v → P k v

  pub AllFound-insert :
      (k : K) (v : V) (m : List (K × V)) → P k v → AllFound m → AllFound (insert k v m)
  AllFound-insert k v m p h j w found = elim (Bool-cases (e.beq k j)) [
    | inl b ↦ ground (arith, e.beq_iff k j, lookup-insert k j v m, p)
    | inr b ↦ h j w (ground (arith, lookup-insert k j v m))
  ]

  pub AllFound-erase : (k : K) (m : List (K × V)) → AllFound m → AllFound (erase k m)
  AllFound-erase k m h j w found = h j w (ground (arith, lookup-erase k j m))

pub ruleset container_laws = (lookup-insert, lookup-erase, contains-set_insert, contains-set_erase)
