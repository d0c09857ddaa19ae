-- ===== src/Prelude/Dict.antt =====
-- JavaScript's `Map`, as an association list in insertion order: `set` on a present key keeps its
-- place, `get` finds the one entry. Keys are compared through an instance.
use Prim.Native.Nat.{ℕ}
use Prim.Native.String.{String}
use mathlib.Core.Path.{◌≡◌, refl}
use mathlib.Core.Logic.{◌↔◌}
use mathlib.Core.Bool.{Bool, true, false}
use mathlib.Core.Option.{Option, none, some}
use mathlib.Core.List.{List, [], ◌∷◌}
use native.Mathlib.Omega.{arith}
use text.Mathlib.Text.{◌==◌ as str_eq}
use text.Mathlib.TextEquality.{eq_iff}
use mathlib.Core.Logic.{inl, inr}
use fantasy_xi.Prelude.Tests.{Bool-cases, ◌==◌ as nat_beq, ==_iff, if◌then◌else◌}

pub record Eq {ℓ} (Key : Type ℓ) : Type ℓ where
  pub beq : Key → Key → Bool
  pub beq_iff : (j k : Key) → (beq j k ≡ true) ↔ (j ≡ k)

abbrev pub beq {ℓ} : {Key : Type ℓ} ⦃keys : Eq Key⦄ → Key → Key → Bool
beq ⦃keys⦄ = keys.beq

instance abbrev pub string_eq : Eq String
string_eq = record { beq_iff = eq_iff; beq = str_eq }

instance abbrev pub nat_eq : Eq ℕ
nat_eq = record { beq_iff = ==_iff; beq = nat_beq }

abbrev pub Dict {ℓ κ} : Type ℓ → Type κ → Type (ℓ ⊔ κ)
Dict K V = List (K × V)

pub beq_refl {ℓ} : {K : Type ℓ} ⦃e : Eq K⦄ (k : K) → beq k k ≡ true
beq_refl ⦃e⦄ k = (e.beq_iff k k).1 refl

module _ {ℓ κ} {K : Type ℓ} {V : Type κ} ⦃e : Eq K⦄ where
  unfoldable pub get : Dict K V → K → Option V
  get [] k = none
  get ((j, v) ∷ m) k = if beq j k then some v else get m k

  unfoldable pub set : Dict K V → K → V → Dict K V
  set [] k v = (k, v) ∷ []
  set ((j, w) ∷ m) k v = if beq j k then (j, v) ∷ m else (j, w) ∷ set m k v

  unfoldable pub delete : Dict K V → K → Dict K V
  delete [] k = []
  delete ((j, w) ∷ m) k = if beq j k then m else (j, w) ∷ delete m k

  abbrev pub has : Dict K V → K → Bool
  has m k = elim (get m k) [ none ↦ false | some _ ↦ true ]

  abbrev pub values : Dict K V → List V
  values [] = []
  values ((k, v) ∷ m) = v ∷ values m

  pub get-set :
      (m : Dict K V) (k j : K) (v : V) → get (set m k v) j ≡ (if beq k j then some v else get m j)
  unfolding get set
  get-set [] k j v = refl
  get-set ((i, w) ∷ m) k j v =
      ground (arith, e.beq_iff k j, e.beq_iff i k, e.beq_iff i j, get-set m k j v)

  pub get-set_self : (m : Dict K V) (k : K) (v : V) → get (set m k v) k ≡ some v
  get-set_self m k v = rw (get-set m k k v, beq_refl k)

  pub has-set : (m : Dict K V) (k j : K) (v : V) → has m j ≡ true → has (set m k v) j ≡ true
  has-set m k j v h = ground (arith, get-set m k j v)

  pub get-delete : (m : Dict K V) (k j : K) → beq k j ≡ false → get (delete m k) j ≡ get m j
  unfolding get delete
  get-delete [] k j other = refl
  get-delete ((i, w) ∷ m) k j other =
      ground (arith, e.beq_iff k j, e.beq_iff i k, e.beq_iff i j, get-delete m k j other)

  -- One entry for each key.
  abbrev pub IsMap : Dict K V → Type κ
  IsMap [] = Unit
  IsMap ((k, v) ∷ m) = (has m k ≡ false) × IsMap m

  has-set_other :
      (m : Dict K V) (k j : K) (v : V)
      → beq j k ≡ false
      → has m j ≡ false
      → has (set m k v) j ≡ false
  has-set_other m k j v other h = ground (arith, get-set m k j v, e.beq_iff j k, e.beq_iff k j)

  has-delete_other :
      (m : Dict K V) (k j : K) → beq j k ≡ false → has m j ≡ false → has (delete m k) j ≡ false
  has-delete_other m k j other h = ground (arith, get-delete m k j, e.beq_iff j k, e.beq_iff k j)

  pub IsMap-set : (m : Dict K V) (k : K) (v : V) → IsMap m → IsMap (set m k v)
  unfolding get set
  IsMap-set [] k v h = (refl, tt)
  IsMap-set ((j, w) ∷ m) k v h = elim (Bool-cases (beq j k)) [
    | inl same ↦ rw same h
    | inr other ↦ rw other (has-set_other m k j v other h.0, IsMap-set m k v h.1)
  ]

  pub IsMap-delete : (m : Dict K V) (k : K) → IsMap m → IsMap (delete m k)
  unfolding get delete
  IsMap-delete [] k h = tt
  IsMap-delete ((j, w) ∷ m) k h = elim (Bool-cases (beq j k)) [
    | inl same ↦ rw same h.1
    | inr other ↦ rw other (has-delete_other m k j other h.0, IsMap-delete m k h.1)
  ]

  pub get-delete_self : (m : Dict K V) (k : K) → IsMap m → get (delete m k) k ≡ none
  unfolding get delete
  get-delete_self [] k h = refl
  get-delete_self ((j, w) ∷ m) k h = ground (arith, e.beq_iff j k, get-delete_self m k)
