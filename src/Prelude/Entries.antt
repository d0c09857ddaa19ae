-- ===== src/Prelude/Entries.antt =====
-- What holds of every entry of a dictionary, its key with its value.
use mathlib.Core.Path.{◌≡◌, refl, sym, ◌∙◌, subst}
use mathlib.Core.Logic.{inl, inr}
use mathlib.Core.Bool.{true, false}
use mathlib.Core.Option.{some}
use mathlib.Core.List.{[], ◌∷◌}
use fantasy_xi.Prelude.Tests.{Bool-cases}
use fantasy_xi.Prelude.Dict.{Eq, Dict, get, set, delete, beq}

module _ {ℓ κ μ} {K : Type ℓ} {V : Type κ} ⦃e : Eq K⦄ (P : K → V → Type μ) where
  abbrev pub Entries : Dict K V → Type μ
  Entries [] = Unit
  Entries ((k, v) ∷ m) = P k v × Entries m

  pub Entries-set : (m : Dict K V) (k : K) (v : V) → P k v → Entries m → Entries (set m k v)
  unfolding set
  Entries-set [] k v p h = (p, tt)
  Entries-set ((j, w) ∷ m) k v p h = elim (Bool-cases (beq j k)) [
    | inl same ↦ rw same (subst (λ i. P i v) (sym ((e.beq_iff j k).0 same)) p, h.1)
    | inr other ↦ rw other (h.0, Entries-set m k v p h.1)
  ]

  pub Entries-delete : (m : Dict K V) (k : K) → Entries m → Entries (delete m k)
  unfolding delete
  Entries-delete [] k h = tt
  Entries-delete ((j, w) ∷ m) k h = elim (Bool-cases (beq j k)) [
    | inl same ↦ rw same h.1
    | inr other ↦ rw other (h.0, Entries-delete m k h.1)
  ]

  get-here : (j k : K) (w : V) (m : Dict K V) → beq j k ≡ true → get ((j, w) ∷ m) k ≡ some w
  unfolding get
  get-here j k w m same = rw same refl

  get-later : (j k : K) (w : V) (m : Dict K V) → beq j k ≡ false → get ((j, w) ∷ m) k ≡ get m k
  unfolding get
  get-later j k w m other = rw other refl

  pub get-Entries : (m : Dict K V) (k : K) (v : V) → get m k ≡ some v → Entries m → P k v
  unfolding get
  get-Entries [] k v found h = cc
  get-Entries ((j, w) ∷ m) k v found h = elim (Bool-cases (beq j k)) [
    | inl same ↦
        let this : some w ≡ some v = sym (get-here j k w m same) ∙ found in
        let w_eq : w ≡ v = cc in
        subst (λ x. P k x) w_eq (subst (λ i. P i w) ((e.beq_iff j k).0 same) h.0)
    | inr other ↦ get-Entries m k v (sym (get-later j k w m other) ∙ found) h.1
  ]
