-- ===== src/Instrument/DynamicCallCounter/Runtime/Pairs.antt =====
-- A map that holds `g k` for each of its keys `k`.
use llvm_study.Base.{◌≡◌, refl, sym, ap, ◌∙◌, true, List, [], ◌∷◌, arith, Bool-cases, inl, inr}
use mathlib.Core.Bool.{false≢true}
use llvm_study.Containers.{Eq, at, modify, has, insert}

module _ {ℓ κ} {K : Type ℓ} {V : Type κ} ⦃e : Eq K⦄ (g : K → V) where
  abbrev pub pairs : List K → List (K × V)
  pairs [] = []
  pairs (k ∷ ks) = (k, g k) ∷ pairs ks

  pub modify-pairs :
      (d : V) (k : K) (ks : List K) → modify d k (λ _. g k) (pairs ks) ≡ pairs (insert k ks)
  unfolding modify insert has
  modify-pairs d k [] = refl
  modify-pairs d k (j ∷ ks) = elim (Bool-cases (e.beq j k)) [
    | inl same ↦ rw same (ap (λ x. (j, g x) ∷ pairs ks) (sym ((e.beq_iff j k).0 same)))
    | inr other ↦ rw other (
        ap (λ l. (j, g j) ∷ l) (modify-pairs d k ks)
        ∙ elim (Bool-cases (has k ks)) [ inl old ↦ rw old refl | inr new ↦ rw new refl ])
  ]

  pub at-pairs : (d : V) (k : K) (ks : List K) → has k ks ≡ true → at d k (pairs ks) ≡ g k
  unfolding at has
  at-pairs d k [] h = absurd (false≢true h)
  at-pairs d k (j ∷ ks) h = ground (arith, e.beq_iff j k, at-pairs d k ks)
