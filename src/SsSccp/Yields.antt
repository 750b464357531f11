-- ===== src/SsSccp/Yields.antt =====
-- What a walk of SsSCCP/SsSCCP.cpp ends with, where it ends with a state.
use llvm_study.Base.{ℕ, zero, suc, ◌≡◌, Bool, false, List, [], ◌∷◌, ◌==◌, Bool-cases, inl, inr}
use package.llvm_study.SsSccp.{
  Outcome, finished, cast_failed, undefined, endless, out_of_fuel, and_then, Node, descendants,
  each_at, walk,
}

-- The predicate holds of the state that the outcome has.
abbrev pub Yields {ℓ} : {S : Type ℓ} → (S → Type 0) → Outcome S → Type 0
Yields P (finished s) = P s
Yields P _ = Unit

-- The blocks are still these where nothing was reported.
abbrev pub IsHonest {ℓ} : {A : Type ℓ} → A → A × Bool → Type ℓ
IsHonest before (now, changed) = changed ≡ false → now ≡ before

pub Yields-always {ℓ} : {S : Type ℓ} (P : S → Type 0) (o : Outcome S) → ((s : S) → P s) → Yields P o
Yields-always P (finished s) h = h s
Yields-always P cast_failed h = tt
Yields-always P undefined h = tt
Yields-always P endless h = tt
Yields-always P out_of_fuel h = tt

pub Yields-map {ℓ} :
    {S : Type ℓ} (P Q : S → Type 0) (o : Outcome S)
    → Yields P o
    → ((s : S) → P s → Q s)
    → Yields Q o
Yields-map P Q (finished s) h f = f s h
Yields-map P Q cast_failed h f = tt
Yields-map P Q undefined h f = tt
Yields-map P Q endless h f = tt
Yields-map P Q out_of_fuel h f = tt

pub and_then-Yields {ℓ} :
    {S T : Type ℓ} (P : S → Type 0) (Q : T → Type 0) (o : Outcome S) (k : S → Outcome T)
    → Yields P o
    → ((s : S) → P s → Yields Q (k s))
    → Yields Q (and_then o k)
and_then-Yields P Q (finished s) k h next = next s h
and_then-Yields P Q cast_failed k h next = tt
and_then-Yields P Q undefined k h next = tt
and_then-Yields P Q endless k h next = tt
and_then-Yields P Q out_of_fuel k h next = tt

-- An invariant of every visit.
module _ {ℓ} {S : Type ℓ} (P : S → Type 0) where
  pub each_at-Yields :
      (level : ℕ) (visit : Node → S → Outcome S) (ns : List Node) (s : S)
      → ((n : Node) (u : S) → P u → Yields P (visit n u))
      → P s
      → Yields P (each_at level visit ns s)
  each_at-Yields level visit [] s keeps h = h
  each_at-Yields level visit (n ∷ ns) s keeps h = elim (Bool-cases (n.level == level)) [
    | inl e ↦ rw e (
        and_then-Yields P P (visit n s) (each_at level visit ns) (keeps n s h)
          (λ u g. each_at-Yields level visit ns u keeps g))
    | inr e ↦ rw e (each_at-Yields level visit ns s keeps h)
  ]

  pub walk-Yields :
      (visit : ℕ → S → Outcome S) (fuel : ℕ) (n : Node) (level : ℕ) (s : S)
      → ((b : ℕ) (u : S) → P u → Yields P (visit b u))
      → P s
      → Yields P (walk visit fuel n level s)
  unfolding walk
  walk-Yields visit zero n level s keeps h = tt
  walk-Yields visit (suc fuel) n level s keeps h =
      each_at-Yields level (λ d t. and_then (visit d.block t) (walk visit fuel d (suc level)))
        (descendants n) s
        (λ d u g.
          and_then-Yields P P (visit d.block u) (walk visit fuel d (suc level)) (keeps d.block u g)
            (λ t g'. walk-Yields visit fuel d (suc level) t keeps g'))
        h
