-- ===== src/Counters/Tally.antt =====
-- Counting occurrences with `unsigned` counters of 32 bits.
use llvm_study.Base.{
  ℕ, ◌+◌, ◌%◌, ◌^◌, ◌≡◌, List, [], ◌∷◌, ◌++◌, Option, none, some, ◌==◌, if◌then◌else◌, arith,
}
use llvm_study.Containers.{Eq}

abbrev pub u32 : ℕ → ℕ
u32 n = n % 2 ^ 32

-- The entry of a key that was met `n` times: none, or `n` as an `unsigned`.
abbrev pub tally : ℕ → Option ℕ
tally n = if n == 0 then none else some (u32 n)

module _ {ℓ} {K : Type ℓ} ⦃e : Eq K⦄ where
  abbrev pub occurrences : K → List K → ℕ
  occurrences k [] = 0
  occurrences k (x ∷ xs) = (if e.beq x k then 1 else 0) + occurrences k xs

  pub occurrences-append :
      (k : K) (xs ys : List K) → occurrences k (xs ++ ys) ≡ occurrences k xs + occurrences k ys
  occurrences-append k [] ys = omega arith
  occurrences-append k (x ∷ xs) ys = omega (arith, occurrences-append k xs ys)
