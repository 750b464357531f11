-- ===== src/Containers.antt =====
-- The containers of LLVM's and C++'s libraries that the passes keep their results in, as far as
-- their documentation says what they hold: a map as the list of its entries, in the order of their
-- insertion (which MapVector keeps, and StringMap does not promise), and a set of pointers as a
-- list.
pub mod Laws
use llvm_study.Base.{
  ℕ, ◌≡◌, ◌↔◌, Bool, true, false, ◌||◌, List, [], ◌∷◌, ◌++◌, Option, none, some, if◌then◌else◌,
  ◌==◌, ==_iff,
}

-- Keys are compared: pointers by address, strings by content.
pub record Eq {ℓ} (K : Type ℓ) : Type ℓ where
  pub beq : K → K → Bool
  pub beq_iff : (a b : K) → (beq a b ≡ true) ↔ (a ≡ b)

instance abbrev pub address_eq : Eq ℕ
address_eq = record { beq = ◌==◌; beq_iff = ==_iff }

module _ {ℓ} {K : Type ℓ} ⦃e : Eq K⦄ where
  module _ {κ} {V : Type κ} where
    -- `find`.
    unfoldable pub find : K → List (K × V) → Option V
    find k [] = none
    find k ((j, v) ∷ m) = if e.beq j k then some v else find k m

    -- `m[k]` as a value, where a missing key has the default.
    unfoldable pub at : V → K → List (K × V) → V
    at d k [] = d
    at d k ((j, v) ∷ m) = if e.beq j k then v else at d k m

    -- `m[k] = f(m[k])`, where `m[k]` enters a missing key with the default.
    unfoldable pub modify : V → K → (V → V) → List (K × V) → List (K × V)
    modify d k f [] = (k, f d) ∷ []
    modify d k f ((j, v) ∷ m) = if e.beq j k then (j, f v) ∷ m else (j, v) ∷ modify d k f m

    abbrev pub keys : List (K × V) → List K
    keys [] = []
    keys ((j, v) ∷ m) = j ∷ keys m

  -- `set.count(x)`.
  unfoldable pub has : K → List K → Bool
  has x [] = false
  has x (y ∷ s) = if e.beq y x then true else has x s

  -- `set.insert(x)`.
  unfoldable pub insert : K → List K → List K
  unfolding has
  insert x s = if has x s then s else s ++ x ∷ []

  -- `set.insert(begin, end)`.
  unfoldable pub insert_all : List K → List K → List K
  unfolding insert
  insert_all [] s = s
  insert_all (x ∷ xs) s = insert_all xs (insert x s)
