-- ===== src/Containers/Laws.antt =====
-- The laws of the containers.
use llvm_study.Base.{◌≡◌, refl, true, ◌||◌, List, [], ◌∷◌, ◌++◌, some, if◌then◌else◌, arith}
use mathlib.Core.Option.{get_or}
use package.llvm_study.Containers.{Eq, find, at, modify, has, insert, insert_all, keys}

module _ {ℓ} {K : Type ℓ} ⦃e : Eq K⦄ where
  pub beq_self : (k : K) → e.beq k k ≡ true
  beq_self k = (e.beq_iff k k).1 refl

  module _ {κ} {V : Type κ} where
    pub at-modify :
        (d : V) (k j : K) (f : V → V) (m : List (K × V))
        → at d j (modify d k f m) ≡ (if e.beq k j then f (at d k m) else at d j m)
    unfolding at modify
    at-modify d k j f [] = refl
    at-modify d k j f ((i, v) ∷ m) =
        ground (arith, e.beq_iff i k, e.beq_iff i j, e.beq_iff k j, at-modify d k j f m)

    -- The same, where the entry and the look-up have defaults of their own.
    pub at-modify_default :
        (d c : V) (k j : K) (f : V → V) (m : List (K × V))
        → at d j (modify c k f m) ≡ (if e.beq k j then f (at c k m) else at d j m)
    unfolding at modify
    at-modify_default d c k j f [] = refl
    at-modify_default d c k j f ((i, v) ∷ m) =
        ground (arith, e.beq_iff i k, e.beq_iff i j, e.beq_iff k j, at-modify_default d c k j f m)

    pub find-modify :
        (d : V) (k j : K) (f : V → V) (m : List (K × V))
        → find j (modify d k f m) ≡ (if e.beq k j then some (f (at d k m)) else find j m)
    unfolding at find modify
    find-modify d k j f [] = refl
    find-modify d k j f ((i, v) ∷ m) =
        ground (arith, e.beq_iff i k, e.beq_iff i j, e.beq_iff k j, find-modify d k j f m)

    -- What `m[k]` reads is the entry, or the default.
    pub at-eq-find : (d : V) (k : K) (m : List (K × V)) → at d k m ≡ get_or (find k m) d
    unfolding at find
    at-eq-find d k [] = refl
    at-eq-find d k ((j, v) ∷ m) = ground (arith, at-eq-find d k m)

    pub keys-modify :
        (d : V) (k : K) (f : V → V) (m : List (K × V)) → keys (modify d k f m) ≡ insert k (keys m)
    unfolding modify insert has
    keys-modify d k f [] = refl
    keys-modify d k f ((j, v) ∷ m) = ground (arith, keys-modify d k f m)

  pub has-append : (x : K) (s t : List K) → has x (s ++ t) ≡ (has x s || has x t)
  unfolding has
  has-append x [] t = refl
  has-append x (y ∷ s) t = ground (arith, has-append x s t)

  pub has-insert : (x y : K) (s : List K) → has x (insert y s) ≡ (has x s || e.beq y x)
  unfolding has insert
  has-insert x y s = ground (arith, has-append x s (y ∷ []), e.beq_iff y x)

  pub has-insert_all : (x : K) (ys s : List K) → has x (insert_all ys s) ≡ (has x s || has x ys)
  unfolding has insert_all
  has-insert_all x [] s = ground arith
  has-insert_all x (y ∷ ys) s = ground (arith, has-insert_all x ys (insert y s), has-insert x y s)
