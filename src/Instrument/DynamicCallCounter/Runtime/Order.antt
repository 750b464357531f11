-- ===== src/Instrument/DynamicCallCounter/Runtime/Order.antt =====
-- The order in which lib/DynamicCallCounter.cpp meets the items of its StringMap, which is that of hashes.
use llvm_study.Base.{◌≡◌, refl, sym, ap, true, List, [], ◌∷◌, map, All}
use mathlib.Core.Path.{subst}
use mathlib.Core.List.{Permᴰ}
use llvm_study.Containers.{has}
use llvm_study.Instrument.{Text, text_eq}
use package.llvm_study.Instrument.DynamicCallCounter.Runtime.Pairs.{pairs}

pub Permᴰ-map {ℓ κ} :
    {A : Type ℓ} {B : Type κ} (f : A → B) {xs ys : List A}
    → Permᴰ xs ys
    → Permᴰ (map f xs) (map f ys)
Permᴰ-map f Permᴰ.nil = Permᴰ.nil
Permᴰ-map f (Permᴰ.cons e p) = Permᴰ.cons (ap f e) (Permᴰ-map f p)
Permᴰ-map f (Permᴰ.swap e e') = Permᴰ.swap (ap f e) (ap f e')
Permᴰ-map f (Permᴰ.trans p q) = Permᴰ.trans (Permᴰ-map f p) (Permᴰ-map f q)

pub All-Permᴰ {ℓ} :
    {A : Type ℓ} (P : A → Type 0) {xs ys : List A} → Permᴰ xs ys → All P ys → All P xs
All-Permᴰ P Permᴰ.nil h = tt
All-Permᴰ P (Permᴰ.cons {a = a} {b = b} e p) h = (subst P (sym e) h.0, All-Permᴰ P p h.1)
All-Permᴰ P (Permᴰ.swap e e') h = (subst P (sym e) h.1.0, (subst P (sym e') h.0, h.1.1))
All-Permᴰ P (Permᴰ.trans p q) h = All-Permᴰ P p (All-Permᴰ P q h)

-- An item of the map that has `g k` for each of the keys.
abbrev pub IsItem : (Text → Text) → List Text → Text × Text → Type 0
IsItem g keys item = (item.1 ≡ g item.0) × (has item.0 keys ≡ true)

pub pairs-IsItem :
    (g : Text → Text) (keys ks : List Text)
    → All (λ k. has k keys ≡ true) ks
    → All (IsItem g keys) (pairs g ks)
pairs-IsItem g keys [] h = tt
pairs-IsItem g keys (k ∷ ks) h = ((refl, h.0), pairs-IsItem g keys ks h.1)

pub map-pairs {ℓ} :
    {B : Type ℓ} (g : Text → Text) (f : Text → B) (ks : List Text)
    → map (λ (item : Text × Text). f item.0) (pairs g ks) ≡ map f ks
map-pairs g f [] = refl
map-pairs g f (k ∷ ks) = ap (λ l. f k ∷ l) (map-pairs g f ks)
