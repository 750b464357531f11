-- ===== src/MergeBb/Merge/Same/Observed.antt =====
-- What can be seen of a function that lib/MergeBB.cpp merged: its memory, and the values it returns.
use llvm_study.Base.{◌≡◌, refl, ◌∙◌}
use mathlib.Core.Bool.{false≢true}
use llvm_study.Ir.Exec.{Machine}
use llvm_study.Containers.{address_eq}
use llvm_study.MergeBb.Steps.{Config, Next, goes_on, ends_with, stuck}
use package.llvm_study.MergeBb.Merge.Same.{AgreeNext}

-- Both are under way with the same memory, or both have left the function with the same values and the
-- same memory, or both are stuck.
abbrev pub Observed : (m : Machine) → Next m.Mem → Next m.Mem → Type 0
Observed m = AgreeNext m (λ c d. c.state.mem ≡ d.state.mem)

pub Observed-refl : (m : Machine) (e : Next m.Mem) → Observed m e e
Observed-refl m (goes_on c) = refl
Observed-refl m (ends_with k vs mem) = (refl, refl, refl)
Observed-refl m stuck = tt

pub Observed-trans :
    (m : Machine) (e f g : Next m.Mem) → Observed m e f → Observed m f g → Observed m e g
Observed-trans m (goes_on c) (goes_on d) (goes_on e) h k = h ∙ k
Observed-trans m (ends_with a vs s) (ends_with b ws t) (ends_with c us u) h k =
    (h.0 ∙ k.0, h.1 ∙ k.1, h.2 ∙ k.2)
Observed-trans m stuck stuck stuck h k = tt
Observed-trans m (goes_on c) (ends_with b ws t) g h k = absurd (false≢true h)
Observed-trans m (goes_on c) stuck g h k = absurd (false≢true h)
Observed-trans m (ends_with a vs s) (goes_on d) g h k = absurd (false≢true h)
Observed-trans m (ends_with a vs s) stuck g h k = absurd (false≢true h)
Observed-trans m stuck (goes_on d) g h k = absurd (false≢true h)
Observed-trans m stuck (ends_with b ws t) g h k = absurd (false≢true h)
Observed-trans m (goes_on c) (goes_on d) (ends_with e us u) h k = absurd (false≢true k)
Observed-trans m (goes_on c) (goes_on d) stuck h k = absurd (false≢true k)
Observed-trans m (ends_with a vs s) (ends_with b ws t) (goes_on e) h k = absurd (false≢true k)
Observed-trans m (ends_with a vs s) (ends_with b ws t) stuck h k = absurd (false≢true k)
Observed-trans m stuck stuck (goes_on e) h k = absurd (false≢true k)
Observed-trans m stuck stuck (ends_with e us u) h k = absurd (false≢true k)

pub AgreeNext-map :
    (m : Machine) (R S : Config m.Mem → Config m.Mem → Type 0) (e f : Next m.Mem)
    → ((c d : Config m.Mem) → R c d → S c d)
    → AgreeNext m R e f
    → AgreeNext m S e f
AgreeNext-map m R S (goes_on c) (goes_on d) g h = g c d h
AgreeNext-map m R S (ends_with a vs s) (ends_with b ws t) g h = h
AgreeNext-map m R S stuck stuck g h = tt
AgreeNext-map m R S (goes_on c) (ends_with b ws t) g h = absurd (false≢true h)
AgreeNext-map m R S (goes_on c) stuck g h = absurd (false≢true h)
AgreeNext-map m R S (ends_with a vs s) (goes_on d) g h = absurd (false≢true h)
AgreeNext-map m R S (ends_with a vs s) stuck g h = absurd (false≢true h)
AgreeNext-map m R S stuck (goes_on d) g h = absurd (false≢true h)
AgreeNext-map m R S stuck (ends_with b ws t) g h = absurd (false≢true h)
