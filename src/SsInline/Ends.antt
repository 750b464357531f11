-- ===== src/SsInline/Ends.antt =====
-- The loop `while (inlineOnce(*Caller))` of `runOnModule`.
use llvm_study.Base.{
  ℕ, zero, suc, ◌+◌, ◌≤◌, ◌<◌, ◌≡◌, refl, ap, ap₂, ◌∙◌, Bool, true, false, ◌||◌, List, [], ◌∷◌,
  ◌++◌, map, Option, none, some, Option-cases, Bool-cases, inl, inr, ◌==◌, arith,
}
use mathlib.Core.Option.{none-ne-some}
use mathlib.Core.Path.{subst}
use llvm_study.Ir.{Value, Instr}
use llvm_study.Containers.{address_eq, modify}
use llvm_study.Counters.StaticCallCounter.{CallSites}
use package.llvm_study.SsInline.{
  Callee, is_terminator, clone_inst, Inlined, inline_insts, all_insts, set_use, update_user,
  update_users, Site, Outcome, nothing, undefined, inlined, called, find_site, set_ret_val,
  inline_site, inline_from, inline_once, Ended, finished, failed, out_of_fuel, inline_all,
}

abbrev pub one_if {ℓ} : {A : Type ℓ} → Option A → ℕ
one_if none = 0
one_if (some x) = 1

abbrev if_call : Bool → ℕ
if_call true = 1
if_call false = 0

module _ (sites : CallSites Instr ℕ) (is_call : Instr → Bool) (functions : ℕ → Callee)
    (users_met : List (List Instr) → ℕ → Option Value → List ℕ) where
  -- How many calls there are, direct or not.
  abbrev pub count_in : List Instr → ℕ
  count_in [] = 0
  count_in (x ∷ xs) = if_call (is_call x) + count_in xs

  abbrev pub count_calls : List (List Instr) → ℕ
  count_calls [] = 0
  count_calls (b ∷ bs) = count_in b + count_calls bs

  -- How many direct calls there are.
  abbrev pub direct_in : List Instr → ℕ
  direct_in [] = 0
  direct_in (x ∷ xs) = one_if (called sites is_call functions users_met x) + direct_in xs

  abbrev pub count_direct : List (List Instr) → ℕ
  count_direct [] = 0
  count_direct (b ∷ bs) = direct_in b + count_direct bs

  direct_in-append : (xs ys : List Instr) → direct_in (xs ++ ys) ≡ direct_in xs + direct_in ys
  direct_in-append [] ys = omega arith
  direct_in-append (x ∷ xs) ys = omega (arith, direct_in-append xs ys)

  pub direct_in-all_insts : (bs : List (List Instr)) → direct_in (all_insts bs) ≡ count_direct bs
  direct_in-all_insts [] = refl
  direct_in-all_insts (b ∷ bs) =
      omega (arith, direct_in-append b (all_insts bs), direct_in-all_insts bs)

  called-is_call :
      (x : Instr) (f : ℕ) → called sites is_call functions users_met x ≡ some f → is_call x ≡ true
  called-is_call x f h = elim (Bool-cases (is_call x)) [
    | inl e ↦ e
    | inr e ↦ absurd (none-ne-some f (rw e at h))
  ]

  count_in-append : (xs ys : List Instr) → count_in (xs ++ ys) ≡ count_in xs + count_in ys
  count_in-append [] ys = omega arith
  count_in-append (x ∷ xs) ys = omega (arith, count_in-append xs ys)

  count_calls-append :
      (xs ys : List (List Instr)) → count_calls (xs ++ ys) ≡ count_calls xs + count_calls ys
  count_calls-append [] ys = omega arith
  count_calls-append (x ∷ xs) ys = omega (arith, count_calls-append xs ys)

  abbrev pub is_positive : ℕ → Bool
  is_positive zero = false
  is_positive (suc k) = true

  -- What the loop ends with, from `k` direct calls: undefined behaviour, or no direct call, and
  -- whether there was a change.
  abbrev pub Ends : ℕ → Bool → Ended sites is_call functions users_met → Type 0
  Ends k changed (finished bs changed') =
      (count_direct bs ≡ 0) × (changed' ≡ (changed || is_positive k))
  Ends k changed failed = Unit
  Ends k changed out_of_fuel = ⊥

  -- What the search finds.
  abbrev Finds : List Instr → Option Site → Type 0
  Finds xs none = direct_in xs ≡ 0
  Finds xs (some s) = (count_in xs ≡ count_in s.before + count_in s.after + 1) × (1 ≤ direct_in xs)

  find_site-Finds : (xs : List Instr) → Finds xs (find_site sites is_call functions users_met xs)
  unfolding find_site
  find_site-Finds [] = refl
  find_site-Finds (x ∷ xs) = elim (Option-cases (called sites is_call functions users_met x)) [
    | inl e ↦ elim (Option-cases (find_site sites is_call functions users_met xs)) [
      | inl e' ↦
          rw (e, e', find_site)
            (omega (arith, ap one_if e, subst (Finds xs) e' (find_site-Finds xs)))
      | inr (s, e') ↦
          let found = subst (Finds xs) e' (find_site-Finds xs) in
          rw (e, e', find_site) (omega (arith, found.0), omega (arith, found.1))
    ]
    | inr (f, e) ↦
        rw (e, find_site) (rw (called-is_call x f e) (omega arith), omega (arith, ap one_if e))
  ]

  module _
      (stable : (x : Instr) (i : ℕ) (ops : List Value)
        → is_call (record x { id = i; operands = ops }) ≡ is_call x)
      (leaf : (f : ℕ) → count_calls (functions f).blocks ≡ 0) where
    one_if-same :
        (x : Instr) (i : ℕ) (ops : List Value)
        → if_call (is_call (record x { id = i; operands = ops })) ≡ if_call (is_call x)
    one_if-same x i ops = ap if_call (stable x i ops)

    count_in-update_user :
        (u id : ℕ) (v : Value) (xs : List Instr) → count_in (update_user u id v xs) ≡ count_in xs
    count_in-update_user u id v [] = refl
    count_in-update_user u id v (x ∷ xs) = elim (Bool-cases (x.id == u)) [
      | inl e ↦
          rw e (
            ap₂ ◌+◌ (one_if-same x x.id (set_use id v x.operands)) (count_in-update_user u id v xs))
      | inr e ↦ rw e (ap (λ c. if_call (is_call x) + c) (count_in-update_user u id v xs))
    ]

    count_calls-map :
        (u id : ℕ) (v : Value) (bs : List (List Instr))
        → count_calls (map (update_user u id v) bs) ≡ count_calls bs
    count_calls-map u id v [] = refl
    count_calls-map u id v (b ∷ bs) =
        omega (arith, count_in-update_user u id v b, count_calls-map u id v bs)

    count_calls-update_users :
        (us : List ℕ) (id : ℕ) (v : Value) (bs : List (List Instr))
        → count_calls (update_users us id v bs) ≡ count_calls bs
    unfolding update_users
    count_calls-update_users [] id v bs = refl
    count_calls-update_users (u ∷ us) id v bs =
        count_calls-update_users us id v (map (update_user u id v) bs) ∙ count_calls-map u id v bs

    pub count_in-all_insts : (bs : List (List Instr)) → count_in (all_insts bs) ≡ count_calls bs
    count_in-all_insts [] = refl
    count_in-all_insts (b ∷ bs) =
        omega (arith, count_in-append b (all_insts bs), count_in-all_insts bs)

    -- No call is left by a call's inlining, where the inlining is defined.
    abbrev NoCalls : Option Inlined → Type 0
    NoCalls none = Unit
    NoCalls (some r) = count_in r.insts ≡ 0

    inline_insts-NoCalls :
        (args : List ℕ) (call : Instr) (xs : List Instr) (vmap : List (ℕ × ℕ)) (ret : Option Value)
        (n : ℕ)
        → count_in xs ≡ 0
        → NoCalls (inline_insts args call xs vmap ret n)
    unfolding inline_insts
    inline_insts-NoCalls args call [] vmap ret n h = refl
    inline_insts-NoCalls args call (x ∷ xs) vmap ret n h =
        let vmap' = modify n x.id (λ _. n) vmap in
        let c = clone_inst args call vmap' n x in
        elim (Bool-cases (is_terminator x.kind)) [
          | inl e ↦
              rw (NoCalls, e)
                (elim (c.operands)
                  as (λ ops. NoCalls (elim ops [
                    | [] ↦ none
                    | v ∷ _ ↦ inline_insts args call xs vmap' (some v) (n + 1)
                  ])) [
                    | [] ↦ tt
                    | v ∷ vs ↦
                        inline_insts-NoCalls args call xs vmap' (some v) (n + 1) (omega (arith, h))
                  ])
          | inr e ↦
              rw (NoCalls, e)
                (elim (inline_insts args call xs vmap' ret (n + 1))
                    as (λ o.
                      NoCalls o
                      → NoCalls (elim o [
                        | none ↦ none
                        | some r ↦ some (record r { insts = c ∷ r.insts })
                      ])) [
                        | none ↦ λ _. tt
                        | some r ↦ λ i. omega (arith, h, i, one_if-same x n c.operands)
                      ]
                  (inline_insts-NoCalls args call xs vmap' ret (n + 1) (omega (arith, h))))
        ]

    -- The outcome of a step from `k` calls, `d` of them direct.
    abbrev Steps : ℕ → ℕ → Outcome → Type 0
    Steps d k nothing = d ≡ 0
    Steps d k undefined = Unit
    Steps d k (inlined bs n) = (k ≡ count_calls bs + 1) × (1 ≤ d)

    set_ret_val-Steps :
        (d : ℕ) (us : List ℕ) (id : ℕ) (ret : Option Value) (bs : List (List Instr)) (n : ℕ)
        → 1 ≤ d
        → Steps d
            (count_calls bs + 1)
            (set_ret_val sites is_call functions users_met us id ret bs n)
    unfolding set_ret_val
    set_ret_val-Steps d [] id ret bs n h = (refl, h)
    set_ret_val-Steps d (u ∷ us) id none bs n h = tt
    set_ret_val-Steps d (u ∷ us) id (some v) bs n h =
        (omega (arith, count_calls-update_users (u ∷ us) id v bs), h)

    inline_site-Steps :
        (d : ℕ) (earlier : List (List Instr)) (s : Site) (later : List (List Instr)) (n : ℕ)
        → 1 ≤ d
        → Steps d
            (count_calls earlier + (count_in s.before + count_in s.after + 1 + count_calls later))
            (inline_site sites is_call functions users_met earlier s later n)
    unfolding inline_site
    inline_site-Steps d earlier s later n h =
        let f = functions s.callee in
        elim (inline_insts f.args s.call (all_insts f.blocks) [] none n)
            as (λ o.
              NoCalls o
              → Steps d
                  (count_calls earlier
                    + (count_in s.before + count_in s.after + 1 + count_calls later))
                  (elim o [
                    | none ↦ undefined
                    | some r ↦
                        set_ret_val sites is_call functions users_met
                          (users_met
                            (earlier ++ (s.before ++ (r.insts ++ s.call ∷ s.after)) ∷ later)
                            s.call.id r.ret_val)
                          s.call.id r.ret_val
                          (earlier ++ (s.before ++ (r.insts ++ s.after)) ∷ later) r.next
                  ])) [
                    | none ↦ λ _. tt
                    | some r ↦ λ i.
                        let bs = earlier ++ (s.before ++ (r.insts ++ s.after)) ∷ later in
                        let us =
                          users_met (earlier ++ (s.before ++ (r.insts ++ s.call ∷ s.after)) ∷ later)
                            s.call.id r.ret_val in
                        subst
                          (λ k. Steps d k (
                            set_ret_val sites is_call functions users_met us s.call.id r.ret_val bs
                              r.next))
                          (omega (
                            arith,
                            i,
                            count_calls-append earlier ((s.before ++ (r.insts ++ s.after)) ∷ later),
                            count_in-append s.before (r.insts ++ s.after),
                            count_in-append r.insts s.after,
                          ))
                          (set_ret_val-Steps d us s.call.id r.ret_val bs r.next h)
                  ]
          (inline_insts-NoCalls f.args s.call (all_insts f.blocks) [] none n
            (count_in-all_insts f.blocks ∙ leaf s.callee))

    inline_from-Steps :
        (earlier bs : List (List Instr)) (n : ℕ)
        → Steps
            (count_direct bs)
            (count_calls earlier + count_calls bs)
            (inline_from sites is_call functions users_met earlier bs n)
    unfolding inline_from
    inline_from-Steps earlier [] n = refl
    inline_from-Steps earlier (b ∷ bs) n =
        elim (find_site sites is_call functions users_met b)
            as (λ o.
              Finds b o
              → Steps (direct_in b + count_direct bs)
                  (count_calls earlier + (count_in b + count_calls bs))
                  (elim o [
                    | none ↦ inline_from sites is_call functions users_met (earlier ++ b ∷ []) bs n
                    | some s ↦ inline_site sites is_call functions users_met earlier s bs n
                  ])) [
                    | none ↦ λ none_in.
                        let rest =
                          inline_from sites is_call functions users_met (earlier ++ b ∷ []) bs n in
                        subst
                          (λ d. Steps d (count_calls earlier + (count_in b + count_calls bs)) rest)
                          (omega (arith, none_in))
                          (subst (λ k. Steps (count_direct bs) k rest)
                            (omega (arith, count_calls-append earlier (b ∷ [])))
                            (inline_from-Steps (earlier ++ b ∷ []) bs n))
                    | some s ↦ λ found.
                        let d = direct_in b + count_direct bs in
                        subst
                          (λ k.
                            Steps d k
                              (inline_site sites is_call functions users_met earlier s bs n))
                          (omega (arith, found.0))
                          (inline_site-Steps d earlier s bs n (omega (arith, found.1)))
                  ]
          (find_site-Finds b)

    no_more : (k : ℕ) (changed : Bool) → k ≡ 0 → changed ≡ (changed || is_positive k)
    no_more zero true h = refl
    no_more zero false h = refl
    no_more (suc k) changed h = absurd (omega (arith, h))

    pub one_more : (k : ℕ) (changed : Bool) → 1 ≤ k → true ≡ (changed || is_positive k)
    one_more zero changed h = absurd (omega (arith, h))
    one_more (suc k) true h = refl
    one_more (suc k) false h = refl

    Ends-step :
        (k c : ℕ) (changed : Bool) (e : Ended sites is_call functions users_met)
        → 1 ≤ k
        → Ends c true e
        → Ends k changed e
    Ends-step k c changed (finished bs changed') h ends = (ends.0, ends.1 ∙ one_more k changed h)
    Ends-step k c changed failed h ends = tt
    Ends-step k c changed out_of_fuel h ends = ends

    pub inline_all-Ends :
        (fuel : ℕ) (blocks : List (List Instr)) (n : ℕ) (changed : Bool)
        → count_calls blocks < fuel
        → Ends
            (count_direct blocks)
            changed
            (inline_all sites is_call functions users_met fuel blocks n changed)
    unfolding inline_all
    inline_all-Ends zero blocks n changed lt = omega (arith, lt)
    inline_all-Ends (suc fuel) blocks n changed lt =
        elim (inline_once sites is_call functions users_met blocks n)
            as (λ o.
              Steps (count_direct blocks) (count_calls blocks) o
              → Ends (count_direct blocks) changed (elim o [
                | nothing ↦ finished blocks changed
                | undefined ↦ failed
                | inlined blocks' n' ↦
                    inline_all sites is_call functions users_met fuel blocks' n' true
              ])) [
                | nothing ↦ λ k. (k, no_more (count_direct blocks) changed k)
                | undefined ↦ λ _. tt
                | inlined blocks' n' ↦ λ k.
                    Ends-step (count_direct blocks) (count_direct blocks') changed
                      (inline_all sites is_call functions users_met fuel blocks' n' true) k.1
                      (inline_all-Ends fuel blocks' n' true (omega (arith, k.0, lt)))
              ]
          (subst
            (λ k.
              Steps (count_direct blocks) k
                (inline_once sites is_call functions users_met blocks n))
            (omega arith) (inline_from-Steps [] blocks n))
