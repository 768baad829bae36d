-- ===== src/Run/Net/Reduce.antt =====
-- The strict loop in parts (src/run/net.rs).
use hvm.Prelude.{ℕ, zero, suc, ◌+◌, ◌-◌, ◌≤◌, ◌≡◌, refl, false, Option, none, some, arith, ◌∙◌}
use hvm.Run.Linker.{Linker, ok, Cmd, pure, ◌>>◌, and_then}
use hvm.Run.Linker.Sequence.{and_then_assoc, and_then-cong}
use hvm.Run.Interact.{Machine, interact}
use hvm.Run.Net.{assert_strict, reduce, reduce_loop, pop_redex}

assert_strict-ok : (l : Linker) → l.lazy ≡ false → assert_strict l ≡ ok tt l
unfolding assert_strict
assert_strict-ok l strict = ground arith

module _ {F : Type 0} (machine : Machine F) where
  -- After a loop that has counted to its limit, another one.
  abbrev pub resume : (count more : ℕ) → Option ℕ → Cmd (Option ℕ)
  resume count more (some n) = pure (some n)
  resume count more none = reduce_loop machine more count

  loop-split :
      (m n count : ℕ) (l : Linker)
      → reduce_loop machine (m + suc n) count l
        ≡ and_then (reduce_loop machine m count l) (resume (count + suc m) n)
  unfolding reduce_loop
  loop-split zero n count l =
      let e : 0 + suc n ≡ suc n = omega arith in
      rw e (
        and_then-cong (pop_redex l) _ _ at_pop
        ∙ and_then_assoc (pop_redex l) _ (resume (count + 1) n))
    where
      at_pop :
          (r : Option (ℕ × ℕ)) (l : Linker)
          → (elim r as (λ x. Cmd (Option ℕ)) [
            | none ↦ pure (some count)
            | some (a, b) ↦ (do interact machine a b; reduce_loop machine n (count + 1))
          ])
              l
            ≡ and_then
                ((elim r as (λ x. Cmd (Option ℕ)) [
                  | none ↦ pure (some count)
                  | some (a, b) ↦ (do interact machine a b; pure none)
                ])
                  l)
                (resume (count + 1) n)
      at_pop none l = refl
      at_pop (some (a, b)) l = and_then_assoc (interact machine a b l) _ (resume (count + 1) n)
  loop-split (suc m) n count l =
      let e : suc m + suc n ≡ suc (m + suc n) = omega arith in
      rw e (
        and_then-cong (pop_redex l) _ _ (at_pop (loop-split m n (count + 1)))
        ∙ and_then_assoc (pop_redex l) _ (resume (count + suc (suc m)) n))
    where
      Next : Type 0
      Next =
          (l : Linker)
          → reduce_loop machine (m + suc n) (count + 1) l
            ≡ and_then (reduce_loop machine m (count + 1) l) (resume (count + 1 + suc m) n)

      at_pop :
          (ih : Next) (r : Option (ℕ × ℕ)) (l : Linker)
          → (elim r as (λ x. Cmd (Option ℕ)) [
            | none ↦ pure (some count)
            | some (a, b) ↦ (do interact machine a b; reduce_loop machine (m + suc n) (count + 1))
          ])
              l
            ≡ and_then
                ((elim r as (λ x. Cmd (Option ℕ)) [
                  | none ↦ pure (some count)
                  | some (a, b) ↦ (do interact machine a b; reduce_loop machine m (count + 1))
                ])
                  l)
                (resume (count + suc (suc m)) n)
      at_pop ih none l = refl
      at_pop ih (some (a, b)) l =
          and_then-cong (interact machine a b l) _ _
            (λ _ l'. let e : count + suc (suc m) ≡ count + 1 + suc m = omega arith in rw e (ih l'))
          ∙ and_then_assoc (interact machine a b l) _ (resume (count + suc (suc m)) n)

  -- In strict mode `reduce` with the limit `m + n`, both at least 1, is `reduce` with the limit `m`
  -- and, if that stops at its limit, the loop again for at most `n` interactions, counting on from `m`.
  pub reduce-split :
      (m n : ℕ) (l : Linker)
      → 1 ≤ m
      → 1 ≤ n
      → l.lazy ≡ false
      → reduce machine (m + n) l ≡ and_then (reduce machine m l) (resume m (n - 1))
  unfolding reduce
  reduce-split (suc m) (suc n) l hm hn strict =
      let a : suc m + suc n - 1 ≡ m + suc n = omega arith in
      let b : suc m - 1 ≡ m = omega arith in
      let c : suc n - 1 ≡ n = omega arith in
      let d : 0 + suc m ≡ suc m = omega arith in
      rw (assert_strict-ok l strict, a, b, c) (rw (← d) (loop-split m n 0 l))
  reduce-split zero n l hm hn strict = absurd (omega arith)
  reduce-split (suc m) zero l hm hn strict = absurd (omega arith)
