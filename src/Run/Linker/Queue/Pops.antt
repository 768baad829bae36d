-- ===== src/Run/Linker/Queue/Pops.antt =====
-- What `pop` takes from the queue, and what `redux` adds to it (src/run/linker.rs).
use hvm.Prelude.{
  ℕ, suc, ◌+◌, ◌≡◌, refl, true, false, ◌&&◌, Option, none, some, List, [], ◌∷◌, ◌++◌, sym, ◌⊎◌, inl,
  inr, Bool-cases, arith, ap, ◌∙◌,
}
use mathlib.Core.List.{reverse, reverse-cons, append_assoc, append-nil}
use hvm.Run.Port.{is_skippable, is_principal}
use hvm.Run.Linker.{Linker, RedexQueue, ok}
use hvm.Run.Linker.Queue.{pop, len, iter, is_empty, redex_would_shrink, push_fast, push_slow}
use hvm.Run.Linker.Link.{redux}
use hvm.Run.Linker.Joins.{queue, redux-queue}

-- What is known of a queue by the result of `pop`.
abbrev pub Popped : RedexQueue → Option ((ℕ × ℕ) × RedexQueue) → Type 0
Popped q none = (iter q ≡ []) × (len q ≡ 0) × (is_empty q ≡ true)
Popped q (some (r, q')) =
    (front back : List (ℕ × ℕ)) × (iter q ≡ front ++ r ∷ back)
    × (iter q' ≡ front ++ back)
    × (len q ≡ suc (len q'))
    × (is_empty q ≡ false)
    × (q'.slow ≡ q.slow ⊎ ((q.fast ≡ []) × (q'.fast ≡ [])))

fast_queue : (fast slow : List (ℕ × ℕ)) → RedexQueue
fast_queue fast slow = record { fast = fast; slow = slow }

popped : (fast slow : List (ℕ × ℕ)) → Popped (fast_queue fast slow) (pop (fast_queue fast slow))
unfolding pop len iter is_empty fast_queue
popped [] [] = (refl, refl, refl)
popped [] (r ∷ slow) = (
  reverse slow,
  [],
  reverse-cons r slow,
  sym (append-nil (reverse slow)),
  omega arith,
  refl,
  inr (refl, refl),
)
popped (r ∷ fast) slow = (
  reverse fast,
  reverse slow,
  ap (λ (x : List (ℕ × ℕ)). x ++ reverse slow) (reverse-cons r fast)
      ∙ append_assoc (reverse fast) (r ∷ []) (reverse slow),
  refl,
  omega arith,
  refl,
  inl refl,
)

-- `pop` finds nothing exactly in the empty queue. Otherwise it takes one pair out of the pairs in
-- their order, the length goes down by one, and it takes a slow pair only if there is no fast one.
pub pop-Popped : (q : RedexQueue) → Popped q (pop q)
unfolding fast_queue
pop-Popped q = popped q.fast q.slow

slow_first :
    (fast slow : List (ℕ × ℕ)) (r : ℕ × ℕ)
    → fast ≡ []
    → pop (push_slow (fast_queue fast slow) r) ≡ some (r, fast_queue fast slow)
unfolding pop push_slow fast_queue
slow_first [] slow r e = refl
slow_first (x ∷ xs) slow r e = absurd (cc e)

pop-push :
    (q : RedexQueue) (r : ℕ × ℕ)
    → (pop (push_fast q r) ≡ some (r, q)) × (q.fast ≡ [] → pop (push_slow q r) ≡ some (r, q))
unfolding pop push_fast push_slow fast_queue
pop-push q r = (refl, slow_first q.fast q.slow r)

-- One pair more in the order of the pairs, wherever it stands.
abbrev pub Inserted : (q q' : RedexQueue) → ℕ × ℕ → Type 0
Inserted q q' r =
    (front back : List (ℕ × ℕ)) × (iter q ≡ front ++ back) × (iter q' ≡ front ++ r ∷ back)

-- Two skippable ports are counted as an erasure and are not queued.
abbrev pub Erased : (l l' : Linker) (a b : ℕ) → Type 0
Erased l l' a b =
    ((is_skippable a && is_skippable b) ≡ true)
    × (l'.rwts ≡ record (l.rwts) { eras = l.rwts.eras + 1 })
    × (l'.redexes ≡ l.redexes)

-- Any other pair joins the queue and nothing is counted. It is the next to be popped if it would shrink
-- or no fast pair waits, and the fast pairs are as before if it would not shrink.
abbrev pub Waits : (l l' : Linker) (a b : ℕ) → Type 0
Waits l l' a b =
    ((is_skippable a && is_skippable b) ≡ false)
    × (l'.rwts ≡ l.rwts)
    × Inserted l.redexes l'.redexes (a, b)
    × (len l'.redexes ≡ suc (len l.redexes))
    × ((redex_would_shrink a b ≡ true ⊎ l.redexes.fast ≡ [])
        → pop l'.redexes ≡ some ((a, b), l.redexes))
    × (redex_would_shrink a b ≡ true ⊎ l'.redexes.fast ≡ l.redexes.fast)

push_fast-Inserted : (q : RedexQueue) (r : ℕ × ℕ) → Inserted q (push_fast q r) r
unfolding push_fast iter
push_fast-Inserted q r = (
  reverse q.fast,
  reverse q.slow,
  refl,
  ap (λ (x : List (ℕ × ℕ)). x ++ reverse q.slow) (reverse-cons r q.fast)
      ∙ append_assoc (reverse q.fast) (r ∷ []) (reverse q.slow),
)

push_slow-Inserted : (q : RedexQueue) (r : ℕ × ℕ) → Inserted q (push_slow q r) r
unfolding push_slow iter
push_slow-Inserted q r = (
  reverse q.fast ++ reverse q.slow,
  [],
  sym (append-nil (reverse q.fast ++ reverse q.slow)),
  ap (λ (x : List (ℕ × ℕ)). reverse q.fast ++ x) (reverse-cons r q.slow)
      ∙ sym (append_assoc (reverse q.fast) (reverse q.slow) (r ∷ [])),
)

-- In strict mode, for two principal ports, `redux` returns and leaves the heap. If both are skippable it
-- counts one erasure and leaves the queue; otherwise it counts nothing and puts the pair in the queue:
-- next to be popped if it would shrink or no fast pair waits, and behind the fast pairs if it would not.
pub redux-pop :
    (l : Linker) (a b : ℕ)
    → l.lazy ≡ false
    → is_principal a ≡ true
    → is_principal b ≡ true
    → (l' : Linker) × (redux a b l ≡ ok tt l')
      × (l'.allocator ≡ l.allocator)
      × (Erased l l' a b ⊎ Waits l l' a b)
unfolding len queue
redux-pop l a b strict h k = elim (Bool-cases (is_skippable a && is_skippable b)) [
  | inl skip ↦
      (queue l a b, redux-queue l a b strict h k, rw skip refl, rw skip (inl (refl, refl, refl)))
  | inr both ↦ elim (Bool-cases (redex_would_shrink a b)) [
    | inl fast ↦ (
      queue l a b,
      redux-queue l a b strict h k,
      rw both refl,
      inr (
        both,
        rw both refl,
        rw (both, fast) (push_fast-Inserted l.redexes (a, b)),
        rw (both, fast) (unfold push_fast in omega arith),
        (λ _. rw (both, fast) ((pop-push l.redexes (a, b)).0)),
        inl fast,
      ),
    )
    | inr slow ↦ (
      queue l a b,
      redux-queue l a b strict h k,
      rw both refl,
      inr (
        both,
        rw both refl,
        rw (both, slow) (push_slow-Inserted l.redexes (a, b)),
        rw (both, slow) (unfold push_slow in omega arith),
        (λ g.
            rw (both, slow)
              ((pop-push l.redexes (a, b)).1
                (elim g [ inl f ↦ absurd (cc (f, slow)) | inr e ↦ e ]))),
        inr (rw (both, slow) (unfold push_slow in refl)),
      ),
    )
  ]
]
