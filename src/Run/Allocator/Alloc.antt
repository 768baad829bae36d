-- ===== src/Run/Allocator/Alloc.antt =====
-- `alloc` keeps the allocator valid and hands out a node that is not in use.
use hvm.Prelude.{
  ℕ, ◌+◌, ◌*◌, ◌%◌, ◌≤◌, ◌<◌, ◌≡◌, refl, true, false, List, [], ◌∷◌, arith, ◌==◌, ltb, ◌⊎◌, inl,
  inr, none, some, ap,
}
use hvm.Run.Addr.{null}
use hvm.Run.Addr.Halves.{other_half-left}
use native.Mathlib.Decide.{dec_lt}
use hvm.Run.Port.{lock}
use hvm.Run.Allocator.{Allocator, write, store, taken, alloc}
use hvm.Run.Allocator.FreeList.{has, IsValid, IsLive, SameOutside, Chain-outside, AllNodes-mono}

-- What `alloc` gives: a node whose words are locked, while the words of every other node are as they
-- were and `xs` is left of the free list.
pub record Allocated (s : Allocator) (a : ℕ) (s' : Allocator) (xs : List ℕ) : Type 0 where
  pub valid : IsValid s' xs
  pub live : IsLive s' xs a
  pub first : s'.mem a ≡ lock
  pub second : s'.mem (a + 8) ≡ lock
  pub outside : SameOutside a s.mem s'.mem

lock_both : Allocator → ℕ → Allocator
lock_both s a = store (store s a lock) (a + 8) lock

lock_both_outside : (m : ℕ → ℕ) (a : ℕ) → SameOutside a m (write (write m a lock) (a + 8) lock)
unfolding write
lock_both_outside m a b p q = ground arith

taken_lem : (s : Allocator) (a : ℕ) → a % 16 ≡ 0 → taken s a ≡ (a, lock_both s a)
unfolding taken lock_both
taken_lem s a h = rw (other_half-left a h)

-- Locking a node that is in use.
locked :
    (t : Allocator) (xs : List ℕ) (a : ℕ)
    → IsValid t xs
    → IsLive t xs a
    → Allocated t a (lock_both t a) xs
unfolding lock_both write
locked t xs a valid live = record {
  valid = record {
    chain = Chain-outside t xs a _ valid live (lock_both_outside t.mem a);
    distinct = valid.distinct;
    all_nodes = AllNodes-mono t _ xs refl (omega arith) valid.all_nodes;
    aligned = valid.aligned;
    not_null = valid.not_null;
    fits = valid.fits;
    within = valid.within;
  };
  live = record {
    node = record { aligned = live.node.aligned; above = live.node.above; below = live.node.below };
    not_free = live.not_free;
  };
  first = ground arith;
  second = ground arith;
  outside = lock_both_outside t.mem a;
}

-- The allocator with the head of its list taken off.
module _ (s : Allocator) (x : ℕ) (ys : List ℕ) (valid : IsValid s (x ∷ ys)) where
  popped : Allocator
  popped = record s { head = s.mem x }

  popped-Allocated : Allocated popped x (lock_both popped x) ys
  unfolding popped
  popped-Allocated =
      locked _ ys x
        (record {
          chain = valid.chain.2;
          distinct = valid.distinct.1;
          all_nodes = AllNodes-mono s _ ys refl (omega arith) valid.all_nodes.1;
          aligned = valid.aligned;
          not_null = valid.not_null;
          fits = valid.fits;
          within = valid.within;
        })
        (record {
          node = record {
            aligned = valid.all_nodes.0.aligned;
            above = valid.all_nodes.0.above;
            below = valid.all_nodes.0.below;
          };
          not_free = valid.distinct.0;
        })

  alloc-popped : alloc s ≡ some (x, lock_both popped x)
  unfolding alloc popped
  alloc-popped =
      let x-big : 16 ≤ x = omega (arith, valid.all_nodes.0.above, valid.not_null) in
      let e : (x == null) ≡ false = ground arith in
      rw (valid.chain.0, e) (ap some (taken_lem _ x valid.all_nodes.0.aligned))

-- The allocator with one more node taken from the untouched end of the heap.
module _ (s : Allocator) (valid : IsValid s []) (room : s.next < s.nodes) where
  grown : Allocator
  grown = record s { next = s.next + 1 }

  grown-Allocated :
      Allocated grown (s.base + 16 * s.next) (lock_both grown (s.base + 16 * s.next)) []
  unfolding grown
  grown-Allocated =
      locked _ [] _
        (record {
          chain = valid.chain;
          distinct = tt;
          all_nodes = tt;
          aligned = valid.aligned;
          not_null = valid.not_null;
          fits = valid.fits;
          within = omega arith;
        })
        (record {
          node = record {
            aligned = omega (arith, valid.aligned);
            above = omega arith;
            below = omega arith;
          };
          not_free = refl;
        })

  alloc-grown : alloc s ≡ some (s.base + 16 * s.next, lock_both grown (s.base + 16 * s.next))
  unfolding alloc grown
  alloc-grown =
      let e : ltb s.next s.nodes ≡ true = ground arith in
      rw (valid.chain, e) (ap some (taken_lem _ _ (omega (arith, valid.aligned))))

alloc-full : (s : Allocator) → IsValid s [] → ¬ (s.next < s.nodes) → alloc s ≡ none
unfolding alloc
alloc-full s valid full = let e : ltb s.next s.nodes ≡ false = ground arith in rw (valid.chain, e)

has_head : (x : ℕ) (ys : List ℕ) → has x (x ∷ ys) ≡ true
has_head x ys = ground arith

abbrev pub tail : List ℕ → List ℕ
tail [] = []
tail (x ∷ xs) = xs

-- The outcome of `alloc` with the free list `xs`.
abbrev pub Outcome : Allocator → List ℕ → Type 0
Outcome s xs =
    ((alloc s ≡ none) × (xs ≡ []) × (s.next ≡ s.nodes))
    ⊎ ((a : ℕ) × (s' : Allocator) × (alloc s ≡ some (a, s'))
        × Allocated s a s' (tail xs)
        × ¬ IsLive s xs a)

-- On a valid heap `alloc` fails exactly when the free list is empty and every node has been handed
-- out. Otherwise it gives a node that was not live, with both words locked; the node is live
-- afterwards, the words of the other nodes are unchanged, and the allocator is valid with the rest
-- of the free list.
pub alloc-Outcome : (s : Allocator) (xs : List ℕ) → IsValid s xs → Outcome s xs
unfolding grown popped
alloc-Outcome s [] valid = elim (dec_lt s.next s.nodes) [
  | yes room ↦
      let done = grown-Allocated s valid room in
      inr (
        _,
        _,
        alloc-grown s valid room,
        record {
          valid = done.valid;
          live = done.live;
          first = done.first;
          second = done.second;
          outside = done.outside;
        },
        λ l. omega (arith, l.node.below),
      )
  | no full ↦ inl (alloc-full s valid full, refl, omega (arith, valid.within))
]
alloc-Outcome s (x ∷ ys) valid =
    let done = popped-Allocated s x ys valid in
    inr (
      _,
      _,
      alloc-popped s x ys valid,
      record {
        valid = done.valid;
        live = done.live;
        first = done.first;
        second = done.second;
        outside = done.outside;
      },
      λ l. cc (l.not_free, has_head x ys),
    )
