-- ===== src/Run/Allocator/HalfFree.antt =====
-- `half_free` keeps the allocator valid: a word of a live node is freed, and the node goes to the
-- free list when its other word was free.
use hvm.Prelude.{ℕ, ◌+◌, ◌^◌, ◌<◌, ◌≡◌, ◌≢◌, refl, List, ◌∷◌, arith, ◌⊎◌, inl, inr}
use hvm.Run.Addr.{left_half, other_half}
use hvm.Run.Addr.Halves.{other_half-left, other_half-right, left_half-left, left_half-right}
use native.Mathlib.Decide.{ℕ_discrete}
use hvm.Run.Port.{free}
use hvm.Run.Allocator.{Allocator, write, store, half_free}
use hvm.Run.Allocator.FreeList.{IsValid, IsLive, SameOutside, Chain-outside, AllNodes-mono}

-- `w` and `v` are the two words of the node `a`, in one order or the other.
abbrev pub Halves : (a w v : ℕ) → Type 0
Halves a w v = ((w ≡ a) × (v ≡ a + 8)) ⊎ ((w ≡ a + 8) × (v ≡ a))

module _ (s : Allocator) (xs : List ℕ) (a w v : ℕ) (valid : IsValid s xs) (live : IsLive s xs a)
    (halves : Halves a w v) where
  small : a + 8 < 2 ^ 64
  small = omega (arith, live.node.below, valid.fits, valid.within)

  halves_eq : (other_half w ≡ v) × (left_half w ≡ a)
  halves_eq = ground (
    arith,
    other_half-left a live.node.aligned,
    other_half-right a live.node.aligned,
    left_half-left a live.node.aligned small,
    left_half-right a live.node.aligned small,
  )

  half_free_kept : s.mem v ≢ free → half_free s w ≡ store s w free
  unfolding half_free
  half_free_kept ne = rw (halves_eq.0) (ground (arith, halves_eq.1))

  half_free_appended :
      s.mem v ≡ free → half_free s w ≡ record (store (store s w free) a s.head) { head = a }
  unfolding half_free
  half_free_appended e = rw (halves_eq.0, halves_eq.1) (ground arith)

  store_outside : SameOutside a s.mem (write s.mem w free)
  unfolding write
  store_outside b p q = ground arith

  append_outside : SameOutside a s.mem (write (write s.mem w free) a s.head)
  unfolding write
  append_outside b p q = ground arith

  kept-IsValid : IsValid (store s w free) xs
  kept-IsValid = record {
    chain = Chain-outside s xs a _ valid live store_outside;
    distinct = valid.distinct;
    all_nodes = AllNodes-mono s _ xs refl (omega arith) valid.all_nodes;
    aligned = valid.aligned;
    not_null = valid.not_null;
    fits = valid.fits;
    within = valid.within;
  }

  appended-IsValid :
      s.mem v ≡ free → IsValid (record (store (store s w free) a s.head) { head = a }) (a ∷ xs)
  unfolding write
  appended-IsValid e = record {
    chain = (
      refl,
      ground arith,
      let same : write (write s.mem w free) a s.head a ≡ s.head = ground arith in
          rw same (Chain-outside s xs a _ valid live append_outside),
    );
    distinct = (live.not_free, valid.distinct);
    all_nodes = (
      record { aligned = live.node.aligned; above = live.node.above; below = live.node.below },
      AllNodes-mono s _ xs refl (omega arith) valid.all_nodes,
    );
    aligned = valid.aligned;
    not_null = valid.not_null;
    fits = valid.fits;
    within = valid.within;
  }

  -- Freeing a word of a live node of a valid heap changes no word of another node. If the node's
  -- other word is in use, the word becomes free and the free list stays; if it is free already, the
  -- node is put in front of the free list. The allocator stays valid either way.
  pub half_free-IsValid :
      ((s.mem v ≢ free)
        × IsValid (half_free s w) xs
        × ((half_free s w).mem w ≡ free)
        × SameOutside a s.mem (half_free s w).mem)
      ⊎ ((s.mem v ≡ free)
          × IsValid (half_free s w) (a ∷ xs)
          × SameOutside a s.mem (half_free s w).mem)
  unfolding write
  half_free-IsValid = elim (ℕ_discrete (s.mem v) free) [
    | yes e ↦ inr (
      e,
      rw (half_free_appended e) (appended-IsValid e),
      rw (half_free_appended e) append_outside,
    )
    | no ne ↦ inl (
      ne,
      rw (half_free_kept ne) kept-IsValid,
      rw (half_free_kept ne) (ground arith),
      rw (half_free_kept ne) store_outside,
    )
  ]
