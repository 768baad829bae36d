-- ===== src/Run/Allocator/FreeList.antt =====
-- The invariant of the allocator: what its free list holds.
use hvm.Prelude.{
  ℕ, ◌+◌, ◌*◌, ◌%◌, ◌^◌, ◌≤◌, ◌<◌, ◌≡◌, ◌≢◌, Bool, true, false, ◌||◌, List, [], ◌∷◌, arith, ◌==◌,
  ◌∙◌, inl, inr, Bool-cases, ==_iff,
}
use hvm.Run.Addr.{null}
use hvm.Run.Port.{free}
use hvm.Run.Allocator.{Allocator}

abbrev pub has : ℕ → List ℕ → Bool
has a [] = false
has a (x ∷ xs) = (a == x) || has a xs

abbrev pub Distinct : List ℕ → Type 0
Distinct [] = Unit
Distinct (x ∷ xs) = (has x xs ≡ false) × Distinct xs

-- From `h` the first words lead through the nodes `xs` to null, and the second word of each is free.
abbrev pub Chain : (mem : ℕ → ℕ) → ℕ → List ℕ → Type 0
Chain mem h [] = h ≡ null
Chain mem h (x ∷ xs) = (h ≡ x) × (mem (x + 8) ≡ free) × Chain mem (mem x) xs

-- `a` is the address of one of the first `next` nodes.
pub record IsNode (s : Allocator) (a : ℕ) : Type 0 where
  pub aligned : a % 16 ≡ 0
  pub above : s.base ≤ a
  pub below : a < s.base + 16 * s.next

abbrev pub AllNodes : Allocator → List ℕ → Type 0
AllNodes s [] = Unit
AllNodes s (x ∷ xs) = IsNode s x × AllNodes s xs

pub record IsValid (s : Allocator) (xs : List ℕ) : Type 0 where
  pub chain : Chain s.mem s.head xs
  pub distinct : Distinct xs
  pub all_nodes : AllNodes s xs
  pub aligned : s.base % 16 ≡ 0
  pub not_null : 16 ≤ s.base
  pub fits : s.base + 16 * s.nodes ≤ 2 ^ 48
  pub within : s.next ≤ s.nodes

-- A node in use: handed out and not on the free list.
pub record IsLive (s : Allocator) (xs : List ℕ) (a : ℕ) : Type 0 where
  pub node : IsNode s a
  pub not_free : has a xs ≡ false

-- A change outside the nodes of the list leaves the chain.
pub Chain-frame :
    (m m' : ℕ → ℕ) (h : ℕ) (xs : List ℕ)
    → ((x : ℕ) → has x xs ≡ true → (m' x ≡ m x) × (m' (x + 8) ≡ m (x + 8)))
    → Chain m h xs
    → Chain m' h xs
Chain-frame m m' h [] same c = c
Chain-frame m m' h (x ∷ xs) same (e, f, c) =
    let (p, q) = same x (ground arith) in
    (e, q ∙ f, rw p (Chain-frame m m' (m x) xs (λ y i. same y (ground arith)) c))

pub has-IsNode :
    (s : Allocator) (xs : List ℕ) → AllNodes s xs → (x : ℕ) → has x xs ≡ true → IsNode s x
has-IsNode s [] n x h = absurd (cc)
has-IsNode s (y ∷ ys) (n, ns) x h = elim (Bool-cases (x == y)) [
  | inl e ↦ rw ((==_iff x y).0 e) n
  | inr e ↦ has-IsNode s ys ns x (ground arith)
]

pub AllNodes-mono :
    (s s' : Allocator) (xs : List ℕ)
    → s'.base ≡ s.base
    → s.next ≤ s'.next
    → AllNodes s xs
    → AllNodes s' xs
AllNodes-mono s s' [] b n a = tt
AllNodes-mono s s' (x ∷ xs) b n (i, a) = (
  record { aligned = i.aligned; above = omega (arith, i.above); below = omega (arith, i.below) },
  AllNodes-mono s s' xs b n a,
)

-- Another node is at least sixteen bytes away.
pub IsNode-apart :
    (s : Allocator) {a b : ℕ}
    → IsNode s a
    → IsNode s b
    → a ≢ b
    → (a ≢ b + 8) × (a + 8 ≢ b) × (a + 8 ≢ b + 8)
IsNode-apart s i j ne =
    (omega (arith, i.aligned, j.aligned), omega (arith, i.aligned, j.aligned), omega arith)

-- Two memories agree outside the two words of a node.
abbrev pub SameOutside : (a : ℕ) (m m' : ℕ → ℕ) → Type 0
SameOutside a m m' = (b : ℕ) → b ≢ a → b ≢ a + 8 → m' b ≡ m b

-- A change of a live node's words leaves the chain.
pub Chain-outside :
    (s : Allocator) (xs : List ℕ) (a : ℕ) (m' : ℕ → ℕ)
    → IsValid s xs
    → IsLive s xs a
    → SameOutside a s.mem m'
    → Chain m' s.head xs
Chain-outside s xs a m' valid live same = Chain-frame s.mem m' s.head xs agree valid.chain
  where
    agree : (x : ℕ) → has x xs ≡ true → (m' x ≡ s.mem x) × (m' (x + 8) ≡ s.mem (x + 8))
    agree x h =
        let i = has-IsNode s xs valid.all_nodes x h in
        let ne : x ≢ a = λ e. let g : has a xs ≡ true = rw (← e) h in cc (g, live.not_free) in
        let (p, q, r) = IsNode-apart s i live.node ne in (same x ne p, same (x + 8) q r)
