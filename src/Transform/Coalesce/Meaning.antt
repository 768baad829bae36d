-- ===== src/Transform/Coalesce/Meaning.antt =====
-- `coalesce_constructors` keeps the net of binary nodes that a tree stands for, if no constructor in
-- the tree is without ports (src/ast.rs says what an n-ary constructor stands for).
use hvm.Prelude.{
  ℕ, ◌+◌, ◌≡◌, ◌≢◌, refl, Bool, true, false, ◌&&◌, ◌==◌, ltb, arith, ◌∙◌, ap, ap₂, Bool-cases, inl,
  inr,
}
use hvm.Ops.Kinds.{TypedOp}
use hvm.Ast.{Name, Tree, Trees, count, max_arity}
use hvm.Transform.Coalesce.{rejoin, merge, coalesce, coalesce_all}

-- Trees of binary nodes.
mutual
  pub data Bin : Type 0 where
    era : Bin
    int : ℕ → Bin
    f32 : ℕ → Bin
    ref : Name → Bin
    node : (lab : ℕ) → Bin → Bin → Bin
    op : TypedOp → Bin → Bin → Bin
    mat : Bin → Bin → Bin → Bin
    adt : ℕ → ℕ → ℕ → Bins → Bin
    var : Name → Bin

  pub data Bins : Type 0 where
    end : Bins
    and : Bin → Bins → Bins

-- No port: an eraser. One: a wire. More: a chain to the right.
abbrev pub chain : (lab : ℕ) → Bins → Bin
chain lab Bins.end = Bin.era
chain lab (Bins.and b Bins.end) = b
chain lab (Bins.and b (Bins.and c cs)) = Bin.node lab b (chain lab (Bins.and c cs))

unfoldable mutual
  pub meaning : Tree → Bin
  meaning Tree.era = Bin.era
  meaning (Tree.int b) = Bin.int b
  meaning (Tree.f32 b) = Bin.f32 b
  meaning (Tree.ref nam) = Bin.ref nam
  meaning (Tree.ctr lab ports) = chain lab (meanings ports)
  meaning (Tree.op o rhs out) = Bin.op o (meaning rhs) (meaning out)
  meaning (Tree.mat z s out) = Bin.mat (meaning z) (meaning s) (meaning out)
  meaning (Tree.adt lab i n fields) = Bin.adt lab i n (meanings fields)
  meaning (Tree.var nam) = Bin.var nam

  pub meanings : Trees → Bins
  meanings Trees.end = Bins.end
  meanings (Trees.and t ts) = Bins.and (meaning t) (meanings ts)

abbrev pub is_end : Trees → Bool
is_end Trees.end = true
is_end (Trees.and t ts) = false

-- A constructor without ports.
abbrev pub is_hollow : Tree → Bool
is_hollow (Tree.ctr lab ports) = is_end ports
is_hollow _ = false

-- No constructor in the tree is without ports.
unfoldable mutual
  pub IsFull : Tree → Type 0
  IsFull (Tree.ctr lab ports) = (is_end ports ≡ false) × AreFull ports
  IsFull (Tree.op o rhs out) = IsFull rhs × IsFull out
  IsFull (Tree.mat z s out) = IsFull z × IsFull s × IsFull out
  IsFull (Tree.adt lab i n fields) = AreFull fields
  IsFull Tree.era = Unit
  IsFull (Tree.int b) = Unit
  IsFull (Tree.f32 b) = Unit
  IsFull (Tree.ref nam) = Unit
  IsFull (Tree.var nam) = Unit

  pub AreFull : Trees → Type 0
  AreFull Trees.end = Unit
  AreFull (Trees.and t ts) = IsFull t × AreFull ts

-- The replacement of the last port.
rejoin-ports : (lab before : ℕ) (t : Tree) → chain lab (meanings (rejoin lab before t)) ≡ meaning t
unfolding rejoin meaning
rejoin-ports lab before (Tree.ctr inner ports) =
    elim (Bool-cases (inner == lab && ltb (before + count ports) max_arity)) [
      | inl same ↦ let e : inner ≡ lab = ground arith in rw same (rw e refl)
      | inr other ↦ rw other refl
    ]
rejoin-ports lab before Tree.era = refl
rejoin-ports lab before (Tree.int b) = refl
rejoin-ports lab before (Tree.f32 b) = refl
rejoin-ports lab before (Tree.ref nam) = refl
rejoin-ports lab before (Tree.op o r u) = refl
rejoin-ports lab before (Tree.mat z s u) = refl
rejoin-ports lab before (Tree.adt l i n fs) = refl
rejoin-ports lab before (Tree.var nam) = refl

-- No tree of the list is a constructor without ports.
abbrev AllSolid : Trees → Type 0
AllSolid Trees.end = Unit
AllSolid (Trees.and t ts) = (is_hollow t ≡ false) × AllSolid ts

rejoin-is_end :
    (lab before : ℕ) (t : Tree) → is_hollow t ≡ false → is_end (rejoin lab before t) ≡ false
unfolding rejoin
rejoin-is_end lab before (Tree.ctr inner ports) h =
    elim (Bool-cases (inner == lab && ltb (before + count ports) max_arity)) [
      | inl same ↦ rw same h
      | inr other ↦ rw other refl
    ]
rejoin-is_end lab before Tree.era h = refl
rejoin-is_end lab before (Tree.int b) h = refl
rejoin-is_end lab before (Tree.f32 b) h = refl
rejoin-is_end lab before (Tree.ref nam) h = refl
rejoin-is_end lab before (Tree.op o r u) h = refl
rejoin-is_end lab before (Tree.mat z s u) h = refl
rejoin-is_end lab before (Tree.adt l i n fs) h = refl
rejoin-is_end lab before (Tree.var nam) h = refl

merge-is_end :
    (lab before : ℕ) (ts : Trees)
    → is_end ts ≡ false
    → AllSolid ts
    → is_end (merge lab before ts) ≡ false
unfolding merge
merge-is_end lab before Trees.end h s = absurd (cc h)
merge-is_end lab before (Trees.and t Trees.end) h (s, _) = rejoin-is_end lab before t s
merge-is_end lab before (Trees.and t (Trees.and u us)) h s = refl

chain-and :
    (lab : ℕ) (b : Bin) (ts : Trees)
    → is_end ts ≡ false
    → chain lab (Bins.and b (meanings ts)) ≡ Bin.node lab b (chain lab (meanings ts))
unfolding meaning
chain-and lab b Trees.end h = absurd (cc h)
chain-and lab b (Trees.and t ts) h = refl

merge-chain :
    (lab before : ℕ) (ts : Trees)
    → AllSolid ts
    → chain lab (meanings (merge lab before ts)) ≡ chain lab (meanings ts)
unfolding merge meaning
merge-chain lab before Trees.end s = refl
merge-chain lab before (Trees.and t Trees.end) s = rejoin-ports lab before t
merge-chain lab before (Trees.and t (Trees.and u us)) (h, s) =
    chain-and lab (meaning t) (merge lab (before + 1) (Trees.and u us))
      (merge-is_end lab (before + 1) (Trees.and u us) refl s)
    ∙ ap (λ x. Bin.node lab (meaning t) x) (merge-chain lab (before + 1) (Trees.and u us) s)

coalesce_all-is_end : (ts : Trees) → is_end (coalesce_all ts) ≡ is_end ts
unfolding coalesce
coalesce_all-is_end Trees.end = refl
coalesce_all-is_end (Trees.and t ts) = refl

mutual
  unfolding coalesce IsFull

  coalesce-solid : (t : Tree) → IsFull t → is_hollow (coalesce t) ≡ false
  coalesce-solid (Tree.ctr lab ports) (h, f) =
      merge-is_end lab 0 (coalesce_all ports) (coalesce_all-is_end ports ∙ h)
        (coalesce_all-AllSolid ports f)
  coalesce-solid Tree.era f = refl
  coalesce-solid (Tree.int b) f = refl
  coalesce-solid (Tree.f32 b) f = refl
  coalesce-solid (Tree.ref nam) f = refl
  coalesce-solid (Tree.op o r u) f = refl
  coalesce-solid (Tree.mat z s u) f = refl
  coalesce-solid (Tree.adt l i n fs) f = refl
  coalesce-solid (Tree.var nam) f = refl

  coalesce_all-AllSolid : (ts : Trees) → AreFull ts → AllSolid (coalesce_all ts)
  coalesce_all-AllSolid Trees.end f = tt
  coalesce_all-AllSolid (Trees.and t ts) (f, fs) = (coalesce-solid t f, coalesce_all-AllSolid ts fs)

mutual
  unfolding coalesce IsFull meaning

  keeps : (t : Tree) → IsFull t → meaning (coalesce t) ≡ meaning t
  keeps (Tree.ctr lab ports) (h, f) =
      merge-chain lab 0 (coalesce_all ports) (coalesce_all-AllSolid ports f)
      ∙ ap (λ x. chain lab x) (keeps_all ports f)
  keeps Tree.era f = refl
  keeps (Tree.int b) f = refl
  keeps (Tree.f32 b) f = refl
  keeps (Tree.ref nam) f = refl
  keeps (Tree.op o r u) (f, g) = ap₂ (λ x y. Bin.op o x y) (keeps r f) (keeps u g)
  keeps (Tree.mat z s u) (f, g, h) = rw (keeps z f, keeps s g, keeps u h) refl
  keeps (Tree.adt l i n fs) f = ap (λ x. Bin.adt l i n x) (keeps_all fs f)
  keeps (Tree.var nam) f = refl

  keeps_all : (ts : Trees) → AreFull ts → meanings (coalesce_all ts) ≡ meanings ts
  keeps_all Trees.end f = refl
  keeps_all (Trees.and t ts) (f, fs) = ap₂ (λ x y. Bins.and x y) (keeps t f) (keeps_all ts fs)

-- If no constructor in a tree is without ports, coalescing keeps the tree of binary nodes that the
-- tree stands for.
pub meaning-coalesce : (t : Tree) → IsFull t → meaning (coalesce t) ≡ meaning t
meaning-coalesce = keeps

-- A binary constructor with an integer as its first port and a constructor of the same label without
-- ports as its second becomes a constructor with the integer alone, and no longer stands for the same
-- tree of binary nodes.
pub coalesce-hollow :
    (lab : ℕ) (b : ℕ)
    → (coalesce
          (Tree.ctr lab (Trees.and (Tree.int b) (Trees.and (Tree.ctr lab Trees.end) Trees.end)))
        ≡ Tree.ctr lab (Trees.and (Tree.int b) Trees.end))
      × (meaning (
            coalesce (
              Tree.ctr lab (Trees.and (Tree.int b) (Trees.and (Tree.ctr lab Trees.end) Trees.end))))
          ≢ meaning (
              Tree.ctr lab (Trees.and (Tree.int b) (Trees.and (Tree.ctr lab Trees.end) Trees.end))))
unfolding coalesce merge rejoin meaning
coalesce-hollow lab b = let e : (lab == lab) ≡ true = ground arith in (rw e refl, rw e (λ h. cc h))
