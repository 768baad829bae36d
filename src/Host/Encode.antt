-- ===== src/Host/Encode.antt =====
-- Encoding of nets (src/host/encode.rs): one walk over the trees for any encoder.
pub mod Definition
pub mod Direct
pub mod Grow
pub mod GrowVisit
pub mod Simulation
pub mod Registers
pub mod Steps
pub mod Branches
pub mod Pieces
pub mod Walk
pub mod Correct
pub mod Variables
pub mod Total
pub mod Returns
use hvm.Prelude.{
  ℕ, zero, suc, ◌+◌, ◌-◌, Bool, true, false, Option, none, some, List, [], ◌∷◌, ltb, if◌then◌else◌,
}
use hvm.Ops.Kinds.{TypedOp}
use hvm.Run.Tag.{Tag}
use hvm.Run.Port.{new_num, new_int}
use hvm.Run.Port
use hvm.Run.Linker.{Panic}
use hvm.Ast.{Name, Tree, Trees, Net}
use hvm.Transform.Inline.{name_eq}
use hvm.Host.{Host, ref_port}

-- Code with a state of type `S`: a result with a new state, or a panic.
pub data Built (S A : Type 0) : Type 0 where
  built : A → S → Built S A
  panicked : Panic → Built S A

abbrev pub Build : Type 0 → Type 0 → Type 0
Build S A = S → Built S A

module _ {S : Type 0} where
  abbrev pub pure : {A : Type 0} → A → Build S A
  pure = built

  abbrev pub fail : {A : Type 0} → Panic → Build S A
  fail p s = panicked p

  module _ {A B : Type 0} where
    abbrev pub and_then : Built S A → (A → Build S B) → Built S B
    and_then (built a s) k = k a s
    and_then (panicked p) k = panicked p

    infixl 5 ◌>>=◌ ◌>>◌
    abbrev pub ◌>>=◌ : Build S A → (A → Build S B) → Build S B
    m >>= k = λ s. and_then (m s) k

    abbrev pub ◌>>◌ : Build S A → Build S B → Build S B
    m >> n = m >>= λ _. n

-- What an encoder offers; `S` is its state, `T` the type of the places that a port can be linked to.
pub record Encoder (S T : Type 0) : Type 0 where
  pub link_const : (trg : T) (port : ℕ) → Build S (Unit {0})
  pub link : (a b : T) → Build S (Unit {0})
  pub make_const : (port : ℕ) → Build S T
  pub ctr : (lab : ℕ) (trg : T) → Build S (T × T)
  pub op : TypedOp → T → Build S (T × T)
  pub op_num : TypedOp → (trg : T) (rhs : ℕ) → Build S T
  pub mat : T → Build S (T × T)
  pub wires : Build S (T × T × T × T)

abbrev pub Scope : Type 0 → Type 0
Scope T = List (Name × T)

-- The variables of `scope` are those that occurred once.
pub record State (S T : Type 0) : Type 0 where
  pub encoder : S
  pub scope : Scope T

abbrev pub Visit : Type 0 → Type 0 → Type 0 → Type 0
Visit S T A = Build (State S T) A

-- `e.remove()` of an occupied entry, or nothing
unfoldable pub take : {T : Type 0} → Scope T → Name → Option (T × Scope T)
take [] nam = none
take ((n, t) ∷ rest) nam =
    let more = take rest nam in
    if name_eq n nam
    then some (t, rest)
    else elim more [ none ↦ none | some (u, left) ↦ some (u, (n, t) ∷ left) ]

-- A match on an option, with its two arms
abbrev pub case_of : {A B : Type 0} → Option A → (A → B) → B → B
case_of none f d = d
case_of (some x) f d = f x

-- The port of a number, an `i64` or `f32` given by its bits.
abbrev pub immediate : Tree → Option ℕ
immediate (Tree.int bits) = some (new_int bits)
immediate (Tree.f32 bits) = some (new_num Tag.f32 bits)
immediate _ = none

abbrev pub is_era : Tree → Bool
is_era Tree.era = true
is_era _ = false

abbrev pub is_ref : Tree → Bool
is_ref (Tree.ref nam) = true
is_ref _ = false

abbrev pub is_int : Tree → Bool
is_int (Tree.int bits) = true
is_int _ = false

-- The tree of a pair that passes the test, the left one first, and the other.
abbrev pub either_side : (Tree → Bool) → (a b : Tree) → Option (Tree × Tree)
either_side test a b = if test a then some (a, b) else if test b then some (b, a) else none

abbrev pub or_else : {A : Type 0} → Option A → Option A → Option A
or_else none y = y
or_else (some x) y = some x

-- The side of a redex that is encoded as a constant, and the other.
unfoldable pub const_side : (a b : Tree) → Option (Tree × Tree)
const_side a b =
    or_else (either_side is_era a b) (or_else (either_side is_ref a b) (either_side is_int a b))

module _ {S T A : Type 0} where
  abbrev pub with_scope : Scope T → Built S A → Built (State S T) A
  with_scope scope (built a s) = built a (record { encoder = s; scope = scope })
  with_scope scope (panicked p) = panicked p

  -- A call of the encoder
  abbrev pub on_encoder : Build S A → Visit S T A
  on_encoder m s = with_scope s.scope (m s.encoder)

-- The references' ports come from the host.
unfoldable pub def_of : {S : Type 0} → Host → Name → Build S ℕ
def_of host nam = case_of (ref_port host nam) pure (fail Panic.no_def)

unfoldable pub const_port : {S : Type 0} → Host → Tree → Build S ℕ
unfolding def_of
const_port host (Tree.ref nam) = def_of host nam
const_port host (Tree.int bits) = pure (new_int bits)
const_port host _ = pure Port.era

module _ {S T : Type 0} (encoder : Encoder S T) (host : Host) where
  unfoldable pub link_const : (trg : T) (port : ℕ) → Visit S T (Unit {0})
  link_const trg port = on_encoder (encoder.link_const trg port)

  unfoldable pub visit_var : Name → T → Visit S T (Unit {0})
  visit_var nam trg s =
      case_of (take s.scope nam)
        (λ (other, rest). on_encoder (encoder.link other trg) (record s { scope = rest }))
        (built tt (record s { scope = (nam, trg) ∷ s.scope }))

  -- A chain of `n` constructors with erasers at their left ports.
  unfoldable pub visit_eras : (lab n : ℕ) → T → Visit S T T
  visit_eras lab zero trg = pure trg
  visit_eras lab (suc n) trg = do
    (l, r) ← on_encoder (encoder.ctr lab trg)
    link_const l Port.era
    visit_eras lab n r

  -- `n - 1`, where the subtraction must not overflow
  unfoldable pub others : (variant_index variant_count : ℕ) → Build (State S T) ℕ
  others i n = if ltb i n then pure (n - i - 1) else fail Panic.overflow

  unfoldable mutual
    pub visit_tree : Tree → T → Visit S T (Unit {0})
    visit_tree Tree.era trg = link_const trg Port.era
    visit_tree (Tree.int bits) trg = link_const trg (new_int bits)
    visit_tree (Tree.f32 bits) trg = link_const trg (new_num Tag.f32 bits)
    visit_tree (Tree.ref nam) trg = do p ← def_of host nam; link_const trg p
    visit_tree (Tree.ctr lab ports) trg = visit_ports lab ports trg
    visit_tree (Tree.adt lab i n fields) trg = do
      main ← visit_eras lab i trg
      (l, r) ← on_encoder (encoder.ctr lab main)
      l' ← visit_fields lab fields l
      rest ← others i n
      r' ← visit_eras lab rest r
      on_encoder (encoder.link l' r')
    visit_tree (Tree.op o rhs out) trg =
        case_of (immediate rhs) (λ p. do x ← on_encoder (encoder.op_num o trg p); visit_tree out x)
          (do (l, r) ← on_encoder (encoder.op o trg); visit_tree rhs l; visit_tree out r)
    visit_tree (Tree.mat z u out) trg = do
      (a, o) ← on_encoder (encoder.mat trg)
      (l, r) ← on_encoder (encoder.ctr 0 a)
      visit_tree z l
      visit_tree u r
      visit_tree out o
    visit_tree (Tree.var nam) trg = visit_var nam trg

    pub visit_ports : (lab : ℕ) → Trees → T → Visit S T (Unit {0})
    visit_ports lab Trees.end trg = link_const trg Port.era
    visit_ports lab (Trees.and t Trees.end) trg = visit_tree t trg
    visit_ports lab (Trees.and t (Trees.and u us)) trg = do
      (l, r) ← on_encoder (encoder.ctr lab trg)
      visit_tree t l
      visit_ports lab (Trees.and u us) r

    pub visit_fields : (lab : ℕ) → Trees → T → Visit S T T
    visit_fields lab Trees.end l = pure l
    visit_fields lab (Trees.and t ts) l = do
      (x, y) ← on_encoder (encoder.ctr lab l)
      visit_tree t x
      visit_fields lab ts y

  unfoldable pub visit_redex : (a b : Tree) → Visit S T (Unit {0})
  visit_redex a b =
      case_of (const_side a b)
        (λ (c, t). do
          p ← const_port host c
          trg ← on_encoder (encoder.make_const p)
          visit_tree t trg)
        (do
          (av, aw, bv, bw) ← on_encoder encoder.wires
          visit_tree a av
          visit_tree b bv
          on_encoder (encoder.link aw bw))

  unfoldable pub visit_redexes : List (Tree × Tree) → Visit S T (Unit {0})
  visit_redexes [] = pure tt
  visit_redexes ((a, b) ∷ rest) = do visit_redex a b; visit_redexes rest

  unfoldable pub visit_net : Net → T → Visit S T (Unit {0})
  visit_net net trg = do visit_tree net.root trg; visit_redexes net.redexes

abbrev pub is_empty : {T : Type 0} → Scope T → Bool
is_empty [] = true
is_empty (v ∷ vs) = false

-- The assertion of `finish`; the encoder's state is what is left.
unfoldable pub finish : {S T : Type 0} → Built (State S T) (Unit {0}) → Built S (Unit {0})
finish (built a s) = if is_empty s.scope then built tt s.encoder else panicked Panic.unbound
finish (panicked p) = panicked p
