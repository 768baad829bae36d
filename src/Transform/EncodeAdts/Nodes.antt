-- ===== src/Transform/EncodeAdts/Nodes.antt =====
-- What becomes of a node is within the limits that the parser keeps, and no larger
-- (src/transform/encode_adts.rs).
use hvm.Prelude.{
  ℕ, zero, suc, ◌+◌, ◌<◌, ◌≤◌, ◌≡◌, ◌^◌, refl, Option, some, List, [], ◌∷◌, arith, length, ap, inl,
  inr, ◌⊎◌,
}
use hvm.Ast.{Name, Tree, Trees, max_arity, count}
use hvm.Ast.Parser.{max_adt_variants, max_adt_fields}
use hvm.Ast.Scanner.{Scanner}
use hvm.Ast.Limits.{WellFormed, AllWellFormed}
use hvm.Transform.EncodeAdts.{stack, unstack, with_adt, encode_ctr, node_first}
use hvm.Transform.EncodeAdts.Documented.{snoc, Variant, eras, encoding, length-eras}
use hvm.Transform.EncodeAdts.Merged.{Merged, placed}
use hvm.Transform.EncodeAdts.Encodes.{Encodes, encode_ctr-Encodes}
use hvm.Transform.EncodeAdts.Sizes.{
  size, sizes, stack_size, stack_size-stack, size-compacted, size-Merged,
}

count-unstack :
    (ts : List Tree) (after : Trees) → count (unstack ts after) ≡ length ts + count after
count-unstack [] after = omega arith
count-unstack (t ∷ ts) after = omega (arith, count-unstack ts (Trees.and t after))

length-stack : (ts : Trees) (under : List Tree) → length (stack ts under) ≡ count ts + length under
length-stack Trees.end under = omega arith
length-stack (Trees.and t ts) under = omega (arith, length-stack ts (t ∷ under))

count-snoc : (ts : Trees) (x : Tree) → count (snoc ts x) ≡ suc (count ts)
count-snoc Trees.end x = refl
count-snoc (Trees.and t ts) x = omega (arith, count-snoc ts x)

module _ (s : Scanner) (IsFloat : ℕ → Type 0) where
  -- Ports within the limits, as a stack.
  data Ports : List Tree → Type 0 where
    none : Ports []
    also : {t : Tree} {ts : List Tree} → WellFormed s IsFloat t → Ports ts → Ports (t ∷ ts)

  Ports-stack :
      (ts : Trees) (under : List Tree)
      → AllWellFormed s IsFloat ts
      → Ports under
      → Ports (stack ts under)
  Ports-stack Trees.end under w h = h
  Ports-stack (Trees.and t ts) under (AllWellFormed.and u w) h =
      Ports-stack ts (t ∷ under) w (Ports.also u h)

  unstack-AllWellFormed :
      (ts : List Tree) (after : Trees)
      → Ports ts
      → AllWellFormed s IsFloat after
      → AllWellFormed s IsFloat (unstack ts after)
  unstack-AllWellFormed [] after h w = w
  unstack-AllWellFormed (t ∷ ts) after (Ports.also u h) w =
      unstack-AllWellFormed ts (Trees.and t after) h (AllWellFormed.and u w)

  eras-Ports : (k : ℕ) (under : List Tree) → Ports (eras k under) → Ports under
  eras-Ports zero under h = h
  eras-Ports (suc k) under (Ports.also u h) = eras-Ports k under h

  unstacked :
      (lab : ℕ) (ts : List Tree)
      → lab < 2 ^ 16
      → length ts ≤ max_arity
      → Ports ts
      → WellFormed s IsFloat (Tree.ctr lab (unstack ts Trees.end))
  unstacked lab ts l m h =
      WellFormed.ctr lab (unstack ts Trees.end) l (omega (arith, count-unstack ts Trees.end))
        (unstack-AllWellFormed ts Trees.end h AllWellFormed.end)

  with_adt-WellFormed :
      (lab : ℕ) (under : List Tree) (t : Tree)
      → lab < 2 ^ 16
      → suc (length under) ≤ max_arity
      → WellFormed s IsFloat t
      → Ports under
      → WellFormed s IsFloat (with_adt lab under t)
  with_adt-WellFormed lab [] t l m w h = w
  with_adt-WellFormed lab (p ∷ under) t l m w h = unstacked lab (t ∷ p ∷ under) l m (Ports.also w h)

  placed-WellFormed :
      (k lab : ℕ) (under : List Tree) (t : Tree)
      → lab < 2 ^ 16
      → suc (length under) ≤ max_arity
      → WellFormed s IsFloat t
      → Ports under
      → WellFormed s IsFloat (placed k lab under t)
  placed-WellFormed zero lab under t l m w h = unstacked lab (t ∷ under) l m (Ports.also w h)
  placed-WellFormed (suc k) lab under t l m w h = with_adt-WellFormed lab under t l m w h

  init-AllWellFormed :
      (ts : Trees) (x : Tree) → AllWellFormed s IsFloat (snoc ts x) → AllWellFormed s IsFloat ts
  init-AllWellFormed Trees.end x w = AllWellFormed.end
  init-AllWellFormed (Trees.and t ts) x (AllWellFormed.and u w) =
      AllWellFormed.and u (init-AllWellFormed ts x w)

  ports-AllWellFormed :
      {lab : ℕ} (ports : Trees)
      → WellFormed s IsFloat (Tree.ctr lab ports)
      → (count ports ≤ max_arity) × AllWellFormed s IsFloat ports
  ports-AllWellFormed ports (WellFormed.ctr _ _ l m w) = (m, w)

  fields-AllWellFormed :
      {lab : ℕ} {ret : Name} {v : Tree} {fields : Trees}
      → Variant lab ret v fields
      → WellFormed s IsFloat v
      → (count fields ≤ max_adt_fields) × AllWellFormed s IsFloat fields
  fields-AllWellFormed Variant.bare w = (omega arith, AllWellFormed.end)
  fields-AllWellFormed {ret = ret} (Variant.node fields) w =
      let (m, all) = ports-AllWellFormed (snoc fields (Tree.var ret)) w in
      (omega (arith, m, count-snoc fields (Tree.var ret)), init-AllWellFormed fields _ all)

  adt_taken :
      {lab i n : ℕ} {fields : Trees} (k : ℕ)
      → WellFormed s IsFloat (Tree.adt lab i n fields)
      → k ≡ 0 ⊎ n + k ≤ max_adt_variants
      → WellFormed s IsFloat (Tree.adt lab (i + k) (n + k) fields)
  adt_taken k (WellFormed.adt lab i n fields l j m c w) f =
      WellFormed.adt lab (i + k) (n + k) fields l (omega arith)
        (elim f [ inl z ↦ omega (arith, z) | inr e ↦ e ]) c w

  Merged-WellFormed :
      {lab : ℕ} {ports : List Tree} {t : Tree}
      → Merged lab ports t
      → lab < 2 ^ 16
      → length ports ≤ max_arity
      → Ports ports
      → WellFormed s IsFloat t
  Merged-WellFormed (Merged.same ports e) l m h = unstacked _ ports l m h
  Merged-WellFormed {lab = lab} (Merged.taken i n fields rest t (k, under, e, f, g, r)) l m
        (Ports.also w h) =
      rw r (
        placed-WellFormed k lab under (Tree.adt lab (i + k) (n + k) fields) l
          (omega (arith, m, ap (length {A = Tree}) e, length-eras k under)) (adt_taken k w f)
          (eras-Ports k under (rw e at h)))

  compacted-WellFormed :
      (lab : ℕ) (ret : Name) (a b : ℕ) (under : List Tree) {v : Tree} {fields : Trees}
      → Variant lab ret v fields
      → lab < 2 ^ 16
      → length (encoding ret a v b under) ≤ max_arity
      → Ports (encoding ret a v b under)
      → WellFormed s IsFloat (with_adt lab under (Tree.adt lab b (b + suc a) fields))
  compacted-WellFormed lab ret a b under {v = v} {fields = fields} w l m (Ports.also r h) =
      at (eras-Ports a (v ∷ eras b under) h)
    where
      at :
          Ports (v ∷ eras b under)
          → WellFormed s IsFloat (with_adt lab under (Tree.adt lab b (b + suc a) fields))
      at (Ports.also u g) =
          let (c, all) = fields-AllWellFormed w u in
          let long : suc (suc (a + (b + length under))) ≤ max_arity =
            omega (arith, m, length-eras a (v ∷ eras b under), length-eras b under) in
          with_adt-WellFormed lab under (Tree.adt lab b (b + suc a) fields) l (omega (arith, long))
            (WellFormed.adt lab b (b + suc a) fields l (omega arith) (omega (arith, long)) c all)
            (eras-Ports b under g)

  -- A tree of at most this size, within the limits.
  pub data Sound (n : ℕ) : Option Tree → Type 0 where
    sound : (t : Tree) → size t ≤ n → WellFormed s IsFloat t → Sound n (some t)

  Encodes-Sound :
      {lab : ℕ} {ports : List Tree} {o : Option Tree}
      → Encodes lab ports o
      → lab < 2 ^ 16
      → length ports ≤ max_arity
      → Ports ports
      → Sound (suc (stack_size ports)) o
  Encodes-Sound {lab = lab} (Encodes.compacted ret a b under w e) l m h =
      Sound.sound _ (size-compacted lab ret a b under w)
        (compacted-WellFormed lab ret a b under w l m h)
  Encodes-Sound (Encodes.kept ports t n c) l m h =
      Sound.sound t (size-Merged c) (Merged-WellFormed c l m h)

  pub node_first-Sound : {t : Tree} → WellFormed s IsFloat t → Sound (size t) (node_first t)
  node_first-Sound (WellFormed.ctr lab ports l m w) =
      let same : stack_size (stack ports []) ≡ sizes ports =
        omega (arith, stack_size-stack ports []) in
      let whole : Sound (suc (stack_size (stack ports []))) (encode_ctr lab (stack ports [])) =
        Encodes-Sound (encode_ctr-Encodes lab (stack ports [])) l
          (omega (arith, m, length-stack ports [])) (Ports-stack ports [] w Ports.none) in
      rw same at whole
  node_first-Sound WellFormed.era = Sound.sound _ (omega arith) WellFormed.era
  node_first-Sound (WellFormed.int b l) = Sound.sound _ (omega arith) (WellFormed.int b l)
  node_first-Sound (WellFormed.f32 b l) = Sound.sound _ (omega arith) (WellFormed.f32 b l)
  node_first-Sound (WellFormed.ref nam l) = Sound.sound _ (omega arith) (WellFormed.ref nam l)
  node_first-Sound (WellFormed.var nam l) = Sound.sound _ (omega arith) (WellFormed.var nam l)
  node_first-Sound (WellFormed.op o x y) = Sound.sound _ (omega arith) (WellFormed.op o x y)
  node_first-Sound (WellFormed.mat x y z) = Sound.sound _ (omega arith) (WellFormed.mat x y z)
  node_first-Sound (WellFormed.adt lab i n fields l j m c w) =
      Sound.sound _ (omega arith) (WellFormed.adt lab i n fields l j m c w)
