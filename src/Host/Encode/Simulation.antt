-- ===== src/Host/Encode/Simulation.antt =====
-- A simulation between the two encoders (src/host/encode.rs): the walk that makes instructions, run in
-- registers, and the walk in the net. The registers are the world of the relation: they are only added.
use hvm.Prelude.{ℕ, ◌≤◌, ◌<◌, ◌≡◌, refl, some, List, [], ◌∷◌, ◌++◌, arith, ◌∙◌, ap}
use mathlib.Core.Path.{sym, subst}
use mathlib.Core.List.{append_assoc, append_cancel_left}
use hvm.Ops.Kinds.{Endian}
use hvm.Ops.Numeric.{Float}
use hvm.Run.Linker
use hvm.Run.Linker.{Linker, Run, Cmd}
use hvm.Run.Linker.Sequence.{and_then_assoc, and_then-cong}
use hvm.Run.Instruction.Program.{Instruction, InterpretedDef, Trgs, exec}
use hvm.Host.Encode.{Built, built, panicked, and_then, ◌>>=◌, Scope, State, Visit}
use hvm.Host.Encode.Grow.{OnBuilt, Grows, Grow}

-- The register `i`, one of the first `n`, holds `t`.
pub record Holds (r : Trgs) (n i t : ℕ) : Type 0 where
  pub below : i < n
  pub slot : r.slot i ≡ some t

pub record Extends (r : Trgs) (n : ℕ) (s : Trgs) (m : ℕ) : Type 0 where
  pub more : n ≤ m
  pub count : s.count ≡ r.count
  pub keeps : (i : ℕ) → i < n → s.slot i ≡ r.slot i

pub Extends-refl : (r : Trgs) (n : ℕ) → Extends r n r n
Extends-refl r n = record { more = omega arith; count = refl; keeps = λ i h. refl }

module _ {r s : Trgs} {n m : ℕ} where
  pub Holds-mono : {i t : ℕ} → Extends r n s m → Holds r n i t → Holds s m i t
  Holds-mono {i = i} e h = record {
    below = omega (arith, e.more, h.below);
    slot = e.keeps i h.below ∙ h.slot;
  }

  pub Extends-trans : {u : Trgs} {k : ℕ} → Extends r n s m → Extends s m u k → Extends r n u k
  Extends-trans e f = record {
    more = omega (arith, e.more, f.more);
    count = f.count ∙ e.count;
    keeps = λ i h. f.keeps i (omega (arith, h, e.more)) ∙ e.keeps i h;
  }

-- The variables in scope are the same, the first walk's registers hold the second's targets.
abbrev pub Bound : (r : Trgs) (n : ℕ) → Scope ℕ → Scope ℕ → Type 0
Bound r n [] [] = Unit
Bound r n ((x, i) ∷ a) ((y, t) ∷ b) = ((x ≡ y) × Holds r n i t) × Bound r n a b
Bound r n _ _ = ⊥

pub Bound-mono :
    {r s : Trgs} {n m : ℕ} → Extends r n s m → (a b : Scope ℕ) → Bound r n a b → Bound s m a b
Bound-mono e [] [] h = tt
Bound-mono e [] (_ ∷ b) h = absurd h
Bound-mono e (_ ∷ a) [] h = absurd h
Bound-mono e ((x, i) ∷ a) ((y, t) ∷ b) ((same, holds), rest) =
    ((same, Holds-mono e holds), Bound-mono e a b rest)

-- What the values of the two walks have in common.
abbrev pub Related : Type 0 → Type 0 → Type 1
Related A B = Trgs → ℕ → A → B → Type 0

pub record After {A B : Type 0} (V : Related A B) (r : Trgs) (n : ℕ) (a : A)
    (t : State InterpretedDef ℕ) (s : Trgs) (l : Linker) (b : B) (u : State Linker ℕ) : Type 0 where
  pub extends : Extends r n s t.encoder.trgs
  pub value : V s t.encoder.trgs a b
  pub linker : u.encoder ≡ l
  pub bound : Bound s t.encoder.trgs t.scope u.scope

module _ {A B : Type 0} (V : Related A B) (r : Trgs) (n : ℕ) (a : A)
    (t : State InterpretedDef ℕ) where
  abbrev pub Agrees : Run Trgs → Built (State Linker ℕ) B → Type 0
  Agrees (Run.ok s l) (built b u) = After V r n a t s l b u
  Agrees (Run.panic p) (panicked q) = p ≡ q
  Agrees _ _ = ⊥

pub Agrees-Extends :
    {A B : Type 0} (V : Related A B) (a : A) (t : State InterpretedDef ℕ) {r s : Trgs} {n m : ℕ}
    → Extends r n s m
    → (o : Run Trgs) (out : Built (State Linker ℕ) B) → Agrees V s m a t o out
    → Agrees V r n a t o out
Agrees-Extends V a t e (Run.ok u l) (built b w) h = record {
  extends = Extends-trans e h.extends;
  value = h.value;
  linker = h.linker;
  bound = h.bound;
}
Agrees-Extends V a t e (Run.panic p) (panicked q) h = h
Agrees-Extends V a t e (Run.ok u l) (panicked q) h = absurd h
Agrees-Extends V a t e (Run.panic p) (built b w) h = absurd h

module _ {F : Type 0} (endian : Endian) (float : Float F) where
  unfoldable pub run : List Instruction → Trgs → Cmd Trgs
  run [] r l = Linker.pure r l
  run (i ∷ is) r l = Linker.and_then (exec endian float i r l) (run is)

  run-append :
      (is js : List Instruction) (r : Trgs) (l : Linker)
      → run (is ++ js) r l ≡ Linker.and_then (run is r l) (run js)
  unfolding run
  run-append [] js r l = refl
  run-append (i ∷ is) js r l =
      and_then-cong (exec endian float i r l) _ _ (run-append is js)
      ∙ and_then_assoc (exec endian float i r l) (run is) (run js)

  -- The instructions that the first walk adds do what the second walk does.
  abbrev pub Runs :
      {A B : Type 0}
      → Related A B
      → Trgs
      → Linker
      → State InterpretedDef ℕ
      → Built (State Linker ℕ) B
      → Built (State InterpretedDef ℕ) A
      → Type 0
  Runs V r l s out = OnBuilt (λ a t.
      (g : Grows s.encoder t.encoder)
      → t.encoder.trgs ≤ r.count
      → Agrees V r s.encoder.trgs a t (run g.more r l) out)

  pub record Sim {A B : Type 0} (V : Related A B) (r : Trgs) (n : ℕ) (m : Visit InterpretedDef ℕ A)
      (k : Visit Linker ℕ B) : Type 0 where
    pub simulates :
        (s : Trgs) (t : State InterpretedDef ℕ) (scope : Scope ℕ) (l : Linker)
        → Extends r n s t.encoder.trgs
        → Bound s t.encoder.trgs t.scope scope
        → Runs V s l t (k (record { encoder = l; scope = scope })) (m t)

  -- What two parts add is the one after the other.
  Grows-cut :
      (d e f : InterpretedDef) (g : Grows d e) (h : Grows e f) (whole : Grows d f)
      → whole.more ≡ g.more ++ h.more
  Grows-cut d e f g h whole = append_cancel_left d.instr whole.more (g.more ++ h.more) (
      sym whole.instr
      ∙ h.instr
      ∙ ap (λ is. is ++ h.more) g.instr
      ∙ append_assoc d.instr g.more h.more)

  module _ {A B C D : Type 0} (V : Related A B) (W : Related C D) where
    -- What follows the first part, after it has run.
    glue :
        (js : List Instruction) (r : Trgs) (n : ℕ) (a : A) (t : State InterpretedDef ℕ) (c : C)
        (v : State InterpretedDef ℕ) (k : B → Visit Linker ℕ D) (o : Run Trgs)
        (out : Built (State Linker ℕ) B)
        → Agrees V r n a t o out
        → ((s : Trgs) (l : Linker) (b : B) (scope : Scope ℕ)
            → Extends r n s t.encoder.trgs
            → V s t.encoder.trgs a b
            → Bound s t.encoder.trgs t.scope scope
            → Agrees W s t.encoder.trgs c v
                (run js s l)
                (k b (record { encoder = l; scope = scope })))
        → Agrees W r n c v (Linker.and_then o (run js)) (and_then out k)
    glue js r n a t c v k (Run.ok s l) (built b u) h next =
        let same : record u { encoder = l } ≡ u =
          ap (λ x. record u { encoder = x }) (sym h.linker) in
        Agrees-Extends W c v h.extends (run js s l) (k b u) (
          subst (λ x. Agrees W s t.encoder.trgs c v (run js s l) (k b x)) same
            (next s l b u.scope h.extends h.value h.bound))
    glue js r n a t c v k (Run.panic p) (panicked q) h next = h
    glue js r n a t c v k (Run.ok s l) (panicked q) h next = absurd h
    glue js r n a t c v k (Run.panic p) (built b u) h next = absurd h

    module _ (s : Trgs) (t : State InterpretedDef ℕ) (out : Built (State Linker ℕ) B)
        (k : B → Visit Linker ℕ D) where
      -- What the second part needs of the first.
      abbrev Follows : State InterpretedDef ℕ → A → Built (State InterpretedDef ℕ) C → Type 0
      Follows u a o =
          (r : Trgs) (b : B) (scope : Scope ℕ) (l : Linker)
          → Extends s t.encoder.trgs r u.encoder.trgs
          → V r u.encoder.trgs a b
          → Bound r u.encoder.trgs u.scope scope
          → Runs W r l u (k b (record { encoder = l; scope = scope })) o

      bind_second :
          (l : Linker) (a : A) (u : State InterpretedDef ℕ)
          → Grows t.encoder u.encoder
          → ((g : Grows t.encoder u.encoder)
              → u.encoder.trgs ≤ s.count
              → Agrees V s t.encoder.trgs a u (run g.more s l) out)
          → (o : Built (State InterpretedDef ℕ) C) → OnBuilt (λ _ w. Grows u.encoder w.encoder) o
          → Follows u a o
          → Runs W s l t (and_then out k) o
      bind_second l a u g h (panicked p) gu next = tt
      bind_second l a u g h (built c w) gu next = λ whole le.
          rw (Grows-cut _ _ _ g gu whole, run-append g.more gu.more s l)
            (glue gu.more s t.encoder.trgs a u c w k (run g.more s l) out
              (h g (omega (arith, gu.trgs, le)))
              (λ r l' b scope ext value bound.
                next r b scope l' ext value bound gu (omega (arith, le, ext.count))))

      bind_first :
          (l : Linker) (m : A → Visit InterpretedDef ℕ C) (o : Built (State InterpretedDef ℕ) A)
          → OnBuilt (λ _ u. Grows t.encoder u.encoder) o
          → Runs V s l t out o
          → ((a : A) → Grow (m a))
          → ((u : State InterpretedDef ℕ) (a : A) → Follows u a (m a u))
          → Runs W s l t (and_then out k) (and_then o m)
      bind_first l m (panicked p) g h gm next = tt
      bind_first l m (built a u) g h gm next = bind_second l a u g h (m a u) (gm a u) (next u a)

    pub Sim-bind :
        {r : Trgs} {n : ℕ} {m : Visit InterpretedDef ℕ A} {m' : A → Visit InterpretedDef ℕ C}
        {k : Visit Linker ℕ B} {k' : B → Visit Linker ℕ D}
        → Grow m
        → ((a : A) → Grow (m' a))
        → Sim V r n m k
        → ((s : Trgs) (j : ℕ) (a : A) (b : B)
            → Extends r n s j
            → V s j a b
            → Sim W s j (m' a) (k' b))
        → Sim W r n (m >>= m') (k >>= k')
    Sim-bind {m = m} {m' = m'} {k = k} {k' = k'} gm gm' hm hk = record {
      simulates = λ s t scope l ext bound.
          bind_first s t (k (record { encoder = l; scope = scope })) k' l m' (m t) (gm t)
            (hm.simulates s t scope l ext bound) gm'
            (λ u a s' b scope' l' ext' value bound'.
              (hk s' u.encoder.trgs a b (Extends-trans ext ext') value).simulates s' u scope' l'
                (Extends-refl s' u.encoder.trgs) bound');
    }
