-- ===== src/Host/Encode/Branches.antt =====
-- What the walks of both encoders do without instructions: scopes, ports, tests (src/host/encode.rs).
use hvm.Prelude.{ℕ, ◌≡◌, refl, Bool, true, false, Option, none, some, [], ◌∷◌, ◌∙◌, if◌then◌else◌}
use mathlib.Core.Path.{subst}
use mathlib.Core.List.{append_cancel_left, append-nil}
use hvm.Ops.Kinds.{Endian}
use hvm.Ops.Numeric.{Float}
use hvm.Run.Tag.{Tag}
use hvm.Run.Port
use hvm.Run.Port.{is_principal, new_int, new_num}
use hvm.Run.Port.Numbers.{num-new_num}
use hvm.Run.Linker.{Linker}
use hvm.Run.Instruction.Program.{InterpretedDef, Trgs}
use hvm.Ast.{Name}
use hvm.Transform.Inline.{name_eq}
use hvm.Host.Encode.{built, Scope, State, Visit, take, case_of}
use hvm.Host.Encode.Grow.{Grows}
use hvm.Host.Encode.Simulation.{
  Holds, Extends, Extends-refl, Bound, Related, After, Agrees, Sim, run,
}

-- What both scopes give for a name.
abbrev pub Taken : Trgs → ℕ → Option (ℕ × Scope ℕ) → Option (ℕ × Scope ℕ) → Type 0
Taken r n none none = Unit
Taken r n (some (i, a)) (some (t, b)) = Holds r n i t × Bound r n a b
Taken r n _ _ = ⊥

module _ (r : Trgs) (n : ℕ) (nam : Name) where
  Taken-later :
      (x : Name) (i t : ℕ)
      → Holds r n i t
      → (o p : Option (ℕ × Scope ℕ)) → Taken r n o p
      → Taken r n
          (elim o as (λ o. Option (ℕ × Scope ℕ)) [
            | none ↦ none
            | some (u, left) ↦ some (u, (x, i) ∷ left)
          ])
          (elim p as (λ o. Option (ℕ × Scope ℕ)) [
            | none ↦ none
            | some (u, left) ↦ some (u, (x, t) ∷ left)
          ])
  Taken-later x i t h none none k = tt
  Taken-later x i t h (some (j, a)) (some (u, b)) k = (k.0, ((refl, h), k.1))
  Taken-later x i t h none (some p) k = absurd k
  Taken-later x i t h (some p) none k = absurd k

  pub take-Taken : (a b : Scope ℕ) → Bound r n a b → Taken r n (take a nam) (take b nam)
  unfolding take
  take-Taken [] [] h = tt
  take-Taken ((x, i) ∷ a) ((y, t) ∷ b) ((same, holds), rest) =
      subst (λ z. Taken r n (take ((x, i) ∷ a) nam) (take ((z, t) ∷ b) nam)) same
        (at (name_eq x nam) (take-Taken a b rest))
    where
      at :
          (c : Bool)
          → Taken r n (take a nam) (take b nam)
          → Taken r n
              (if c then some (i, a) else elim (take a nam) as (λ o. Option (ℕ × Scope ℕ)) [
                | none ↦ none
                | some (u, left) ↦ some (u, (x, i) ∷ left)
              ])
              (if c then some (t, b) else elim (take b nam) as (λ o. Option (ℕ × Scope ℕ)) [
                | none ↦ none
                | some (u, left) ↦ some (u, (x, t) ∷ left)
              ])
      at true h = (holds, rest)
      at false h = Taken-later x i t holds (take a nam) (take b nam) h
  take-Taken [] (_ ∷ b) h = absurd h
  take-Taken (_ ∷ a) [] h = absurd h

-- A port that is principal, the same on both sides.
abbrev pub Fixed : Related ℕ ℕ
Fixed r n p q = (p ≡ q) × (is_principal p ≡ true)

pub is_principal-int : (b : ℕ) → is_principal (new_int b) ≡ true
unfolding is_principal new_int
is_principal-int b = rw ((num-new_num Tag.int b).0) refl

pub is_principal-f32 : (b : ℕ) → is_principal (new_num Tag.f32 b) ≡ true
unfolding is_principal
is_principal-f32 b = rw ((num-new_num Tag.f32 b).0) refl

pub is_principal-era : is_principal Port.era ≡ true
unfolding is_principal
is_principal-era = refl

module _ {F : Type 0} (endian : Endian) (float : Float F) where
  -- Without an instruction.
  pub stay :
      {A B : Type 0} (V : Related A B) (d : InterpretedDef) (mine : Scope ℕ) (s : Trgs) (l : Linker)
      (a : A) (b : B) (u : State Linker ℕ)
      → After V s d.trgs a (record { encoder = d; scope = mine }) s l b u
      → (g : Grows d d)
      → Agrees V s d.trgs a
          (record { encoder = d; scope = mine })
          (run endian float g.more s l)
          (built b u)
  unfolding run
  stay V d mine s l a b u after g =
      let e : [] ≡ g.more = append_cancel_left d.instr [] g.more (append-nil d.instr ∙ g.instr) in
      subst
        (λ is.
          Agrees V s d.trgs a (record { encoder = d; scope = mine }) (run endian float is s l)
            (built b u))
        e after

  pub Sim-pure :
      {A B : Type 0} (V : Related A B) (r : Trgs) (n : ℕ) (a : A) (b : B)
      → ((s : Trgs) (k : ℕ) → Extends r n s k → V s k a b)
      → Sim endian float V r n (built a) (built b)
  Sim-pure V r n a b value = record {
    simulates = λ s t scope l ext bound g le.
        stay V t.encoder t.scope s l a b (record { encoder = l; scope = scope })
          (record {
            extends = Extends-refl s t.encoder.trgs;
            value = value s t.encoder.trgs ext;
            linker = refl;
            bound = bound;
          })
          g;
  }

  pub Sim-case :
      {X A B : Type 0} (V : Related A B) (r : Trgs) (n : ℕ) (o : Option X)
      (f : X → Visit InterpretedDef ℕ A) (d : Visit InterpretedDef ℕ A) (f' : X → Visit Linker ℕ B)
      (d' : Visit Linker ℕ B)
      → ((x : X) → o ≡ some x → Sim endian float V r n (f x) (f' x))
      → Sim endian float V r n d d'
      → Sim endian float V r n (case_of o f d) (case_of o f' d')
  Sim-case V r n none f d f' d' hf hd = hd
  Sim-case V r n (some x) f d f' d' hf hd = hf x refl

  pub Sim-if :
      {A B : Type 0} (V : Related A B) (r : Trgs) (n : ℕ) (c : Bool)
      (m d : Visit InterpretedDef ℕ A) (m' d' : Visit Linker ℕ B)
      → Sim endian float V r n m m'
      → Sim endian float V r n d d'
      → Sim endian float V r n (if c then m else d) (if c then m' else d')
  Sim-if V r n true m d m' d' hm hd = hm
  Sim-if V r n false m d m' d' hm hd = hd
