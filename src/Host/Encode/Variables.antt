-- ===== src/Host/Encode/Variables.antt =====
-- The variables that a walk opens and closes (src/host/encode.rs).
use hvm.Prelude.{
  ℕ, ◌≡◌, refl, Bool, true, false, Option, none, some, List, [], ◌∷◌, ◌++◌, ◌∙◌, ap, if◌then◌else◌,
}
use mathlib.Core.Path.{sym}
use hvm.Run.Instruction.Program.{InterpretedDef}
use hvm.Ops.Kinds.{TypedOp}
use hvm.Ast.{Name, Tree, Trees, Net}
use hvm.Transform.Inline.{name_eq}
use hvm.Host.{Host}
use hvm.Host.Encode.{
  Built, Build, built, panicked, and_then, ◌>>=◌, Scope, State, Visit, on_encoder, take, link_const,
}
use hvm.Host.Encode.Definition.{to_def, push, push_two, new_trg_id}

-- The variables of a tree, in the order of the walk.
unfoldable mutual
  pub vars : Tree → List Name
  vars (Tree.var nam) = nam ∷ []
  vars (Tree.ctr lab ports) = all_vars ports
  vars (Tree.op o rhs out) = vars rhs ++ vars out
  vars (Tree.mat z s out) = vars z ++ (vars s ++ vars out)
  vars (Tree.adt lab i n fields) = all_vars fields
  vars Tree.era = []
  vars (Tree.int bits) = []
  vars (Tree.f32 bits) = []
  vars (Tree.ref nam) = []

  pub all_vars : Trees → List Name
  all_vars Trees.end = []
  all_vars (Trees.and t ts) = vars t ++ all_vars ts

unfoldable pub redex_vars : List (Tree × Tree) → List Name
redex_vars [] = []
redex_vars ((a, b) ∷ rest) = (vars a ++ vars b) ++ redex_vars rest

unfoldable pub net_vars : Net → List Name
net_vars net = vars net.root ++ redex_vars net.redexes

-- The names that are open after an occurrence of a variable: it is opened, or closed if it was open.
abbrev pub close : Name → List Name → Option (List Name)
close nam [] = none
close nam (n ∷ ns) =
    if name_eq n nam
    then some ns
    else elim (close nam ns) [ none ↦ none | some left ↦ some (n ∷ left) ]

abbrev pub toggle : Name → List Name → List Name
toggle nam open_names = elim (close nam open_names) [ none ↦ nam ∷ open_names | some left ↦ left ]

abbrev pub toggle_all : List Name → List Name → List Name
toggle_all [] ns = ns
toggle_all (x ∷ xs) ns = toggle_all xs (toggle x ns)

toggle_all-append :
    (xs ys ns : List Name) → toggle_all (xs ++ ys) ns ≡ toggle_all ys (toggle_all xs ns)
toggle_all-append [] ys ns = refl
toggle_all-append (x ∷ xs) ys ns = toggle_all-append xs ys (toggle x ns)

abbrev pub names : Scope ℕ → List Name
names [] = []
names ((x, i) ∷ rest) = x ∷ names rest

-- What is taken from a scope is closed among its names.
abbrev pub Takes : Option (ℕ × Scope ℕ) → Option (List Name) → Type 0
Takes none none = Unit
Takes (some (i, rest)) (some left) = names rest ≡ left
Takes _ _ = ⊥

pub take-Takes : (nam : Name) (scope : Scope ℕ) → Takes (take scope nam) (close nam (names scope))
unfolding take
take-Takes nam [] = tt
take-Takes nam ((x, i) ∷ rest) =
    at (name_eq x nam) (take rest nam) (close nam (names rest)) (take-Takes nam rest)
  where
    at :
        (b : Bool) (o : Option (ℕ × Scope ℕ)) (p : Option (List Name))
        → Takes o p
        → Takes
            (if b then some (i, rest) else elim o as (λ o. Option (ℕ × Scope ℕ)) [
              | none ↦ none
              | some (u, left) ↦ some (u, (x, i) ∷ left)
            ])
            (if b then some (names rest) else elim p as (λ p. Option (List Name)) [
              | none ↦ none
              | some left ↦ some (x ∷ left)
            ])
    at true o p h = refl
    at false none none h = tt
    at false (some (u, left)) (some l) h = ap (λ ns. x ∷ ns) h
    at false none (some l) h = absurd h
    at false (some q) none h = absurd h

-- Something is built, with the property.
module _ {S A : Type 0} where
  abbrev pub Yields : (A → S → Type 0) → Built S A → Type 0
  Yields P (built a s) = P a s
  Yields P (panicked p) = ⊥

module _ {S A B : Type 0} where
  Yields-bind :
      (P : A → S → Type 0) (Q : B → S → Type 0) (r : Built S A) (k : A → Build S B)
      → Yields P r
      → ((a : A) (s : S) → P a s → Yields Q (k a s))
      → Yields Q (and_then r k)
  Yields-bind P Q (built a s) k h next = next a s h
  Yields-bind P Q (panicked p) k h next = absurd h

-- A walk that returns, and toggles the variables.
pub record Goes {A : Type 0} (xs : List Name) (m : Visit InterpretedDef ℕ A) : Type 0 where
  pub goes :
      (s : State InterpretedDef ℕ)
      → Yields (λ _ t. names t.scope ≡ toggle_all xs (names s.scope)) (m s)

pub Goes-bind :
    {A B : Type 0} {xs ys : List Name} {m : Visit InterpretedDef ℕ A}
    {k : A → Visit InterpretedDef ℕ B}
    → Goes xs m
    → ((a : A) → Goes ys (k a))
    → Goes (xs ++ ys) (m >>= k)
Goes-bind {B = B} {xs = xs} {ys = ys} {m = m} {k = k} h next = record {
  goes = λ s. Yields-bind _ _ (m s) k (h.goes s) (λ a t e.
      Yields-to (toggle_all ys (names t.scope)) (toggle_all (xs ++ ys) (names s.scope))
        (ap (toggle_all ys) e ∙ sym (toggle_all-append xs ys (names s.scope))) (k a t)
        ((next a).goes t));
}
  where
    Yields-to :
        (u v : List Name)
        → u ≡ v
        → (o : Built (State InterpretedDef ℕ) B) → Yields (λ _ w. names w.scope ≡ u) o
        → Yields (λ _ w. names w.scope ≡ v) o
    Yields-to u v e (built b w) h = h ∙ e
    Yields-to u v e (panicked p) h = absurd h

pub Goes-pure : {A : Type 0} (a : A) → Goes [] (built a)
Goes-pure a = record { goes = λ s. refl }

pub Goes-port : (host : Host) (trg port : ℕ) → Goes [] (link_const to_def host trg port)
unfolding link_const to_def push
Goes-port host trg port = record { goes = λ s. refl }

pub Goes-link : (a b : ℕ) → Goes [] (on_encoder (to_def.link a b))
unfolding to_def push
Goes-link a b = record { goes = λ s. refl }

pub Goes-ctr : (lab trg : ℕ) → Goes [] (on_encoder (to_def.ctr lab trg))
unfolding to_def push push_two new_trg_id
Goes-ctr lab trg = record { goes = λ s. refl }

pub Goes-op : (o : TypedOp) (trg : ℕ) → Goes [] (on_encoder (to_def.op o trg))
unfolding to_def push push_two new_trg_id
Goes-op o trg = record { goes = λ s. refl }

pub Goes-mat : (trg : ℕ) → Goes [] (on_encoder (to_def.mat trg))
unfolding to_def push push_two new_trg_id
Goes-mat trg = record { goes = λ s. refl }

pub Goes-op_num : (o : TypedOp) (trg rhs : ℕ) → Goes [] (on_encoder (to_def.op_num o trg rhs))
unfolding to_def push new_trg_id
Goes-op_num o trg rhs = record { goes = λ s. refl }

pub Goes-const : (port : ℕ) → Goes [] (on_encoder (to_def.make_const port))
unfolding to_def push new_trg_id
Goes-const port = record { goes = λ s. refl }

pub Goes-wires : Goes [] (on_encoder to_def.wires)
unfolding to_def push new_trg_id
Goes-wires = record { goes = λ s. refl }
