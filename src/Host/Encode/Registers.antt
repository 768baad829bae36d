-- ===== src/Host/Encode/Registers.antt =====
-- The registers that the instructions of an encoder set (src/host/encode.rs, src/run/def.rs).
use hvm.Prelude.{ℕ, ◌+◌, ◌<◌, ◌≡◌, refl, true, List, arith, ltb}
use hvm.Run.Linker
use hvm.Run.Linker.{Linker, Run, Cmd, Panic}
use hvm.Run.Instruction.Program.{Instruction, Trgs, get_trg, set_trg, put}
use hvm.Host.Encode.{Scope}
use hvm.Host.Encode.Simulation.{
  Holds, Extends, Holds-mono, Bound, Bound-mono, Related, After, Extends-trans,
}

-- The values of the operations: one register, two, four, or nothing.
abbrev pub One : Related ℕ ℕ
One r n i t = Holds r n i t

abbrev pub Two : Related (ℕ × ℕ) (ℕ × ℕ)
Two r n (i, j) (t, u) = Holds r n i t × Holds r n j u

abbrev pub Four : Related (ℕ × ℕ × ℕ × ℕ) (ℕ × ℕ × ℕ × ℕ)
Four r n (i, j, k, m) (t, u, v, w) = Holds r n i t × Holds r n j u × Holds r n k v × Holds r n m w

abbrev pub None : Related (Unit {0}) (Unit {0})
None r n a b = Unit {0}

-- The registers.
pub set_trg-ok :
    (r : Trgs) (i t : ℕ) (l : Linker) → i < r.count → set_trg r i t l ≡ Linker.ok (put r i t) l
unfolding set_trg
set_trg-ok r i t l h = let e : ltb i r.count ≡ true = ground arith in rw e refl

pub get_trg-ok : (r : Trgs) (n i t : ℕ) (l : Linker) → Holds r n i t → get_trg r i l ≡ Linker.ok t l
unfolding get_trg
get_trg-ok r n i t l h = rw (h.slot, get_trg) refl

pub put-Holds : (r : Trgs) (n t : ℕ) → Holds (put r n t) (n + 1) n t
unfolding put
put-Holds r n t = record { below = omega arith; slot = ground arith }

pub put-Extends : (r : Trgs) (n t : ℕ) → Extends r n (put r n t) (n + 1)
unfolding put
put-Extends r n t = record { more = omega arith; count = refl; keeps = λ i h. ground arith }

pub put-Two : (r : Trgs) (n t u : ℕ) → Two (put (put r n t) (n + 1) u) (n + 1 + 1) (n, n + 1) (t, u)
put-Two r n t u = (
  Holds-mono (put-Extends (put r n t) (n + 1) u) (put-Holds r n t),
  put-Holds (put r n t) (n + 1) u,
)

pub put-twice : (r : Trgs) (n t u : ℕ) → Extends r n (put (put r n t) (n + 1) u) (n + 1 + 1)
put-twice r n t u = Extends-trans (put-Extends r n t) (put-Extends (put r n t) (n + 1) u)

-- Two registers are set.
unfoldable pub set_two : (r : Trgs) (n : ℕ) → ℕ × ℕ → Cmd Trgs
set_two r n got l = Linker.and_then (set_trg r n (got.0) l) (λ s. set_trg s (n + 1) (got.1))

pub set_two-ok :
    (r : Trgs) (n : ℕ) (got : ℕ × ℕ) (l : Linker)
    → n + 1 < r.count
    → set_two r n got l ≡ Linker.ok (put (put r n (got.0)) (n + 1) (got.1)) l
unfolding set_two put
set_two-ok r n got l h =
    rw (set_trg-ok r n (got.0) l (omega (arith, h)))
      (set_trg-ok (put r n (got.0)) (n + 1) (got.1) l h)

abbrev pub put_four : Trgs → ℕ → ℕ × ℕ × ℕ × ℕ → Trgs
put_four r n got =
    put (put (put (put r n (got.0)) (n + 1) (got.1)) (n + 1 + 1) (got.2)) (n + 1 + 1 + 1) (got.3)

unfoldable pub set_four : (r : Trgs) (n : ℕ) → ℕ × ℕ × ℕ × ℕ → Cmd Trgs
set_four r n got l = Linker.and_then (set_trg r n (got.0) l) (λ s l.
    Linker.and_then (set_trg s (n + 1) (got.1) l) (λ s. set_two s (n + 1 + 1) (got.2, got.3)))

pub set_four-ok :
    (r : Trgs) (n : ℕ) (got : ℕ × ℕ × ℕ × ℕ) (l : Linker)
    → n + 1 + 1 + 1 < r.count
    → set_four r n got l ≡ Linker.ok (put_four r n got) l
unfolding set_four put
set_four-ok r n got l h =
    let s = put (put r n (got.0)) (n + 1) (got.1) in
    rw
      (
        set_trg-ok r n (got.0) l (omega (arith, h)),
        set_trg-ok (put r n (got.0)) (n + 1) (got.1) l (omega (arith, h)),
      )
      (set_two-ok s (n + 1 + 1) (got.2, got.3) l h)

pub put-Four :
    (r : Trgs) (n : ℕ) (got : ℕ × ℕ × ℕ × ℕ)
    → Four (put_four r n got) (n + 1 + 1 + 1 + 1) (n, n + 1, n + 1 + 1, n + 1 + 1 + 1) got
put-Four r n got =
    let s = put (put r n (got.0)) (n + 1) (got.1) in
    let two = put-Two r n (got.0) (got.1) in
    let more = put-twice s (n + 1 + 1) (got.2) (got.3) in
    let rest = put-Two s (n + 1 + 1) (got.2) (got.3) in
    (Holds-mono more (two.0), Holds-mono more (two.1), rest.0, rest.1)

-- What is in scope stays bound when registers are set.
pub After-put :
    {B : Type 0} (V : Related B B) (r s : Trgs) (n k : ℕ) (instr : List Instruction) (a b : B)
    (mine scope : Scope ℕ) (l : Linker)
    → Extends r n s k
    → V s k a b
    → Bound r n mine scope
    → After V r n a
        (record { encoder = record { instr = instr; trgs = k }; scope = mine })
        s
        l
        b
        (record { encoder = l; scope = scope })
After-put V r s n k instr a b mine scope l ext value bound = record {
  extends = ext;
  value = value;
  linker = refl;
  bound = Bound-mono ext mine scope bound;
}
