-- ===== src/Ast/Scanner/Spans.antt =====
-- Prefixes of a text: what `span` and `strip` find in front of it.
use hvm.Prelude.{ℕ, ◌≡◌, refl, Bool, true, false, ◌&&◌, not, [], ◌∷◌, ◌++◌, ◌==◌, arith}
use hvm.Ast.Scanner.{Text, span, strip, all, stops}

pub all-weaken :
    {p q : ℕ → Bool}
    → ((c : ℕ) → p c ≡ true → q c ≡ true)
    → (t : Text) → all p t ≡ true
    → all q t ≡ true
all-weaken f [] h = refl
all-weaken {p = p} {q = q} f (c ∷ cs) h = at (p c) refl h (all-weaken f cs)
  where
    at :
        (b : Bool)
        → p c ≡ b
        → (b && all p cs) ≡ true
        → (all p cs ≡ true → all q cs ≡ true)
        → (q c && all q cs) ≡ true
    at true e h ih = rw (f c e, ih h) refl
    at false e h ih = absurd (ground arith)

-- What the test accepts, up to a text where it stops.
pub span-append :
    (test : ℕ → Bool) (front rest : Text)
    → all test front ≡ true
    → stops test rest ≡ true
    → span test (front ++ rest) ≡ (front, rest)
span-append test [] [] h k = refl
span-append test [] (c ∷ cs) h k = at (test c) refl k
  where
    at : (b : Bool) → test c ≡ b → not b ≡ true → span test (c ∷ cs) ≡ ([], c ∷ cs)
    at false e k = rw e refl
    at true e k = absurd (ground arith)
span-append test (c ∷ cs) rest h k = at (test c) refl h (λ h. span-append test cs rest h k)
  where
    at :
        (b : Bool)
        → test c ≡ b
        → (b && all test cs) ≡ true
        → (all test cs ≡ true → span test (cs ++ rest) ≡ (cs, rest))
        → span test (c ∷ (cs ++ rest)) ≡ (c ∷ cs, rest)
    at true e h ih = rw (e, ih h) refl
    at false e h ih = absurd (ground arith)

-- A token of one character.
pub strip-same : (c : ℕ) (t : Text) → strip (c ∷ []) (c ∷ t) ≡ (true, t)
strip-same c t = let e : (c == c) ≡ true = ground arith in rw e refl

pub strip-other :
    (c : ℕ) (token : Text) (d : ℕ) (t : Text)
    → (c == d) ≡ false
    → strip (c ∷ token) (d ∷ t) ≡ (false, d ∷ t)
strip-other c token d t e = rw e refl
