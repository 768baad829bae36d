-- ===== src/Ast/RoundTrip/Heads.antt =====
-- The first character of a printed tree tells the parser where it is.
use hvm.Prelude.{
  ℕ, ◌<◌, ◌≡◌, refl, Bool, true, false, ◌&&◌, ◌||◌, not, ◌∷◌, ◌++◌, ◌==◌, ltb, arith, zero, suc,
}
use mathlib.Core.Path.{◌∙◌}
use hvm.Ops.Kinds.{codes}
use hvm.Ast.{Name, Tree, Trees}
use hvm.Ast.Scanner.{Text, Scanner, IsScanner, solid, stops, ascii_alphanumeric}
use hvm.Ast.Parser.{member, name_char}
use hvm.Ast.Printer.{write_tree, write_trees, write_close, write_open, write_space}
use hvm.Ast.Limits.{WellFormed, AllWellFormed, IsName}

-- No trivia, and no character that the parser looks for in place of a tree.
abbrev pub opening : ℕ → Bool
opening c = solid c && not (member c (codes ":)]}>"))

-- No character that starts another tree than a variable, and no minus sign.
abbrev pub ordinary : ℕ → Bool
ordinary c = opening c && not (member c (codes "*([{@#<?-"))

pub data Opens : Text → Type 0 where
  opens : (c : ℕ) (t : Text) → opening c ≡ true → Opens (c ∷ t)

pub data Ordinary : Text → Type 0 where
  name : (c : ℕ) (t : Text) → ordinary c ≡ true → Ordinary (c ∷ t)

pub data Close : ℕ → Type 0 where
  round : Close b')'
  square : Close b']'
  curly : Close b'}'

-- Where a tree may end.
abbrev pub Ends : Scanner → Text → Type 0
Ends s rest = stops (name_char s) rest ≡ true

module _ (s : Scanner) (laws : IsScanner s) where
  pub name_char-ordinary : (c : ℕ) → name_char s c ≡ true → ordinary c ≡ true
  name_char-ordinary c h = at (ltb c 128) refl
    where
      at : (b : Bool) → ltb c 128 ≡ b → ordinary c ≡ true
      at false e = ground arith
      at true e =
          let a : s.alphanumeric c ≡ ascii_alphanumeric c =
            laws.alphanumeric-ascii c (ground arith) in
          ascii (rw a at h)
        where
          ascii :
              (ascii_alphanumeric c || (c == b'_' || (c == b'.' || c == b'$'))) ≡ true
              → ordinary c ≡ true
          ascii h = ground arith

  -- A character that ends names ends what any character class of the parser accepts.
  pub IsName-Ordinary : {nam : Name} → IsName s nam → (rest : Text) → Ordinary (nam ++ rest)
  IsName-Ordinary (IsName.name c cs h) rest =
      Ordinary.name c (cs ++ rest) (name_char-ordinary c (ground arith))

  opening-ordinary : {t : Text} → Ordinary t → Opens t
  opening-ordinary (Ordinary.name c t h) = Opens.opens c t (ground arith)

  write_open-Opens : (lab : ℕ) (rest : Text) → Opens (write_open lab rest)
  write_open-Opens zero rest = Opens.opens _ _ refl
  write_open-Opens (suc zero) rest = Opens.opens _ _ refl
  write_open-Opens (suc (suc lab)) rest = Opens.opens _ _ refl

  pub write_tree-Opens :
      {F : ℕ → Type 0} {t : Tree} → WellFormed s F t → (rest : Text) → Opens (write_tree s t rest)
  unfolding write_tree
  write_tree-Opens (WellFormed.ctr lab ports _ _ _) rest = write_open-Opens lab _
  write_tree-Opens (WellFormed.adt lab i n fields _ _ _ _ _) rest = write_open-Opens lab _
  write_tree-Opens (WellFormed.var nam h) rest = opening-ordinary (IsName-Ordinary h rest)
  write_tree-Opens _ rest = Opens.opens _ _ refl

  pub write_close-Close :
      (lab : ℕ) → (c : ℕ) × ((rest : Text) → write_close lab rest ≡ c ∷ rest) × Close c
  write_close-Close zero = (_, (λ rest. refl), Close.round)
  write_close-Close (suc zero) = (_, (λ rest. refl), Close.square)
  write_close-Close (suc (suc lab)) = (_, (λ rest. refl), Close.curly)

  -- A text that starts with punctuation ends a name and a number.
  pub Ends-punctuation :
      (c : ℕ) (t : Text)
      → c < 128
      → (ascii_alphanumeric c || (c == b'_' || (c == b'.' || c == b'$'))) ≡ false
      → Ends s (c ∷ t)
  Ends-punctuation c t h e = rw (laws.alphanumeric-ascii c h) (ground arith)

  pub Close-Ends : {c : ℕ} → Close c → (t : Text) → Ends s (c ∷ t)
  Close-Ends Close.round t = Ends-punctuation _ t (omega arith) refl
  Close-Ends Close.square t = Ends-punctuation _ t (omega arith) refl
  Close-Ends Close.curly t = Ends-punctuation _ t (omega arith) refl

  pub skip-opening : {t : Text} → Opens t → s.skip_trivia t ≡ t
  skip-opening (Opens.opens c t h) = laws.skip_trivia-solid c t (ground arith)

  pub skip_space : (space : Bool) {t : Text} → Opens t → s.skip_trivia (write_space space t) ≡ t
  skip_space true h = laws.skip_trivia-space _ ∙ skip-opening h
  skip_space false h = skip-opening h

  pub skip-Close : {c : ℕ} → Close c → (t : Text) → s.skip_trivia (c ∷ t) ≡ c ∷ t
  skip-Close Close.round t = laws.skip_trivia-solid _ t refl
  skip-Close Close.square t = laws.skip_trivia-solid _ t refl
  skip-Close Close.curly t = laws.skip_trivia-solid _ t refl

  -- What follows a node's label starts with a tree or closes the node.
  pub data Leads (close : ℕ) (rest : Text) : Text → Type 0 where
    closed : Leads close rest (close ∷ rest)
    tree : {t : Text} → Opens t → Leads close rest t

  pub write_trees-Leads :
      {F : ℕ → Type 0} (space : Bool) {ts : Trees} {close : ℕ}
      → AllWellFormed s F ts
      → Close close
      → (rest : Text) → Leads close rest (s.skip_trivia (write_trees s space ts (close ∷ rest)))
  unfolding write_trees
  write_trees-Leads space AllWellFormed.end k rest = rw (skip-Close k rest) Leads.closed
  write_trees-Leads space {close = close} (AllWellFormed.and {ts = ts} h hs) k rest =
      let head = write_tree-Opens h (write_trees s true ts (close ∷ rest)) in
      rw (skip_space space head) (Leads.tree head)

  pub write_trees-Ends :
      (ts : Trees) {close : ℕ}
      → Close close
      → (rest : Text) → Ends s (write_trees s true ts (close ∷ rest))
  unfolding write_trees
  write_trees-Ends Trees.end k rest = Close-Ends k rest
  write_trees-Ends (Trees.and t ts) {close = close} k rest =
      Ends-punctuation b' ' (write_tree s t (write_trees s true ts (close ∷ rest))) (omega arith)
        refl
