-- ===== src/Ast/Printer.antt =====
-- `Display` for trees, nets and books (src/ast.rs): each function puts its text in front of the text
-- that follows.
use hvm.Prelude.{ℕ, zero, suc, Bool, true, false, List, [], ◌∷◌, ◌++◌, ltb, if◌then◌else◌}
use hvm.Ops.Kinds.{codes, display}
use hvm.Ast.{Name, Tree, Trees, Net, Book}
use hvm.Ast.Number.{decimal, signed}
use hvm.Ast.Scanner.{Text, Scanner}

-- The brackets of a node by its label.
abbrev pub write_open : (lab : ℕ) → Text → Text
write_open zero rest = b'(' ∷ rest
write_open (suc zero) rest = b'[' ∷ rest
write_open lab rest = b'{' ∷ decimal lab rest

abbrev pub write_close : (lab : ℕ) → Text → Text
write_close zero rest = b')' ∷ rest
write_close (suc zero) rest = b']' ∷ rest
write_close lab rest = b'}' ∷ rest

abbrev pub write_space : Bool → Text → Text
write_space space rest = if space then b' ' ∷ rest else rest

module _ (s : Scanner) where
  unfoldable mutual
    unfolding decimal signed display

    pub write_tree : Tree → Text → Text
    write_tree Tree.era rest = b'*' ∷ rest
    write_tree (Tree.ctr lab ports) rest =
        write_open lab (write_trees (ltb 1 lab) ports (write_close lab rest))
    write_tree (Tree.adt lab i n fields) rest =
        write_open lab
          (b':' ∷ decimal i (b':' ∷ decimal n (write_trees true fields (write_close lab rest))))
    write_tree (Tree.var nam) rest = nam ++ rest
    write_tree (Tree.ref nam) rest = b'@' ∷ (nam ++ rest)
    write_tree (Tree.int bits) rest = b'#' ∷ signed bits rest
    write_tree (Tree.f32 bits) rest = b'#' ∷ (s.debug_f32 bits ++ rest)
    write_tree (Tree.op op rhs out) rest =
        b'<' ∷ (display op ++ (b' ' ∷ write_tree rhs (b' ' ∷ write_tree out (b'>' ∷ rest))))
    write_tree (Tree.mat z n out) rest =
        b'?' ∷ b'<' ∷ write_tree z (b' ' ∷ write_tree n (b' ' ∷ write_tree out (b'>' ∷ rest)))

    -- Each tree with a space before it, the first only if `space`.
    pub write_trees : (space : Bool) → Trees → Text → Text
    write_trees space Trees.end rest = rest
    write_trees space (Trees.and t ts) rest =
        write_space space (write_tree t (write_trees true ts rest))

  unfoldable pub write_redexes : List (Tree × Tree) → Text → Text
  unfolding write_tree
  write_redexes [] rest = rest
  write_redexes ((a, b) ∷ redexes) rest =
      codes "\n  & " ++ write_tree a (codes " ~ " ++ write_tree b (write_redexes redexes rest))

  unfoldable pub write_net : Net → Text → Text
  unfolding write_tree write_redexes
  write_net net rest = write_tree net.root (write_redexes net.redexes rest)

  -- The nets, with an empty line before each, the first only if `between`.
  unfoldable pub write_nets : (between : Bool) → List (Name × Net) → Text → Text
  unfolding write_net
  write_nets between [] rest = rest
  write_nets between ((name, net) ∷ nets) rest =
      let named = b'@' ∷ (name ++ (codes " = " ++ write_net net (write_nets true nets rest))) in
      if between then codes "\n\n" ++ named else named

  unfoldable pub write_book : Book → Text
  unfolding write_nets
  write_book book = write_nets false book.nets []
