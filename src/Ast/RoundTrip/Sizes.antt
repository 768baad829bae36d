-- ===== src/Ast/RoundTrip/Sizes.antt =====
-- The fuel that a printed text needs, against the text's length.
use hvm.Prelude.{
  ℕ, ◌^◌, ◌-◌, ◌+◌, ◌*◌, ◌<◌, ◌≤◌, ◌≡◌, refl, Bool, true, false, List, [], ◌∷◌, ◌++◌, ltb, arith,
  if◌then◌else◌, zero, suc, length, length-append,
}
use hvm.Ops.Kinds.{codes, display}
use hvm.Ast.{Name, Tree, Trees, Net}
use hvm.Ast.Number.{decimal, signed}
use hvm.Ast.Number.Decimal.{decimal-append}
use hvm.Ast.Scanner.{Text, Scanner}
use hvm.Ast.Printer.{
  write_tree, write_trees, write_open, write_close, write_space, write_redexes, write_net,
  write_nets,
}
use hvm.Ast.Limits.{
  WellFormed, AllWellFormed, IsName, RedexesWellFormed, NetWellFormed, BookWellFormed,
}
use hvm.Ast.RoundTrip.Trees.{need, needs}

abbrev pub need_redexes : List (Tree × Tree) → ℕ
need_redexes [] = 1
need_redexes ((a, b) ∷ redexes) = suc (need a + (need b + need_redexes redexes))

abbrev pub need_net : Net → ℕ
need_net net = need net.root + need_redexes net.redexes

abbrev pub need_nets : List (Name × Net) → ℕ
need_nets [] = 1
need_nets ((name, net) ∷ nets) = suc (need_net net + need_nets nets)

length-decimal : (n : ℕ) (rest : Text) → length rest ≤ length (decimal n rest)
length-decimal n rest =
    rw (decimal-append n rest) (omega (arith, length-append (decimal n []) rest))

length-write_open : (lab : ℕ) (rest : Text) → length rest < length (write_open lab rest)
length-write_open zero rest = omega arith
length-write_open (suc zero) rest = omega arith
length-write_open (suc (suc lab)) rest = omega (arith, length-decimal (suc (suc lab)) rest)

length-write_close : (lab : ℕ) (rest : Text) → length (write_close lab rest) ≡ suc (length rest)
length-write_close zero rest = refl
length-write_close (suc zero) rest = refl
length-write_close (suc (suc lab)) rest = refl

length-write_space : (space : Bool) (rest : Text) → length rest ≤ length (write_space space rest)
length-write_space true rest = omega arith
length-write_space false rest = omega arith

length-signed : (bits : ℕ) (rest : Text) → length rest ≤ length (signed bits rest)
unfolding signed
length-signed bits rest =
    at (ltb bits (2 ^ 63)) (length-decimal bits rest) (length-decimal (2 ^ 64 - bits) rest)
  where
    at :
        (b : Bool)
        → length rest ≤ length (decimal bits rest)
        → length rest ≤ length (decimal (2 ^ 64 - bits) rest)
        → length rest
          ≤ length (if b then decimal bits rest else b'-' ∷ decimal (2 ^ 64 - bits) rest)
    at true h k = h
    at false h k = omega arith

length-name :
    (s : Scanner) {nam : Name} → IsName s nam → (rest : Text) → length rest < length (nam ++ rest)
length-name s (IsName.name c cs h) rest = omega (arith, length-append cs rest)

module _ (s : Scanner) {F : ℕ → Type 0} where
  mutual
    unfolding write_tree

    pub length-write_tree :
        {t : Tree}
        → WellFormed s F t
        → (rest : Text) → need t + 1 + 2 * length rest ≤ 2 * length (write_tree s t rest)
    length-write_tree WellFormed.era rest = omega arith
    length-write_tree (WellFormed.int bits h) rest = omega (arith, length-signed bits rest)
    length-write_tree (WellFormed.f32 bits h) rest =
        omega (arith, length-append (s.debug_f32 bits) rest)
    length-write_tree (WellFormed.ref nam h) rest = omega (arith, length-name s h rest)
    length-write_tree (WellFormed.var nam h) rest = omega (arith, length-name s h rest)
    length-write_tree (WellFormed.op o {rhs = rhs} {out = out} h k) rest =
        let t3 = b'>' ∷ rest in
        let t2 = b' ' ∷ write_tree s out t3 in
        let t1 = b' ' ∷ write_tree s rhs t2 in
        omega (arith, length-append (display o) t1, length-write_tree h t2, length-write_tree k t3)
    length-write_tree (WellFormed.mat {z = z} {n = n} {out = out} h k l) rest =
        let t3 = b'>' ∷ rest in
        let t2 = b' ' ∷ write_tree s out t3 in
        let t1 = b' ' ∷ write_tree s n t2 in
        omega (arith, length-write_tree h t1, length-write_tree k t2, length-write_tree l t3)
    length-write_tree (WellFormed.ctr lab ports _ _ hs) rest =
        let body = write_trees s (ltb 1 lab) ports (write_close lab rest) in
        omega (
          arith,
          length-write_open lab body,
          length-write_trees hs (ltb 1 lab) (write_close lab rest),
          length-write_close lab rest,
        )
    length-write_tree (WellFormed.adt lab i n fields _ _ _ _ hs) rest =
        let fs = write_trees s true fields (write_close lab rest) in
        let body = b':' ∷ decimal i (b':' ∷ decimal n fs) in
        omega (
          arith,
          length-write_open lab body,
          length-decimal i (b':' ∷ decimal n fs),
          length-decimal n fs,
          length-write_trees hs true (write_close lab rest),
          length-write_close lab rest,
        )

    pub length-write_trees :
        {ts : Trees}
        → AllWellFormed s F ts
        → (space : Bool) (rest : Text)
        → needs ts + 2 * length rest ≤ 2 * length (write_trees s space ts rest) + 1
    length-write_trees AllWellFormed.end space rest = omega arith
    length-write_trees (AllWellFormed.and {t = t} {ts = ts} h hs) space rest =
        let more = write_trees s true ts rest in
        omega (
          arith,
          length-write_space space (write_tree s t more),
          length-write_tree h more,
          length-write_trees hs true rest,
        )

  pub length-write_redexes :
      {redexes : List (Tree × Tree)}
      → RedexesWellFormed s F redexes
      → (rest : Text)
      → need_redexes redexes + 2 * length rest ≤ 2 * length (write_redexes s redexes rest) + 1
  unfolding write_redexes
  length-write_redexes RedexesWellFormed.none rest = omega arith
  length-write_redexes (RedexesWellFormed.also {a = a} {b = b} {redexes = redexes} h k hs) rest =
      let more = write_redexes s redexes rest in
      omega (
        arith,
        length-write_tree h (codes " ~ " ++ write_tree s b more),
        length-write_tree k more,
        length-write_redexes hs rest,
      )

  pub length-write_net :
      {net : Net}
      → NetWellFormed s F net
      → (rest : Text) → need_net net + 2 * length rest ≤ 2 * length (write_net s net rest)
  unfolding write_net
  length-write_net {net = net} h rest = omega (
    arith,
    length-write_tree h.root (write_redexes s net.redexes rest),
    length-write_redexes h.redexes rest,
  )

  pub length-write_nets :
      (between : Bool) {nets : List (Name × Net)}
      → BookWellFormed s F nets
      → need_nets nets ≤ 2 * length (write_nets s between nets []) + 1
  unfolding write_nets
  length-write_nets between BookWellFormed.none = omega arith
  length-write_nets true (BookWellFormed.also {nam = nam} {net = net} {nets = nets} h k hs) =
      let more = write_nets s true nets [] in
      let whole = length-append nam (codes " = " ++ write_net s net more) in
      omega (arith, whole, length-write_net k more, length-write_nets true hs)
  length-write_nets false (BookWellFormed.also {nam = nam} {net = net} {nets = nets} h k hs) =
      let more = write_nets s true nets [] in
      let whole = length-append nam (codes " = " ++ write_net s net more) in
      omega (arith, whole, length-write_net k more, length-write_nets true hs)
