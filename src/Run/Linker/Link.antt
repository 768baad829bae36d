-- ===== src/Run/Linker/Link.antt =====
-- Linking of ports and wires (`impl Linker`, src/run/linker.rs).
use hvm.Prelude.{ℕ, zero, suc, ◌+◌, ◌*◌, ◌&&◌, ◌||◌, not, none, some, ◌==◌, ltb, if◌then◌else◌}
use hvm.Run.Tag.{Tag}
use hvm.Run.Port.{
  is, is_principal, is_skippable, is_full_node, addr, wire, redirect, unredirect, lock, gone,
}
use hvm.Run.Linker.{
  Linker, ok, panic, Panic, Cmd, pure, fail, ◌>>=◌, ◌>>◌, Header, is_lazy, count_eras, free_wire,
}
use hvm.Run.Linker.Queue.{push_fast, push_slow, redex_would_shrink}
use hvm.Run.Linker.Wire.{
  load_target, set_target, cas_target, swap_target, lock_target, as_var, Exchange,
}

-- `assert!(M::LAZY)`
assert_lazy : Cmd (Unit {0})
assert_lazy l = if l.lazy then ok tt l else panic Panic.not_lazy

unfoldable pub get_header : ℕ → Cmd Header
unfolding assert_lazy
get_header a = do
  assert_lazy
  (λ l. elim (l.headers a) [ none ↦ panic Panic.no_header | some h ↦ ok h l ])

insert : ℕ → Header → Cmd (Unit {0})
insert a h l = ok tt (record l { headers = λ b. if b == a then some h else l.headers b })

unfoldable pub set_header : (ptr trg : ℕ) → Cmd (Unit {0})
unfolding assert_lazy insert is_full_node addr
set_header ptr trg = do
  assert_lazy
  if is_full_node ptr then insert (addr ptr) (record { this = ptr; targ = trg }) else pure tt

unfoldable pub get_target_full : ℕ → Cmd ℕ
unfolding assert_lazy get_header load_target wire addr
get_target_full port = do
  assert_lazy
  if not (is_principal port)
      then load_target (wire port)
      else (do h ← get_header (addr port); pure h.targ)

push : (a b : ℕ) → Cmd (Unit {0})
unfolding push_fast push_slow
push a b l = ok tt (record l {
  redexes =
      if redex_would_shrink a b then push_fast l.redexes (a, b) else push_slow l.redexes (a, b);
})

-- A failure of the debug assertion that neither port is auxiliary is a panic, as in a debug build.
unfoldable pub redux : (a b : ℕ) → Cmd (Unit {0})
unfolding push
redux a b =
    if is a Tag.var || (is a Tag.red || (is b Tag.var || is b Tag.red))
    then fail Panic.assertion
    else if is_skippable a && is_skippable b
    then count_eras
    else do lazy ← is_lazy; if not lazy then push a b else (do set_header a b; set_header b a)

unfoldable pub half_link_port_port : (a_port b_port : ℕ) → Cmd (Unit {0})
half_link_port_port a_port b_port =
    if is a_port Tag.var
    then set_target (wire a_port) b_port
    else do lazy ← is_lazy; if lazy then set_header a_port b_port else pure tt

-- The orphaned backward path: redirections from `t_wire` on are freed.
collect : ℕ → (t_wire t_port : ℕ) → Cmd (Unit {0})
collect zero t_wire t_port = fail Panic.hang
collect (suc rounds) t_wire t_port =
    if not (t_port == lock) && is t_port Tag.red
    then (do free_wire t_wire; next ← load_target (wire t_port); collect rounds (wire t_port) next)
    else pure tt

-- The wait of the thread that arrives second.
await_gone : ℕ → (y_wire : ℕ) → Cmd (Unit {0})
await_gone zero y_wire = fail Panic.hang
await_gone (suc rounds) y_wire = do
  got ← cas_target y_wire gone lock
  let again = await_gone rounds y_wire
  elim got [ Exchange.done _ ↦ free_wire y_wire | Exchange.failed _ ↦ again ]

-- Two threads reach a node from both ends: the first makes the pair, the second frees the words.
meet : ℕ → (x_wire y_wire : ℕ) → Cmd (Unit {0})
unfolding await_gone
meet rounds x_wire y_wire = do
  x_port ← swap_target x_wire gone
  if not (x_port == gone)
      then (do y_port ← swap_target y_wire gone; redux x_port y_port)
      else (do free_wire x_wire; await_gone rounds y_wire)

-- `resolve_redirect_pri`; each round of its loop takes one of `rounds`.
unfoldable pub resolve_redirect_pri : ℕ → (a_port a_wire b_port : ℕ) → Cmd (Unit {0})
unfolding collect meet
resolve_redirect_pri zero a_port a_wire b_port = fail Panic.hang
resolve_redirect_pri (suc rounds) a_port a_wire b_port = do
  let t_wire = wire a_port
  t_port ← load_target t_wire
  let again = resolve_redirect_pri rounds a_port a_wire b_port
  let forward = resolve_redirect_pri rounds t_port a_wire b_port
  if t_port == lock
      then again
      else if is t_port Tag.red
      then (do free_wire t_wire; forward)
      else if is t_port Tag.var
      then (do
        got ← cas_target t_wire t_port b_port
        elim got [
          | Exchange.done _ ↦ (do
            next ← load_target (wire t_port)
            collect rounds (wire t_port) next)
          | Exchange.failed _ ↦ again
        ])
      else if is_principal t_port || t_port == gone
      then (if ltb a_wire t_wire then meet rounds a_wire t_wire else meet rounds t_wire a_wire)
      else fail Panic.unreachable

-- `resolve_redirect_var`, which nothing calls: the target `ste_port` of `ste_wire` is skipped if it
-- is redirected, and `again` is the next round.
skip_redirect : Cmd (Unit {0}) → (ste_wire ste_port trg_port : ℕ) → Cmd (Unit {0})
skip_redirect again ste_wire ste_port trg_port = if not (is trg_port Tag.red) then pure tt else do
  got ← cas_target ste_wire ste_port (unredirect trg_port)
  elim got [ Exchange.done _ ↦ (do free_wire (wire ste_port); again) | Exchange.failed _ ↦ pure tt ]

unfoldable pub resolve_redirect_var : ℕ → (b_port : ℕ) → Cmd (Unit {0})
unfolding skip_redirect
resolve_redirect_var zero b_port = fail Panic.hang
resolve_redirect_var (suc rounds) b_port = do
  let again = resolve_redirect_var rounds b_port
  ste_port ← load_target (wire b_port)
  if not (is ste_port Tag.var) then pure tt else do
    trg_port ← load_target (wire ste_port)
    skip_redirect again (wire b_port) ste_port trg_port

-- The rounds of a loop over redirections: one for each word of the heap, and two more.
rounds_for : Linker → ℕ
rounds_for l = 2 * l.allocator.nodes + 2

unfoldable pub half_link_wire_port : (a_port a_wire b_port : ℕ) → Cmd (Unit {0})
unfolding rounds_for
half_link_wire_port a_port a_wire b_port =
    if is a_port Tag.var
    then (do
      got ← cas_target (wire a_port) (as_var a_wire) b_port
      elim got [
        | Exchange.done _ ↦ free_wire a_wire
        | Exchange.failed _ ↦
            if is b_port Tag.var
            then set_target a_wire (redirect b_port)
            else if is_principal b_port
            then (do
              set_target a_wire b_port
              (λ l. resolve_redirect_pri (rounds_for l) a_port a_wire b_port l))
            else fail Panic.unreachable
      ])
    else (do free_wire a_wire; lazy ← is_lazy; if lazy then set_header a_port b_port else pure tt)

unfoldable pub link_port_port : (a_port b_port : ℕ) → Cmd (Unit {0})
link_port_port a_port b_port =
    if is_principal a_port && is_principal b_port
    then redux a_port b_port
    else (do half_link_port_port a_port b_port; half_link_port_port b_port a_port)

unfoldable pub link_wire_wire : (a_wire b_wire : ℕ) → Cmd (Unit {0})
link_wire_wire a_wire b_wire = do
  a_port ← lock_target a_wire
  b_port ← lock_target b_wire
  if is_principal a_port && is_principal b_port
      then (do free_wire a_wire; free_wire b_wire; redux a_port b_port)
      else (do half_link_wire_port a_port a_wire b_port; half_link_wire_port b_port b_wire a_port)

unfoldable pub link_wire_port : (a_wire b_port : ℕ) → Cmd (Unit {0})
link_wire_port a_wire b_port = do
  a_port ← lock_target a_wire
  if is_principal a_port && is_principal b_port
      then (do free_wire a_wire; redux a_port b_port)
      else (do half_link_wire_port a_port a_wire b_port; half_link_port_port b_port a_port)
