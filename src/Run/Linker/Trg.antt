-- ===== src/Run/Linker/Trg.antt =====
-- A part of the net to link to, a wire or a port (`Trg`, src/run/linker.rs): one word, which is a
-- wire if its tag is `Red`.
use hvm.Prelude.{ℕ, Bool, if◌then◌else◌}
use hvm.Run.Tag.{Tag}
use hvm.Run.Port.{is}
use hvm.Run.Linker.{Cmd, pure, free_wire}
use hvm.Run.Linker.Wire.{load_target}
use hvm.Run.Linker.Link.{link_port_port, link_wire_port, link_wire_wire}

-- `Trg::port`, `Trg::wire`, `as_port` and `as_wire` keep the word.
unfoldable pub is_wire : ℕ → Bool
is_wire trg = is trg Tag.red

unfoldable pub target : ℕ → Cmd ℕ
unfolding is_wire
target trg = if is_wire trg then load_target trg else pure trg

unfoldable pub free_trg : ℕ → Cmd (Unit {0})
unfolding is_wire
free_trg trg = if is_wire trg then free_wire trg else pure tt

unfoldable pub link_trg_port : (a b : ℕ) → Cmd (Unit {0})
unfolding is_wire
link_trg_port a b = if is_wire a then link_wire_port a b else link_port_port a b

unfoldable pub link_trg : (a b : ℕ) → Cmd (Unit {0})
unfolding is_wire
link_trg a b =
    if is_wire a
    then (if is_wire b then link_wire_wire a b else link_wire_port a b)
    else (if is_wire b then link_wire_port b a else link_port_port a b)
