-- ===== src/Lib.antt =====
-- HVM2's runtime: interaction nets in a heap of two-word nodes, and the numeric operations on them.
--
-- The program keeps a net as 64-bit words. A port (src/run/port.rs) is a word with a tag, a label and
-- an address or a number; a wire is the address of a word that holds the port at its other end. The
-- allocator (src/run/allocator.rs) gives and takes nodes of two words, the linker (src/run/linker.rs)
-- connects ports and wires and queues active pairs, and interact (src/run/interact.rs) rewrites a pair
-- with the numeric operations of src/ops.rs. A definition is called through its label set
-- (src/run/def.rs) and, if it is interpreted, runs a list of instructions (src/run/instruction.rs).
-- The host (src/host.rs) keeps the definitions by name, and encodes a net of the syntax (src/ast.rs)
-- to such instructions or directly into the heap (src/host/encode.rs).
--
-- Files and code:
--   Prelude            shared names, Boolean tests, lists, bitwise arithmetic.
--   Ops/Kinds          Ty, Op, TypedOp, their codes, labels and texts (src/ops.rs, util/bi_enum.rs).
--   Ops/Numeric, Unsigned, Signed, Apply   FromWord, ToWord, Numeric and TypedOp::op (src/ops/).
--   Ops/Swap, Codes, Integers, Order, Bounds  theorems on them.
--   Run/Tag, Port, Addr                    ports and addresses; Port/ and Addr/ hold theorems.
--   Run/Allocator      Allocator; FreeList is its invariant, Alloc and HalfFree its operations' theorems.
--   Run/Linker         state and commands; Queue, Wire, Link and Trg are the operations; Strict, Ends
--                      and Joins hold theorems on linking in strict mode.
--   Run/Node           traverse_node, create_node, create_wire and wire_to_trg (src/run/node.rs).
--   Run/Rule           which interaction a pair selects; Run/Interact performs it.
--   Run/Net            boot, reduce, weak_normal and normal_from (src/run/net.rs).
--   Run/Instruction    the do_ functions; Program is the interpreter of InterpretedDef.
--   Run/LabSet         LabSet; Members and Insert hold theorems.
--   Ast                Tree, Net and Book and their accessors (src/ast.rs).
--   Ast/Scanner, Number, Result, Parser, Books  the parser: the scanner it stands on, parse_int, its
--                      results, trees, nets and books. Limits holds theorems on what is parsed.
--   Ast/Printer        Display. Ast/RoundTrip holds theorems on printed text that is parsed; Ast/Example is
--                      a scanner with the laws.
--   Transform/Coalesce coalesce_constructors (src/transform/coalesce_ctrs.rs); Meaning is what trees stand
--                      for.
--   Transform/Inline   inline_into and should_inline (src/transform/inline.rs).
--   Transform/Prune    prune (src/transform/prune.rs); Graph is what the references reach, Names, Search,
--                      Visits and Reachable hold theorems.
--   Transform/EtaReduce  eta_reduce (src/transform/eta_reduce.rs); Sizes, Aligned and Partner hold theorems.
--   Transform/EncodeAdts  encode_scott_adts (src/transform/encode_adts.rs); a number of ports that drops
--                      below zero wraps around, as in a release build. Documented, Merged, Encodes, Sizes,
--                      Nodes and Walk hold theorems.
--   Host               the maps of the host and insert_def (src/host.rs); Maps and Valid hold theorems.
--   Host/CalcLabels    calculate_label_sets (src/host/calc_labels.rs), with its test.
--   Host/Encode        the walk of src/host/encode.rs for any Encoder; Definition and Direct are its two
--                      encoders. Grow, GrowVisit, Simulation, Registers, Steps, Branches, Pieces, Walk
--                      and Correct hold theorems on both, Variables, Total and Returns on the first.
--   Util/CreateVar, ApplyTree  names of variables and their numbers, and application of a net to a tree
--                      (src/util/create_var.rs, src/util/apply_tree.rs).
--   Ast/Tests, Ops/Tests, Run/Tests, Run/LabSet/Tests, Transform/Coalesce/Tests,
--   Transform/Inline/Tests, Transform/Prune/Tests,
--   Transform/EtaReduce/Tests, Transform/EncodeAdts/Tests, Host/Tests, Util/Tests  applications to small concrete states.
--
-- Conventions. A word is a number, and what the code does modulo a power of two is written out; signed
-- types are their bit patterns. The heap is a function from addresses to words. A command is a
-- function from the linker's state to a result with a new state, or to a panic. One thread runs: a
-- loop that waits for another thread is given rounds and ends in the panic hang without them.
-- lock_target needs one round for a word that is not locked, and no number of rounds frees a locked
-- one (lock_loop-hang). The loops over redirections get two rounds for each node of the heap and two
-- more, so each word can be passed once; the lazy walk takes its rounds as an argument. A visit of
-- prune gets one unit of fuel more than there are definitions, since it takes a name from the
-- unvisited ones before it goes on. The parser gets two units for each character and two more: a call
-- for a tree takes one, and so does each turn of a loop, which reads a character. encode_scott_adts
-- gets the size of the tree. calculate_label_sets takes its fuel as an argument. A subtraction of
-- variants that overflows in the encoding is a panic, as in a debug build, and so is the failed
-- debug_assert of redux. Tree::children and children_mut panic for a node with more than MAX_ARITY (8)
-- children, which the syntax does not allow: encode_scott_adts has that panic, and the other walks of a
-- tree leave it out. Vectors that serve as stacks are lists with the last element first. A label that is
-- one more than 0xFFFF wraps around, as in a release build, and the counters of rewrites have no bound.
-- Code that has undefined behaviour, such as unwrap_unchecked on a failure, ends in the panic undefined.
--
-- Parameters: the operations of f32 are a record of functions (Float), since they are the hardware's;
-- the equality of OrderedFloat is an argument of eta_reduce; the byte order of the target is an
-- argument; the code of a definition is an argument of interact (Machine), which call_interpreted can
-- fill. The scanner below the parser is the third-party crate TSPL: its methods, char::is_alphanumeric
-- and the text of an f32 are a record of functions (Scanner), and IsScanner is what the parser relies
-- on: it is documented behaviour of theirs.
--
-- Not modelled: threads and the parallel reduction (src/run/parallel.rs), Net::expand and Net::normal,
-- the texts of error messages, insert_book and readback of the host (src/host.rs, src/host/),
-- the choice of what is inlined (populate_inlinees), pre_reduce and the order of the passes (src/transform.rs, src/transform/), the code generator
-- (src/compile.rs), the standard library of definitions, the command line, tracing and the fuzzer.
-- Tracing and the assertions of the fuzzer are left out of the modelled functions too.
pub mod Host
pub mod Prelude
pub mod Ops
pub mod Run
pub mod Ast
pub mod Transform
pub mod Util
