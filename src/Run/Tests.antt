-- ===== src/Run/Tests.antt =====
-- A heap of small nets, and the theorems of the runtime applied to it.
use hvm.Prelude.{
  ℕ, ◌<◌, ◌+◌, ◌-◌, ◌/◌, ◌%◌, ◌^◌, ◌≡◌, ◌≢◌, refl, true, false, [], ◌∷◌, ◌⊎◌, inl, arith, ◌==◌, ltb,
  if◌then◌else◌, none,
}
use hvm.Ops.Kinds.{Endian, Ty, Op, typed}
use hvm.Ops.Tests.{bit_float}
use hvm.Ops.Apply.{typed_op, word}
use hvm.Run.Tag.{Tag}
use hvm.Run.Port
use hvm.Run.Port.{new_var, era, free, is_skippable, new, tag, lab, addr, num, new_num, redirect}
use hvm.Run.Port.Fields.{IsAddr, new_fields}
use hvm.Run.Port.Numbers.{num-new_num-typed_op}
use hvm.Run.Port.U60.{on_ports, u60_exact, u60_div_wrong, u60_div_small}
use hvm.Run.Rule.{rule, kind}
use hvm.Run.Rule.Symmetry.{mirror, rule_symm, BothCalled}
use hvm.Run.Allocator.{Allocator, half_free}
use hvm.Run.Allocator.FreeList.{IsValid, IsLive, SameOutside}
use hvm.Run.Allocator.HalfFree.{half_free-IsValid}
use hvm.Run.Allocator.Alloc.{alloc-Outcome, Outcome}
use hvm.Run.Linker.{Linker, RedexQueue, no_rewrites, no_redexes, ok, and_then, fail, Panic}
use hvm.Run.Linker.Queue.{pop}
use hvm.Run.Linker.Queue.Pops.{Popped, pop-Popped, redux-pop, Erased, Waits}
use hvm.Run.Linker.Link.{redux, link_wire_port, link_wire_wire}
use hvm.Run.Linker.Strict.{IsTarget}
use hvm.Run.Linker.Ends.{End, NotAt, Joined, Spared}
use hvm.Run.Linker.Joins.WirePort.{link_wire_port-Joined}
use hvm.Run.Linker.Joins.WireWire.{link_wire_wire-Joined}
use hvm.Run.Linker.Joins.Loop.{link_wire_wire-loop}
use hvm.Run.Interact.{anni2, Machine}
use hvm.Run.Interact.Annihilate.{anni2-Joined, Wired, Separate}
use hvm.Run.Node.{consume_node}
use hvm.Run.Net.{reduce}
use hvm.Run.Net.Reduce.{reduce-split, resume}

-- Constructor nodes at 16 and 32: three of their wires lead to the words 48, 56 and 64, the fourth to
-- an eraser.
abbrev words : ℕ → ℕ
words a =
    if a == 16
    then new_var 48
    else if a == 24
    then new_var 56
    else if a == 32
    then new_var 64
    else if a == 40
    then era
    else if a == 48
    then new_var 16
    else if a == 56
    then new_var 24
    else if a == 64
    then new_var 32
    else if a == 80
    then new_var 88
    else if a == 88
    then new_var 80
    else free

abbrev net : Linker
net = record {
  allocator = record { mem = words; base = 16; nodes = 8; next = 5; head = 0 };
  rwts = no_rewrites;
  redexes = no_redexes;
  headers = λ _. none;
  lazy = false;
}

abbrev ctr_16 : ℕ
ctr_16 = 23

abbrev ctr_32 : ℕ
ctr_32 = 39

IsAddr-of : (n : ℕ) → (n % 8 ≡ 0) → ltb n 281474976710656 ≡ true → IsAddr n
IsAddr-of n h k = record { aligned = h; bounded = ground arith }

apart_by : (a b : ℕ) → (a == b) ≡ false → a ≢ b
apart_by a b h = ground arith

era-is_principal : Port.is_principal era ≡ true
unfolding Port.is_principal
era-is_principal = refl

link_wire_port-Joined_example :
    (l' : Linker) × (link_wire_port 16 era net ≡ ok tt l')
    × Joined net l' (End.aux 48) (End.agent era)
    × Spared net l' 16 (End.aux 48) (End.agent era)
link_wire_port-Joined_example =
    link_wire_port-Joined net 16 (End.aux 48) (End.agent era) refl refl
      (IsAddr-of 48 refl refl, refl, apart_by 48 16 refl) era-is_principal tt tt

link_wire_wire-loop_example :
    (l' : Linker) × (link_wire_wire 80 88 net ≡ ok tt l')
    × (l'.allocator.mem 80 ≡ redirect (new_var 80))
    × (l'.allocator.mem 88 ≡ redirect (new_var 88))
    × (l'.allocator.head ≡ 0)
link_wire_wire-loop_example =
    link_wire_wire-loop net 80 88 (IsAddr-of 80 refl refl) (IsAddr-of 88 refl refl)
      (apart_by 80 88 refl) refl refl

link_wire_wire-Joined_example :
    (l' : Linker) × (link_wire_wire 16 24 net ≡ ok tt l')
    × Joined net l' (End.aux 48) (End.aux 56)
    × (l'.lazy ≡ false)
    × ((u : ℕ)
        → u ≢ 24
        → u ≢ 16
        → NotAt u (End.aux 48)
        → NotAt u (End.aux 56)
        → IsTarget (words u)
        → l'.allocator.mem u ≡ words u)
link_wire_wire-Joined_example =
    link_wire_wire-Joined net 16 24 (End.aux 48) (End.aux 56) (IsAddr-of 24 refl refl)
      (apart_by 16 24 refl) refl refl refl (IsAddr-of 48 refl refl, refl, apart_by 48 16 refl)
      (IsAddr-of 56 refl refl, refl, apart_by 56 24 refl) (apart_by 48 24 refl)
      (apart_by 56 16 refl) (apart_by 48 56 refl)

-- The wires of the two nodes.
Wired-16 : Wired net ((consume_node ctr_16).p1) (End.aux 48)
unfolding consume_node
Wired-16 = record {
  aligned = IsAddr-of 16 refl refl;
  target = refl;
  back = (IsAddr-of 48 refl refl, refl, apart_by 48 16 refl);
}

Wired-24 : Wired net ((consume_node ctr_16).p2) (End.aux 56)
unfolding consume_node
Wired-24 = record {
  aligned = IsAddr-of 24 refl refl;
  target = refl;
  back = (IsAddr-of 56 refl refl, refl, apart_by 56 24 refl);
}

Wired-32 : Wired net ((consume_node ctr_32).p1) (End.aux 64)
unfolding consume_node
Wired-32 = record {
  aligned = IsAddr-of 32 refl refl;
  target = refl;
  back = (IsAddr-of 64 refl refl, refl, apart_by 64 32 refl);
}

Wired-40 : Wired net ((consume_node ctr_32).p2) (End.agent era)
unfolding consume_node
Wired-40 = record { aligned = IsAddr-of 40 refl refl; target = refl; back = era-is_principal }

sep :
    (a b c d : ℕ)
    → (a == b) ≡ false
    → (c == b) ≡ false
    → (d == a) ≡ false
    → (c == d) ≡ false
    → Separate a b (End.aux c) (End.aux d)
sep a b c d p q r s = record {
  wires = apart_by a b p;
  first = apart_by c b q;
  second = apart_by d a r;
  ends = apart_by c d s;
}

sep_era :
    (a b c p : ℕ) → (a == b) ≡ false → (c == b) ≡ false → Separate a b (End.aux c) (End.agent p)
sep_era a b c p h q = record {
  wires = apart_by a b h;
  first = apart_by c b q;
  second = tt;
  ends = tt;
}

anni2-Joined_example :
    (m l' : Linker) × (anni2 ctr_16 ctr_32 net ≡ ok tt l')
    × Joined (record net { rwts = record no_rewrites { anni = 1 } }) m (End.aux 48) (End.aux 64)
    × Joined m l' (End.aux 56) (End.agent era)
    × (l'.allocator.mem 48 ≡ new_var 64)
    × (l'.allocator.mem 64 ≡ new_var 48)
unfolding consume_node
anni2-Joined_example =
    anni2-Joined net ctr_16 ctr_32 (End.aux 48) (End.aux 56) (End.aux 64) (End.agent era) refl
      Wired-16 Wired-24 Wired-32 Wired-40 (sep 16 32 48 64 refl refl refl refl)
      (sep_era 24 40 56 era refl refl) (sep 16 24 48 56 refl refl refl refl)
      (sep_era 16 40 48 era refl refl) (sep 32 24 64 56 refl refl refl refl)
      (sep_era 32 40 64 era refl refl)

redux-pop_example :
    (l' : Linker) × (redux ctr_16 ctr_32 net ≡ ok tt l')
    × (l'.allocator ≡ net.allocator)
    × (Erased net l' ctr_16 ctr_32 ⊎ Waits net l' ctr_16 ctr_32)
unfolding Port.is_principal
redux-pop_example = redux-pop net ctr_16 ctr_32 refl refl refl

abbrev two_pairs : RedexQueue
two_pairs = record { fast = (1, 2) ∷ []; slow = (3, 4) ∷ [] }

pop-Popped_example : Popped two_pairs (pop two_pairs)
pop-Popped_example = pop-Popped two_pairs

not_both : ¬ BothCalled era ctr_32 (kind (Port.tag era)) (kind (Port.tag ctr_32))
unfolding Port.tag
not_both h = h

rule_symm_example : rule ctr_32 era ≡ mirror (rule era ctr_32)
rule_symm_example = rule_symm era ctr_32 not_both

new_fields_example :
    (tag (new Tag.op 5 32) ≡ Tag.op)
    × (lab (new Tag.op 5 32) ≡ 5)
    × (addr (new Tag.op 5 32) ≡ 32)
    × (new Tag.op 5 32 < 2 ^ 64)
new_fields_example = new_fields Tag.op 5 32 (omega arith) (IsAddr-of 32 refl refl)

num-new_num-typed_op_example :
    num (new_num Tag.int (typed_op bit_float (typed Ty.i32 Op.sub) 3 5))
    ≡ typed_op bit_float (typed Ty.i32 Op.sub) 3 5
num-new_num-typed_op_example =
    num-new_num-typed_op bit_float (λ x. omega arith) (typed Ty.i32 Op.sub) Tag.int 3 5
      (ground arith)

u60_div_small_example :
    (on_ports bit_float Op.div 1000 7 ≡ (if 7 == 0 then 0 else 1000 / 7))
    × (on_ports bit_float Op.rem 1000 7 ≡ (if 7 == 0 then 0 else 1000 % 7))
u60_div_small_example = u60_div_small bit_float 1000 7 (omega arith) (omega arith)

u60_exact_example :
    (on_ports bit_float Op.add 1000 2000 ≡ 3000 % 2 ^ 60)
    × (on_ports bit_float Op.sub 1000 2000 ≡ (1000 + 2 ^ 60 - 2000) % 2 ^ 60)
    × (on_ports bit_float Op.lt 1000 2000 ≡ word (ltb 1000 2000))
    × (on_ports bit_float Op.eq 1000 2000 ≡ word (1000 == 2000))
u60_exact_example = u60_exact bit_float 1000 2000 (omega arith) (omega arith)

u60_div_wrong_example :
    (on_ports bit_float Op.div (2 ^ 59 + 6) 2 ≡ (2 ^ 59 + 6) / 2 + 2 ^ 59)
    × (on_ports bit_float Op.div (2 ^ 59 + 6) 2 ≢ (2 ^ 59 + 6) / 2)
u60_div_wrong_example = u60_div_wrong bit_float (2 ^ 59 + 6) (omega arith) (omega arith)

-- A heap with a free node at 32 and a live one at 16, of which the second word is free.
abbrev heap_words : ℕ → ℕ
heap_words a = if a == 16 then 33 else if a == 32 then 0 else free

abbrev heap : Allocator
heap = record { mem = heap_words; base = 16; nodes = 2; next = 2; head = 32 }

heap-IsValid : IsValid heap (32 ∷ [])
heap-IsValid = record {
  chain = (refl, refl, refl);
  distinct = (refl, tt);
  all_nodes = (record { aligned = refl; above = omega arith; below = omega arith }, tt);
  aligned = refl;
  not_null = omega arith;
  fits = omega arith;
  within = omega arith;
}

heap-IsLive : IsLive heap (32 ∷ []) 16
heap-IsLive = record {
  node = record { aligned = refl; above = omega arith; below = omega arith };
  not_free = refl;
}

half_free-IsValid_example :
    ((heap_words 24 ≢ free)
      × IsValid (half_free heap 16) (32 ∷ [])
      × ((half_free heap 16).mem 16 ≡ free)
      × SameOutside 16 heap_words (half_free heap 16).mem)
    ⊎ ((heap_words 24 ≡ free)
        × IsValid (half_free heap 16) (16 ∷ 32 ∷ [])
        × SameOutside 16 heap_words (half_free heap 16).mem)
half_free-IsValid_example =
    half_free-IsValid heap (32 ∷ []) 16 16 24 heap-IsValid heap-IsLive (inl (refl, refl))

alloc-Outcome_example : Outcome heap (32 ∷ [])
alloc-Outcome_example = alloc-Outcome heap (32 ∷ []) heap-IsValid

-- Interactions that call no definition.
abbrev plain_machine : Machine ℕ
plain_machine = record {
  endian = Endian.little;
  float = bit_float;
  has = λ d l. false;
  call_def = λ d t. fail Panic.undefined;
}

abbrev net_with_pair : Linker
net_with_pair = record net { redexes = record { fast = (ctr_16, ctr_32) ∷ []; slow = [] } }

reduce-split_example :
    reduce plain_machine (1 + 2) net_with_pair
    ≡ and_then (reduce plain_machine 1 net_with_pair) (resume plain_machine 1 (2 - 1))
reduce-split_example = reduce-split plain_machine 1 2 net_with_pair (omega arith) (omega arith) refl
