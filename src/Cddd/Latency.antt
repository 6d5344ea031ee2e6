-- ===== src/Cddd/Latency.antt =====
-- include/TableOperationLatency.h, and getPathII of lib/CDDDAnalysis.cpp that sums its entries. An
-- `int` does not overflow here: a path would need more than 10^8 instructions.
use elastic_sycl_hls.Prelude.{
  ℕ, ◌+◌, ◌*◌, ◌≤◌, ◌==◌, ◌≡◌, refl, arith, if◌then◌else◌, List, [], ◌∷◌, ◌++◌, length,
}

-- The opcodes that the table names; a number stands for each of the others.
pub data Opcode : Type 0 where
  fadd fsub fmul fptrunc fdiv fptoui fptosi uitofp sitofp fpext : Opcode
  mul add sub udiv sdiv urem srem frem trunc zext sext : Opcode
  shl lshr ashr and_op or_op xor icmp fcmp select : Opcode
  other_opcode : ℕ → Opcode

-- One number for each opcode.
abbrev opcode_number : Opcode → ℕ
opcode_number fadd = 0
opcode_number fsub = 1
opcode_number fmul = 2
opcode_number fptrunc = 3
opcode_number fdiv = 4
opcode_number fptoui = 5
opcode_number fptosi = 6
opcode_number uitofp = 7
opcode_number sitofp = 8
opcode_number fpext = 9
opcode_number mul = 10
opcode_number add = 11
opcode_number sub = 12
opcode_number udiv = 13
opcode_number sdiv = 14
opcode_number urem = 15
opcode_number srem = 16
opcode_number frem = 17
opcode_number trunc = 18
opcode_number zext = 19
opcode_number sext = 20
opcode_number shl = 21
opcode_number lshr = 22
opcode_number ashr = 23
opcode_number and_op = 24
opcode_number or_op = 25
opcode_number xor = 26
opcode_number icmp = 27
opcode_number fcmp = 28
opcode_number select = 29
opcode_number (other_opcode n) = 30 + n

-- The initialiser of the map, in its order.
abbrev pub latency_table : List (Opcode × ℕ)
latency_table =
    (fadd, 3)
    ∷ (fsub, 3)
    ∷ (fmul, 3)
    ∷ (fptrunc, 3)
    ∷ (fdiv, 14)
    ∷ (fptoui, 1)
    ∷ (fptosi, 1)
    ∷ (uitofp, 1)
    ∷ (sitofp, 1)
    ∷ (fptrunc, 1)
    ∷ (fpext, 1)
    ∷ (mul, 3)
    ∷ (add, 1)
    ∷ (sub, 1)
    ∷ (udiv, 4)
    ∷ (sdiv, 4)
    ∷ (urem, 9)
    ∷ (srem, 9)
    ∷ (frem, 9)
    ∷ (trunc, 1)
    ∷ (zext, 1)
    ∷ (sext, 1)
    ∷ (shl, 1)
    ∷ (lshr, 1)
    ∷ (ashr, 1)
    ∷ (and_op, 1)
    ∷ (or_op, 1)
    ∷ (xor, 1)
    ∷ (icmp, 1)
    ∷ (fcmp, 1)
    ∷ (select, 1)
    ∷ []

-- `lookup` of a `DenseMap`: an initialiser inserts a key once, and a missing key has 0.
abbrev pub lookup : Opcode → List (Opcode × ℕ) → ℕ
lookup op [] = 0
lookup op ((key, latency) ∷ rest) =
    if opcode_number key == opcode_number op then latency else lookup op rest

-- The instructions of a path are given by their opcodes.
unfoldable pub get_path_ii : List Opcode → ℕ
get_path_ii [] = 0
get_path_ii (op ∷ ops) = lookup op latency_table + get_path_ii ops

-- The cycles of an operation: the table as a function, with the first of two entries for fptrunc.
abbrev pub cycles : Opcode → ℕ
cycles Opcode.fadd = 3
cycles Opcode.fsub = 3
cycles Opcode.fmul = 3
cycles Opcode.fptrunc = 3
cycles Opcode.fdiv = 14
cycles Opcode.fptoui = 1
cycles Opcode.fptosi = 1
cycles Opcode.uitofp = 1
cycles Opcode.sitofp = 1
cycles Opcode.fpext = 1
cycles Opcode.mul = 3
cycles Opcode.add = 1
cycles Opcode.sub = 1
cycles Opcode.udiv = 4
cycles Opcode.sdiv = 4
cycles Opcode.urem = 9
cycles Opcode.srem = 9
cycles Opcode.frem = 9
cycles Opcode.trunc = 1
cycles Opcode.zext = 1
cycles Opcode.sext = 1
cycles Opcode.shl = 1
cycles Opcode.lshr = 1
cycles Opcode.ashr = 1
cycles Opcode.and_op = 1
cycles Opcode.or_op = 1
cycles Opcode.xor = 1
cycles Opcode.icmp = 1
cycles Opcode.fcmp = 1
cycles Opcode.select = 1
cycles (Opcode.other_opcode n) = 0

abbrev pub total_cycles : List Opcode → ℕ
total_cycles [] = 0
total_cycles (op ∷ ops) = cycles op + total_cycles ops

lookup-cycles : (op : Opcode) → lookup op latency_table ≡ cycles op
lookup-cycles Opcode.fadd = refl
lookup-cycles Opcode.fsub = refl
lookup-cycles Opcode.fmul = refl
lookup-cycles Opcode.fptrunc = refl
lookup-cycles Opcode.fdiv = refl
lookup-cycles Opcode.fptoui = refl
lookup-cycles Opcode.fptosi = refl
lookup-cycles Opcode.uitofp = refl
lookup-cycles Opcode.sitofp = refl
lookup-cycles Opcode.fpext = refl
lookup-cycles Opcode.mul = refl
lookup-cycles Opcode.add = refl
lookup-cycles Opcode.sub = refl
lookup-cycles Opcode.udiv = refl
lookup-cycles Opcode.sdiv = refl
lookup-cycles Opcode.urem = refl
lookup-cycles Opcode.srem = refl
lookup-cycles Opcode.frem = refl
lookup-cycles Opcode.trunc = refl
lookup-cycles Opcode.zext = refl
lookup-cycles Opcode.sext = refl
lookup-cycles Opcode.shl = refl
lookup-cycles Opcode.lshr = refl
lookup-cycles Opcode.ashr = refl
lookup-cycles Opcode.and_op = refl
lookup-cycles Opcode.or_op = refl
lookup-cycles Opcode.xor = refl
lookup-cycles Opcode.icmp = refl
lookup-cycles Opcode.fcmp = refl
lookup-cycles Opcode.select = refl
lookup-cycles (Opcode.other_opcode n) = ground arith

pub get_path_ii-total_cycles : (ops : List Opcode) → get_path_ii ops ≡ total_cycles ops
unfolding get_path_ii
get_path_ii-total_cycles [] = refl
get_path_ii-total_cycles (op ∷ ops) = omega (arith, lookup-cycles op, get_path_ii-total_cycles ops)

lookup_bounded : (op : Opcode) → lookup op latency_table ≤ 14
lookup_bounded op = ground arith

-- No path has more latency than 14 cycles for each of its instructions.
pub get_path_ii_bounded : (ops : List Opcode) → get_path_ii ops ≤ 14 * length ops
unfolding get_path_ii
get_path_ii_bounded [] = omega arith
get_path_ii_bounded (op ∷ ops) = omega (arith, lookup_bounded op, get_path_ii_bounded ops)

-- The latency of a path is the sum over its parts.
pub get_path_ii-append :
    (ops rest : List Opcode) → get_path_ii (ops ++ rest) ≡ get_path_ii ops + get_path_ii rest
unfolding get_path_ii
get_path_ii-append [] rest = omega arith
get_path_ii-append (op ∷ ops) rest = omega (arith, get_path_ii-append ops rest)

-- The second entry of FPTrunc, with latency 1, has no effect.
fptrunc_latency : lookup Opcode.fptrunc latency_table ≡ 3
fptrunc_latency = refl
