-- ===== src/Filter.antt =====
-- host/vdif_recorder.c, `attach_bpf`: the classic BPF program that the kernel runs on every packet.
-- A program in that instruction set is read here as the kernel documents it: an accumulator, an
-- index register, loads from the packet that end the program with 0 when they leave it, jumps that
-- only go forward. Only the seven instructions that the code uses have a meaning.
mod Tests
pub mod Accepts
use bvex_vdif_rfsoc.Base.{
  ℕ, zero, suc, ◌+◌, ◌*◌, List, [], ◌∷◌, Bool, Option, none, some, ltb, leb, ◌==◌,
}
use bvex_vdif_rfsoc.Base.{if◌then◌else◌, bit_and, drop, length, get_or, u32}

-- `struct sock_filter`
pub record Insn : Type 0 where
  pub code : ℕ
  pub jt : ℕ
  pub jf : ℕ
  pub k : ℕ

abbrev pub insn : ℕ → ℕ → ℕ → ℕ → Insn
insn code jt jf k = record { code = code; jt = jt; jf = jf; k = k }

-- The program, with the port patched into instruction 8.
pub filter_code : ℕ → List Insn
filter_code dport =
    insn 0x28 0 0 0x0000000c
    ∷ insn 0x15 0 8 0x00000800
    ∷ insn 0x30 0 0 0x00000017
    ∷ insn 0x15 0 6 0x00000011
    ∷ insn 0x28 0 0 0x00000014
    ∷ insn 0x45 4 0 0x00001fff
    ∷ insn 0xb1 0 0 0x0000000e
    ∷ insn 0x48 0 0 0x00000010
    ∷ insn 0x15 0 1 (u32 dport)
    ∷ insn 0x06 0 0 0x00040000
    ∷ insn 0x06 0 0 0x00000000
    ∷ []

-- A byte and a big-endian half word of the packet.
abbrev pub load_byte : List ℕ → ℕ → Option ℕ
load_byte pkt o = if ltb o (length pkt) then some (get_or pkt o 0) else none

abbrev pub load_half : List ℕ → ℕ → Option ℕ
load_half pkt o =
    if ltb (o + 1) (length pkt) then some (get_or pkt o 0 * 256 + get_or pkt (o + 1) 0) else none

-- What an instruction does: go on with new registers, skip instructions, or end the program.
pub data Effect : Type 0 where
  go : ℕ → ℕ → Effect
  skip : ℕ → Effect
  ret : ℕ → Effect

abbrev to_a : ℕ → Option ℕ → Effect
to_a x none = Effect.ret 0
to_a x (some v) = Effect.go v x

abbrev to_x : ℕ → Option ℕ → Effect
to_x a none = Effect.ret 0
to_x a (some v) = Effect.go a (bit_and v 0x0f * 4)

pub effect : Insn → ℕ → ℕ → List ℕ → Effect
effect i a x pkt =
    if i.code == 0x28
    then to_a x (load_half pkt i.k)
    else if i.code == 0x30
    then to_a x (load_byte pkt i.k)
    else if i.code == 0x48
    then to_a x (load_half pkt (x + i.k))
    else if i.code == 0xb1
    then to_x a (load_byte pkt i.k)
    else if i.code == 0x15
    then Effect.skip (if a == i.k then i.jt else i.jf)
    else if i.code == 0x45
    then Effect.skip (if bit_and a i.k == 0 then i.jf else i.jt)
    else if i.code == 0x06
    then Effect.ret i.k
    else Effect.ret 0

-- The rest of the program from the program counter on. Jumps go forward, so as many steps as there
-- are instructions are enough.
pub run : ℕ → List Insn → ℕ → ℕ → List ℕ → ℕ
unfolding effect
run zero code a x pkt = 0
run (suc f) [] a x pkt = 0
run (suc f) (i ∷ code) a x pkt = elim (effect i a x pkt) [
  | Effect.go a' x' ↦ run f code a' x' pkt
  | Effect.skip n ↦ run f (drop n code) a x pkt
  | Effect.ret v ↦ v
]

-- The bytes of a packet that the filter lets through; 0 drops it.
pub filter : ℕ → List ℕ → ℕ
unfolding run filter_code
filter dport pkt = run 11 (filter_code dport) 0 0 pkt
