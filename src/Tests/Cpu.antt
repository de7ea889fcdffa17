-- ===== src/Tests/Cpu.antt =====
-- inc/x86.h and inc/mmu.h: a lock word, a port with a queue behind it, descriptors, the memory map.
use jos_ece.Prelude.{ℕ, ◌+◌, ◌-◌, ◌*◌, ◌/◌, ◌%◌, ◌^◌, ◌≡◌, refl, true, List, [], ◌∷◌, ◌++◌, arith}
use jos_ece.Memory.{Memory, SameOutside}
use jos_ece.Boot.{load32, store32}
use jos_ece.Boot.Disk.{Loaded}
use jos_ece.Cpu.{IoPorts, xchg, insl, insb, outsl, outsb}
use jos_ece.Cpu.Lock.{exchanges, exchanges_lem}
use jos_ece.Cpu.Strings.{
  no_word, a_word, no_byte, a_byte, words_at, bytes_at, sent_words, sent_bytes, insl-outsl,
}
use jos_ece.Mmu.{seg, seg16, seg_bytes, Gatedesc, setgate, setcallgate, sts_tg32, sts_cg32}
use jos_ece.Mmu.Segments.{base_of, limit_of, descriptor_bytes, seg-base_of, descriptor_bytes-seg}
use jos_ece.Mmu.Gates.{gate_words, enter, entered_at, enter-setgate}

abbrev zeros : Memory
zeros a = 0

-- Three callers take the lock at 8: only the first gets 0.
exchanges_example :
    let (olds, m') = exchanges 8 (1 ∷ 1 ∷ 1 ∷ []) zeros in
    (olds ++ load32 m' 8 ∷ [] ≡ load32 zeros 8 ∷ 1 ∷ 1 ∷ 1 ∷ []) × SameOutside zeros m' 8 4
exchanges_example =
    exchanges_lem 8 (1 ∷ 1 ∷ 1 ∷ []) zeros (omega arith, (omega arith, (omega arith, tt)))

exchanges_run : (exchanges 8 (1 ∷ 1 ∷ 1 ∷ []) zeros).0 ≡ 0 ∷ 1 ∷ 1 ∷ []
unfolding exchanges xchg load32 store32
exchanges_run = refl

-- A queue behind every port.
abbrev pop : List ℕ → ℕ × List ℕ
pop [] = (0, [])
pop (w ∷ ws) = (w, ws)

abbrev queue : IoPorts (List ℕ)
queue = record {
  inb = λ port s. pop s;
  inw = λ port s. pop s;
  inl = λ port s. pop s;
  outb = λ port b s. s ++ b ∷ [];
  outw = λ port w s. s ++ w ∷ [];
  outl = λ port w s. s ++ w ∷ [];
}

abbrev counting : Memory
counting a = a % 256

insl-outsl_example :
    (ml : Memory) × (insl queue 0x1F0 100 2 counting (outsl queue 0x1F0 16 2 counting [])
      ≡ (ml, []))
    × Loaded counting counting ml 100 16 (2 * 4)
    × (mb : Memory) × (insb queue 0x1F0 100 2 counting (outsb queue 0x1F0 16 2 counting [])
        ≡ (mb, []))
    × Loaded counting counting mb 100 16 2
unfolding words_at bytes_at sent_words sent_bytes load32
insl-outsl_example =
    insl-outsl queue 0x1F0 2 100 16 counting [] [] [] (λ x. omega arith)
      (a_word refl (a_word refl no_word)) (a_byte refl (a_byte refl no_byte))

seg-base_of_example :
    (base_of (seg 0xA 0x1234_5678 0xFFFF_FFFF 3) ≡ 0x1234_5678)
    × (limit_of (seg 0xA 0x1234_5678 0xFFFF_FFFF 3) ≡ 0xFFFF_FFFF / 2 ^ 12 * 2 ^ 12 + (2 ^ 12 - 1))
    × (base_of (seg16 0xA 0x1234_5678 0xABCDE 3) ≡ 0x1234_5678)
    × (limit_of (seg16 0xA 0x1234_5678 0xABCDE 3) ≡ 0xABCDE)
seg-base_of_example =
    seg-base_of 0xA 0x1234_5678 0xFFFF_FFFF 0xABCDE 3 (omega arith) (omega arith) (omega arith)

descriptor_bytes-seg_example :
    descriptor_bytes (seg 0xA 0x1234_5678 0xFFFF_FFFF 0) ≡ seg_bytes 0xA 0x1234_5678 0xFFFF_FFFF
descriptor_bytes-seg_example =
    descriptor_bytes-seg 0xA 0x1234_5678 0xFFFF_FFFF (omega arith) (omega arith) (omega arith)

abbrev gate : Gatedesc
gate = record {
  gd_off_15_0 = 1;
  gd_sel = 2;
  gd_args = 3;
  gd_rsv1 = 4;
  gd_type = 5;
  gd_s = 1;
  gd_dpl = 2;
  gd_p = 0;
  gd_off_31_16 = 7;
}

enter-setgate_example :
    (enter (gate_words (setgate gate true 8 0xF010_1234 3)) ≡ entered_at 8 0xF010_1234 sts_tg32 3)
    × (enter (gate_words (setcallgate gate 8 0xF010_1234 3)) ≡ entered_at 8 0xF010_1234 sts_cg32 3)
enter-setgate_example =
    enter-setgate gate true 8 0xF010_1234 3 (omega arith) (omega arith) (omega arith)
