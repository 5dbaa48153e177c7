-- ===== src/Gdt/Tests.antt =====
-- Runs of the descriptor routines.
use binbows_dos.Common.{ℕ, ◌≡◌, ◌≢◌, refl, arith}
use binbows_dos.Gdt.{Gdt, gdt_set_gate, gdt_install}
use binbows_dos.Gdt.Gates.{segment_base, segment_limit, segment_flags, gdt_set_gate_lem}

abbrev cleared : Gdt
cleared = record {
  entries = λ _. record {
    limit_low = 0;
    base_low = 0;
    base_middle = 0;
    access = 0;
    granularity = 0;
    base_high = 0;
  };
  gp = record { limit = 0; base = 0 };
}

gdt_set_gate_lem_example :
    (segment_base ((gdt_set_gate 1 0x1234_5678 0xf_abcd 0x9a 0xcf cleared).entries 1) ≡ 0x1234_5678)
    × (segment_limit ((gdt_set_gate 1 0x1234_5678 0xf_abcd 0x9a 0xcf cleared).entries 1) ≡ 0xf_abcd)
    × (segment_flags ((gdt_set_gate 1 0x1234_5678 0xf_abcd 0x9a 0xcf cleared).entries 1) ≡ 0xc)
    × (((gdt_set_gate 1 0x1234_5678 0xf_abcd 0x9a 0xcf cleared).entries 1).access ≡ 0x9a)
    × ((j : ℕ)
        → j ≢ 1
        → (gdt_set_gate 1 0x1234_5678 0xf_abcd 0x9a 0xcf cleared).entries j ≡ cleared.entries j)
    × ((gdt_set_gate 1 0x1234_5678 0xf_abcd 0x9a 0xcf cleared).gp ≡ cleared.gp)
gdt_set_gate_lem_example =
    gdt_set_gate_lem 1 0x1234_5678 0xf_abcd 0x9a 0xcf cleared (omega arith) (omega arith)

-- The code segment is flat: 0x8 selects base 0 and the limit of 2 ^ 20 pages.
code_segment :
    (segment_base ((gdt_install 0x1000 cleared).entries 1) ≡ 0)
    × (segment_limit ((gdt_install 0x1000 cleared).entries 1) ≡ 0xf_ffff)
    × ((gdt_install 0x1000 cleared).gp.limit ≡ 23)
unfolding gdt_install gdt_set_gate
code_segment = (refl, refl, refl)
