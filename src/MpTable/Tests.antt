-- ===== src/MpTable/Tests.antt =====
-- A small MP configuration table, for the theorems and tests.
use deodeok_os.Base.{
  ℕ, zero, suc, ◌+◌, ◌-◌, ◌%◌, ◌≡◌, true, ltb, leb, ◌==◌, ◌&&◌, if◌then◌else◌, List, [], ◌∷◌, arith,
  refl,
}
use deodeok_os.Memory.{Memory}
use deodeok_os.Memory.Words.{IsByteMemory}
use deodeok_os.MpTable.{
  MpConfigurationManager, no_manager, entry_count, find_mp_floating_pointer_address,
  analysis_mp_configuration_table, analyse_entries, find_ioapic_entry_for_isa,
}
use deodeok_os.MpTable.Locate.{Location, find_mp_floating_pointer_address-Location}
use deodeok_os.MpTable.Entries.{
  entries, first_that, count_that, is_enabled_processor, is_assignment, named_ioapic, or_null,
  KnownTypes, analyse_entries-count, find_ioapic_entry_for_isa-named,
}

cell : List ℕ → ℕ → ℕ
cell [] i = 0
cell (b ∷ l) zero = b
cell (b ∷ l) (suc i) = cell l i

-- A processor, the ISA bus with ID 5, the I/O APIC with ID 7 and an assignment of that bus to it.
abbrev table_entries : List ℕ
table_entries =
    0 ∷ 0 ∷ 0 ∷ 3 ∷ 0 ∷ 0 ∷ 0 ∷ 0 ∷ 0 ∷ 0 ∷ 0 ∷ 0 ∷ 0 ∷ 0 ∷ 0 ∷ 0 ∷ 0 ∷ 0 ∷ 0 ∷ 0 ∷ 1 ∷ 5 ∷ 73 ∷ 83
    ∷ 65 ∷ 32 ∷ 32 ∷ 32 ∷ 2 ∷ 7 ∷ 0 ∷ 1 ∷ 0 ∷ 0 ∷ 0xC0 ∷ 0xFE ∷ 3 ∷ 0 ∷ 0 ∷ 0 ∷ 5 ∷ 1 ∷ 7 ∷ 2 ∷ []

-- The strings are at 8 and 16, the floating pointer at 0x90003 and the table at 0x2000.
abbrev memory : Memory
memory x =
    (if ltb x 8
      then 0
      else if ltb x 12
      then cell (95 ∷ 77 ∷ 80 ∷ 95 ∷ []) (x - 8)
      else if ltb x 16
      then 0
      else if ltb x 19
      then cell (73 ∷ 83 ∷ 65 ∷ []) (x - 16)
      else if x == 0x040F
      then 0x90
      else if x == 0x2022
      then 4
      else if leb 0x202C x && ltb x 0x2100
      then cell table_entries (x - 0x202C)
      else if leb 0x90003 x && ltb x 0x9000B
      then cell (95 ∷ 77 ∷ 80 ∷ 95 ∷ 0 ∷ 0x20 ∷ 0 ∷ 0 ∷ []) (x - 0x90003)
      else 0)
    % 256

memory-IsByteMemory : IsByteMemory memory
memory-IsByteMemory = λ x. omega arith

abbrev manager : MpConfigurationManager
manager = record no_manager {
  mp_floating_pointer = 0x90003;
  mp_configuration_table_header = 0x2000;
  base_entry_start_address = 0x202C;
  processor_count = 1;
  isa_bus_id = 5;
}

table_found : analysis_mp_configuration_table memory 8 16 ≡ (true, manager)
unfolding analysis_mp_configuration_table cell
table_found = refl

ioapic_found : find_ioapic_entry_for_isa memory manager ≡ 0x2048
unfolding find_ioapic_entry_for_isa cell deodeok_os.Memory.load_bytes
ioapic_found = refl

find_mp_floating_pointer_address-Location_example :
    Location memory 8 (find_mp_floating_pointer_address memory 8)
find_mp_floating_pointer_address-Location_example =
    find_mp_floating_pointer_address-Location memory 8 memory-IsByteMemory

analyse_entries-count_example :
    (analyse_entries 4 memory 16 0x202C no_manager).processor_count
    ≡ 0 + count_that (is_enabled_processor memory) (entries 4 memory 0x202C)
analyse_entries-count_example = analyse_entries-count 4 memory 16 0x202C no_manager

manager-KnownTypes :
    KnownTypes memory (entries (entry_count memory manager) memory manager.base_entry_start_address)
unfolding entries entry_count cell deodeok_os.Memory.load_bytes
manager-KnownTypes = (omega arith, (omega arith, (omega arith, (omega arith, tt))))

find_ioapic_entry_for_isa-named_example :
    find_ioapic_entry_for_isa memory manager
    ≡ or_null (
        named_ioapic memory
          (entries (entry_count memory manager) memory manager.base_entry_start_address)
          (first_that
            (is_assignment memory 5)
            (entries (entry_count memory manager) memory manager.base_entry_start_address)))
find_ioapic_entry_for_isa-named_example =
    find_ioapic_entry_for_isa-named memory manager manager-KnownTypes
