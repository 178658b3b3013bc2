-- ===== src/MpTable.antt =====
-- volumes/02.Kernel64/Source/MPConfigurationTable.c: the search for the MP floating pointer and the
-- walks over the table's entries. The addresses of the strings "_MP_" and "ISA" are arguments.
pub mod Locate
pub mod Entries
mod Tests
use deodeok_os.Base.{
  ℕ, zero, suc, ◌+◌, ◌-◌, ◌*◌, ◌/◌, ◌%◌, Bool, true, false, ◌==◌, ◌||◌, if◌then◌else◌, Option, none,
  some,
}
use deodeok_os.Memory.{Memory, load_bytes, mem_cmp}

-- A loop over `n` addresses from `a` on that looks for the string.
unfoldable pub find_signature : (n : ℕ) → Memory → (a mp_string : ℕ) → Option ℕ
unfolding mem_cmp
find_signature zero m a mp_string = none
find_signature (suc n) m a mp_string =
    let rest = find_signature n m (a + 1) mp_string in
    if mem_cmp m a mp_string 4 == 0 then some a else rest

abbrev pub or_else : Option ℕ → Option ℕ → Option ℕ
or_else none other = other
or_else (some a) other = some a

unfoldable pub ebda_address : Memory → ℕ
ebda_address m = load_bytes 2 m 0x040E * 16

unfoldable pub system_base_memory : Memory → ℕ
system_base_memory m = load_bytes 2 m 0x0413 * 1024

-- The rounds from the last KB of the base memory on; without base memory the pointer starts behind
-- its end.
unfoldable pub base_memory_rounds : Memory → ℕ
unfolding system_base_memory
base_memory_rounds m = if system_base_memory m == 0 then 0 else 1025

unfoldable pub find_mp_floating_pointer_address : Memory → (mp_string : ℕ) → Option ℕ
unfolding find_signature ebda_address system_base_memory base_memory_rounds
find_mp_floating_pointer_address m mp_string =
    or_else (find_signature 1025 m (ebda_address m) mp_string) (
      or_else (find_signature (base_memory_rounds m) m (system_base_memory m - 1024) mp_string)
        (find_signature 0xFFFF m 0x0F0000 mp_string))

pub record MpConfigurationManager : Type 0 where
  pub mp_floating_pointer : ℕ
  pub mp_configuration_table_header : ℕ
  pub base_entry_start_address : ℕ
  pub processor_count : ℕ
  pub use_pic_mode : Bool
  pub isa_bus_id : ℕ

-- wEntryCount of the header.
unfoldable pub entry_count : Memory → MpConfigurationManager → ℕ
entry_count m manager = load_bytes 2 m (manager.mp_configuration_table_header + 34)

-- A round of kAnalysisMPConfigurationTable on the entry at `e`: the manager and the next entry.
unfoldable pub analyse_entry :
    Memory → (isa_string : ℕ) → (e : ℕ) → MpConfigurationManager → MpConfigurationManager × ℕ
unfolding mem_cmp
analyse_entry m isa_string e manager =
    if m e == 0
    then (
      (if m (e + 3) % 2 == 1
          then record manager { processor_count = manager.processor_count + 1 }
          else manager),
      e + 20,
    )
    else if m e == 1
    then (
      (if mem_cmp m (e + 2) isa_string 3 == 0
          then record manager { isa_bus_id = m (e + 1) }
          else manager),
      e + 8,
    )
    else (manager, e + 8)

unfoldable pub analyse_entries :
    (n : ℕ) → Memory → (isa_string e : ℕ) → MpConfigurationManager → MpConfigurationManager
unfolding analyse_entry
analyse_entries zero m isa_string e manager = manager
analyse_entries (suc n) m isa_string e manager =
    let (manager', next) = analyse_entry m isa_string e manager in
    analyse_entries n m isa_string next manager'

-- The manager after kMemSet.
abbrev pub no_manager : MpConfigurationManager
no_manager = record {
  mp_floating_pointer = 0;
  mp_configuration_table_header = 0;
  base_entry_start_address = 0;
  processor_count = 0;
  use_pic_mode = false;
  isa_bus_id = 0xFF;
}

-- The manager that the floating pointer at `p` gives.
unfoldable pub set_floating_pointer : Memory → (p : ℕ) → MpConfigurationManager
set_floating_pointer m p = record no_manager {
  mp_floating_pointer = p;
  mp_configuration_table_header = load_bytes 4 m (p + 4);
  base_entry_start_address = load_bytes 4 m (p + 4) + 44;
  use_pic_mode = m (p + 12) / 0x80 % 2 == 1;
}

abbrev pub analyse_found : Memory → (isa_string : ℕ) → Option ℕ → Bool × MpConfigurationManager
analyse_found m isa_string none = (false, no_manager)
analyse_found m isa_string (some p) =
    let manager = set_floating_pointer m p in
    (
      true,
      analyse_entries (entry_count m manager) m isa_string manager.base_entry_start_address manager,
    )

unfoldable pub analysis_mp_configuration_table :
    Memory → (mp_string isa_string : ℕ) → Bool × MpConfigurationManager
unfolding find_mp_floating_pointer_address set_floating_pointer entry_count analyse_entries
analysis_mp_configuration_table m mp_string isa_string =
    analyse_found m isa_string (find_mp_floating_pointer_address m mp_string)

unfoldable pub get_processor_count : MpConfigurationManager → ℕ
get_processor_count manager = if manager.processor_count == 0 then 1 else manager.processor_count

-- The first loop of kFindIOAPICEntryForISA: the first I/O interrupt assignment of the ISA bus. An
-- unknown entry has no case and the address stays.
unfoldable pub find_assignment : (n : ℕ) → Memory → (isa_bus_id e : ℕ) → Option ℕ
find_assignment zero m isa_bus_id e = none
find_assignment (suc n) m isa_bus_id e =
    let after_processor = find_assignment n m isa_bus_id (e + 20) in
    let after_other = find_assignment n m isa_bus_id (e + 8) in
    let same = find_assignment n m isa_bus_id e in
    if m e == 0
    then after_processor
    else if m e == 3
    then (if m (e + 4) == isa_bus_id then some e else after_other)
    else if m e == 1 || m e == 2 || m e == 4
    then after_other
    else same

-- The second loop: the I/O APIC with the ID; NULL if there is none.
unfoldable pub find_ioapic : (n : ℕ) → Memory → (ioapic_id e : ℕ) → ℕ
find_ioapic zero m ioapic_id e = 0
find_ioapic (suc n) m ioapic_id e =
    let after_processor = find_ioapic n m ioapic_id (e + 20) in
    let after_other = find_ioapic n m ioapic_id (e + 8) in
    let same = find_ioapic n m ioapic_id e in
    if m e == 0
    then after_processor
    else if m e == 2
    then (if m (e + 1) == ioapic_id then e else after_other)
    else if m e == 1 || m e == 3 || m e == 4
    then after_other
    else same

abbrev pub ioapic_of : Memory → MpConfigurationManager → Option ℕ → ℕ
ioapic_of m manager none = 0
ioapic_of m manager (some assignment) =
    find_ioapic (entry_count m manager) m (m (assignment + 6)) manager.base_entry_start_address

unfoldable pub find_ioapic_entry_for_isa : Memory → MpConfigurationManager → ℕ
unfolding find_assignment find_ioapic entry_count
find_ioapic_entry_for_isa m manager =
    ioapic_of m manager (
      find_assignment (entry_count m manager) m manager.isa_bus_id manager.base_entry_start_address)
