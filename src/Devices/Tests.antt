-- ===== src/Devices/Tests.antt =====
-- A timer that counts down by one from reading to reading, and runs on it.
use deodeok_os.Base.{
  ℕ, ◌+◌, ◌/◌, ◌%◌, ◌^◌, ◌≡◌, Bool, true, false, ◌==◌, ◌&&◌, if◌then◌else◌, some, refl,
}
use deodeok_os.Keyboard.Controller.{Ports}
use deodeok_os.Devices.{bcd_to_binary, read_counter0, wait_using_direct_pit}

record Counter : Type 0 where
  count : ℕ
  latched : ℕ
  high_next : Bool

abbrev counter_ports : Ports Counter
counter_ports = record {
  in_port_byte = λ d port.
      if d.high_next
      then (d.latched / 256, record d { high_next = false })
      else (d.latched % 256, record d { high_next = true });
  out_port_byte = λ d port b.
      if port == 0x43 && b == 0
      then record { count = (d.count + 0xFFFF) % 2 ^ 16; latched = d.count; high_next = false }
      else d;
  set_interrupt_flag = λ d b. (true, d);
}

abbrev counter : Counter
counter = record { count = 0x1234; latched = 0; high_next = false }

-- The high byte is lost: the shift goes the wrong way.
high_byte_lost : (read_counter0 counter_ports counter).0 ≡ 0x34
unfolding read_counter0
high_byte_lost = refl

-- A wait of 10000 counts ends after one, when the low byte goes from 0 to 0xFF.
waited_too_short :
    wait_using_direct_pit counter_ports 1 10000 (record counter { count = 0x1200 })
    ≡ some (record { count = 0x11FE; latched = 0x11FF; high_next = false })
unfolding wait_using_direct_pit
waited_too_short = refl

bcd_59 : bcd_to_binary 0x59 ≡ 59
unfolding bcd_to_binary
bcd_59 = refl
