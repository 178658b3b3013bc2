-- ===== src/Text/Tests.antt =====
-- Runs of the number strings.
use deodeok_os.Base.{arith}
use deodeok_os.Memory.{Memory}
use deodeok_os.Text.{hex_to_string}
use deodeok_os.Text.Hex.{Written, hex_to_string-Written}

abbrev zeros : Memory
zeros x = 0

hex_to_string-Written_example : Written 0x2f 100 (hex_to_string 0x2f zeros 100)
hex_to_string-Written_example = hex_to_string-Written zeros 100 0x2f (omega arith)
