-- ===== src/Headers/Net8023.antt =====
-- `Net_8023_Constants`
use cwusb.Base.{ℕ, ◌+◌}

abbrev pub destination_address_index : ℕ
destination_address_index = 0

abbrev pub destination_address_length : ℕ
destination_address_length = 6

abbrev pub source_address_index : ℕ
source_address_index = 6

abbrev pub source_address_length : ℕ
source_address_length = 6

abbrev pub ether_type_index : ℕ
ether_type_index = 12

abbrev pub ether_type_length : ℕ
ether_type_length = 2

abbrev pub data_index : ℕ
data_index = 14

abbrev pub header_length : ℕ
header_length = destination_address_length + source_address_length + ether_type_length
