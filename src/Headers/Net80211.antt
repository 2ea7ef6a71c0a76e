-- ===== src/Headers/Net80211.antt =====
-- `Net_80211_Constants`
use cwusb.Base.{ℕ, ◌+◌}

abbrev pub beacon_type : ℕ
beacon_type = 0x80

abbrev pub data_type : ℕ
data_type = 0x08

abbrev pub data_qos_type : ℕ
data_qos_type = 0x88

abbrev pub data_retry_flag : ℕ
data_retry_flag = 0x08

abbrev pub data_null_func_type : ℕ
data_null_func_type = 0x48

abbrev pub acknowledgement_type : ℕ
acknowledgement_type = 0xd4

abbrev pub type_index : ℕ
type_index = 0

abbrev pub type_length : ℕ
type_length = 2

abbrev pub duration_index : ℕ
duration_index = 2

abbrev pub duration_length : ℕ
duration_length = 2

abbrev pub destination_address_index : ℕ
destination_address_index = 4

abbrev pub destination_address_length : ℕ
destination_address_length = 6

abbrev pub source_address_index : ℕ
source_address_index = 10

abbrev pub source_address_length : ℕ
source_address_length = 6

abbrev pub bssid_index : ℕ
bssid_index = 16

abbrev pub bssid_length : ℕ
bssid_length = 6

abbrev pub fragment_number_index : ℕ
fragment_number_index = 22

abbrev pub fragment_number_length : ℕ
fragment_number_length = 2

abbrev pub ieee80211_data_header_length : ℕ
ieee80211_data_header_length =
    type_length + duration_length + destination_address_length + source_address_length
    + bssid_length + fragment_number_length

abbrev pub fixed_parameter_type_ssid_index : ℕ
fixed_parameter_type_ssid_index = 36

abbrev pub fixed_parameter_type_supported_rates : ℕ
fixed_parameter_type_supported_rates = 0x1

abbrev pub fixed_parameter_type_ds_parameter_set : ℕ
fixed_parameter_type_ds_parameter_set = 0x3

abbrev pub fixed_parameter_type_extended_rates : ℕ
fixed_parameter_type_extended_rates = 0x32

abbrev pub snap_llc : ℕ
snap_llc = 0x000000000003aaaa

abbrev pub ether_type_index : ℕ
ether_type_index = 30

abbrev pub ether_type_length : ℕ
ether_type_length = 2

abbrev pub llc_length : ℕ
llc_length = 8

abbrev pub data_index : ℕ
data_index = 32

abbrev pub data_qos_length : ℕ
data_qos_length = 2

abbrev pub wlan_fc_type_data : ℕ
wlan_fc_type_data = 0x0008

abbrev pub fcs_length : ℕ
fcs_length = 4

abbrev pub data_header_length : ℕ
data_header_length = ieee80211_data_header_length + llc_length
