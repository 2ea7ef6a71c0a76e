-- ===== src/Headers/RadioTap.antt =====
-- `RadioTap_Constants`
use cwusb.Base.{ℕ, ◌+◌, length, le32}
use cwusb.Headers.{radio_tap_header}

abbrev pub length_index : ℕ
length_index = 2

abbrev pub present_flags_index : ℕ
present_flags_index = 4

abbrev pub max_length : ℕ
max_length = 64

abbrev pub send_present_flags : ℕ
send_present_flags = 0x0000800e

abbrev pub flags : ℕ
flags = 0x02

abbrev pub fcs_available_flag : ℕ
fcs_available_flag = 0x10

abbrev pub channel : ℕ
channel = 0x096c

abbrev pub channel_flags : ℕ
channel_flags = 0x00c0

abbrev pub rate_flags : ℕ
rate_flags = 0x30

abbrev pub tx_flags : ℕ
tx_flags = 0x0008

-- `sizeof(RadioTapHeader)`
abbrev pub size_of_header : ℕ
unfolding radio_tap_header le32
size_of_header = length (
    radio_tap_header (record {
      radiotap_version = 0;
      radiotap_version_pad = 0;
      bytes_in_header = 0;
      present_flags = 0;
    }))

-- With the sizes of the flags, the channel, the channel's flags, the rate and the flags to send.
abbrev pub radio_tap_size : ℕ
radio_tap_size = size_of_header + 1 + 2 + 2 + 1 + 2
