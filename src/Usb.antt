-- ===== src/Usb.antt =====
-- Includes/USBConstants.h: the numbers, magics and packed headers of the PSP's USB protocol, and the
-- packet structs that the threads queue. A struct is laid out as on a little-endian machine.
use cwusb.Base.{ℕ, ◌+◌, ◌*◌, ◌^◌, ◌≡◌, refl, Bool, false, ◌++◌, Bytes, length, replicate, le32}

abbrev pub max_usb_packet_size : ℕ
max_usb_packet_size = 512

abbrev pub max_asynchronous_buffer : ℕ
max_asynchronous_buffer = 2304

-- How long a hello may take, in milliseconds.
abbrev pub max_usb_hello_timeout : ℕ
max_usb_hello_timeout = 1000

-- `eMagicType`
abbrev pub host_fs : ℕ
host_fs = 0x782F0812

abbrev pub asynchronous : ℕ
asynchronous = 0x782F0813

abbrev pub bulk : ℕ
bulk = 0x782F0814

abbrev pub debug_print : ℕ
debug_print = 0x909ACCEF

abbrev pub adhoc_redirector_version : ℕ
adhoc_redirector_version = 190

-- `HostFsCommands`; the two parts have no bit in common.
abbrev pub hello : ℕ
hello = 0x8FFC * 2 ^ 16 + adhoc_redirector_version

-- `AsyncCommands`
abbrev pub debug_command : ℕ
debug_command = 1

abbrev pub packet_command : ℕ
packet_command = 2

abbrev pub async_header_size : ℕ
async_header_size = 8

abbrev pub async_sub_header_size : ℕ
async_sub_header_size = 16

abbrev pub async_header_and_sub_header_size : ℕ
async_header_and_sub_header_size = async_header_size + async_sub_header_size

abbrev pub host_fs_header_size : ℕ
host_fs_header_size = 12

abbrev pub async_mode_debug : ℕ
async_mode_debug = 1

abbrev pub async_mode_packet : ℕ
async_mode_packet = 2

abbrev pub async_command_send_packet : ℕ
async_command_send_packet = 77

abbrev pub async_command_print_data : ℕ
async_command_print_data = 66

abbrev pub async_user_channel : ℕ
async_user_channel = 4

-- `BinaryStitchUSBPacket` and `BinaryStitchWiFiPacket` differ in the size of their array only, and
-- `BinaryWiFiPacket` has no `stitch`. `bytes` is the array `data`, of which `length` bytes count.
pub record StitchPacket : Type 0 where
  pub bytes : Bytes
  pub length : ℕ
  pub stitch : Bool

pub record WifiPacket : Type 0 where
  pub bytes : Bytes
  pub length : ℕ

-- `{}` of each
abbrev pub empty_usb_packet : StitchPacket
empty_usb_packet = record { bytes = replicate max_usb_packet_size 0; length = 0; stitch = false }

abbrev pub empty_stitch_wifi_packet : StitchPacket
empty_stitch_wifi_packet = record {
  bytes = replicate max_asynchronous_buffer 0;
  length = 0;
  stitch = false;
}

abbrev pub empty_wifi_packet : WifiPacket
empty_wifi_packet = record { bytes = replicate max_asynchronous_buffer 0; length = 0 }

-- The packed structs in memory.
unfoldable pub host_fs_command : ℕ → ℕ → ℕ → Bytes
host_fs_command magic command extralen = le32 magic ++ (le32 command ++ le32 extralen)

unfoldable pub async_command : ℕ → ℕ → Bytes
async_command magic channel = le32 magic ++ le32 channel

unfoldable pub async_sub_header : ℕ → ℕ → ℕ → ℕ → Bytes
async_sub_header magic mode size ref = le32 magic ++ (le32 mode ++ (le32 size ++ le32 ref))

unfoldable pub bulk_command : ℕ → ℕ → ℕ → Bytes
bulk_command magic channel size = le32 magic ++ (le32 channel ++ le32 size)

pub length-async_command : (magic channel : ℕ) → length (async_command magic channel) ≡ 8
unfolding async_command le32
length-async_command magic channel = refl

pub length-async_sub_header :
    (magic mode size ref : ℕ) → length (async_sub_header magic mode size ref) ≡ 16
unfolding async_sub_header le32
length-async_sub_header magic mode size ref = refl
