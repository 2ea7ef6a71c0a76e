-- ===== src/XLinkKai/Protocol.antt =====
-- The texts of the DDS protocol.
use cwusb.Base.{ℕ, ◌*◌, ◌^◌, ◌++◌, Bytes, codes}

abbrev pub max_length : ℕ
max_length = 4096

abbrev pub default_ip : Bytes
default_ip = codes "127.0.0.1"

abbrev pub default_port : ℕ
default_port = 34523

abbrev pub separator : Bytes
separator = codes ";"

abbrev pub locally_unique_name : Bytes
locally_unique_name = codes "CWUSB_Device"

abbrev pub connected_command : Bytes
connected_command = codes "connected" ++ separator

abbrev pub disconnected_command : Bytes
disconnected_command = codes "disconnected" ++ separator

abbrev pub ethernet_data_command : Bytes
ethernet_data_command = codes "e" ++ separator

abbrev pub set_essid_format : Bytes
set_essid_format = codes "setessid"

abbrev pub connect_string : Bytes
connect_string =
    codes "connect" ++ separator ++ locally_unique_name ++ separator ++ codes "CWUSB" ++ separator

abbrev pub connected_string : Bytes
connected_string = connected_command ++ locally_unique_name

abbrev pub disconnected_string : Bytes
disconnected_string = disconnected_command ++ locally_unique_name

abbrev pub disconnect_string : Bytes
disconnect_string = codes "disconnect" ++ separator

abbrev pub keep_alive_string : Bytes
keep_alive_string = codes "keepalive" ++ separator

abbrev pub ethernet_data_string : Bytes
ethernet_data_string = codes "e" ++ separator ++ codes "e" ++ separator

abbrev pub ethernet_data_meta_string : Bytes
ethernet_data_meta_string = codes "e" ++ separator ++ codes "d" ++ separator

abbrev pub setting_dds_only_string : Bytes
setting_dds_only_string =
    codes "setting" ++ separator ++ codes "ddsonly" ++ separator ++ codes "true"

abbrev pub set_essid_string : Bytes
set_essid_string = ethernet_data_meta_string ++ set_essid_format ++ separator

-- Times are in nanoseconds, the ticks of the system clock.
abbrev pub connection_timeout : ℕ
connection_timeout = 10 * 10 ^ 9

abbrev pub keep_alive_timeout : ℕ
keep_alive_timeout = 60 * 10 ^ 9
