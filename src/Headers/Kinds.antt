-- ===== src/Headers/Kinds.antt =====
-- The kinds of packets, as enumerations.
pub data Main80211PacketType : Type 0 where
  control data_packet management no_type : Main80211PacketType

pub data Control80211PacketType : Type 0 where
  ack block_ack block_ack_request no_control : Control80211PacketType

pub data Data80211PacketType : Type 0 where
  plain null_data qos_data qos_null no_data : Data80211PacketType

pub data Management80211PacketType : Type 0 where
  action action_no_ack authentication association_request association_response :
      Management80211PacketType
  beacon deauthentication disassociation reassociation_request : Management80211PacketType
  reassociation_response probe_request probe_response no_management : Management80211PacketType

pub data PhysicalDeviceHeaderType : Type 0 where
  radio_tap prism avs no_header : PhysicalDeviceHeaderType
