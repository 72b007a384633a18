-- ===== src/Config/Default.antt =====
-- app/src/config/types.rs: the configuration of a new device.
use rustkvm.Common.{[], ◌∷◌, none, true, false}
use rustkvm.Common.Text.{codes}
use rustkvm.Config.{Text, Config, UsbConfig, UsbDevices, NetworkConfig}

abbrev pub default_usb_config : UsbConfig
default_usb_config = record {
  vendor_id = codes "0x1d6b";
  product_id = codes "0x0104";
  serial_number = [];
  manufacturer = codes "RustKVM";
  product = codes "USB Emulation Device";
}

abbrev pub default_usb_devices : UsbDevices
default_usb_devices = record {
  absolute_mouse = true;
  relative_mouse = true;
  keyboard = true;
  mass_storage = true;
}

abbrev pub default_network_config : NetworkConfig
default_network_config = record {
  hostname = none;
  http_proxy = none;
  domain = none;
  ipv4_mode = codes "dhcp";
  ipv6_mode = codes "slaac";
  lldp_mode = codes "basic";
  lldp_tx_tlvs = codes "chassis" ∷ codes "port" ∷ codes "system" ∷ codes "vlan" ∷ [];
  mdns_mode = codes "auto";
  time_sync_mode = codes "ntp_and_http";
  time_sync_ordering = codes "ntp" ∷ codes "http" ∷ [];
  time_sync_disable_fallback = false;
  time_sync_parallel = 4;
}

-- `Config::default`, with the identifier that the hardware gives.
abbrev pub default_config : Text → Config
default_config device_id = record {
  cloud_url = codes "https://api.rustkvm.com";
  cloud_app_url = codes "https://app.rustkvm.com";
  cloud_token = none;
  google_identity = none;
  jiggler_enabled = false;
  auto_update_enabled = true;
  include_pre_release = false;
  hashed_password = none;
  local_auth_token = none;
  api_token_sha256 = none;
  api_token_created_at = none;
  local_auth_mode = [];
  local_loopback_only = false;
  keyboard_layout = codes "us";
  edid_string = none;
  active_extension = none;
  display_rotation = codes "270";
  display_max_brightness = 64;
  display_dim_after_sec = 120;
  display_off_after_sec = 1800;
  tls_mode = [];
  default_log_level = codes "INFO";
  device_id = device_id;
  wake_on_lan_devices = [];
  keyboard_macros = [];
  usb_config = default_usb_config;
  usb_devices = default_usb_devices;
  network_config = default_network_config;
  audio_enabled = true;
  host_display_disable_when_idle = false;
}
