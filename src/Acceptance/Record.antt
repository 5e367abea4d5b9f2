-- ===== src/Acceptance/Record.antt =====
-- The stored record of src/core/include/cwassistant/core/hardware_acceptance.hpp and the checks on
-- it in src/core/src/hardware_acceptance.cpp.
use cw_buddy.Base.{
  Bool, true, false, ◌&&◌, ◌||◌, not, ℕ, ltb, leb, ◌==◌, if◌then◌else◌, length, all_of, [],
}
use cw_buddy.Text.{Text}

pub data HardwareAcceptancePlatform : Type 0 where
  unknown_platform windows mac_os linux : HardwareAcceptancePlatform

abbrev pub platform_eq : HardwareAcceptancePlatform → HardwareAcceptancePlatform → Bool
platform_eq unknown_platform unknown_platform = true
platform_eq windows windows = true
platform_eq mac_os mac_os = true
platform_eq linux linux = true
platform_eq p q = false

pub record HardwareAcceptanceRecord : Type 0 where
  pub schema_version : ℕ
  pub configuration_sha256 : Text
  pub platform : HardwareAcceptancePlatform
  pub disconnected_line_utc_seconds : ℕ
  pub physical_loopback_utc_seconds : ℕ
  pub dummy_load_utc_seconds : ℕ

abbrev pub no_record : HardwareAcceptanceRecord
no_record = record {
  schema_version = 1;
  configuration_sha256 = [];
  platform = unknown_platform;
  disconnected_line_utc_seconds = 0;
  physical_loopback_utc_seconds = 0;
  dummy_load_utc_seconds = 0;
}

abbrev pub is_lower_hex : ℕ → Bool
is_lower_hex value = (leb b'0' value && leb value b'9') || (leb b'a' value && leb value b'f')

unfoldable pub valid_fingerprint : Text → Bool
valid_fingerprint value = length value == 64 && all_of is_lower_hex value

unfoldable pub valid_record_prefix : HardwareAcceptanceRecord → Bool
valid_record_prefix r =
    if not (r.schema_version == 1)
      || (not (valid_fingerprint r.configuration_sha256) || platform_eq r.platform unknown_platform)
    then false
    else if r.disconnected_line_utc_seconds == 0
    then r.physical_loopback_utc_seconds == 0 && r.dummy_load_utc_seconds == 0
    else if r.physical_loopback_utc_seconds == 0
    then r.dummy_load_utc_seconds == 0
    else if ltb r.physical_loopback_utc_seconds r.disconnected_line_utc_seconds
    then false
    else r.dummy_load_utc_seconds == 0
      || leb r.physical_loopback_utc_seconds r.dummy_load_utc_seconds
