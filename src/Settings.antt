-- ===== src/Settings.antt =====
-- config/settings.py: the values that the modelled code reads.
use iyou_idp.Prelude.{String, Bool, List}

pub record Settings : Type 0 where
  pub system_gate_enabled : Bool
  pub admin_did : String
  pub beta_access_allowlist : List String
  pub beta_invite_keys : List String
  pub idp_wun_url : String
  pub debug : Bool
  pub enable_dev_auth_bypass : Bool
  pub allow_emergency_bypass : Bool
