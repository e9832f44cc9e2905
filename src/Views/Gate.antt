-- ===== src/Views/Gate.antt =====
-- auth_bridge/views.py: the Sovereign Airlock gate.
pub mod Laws
use iyou_idp.Prelude.{
  String, Bool, true, false, ◌&&◌, not, Option, none, some, List, member, if◌then◌else◌, ◌==◌,
}
use iyou_idp.Settings.{Settings}
use iyou_idp.Server.{World, Session, Response, gate_page, or_text, none_or_empty, text_or}

module _ (settings : Settings) where
  abbrev pub is_admin_did : String → Bool
  is_admin_did did = not (did == "") && (did == settings.admin_did)

  abbrev pub beta_allowlisted_did : String → Bool
  beta_allowlisted_did did = if did == "" then false else member did settings.beta_access_allowlist

  unfoldable pub did_passes_gate : Session → String → Bool
  did_passes_gate session did =
      if not settings.system_gate_enabled
      then true
      else if is_admin_did did
      then true
      else if beta_allowlisted_did did
      then true
      else session.beta_access

  -- DEFAULT_NEXT_URL for a next_url that is absent or empty
  abbrev pub next_or_default : Option String → String
  next_or_default next = or_text (text_or "" next) settings.idp_wun_url

  -- The context of beta_gate.html: `did or verified_did`, and the next URL.
  abbrev pub render_beta_gate :
      Session → (did : Option String) → (next_url : Option String) → Response
  render_beta_gate session did next_url =
      gate_page (if none_or_empty did then session.verified_pending_did else did)
        (next_or_default next_url)

  -- None where the DID may proceed; the page and the session with the stashed DID where not.
  unfoldable pub gate_response :
      World → String → (next_url : Option String) → Option (World × Response)
  unfolding did_passes_gate
  gate_response w did next_url =
      let stashed = record w.session { verified_pending_did = some did } in
      let session =
        if none_or_empty next_url
        then stashed
        else record stashed { verified_pending_next_url = next_url } in
      if did_passes_gate w.session did
      then none
      else some (record w { session = session }, gate_page (some did) (next_or_default next_url))
