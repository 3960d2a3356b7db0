-- ===== src/Relay/Catalog.antt =====
-- The session catalog of a daemon in relaycore/connections.go: what a daemon reports and what a phone is
-- told.
use nekonest.Prelude.{
  ℕ, Bool, true, false, not, ◌||◌, List, [], ◌∷◌, Option, none, some, Bytes, ascii, bytes_discrete,
  is_empty, if◌then◌else◌, insert, values,
}
use nekonest.Relay.Daemons.{
  Session, Capability, DaemonConn, Daemons, find_live, find_dc, put_dc, str_eq, is_live_daemon,
}

abbrev pub agent_kilo : Bytes
agent_kilo = ascii "kilo"

-- `s == nil || s.ID == "" || s.AgentType == protocol.AgentKilo`.
abbrev pub is_skipped : Option Session → Bool
is_skipped none = true
is_skipped (some s) = is_empty s.id || str_eq s.agent_type agent_kilo

-- The sessions that are broadcast.
unfoldable pub clean_sessions : List (Option Session) → List Session
clean_sessions [] = []
clean_sessions (none ∷ rest) = clean_sessions rest
clean_sessions (some s ∷ rest) =
    let others = clean_sessions rest in if is_skipped (some s) then others else s ∷ others

-- The sessions that are cached, by id.
unfoldable pub cache_sessions : List Session → List (Bytes × Session) → List (Bytes × Session)
cache_sessions [] m = m
cache_sessions (s ∷ rest) m = cache_sessions rest (insert bytes_discrete s.id s m)

abbrev pub known_agent : Bytes → Bool
known_agent a =
    str_eq a (ascii "claude_code")
    || str_eq a (ascii "codex")
    || str_eq a (ascii "kimi_cli")
    || str_eq a (ascii "grok_build")
    || str_eq a (ascii "cursor")

unfoldable pub has_agent : Bytes → List Bytes → Bool
has_agent a [] = false
has_agent a (b ∷ rest) = str_eq b a || has_agent a rest

-- The loop of cleanAgentStartCapabilities: each known agent once, its first entry.
unfoldable pub clean_capabilities : List Capability → List Bytes → List Capability
clean_capabilities [] seen = []
clean_capabilities (c ∷ rest) seen =
    let skipped = not (known_agent c.agent_type) || has_agent c.agent_type seen in
    let others = clean_capabilities rest (if skipped then seen else c.agent_type ∷ seen) in
    if skipped then others else c ∷ others

unfoldable pub clean_agent_start_capabilities : Option (List Capability) → Option (List Capability)
clean_agent_start_capabilities none = none
clean_agent_start_capabilities (some l) = some (clean_capabilities l [])

-- What is sent to the phones of the device.
pub record Report : Type 0 where
  pub device_id : Bytes
  pub version : Bytes
  pub sessions : List Session
  pub capabilities : Option (List Capability)

module _ (valid_version : Bytes → Bool) where
  abbrev pub updated :
      DaemonConn → List (Option Session) → Option (List Capability) → Bytes → DaemonConn
  updated dc sessions capabilities version = record dc {
    sessions = cache_sessions (clean_sessions sessions) [];
    capabilities = clean_agent_start_capabilities capabilities;
    catalog_version = if valid_version version then version else [];
  }

  abbrev pub report_of : DaemonConn → List (Option Session) → Report
  report_of dc sessions = record {
    device_id = dc.device_id;
    version = dc.catalog_version;
    sessions = clean_sessions sessions;
    capabilities = dc.capabilities;
  }

  -- updateSessionListFromLocked: the manager and the broadcast, if the generation is live.
  unfoldable pub update_session_list_from :
      Daemons
      → ℕ
      → List (Option Session)
      → Option (List Capability)
      → Bytes
      → Daemons × Option Report
  update_session_list_from d generation sessions capabilities version =
      elim (find_dc generation d.store) [
        | none ↦ (d, none)
        | some dc ↦
            let new = updated dc sessions capabilities version in
            if is_live_daemon d generation
            then (record d { store = put_dc generation new d.store }, some (report_of new sessions))
            else (d, none)
      ]

-- updateSealedCatalogFromLocked, of a message with its sealed payload if it has one: the manager and what
-- is sent to the phones of which device. The clone of an opaque message has no other payload.
unfoldable pub update_sealed_catalog_from :
    Daemons → ℕ → Option Bytes → Daemons × Option (Bytes × Bytes)
update_sealed_catalog_from d generation none = (d, none)
update_sealed_catalog_from d generation (some sealed) = elim (find_dc generation d.store) [
  | none ↦ (d, none)
  | some dc ↦
      if is_live_daemon d generation
      then (
        record d { store = put_dc generation (record dc { sealed_catalog = some sealed }) d.store },
        some (dc.device_id, sealed),
      )
      else (d, none)
]

abbrev pub no_snapshot : List Session × Option (List Capability) × Bytes
no_snapshot = ([], none, [])

-- GetDeviceSessionSnapshotVersion.
unfoldable pub get_device_session_snapshot :
    Daemons → Bytes → List Session × Option (List Capability) × Bytes
get_device_session_snapshot d device = elim (find_live device d.live) [
  | none ↦ no_snapshot
  | some generation ↦ elim (find_dc generation d.store) [
    | none ↦ no_snapshot
    | some dc ↦
        if dc.closed then no_snapshot else (values dc.sessions, dc.capabilities, dc.catalog_version)
  ]
]

-- GetSealedCatalogSnapshot.
unfoldable pub get_sealed_catalog_snapshot : Daemons → Bytes → Option Bytes
get_sealed_catalog_snapshot d device = elim (find_live device d.live) [
  | none ↦ none
  | some generation ↦ elim (find_dc generation d.store) [
    | none ↦ none
    | some dc ↦ if dc.closed then none else dc.sealed_catalog
  ]
]
