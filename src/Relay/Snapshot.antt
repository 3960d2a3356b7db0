-- ===== src/Relay/Snapshot.antt =====
-- What a phone that asks is told of the sessions of a daemon (relaycore/connections.go).
use nekonest.Prelude.{
  inr, insert-Unique, lookup-Absent, inl, Every-insert, sym, lookup-insert, ascii, is_some,
  Option-cases, Unique, bytes_discrete, ◌&&◌, is_empty, Every, lookup, none, not, ◌∷◌, insert, ℕ,
  ◌≡◌, refl, ap, ◌∙◌, true, Bool, if◌then◌else◌, List, [], Option, some, Bytes, ℕ_discrete, arith,
  lookup-insert_self, values,
}
use nekonest.Relay.Daemons.{str_eq, Session, Capability, Daemons, find_live, put_dc, is_live_daemon}
use nekonest.Relay.Generations.{IsCoherent}
use nekonest.Relay.Catalog.{
  known_agent, Report, has_agent, clean_capabilities, clean_sessions, cache_sessions,
  clean_agent_start_capabilities, update_session_list_from, get_device_session_snapshot, updated,
  report_of,
}

abbrev pub maybe_one {ℓ} : {A : Type ℓ} → Option A → List A
maybe_one none = []
maybe_one (some x) = x ∷ []

-- The entries of an id in a list of sessions.
unfoldable pub with_id : Bytes → List Session → List Session
with_id id [] = []
with_id id (s ∷ rest) =
    let others = with_id id rest in if str_eq s.id id then s ∷ others else others

-- A session that has an id and is not one of a Kilo agent.
abbrev pub is_shown : Session → Bool
is_shown s = not (is_empty s.id) && not (str_eq s.agent_type (ascii "kilo"))

-- The entries of an id that a daemon reports and that are shown, and the last of these.
unfoldable pub entries : Bytes → List (Option Session) → List Session
entries id [] = []
entries id (none ∷ rest) = entries id rest
entries id (some s ∷ rest) =
    let others = entries id rest in if is_shown s && str_eq s.id id then s ∷ others else others

unfoldable pub last_of : List Session → Option Session
last_of [] = none
last_of (s ∷ rest) = elim (last_of rest) [ none ↦ some s | some later ↦ some later ]

-- The capabilities of an agent in a list, and the first of them.
unfoldable pub with_agent : Bytes → List Capability → List Capability
with_agent agent [] = []
with_agent agent (c ∷ rest) =
    let others = with_agent agent rest in if str_eq c.agent_type agent then c ∷ others else others

abbrev pub head_of {ℓ} : {A : Type ℓ} → List A → List A
head_of [] = []
head_of (x ∷ rest) = x ∷ []

abbrev pub of_agent : Bytes → Option (List Capability) → List Capability
of_agent agent none = []
of_agent agent (some l) = with_agent agent l

clean_sessions-with_id :
    (id : Bytes) (sessions : List (Option Session))
    → with_id id (clean_sessions sessions) ≡ entries id sessions
unfolding clean_sessions with_id entries
clean_sessions-with_id id [] = refl
clean_sessions-with_id id (none ∷ rest) = clean_sessions-with_id id rest
clean_sessions-with_id id (some s ∷ rest) = ground (arith, clean_sessions-with_id id rest)

abbrev or_else {ℓ} : {A : Type ℓ} → Option A → Option A → Option A
or_else (some x) other = some x
or_else none other = other

cache_sessions-lookup :
    (id : Bytes) (l : List Session) (m : List (Bytes × Session))
    → lookup bytes_discrete id (cache_sessions l m)
      ≡ or_else (last_of (with_id id l)) (lookup bytes_discrete id m)
unfolding cache_sessions with_id last_of
cache_sessions-lookup id [] m = refl
cache_sessions-lookup id (s ∷ rest) m = ground (
  arith,
  cache_sessions-lookup id rest (insert bytes_discrete s.id s m),
  lookup-insert bytes_discrete s.id id s m,
)

abbrev IsOfId : Bytes → Session → Type 0
IsOfId key s = key ≡ s.id

values-with_id :
    (id : Bytes) (m : List (Bytes × Session))
    → Every IsOfId m
    → Unique m
    → with_id id (values m) ≡ maybe_one (lookup bytes_discrete id m)
unfolding with_id lookup
values-with_id id [] e u = refl
values-with_id id ((j, s) ∷ m) e u = elim (bytes_discrete j id) [
  | yes q ↦
      let gone : lookup bytes_discrete id m ≡ none =
        ap (λ k. lookup bytes_discrete k m) (sym q) ∙ lookup-Absent bytes_discrete j m u.0 in
      ground (arith, q, e.0, gone, values-with_id id m e.1 u.1)
  | no n ↦ ground (arith, n, e.0, values-with_id id m e.1 u.1)
]

cache_sessions-with_id :
    (id : Bytes) (l : List Session) (m : List (Bytes × Session))
    → Every IsOfId m
    → Unique m
    → with_id id (values (cache_sessions l m))
      ≡ maybe_one (lookup bytes_discrete id (cache_sessions l m))
unfolding cache_sessions
cache_sessions-with_id id [] m e u = values-with_id id m e u
cache_sessions-with_id id (s ∷ rest) m e u =
    cache_sessions-with_id id rest (insert bytes_discrete s.id s m)
      (Every-insert bytes_discrete IsOfId s.id s m refl e) (insert-Unique bytes_discrete s.id s m u)

snapshot-with_id :
    (id : Bytes) (sessions : List (Option Session))
    → with_id id (values (cache_sessions (clean_sessions sessions) []))
      ≡ maybe_one (last_of (entries id sessions))
unfolding lookup
snapshot-with_id id sessions =
    let clean = clean_sessions sessions in
    elim (Option-cases (last_of (entries id sessions))) [
      | inl e ↦
          cache_sessions-with_id id clean [] tt tt
          ∙ ap maybe_one (cache_sessions-lookup id clean [])
          ∙ rw (clean_sessions-with_id id sessions, e) refl
      | inr (x, e) ↦
          cache_sessions-with_id id clean [] tt tt
          ∙ ap maybe_one (cache_sessions-lookup id clean [])
          ∙ rw (clean_sessions-with_id id sessions, e) refl
    ]

clean_capabilities-with_agent :
    (agent : Bytes) (l : List Capability) (seen : List Bytes)
    → with_agent agent (clean_capabilities l seen) ≡ (
        if known_agent agent && not (has_agent agent seen)
        then head_of (with_agent agent l)
        else [])
unfolding clean_capabilities with_agent has_agent
clean_capabilities-with_agent agent [] seen = ground arith
clean_capabilities-with_agent agent (c ∷ rest) seen = elim (bytes_discrete c.agent_type agent) [
  | yes q ↦ ground (
    arith,
    q,
    clean_capabilities-with_agent agent rest seen,
    clean_capabilities-with_agent agent rest (c.agent_type ∷ seen),
  )
  | no n ↦ ground (
    arith,
    n,
    clean_capabilities-with_agent agent rest seen,
    clean_capabilities-with_agent agent rest (c.agent_type ∷ seen),
  )
]

of_agent-clean :
    (agent : Bytes) (capabilities : Option (List Capability))
    → of_agent agent (clean_agent_start_capabilities capabilities)
      ≡ (if known_agent agent then head_of (of_agent agent capabilities) else [])
unfolding clean_agent_start_capabilities has_agent
of_agent-clean agent none = ground arith
of_agent-clean agent (some l) = ground (arith, clean_capabilities-with_agent agent l [])

get_device_session_snapshot-cached :
    (valid : Bytes → Bool) (d : Daemons) (device : Bytes) (g : ℕ) (sessions : List (Option Session))
    (capabilities : Option (List Capability)) (version : Bytes)
    → IsCoherent d
    → find_live device d.live ≡ some g
    → let r = update_session_list_from valid d g sessions capabilities version in
      let clean = clean_sessions sessions in
      let caps = clean_agent_start_capabilities capabilities in
      let v = if valid version then version else [] in
      (r.1
        ≡ some (record { device_id = device; version = v; sessions = clean; capabilities = caps }))
      × (get_device_session_snapshot r.0 device ≡ (values (cache_sessions clean []), caps, v))
unfolding update_session_list_from get_device_session_snapshot is_live_daemon insert
get_device_session_snapshot-cached valid d device g sessions capabilities version w e =
    let (dc, f, q, alive) = w.points device g e in
    let current : find_live dc.device_id d.live ≡ some g = ap (λ x. find_live x d.live) q ∙ e in
    let new = updated valid dc sessions capabilities version in
    let there = lookup-insert_self ℕ_discrete g new d.store in
    let live : is_live_daemon d g ≡ true = ground (arith, f, alive, current) in
    let after : update_session_list_from valid d g sessions capabilities version
        ≡ (record d { store = put_dc g new d.store }, some (report_of valid new sessions)) =
      ground (arith, f, live) in
    rw after (rw q refl, ground (arith, e, there, alive))

-- When the live connection of a device has reported its sessions, the phones of the device are sent, for each
-- id, the shown entries in their order; whoever asks for the device's sessions gets for each id the last of
-- these and no other; both get, for each known agent, the first of its capabilities, none for an unknown
-- agent, and the version if it is valid.
pub get_device_session_snapshot-update :
    (valid : Bytes → Bool) (d : Daemons) (device : Bytes) (g : ℕ) (sessions : List (Option Session))
    (capabilities : Option (List Capability)) (version id agent : Bytes)
    → IsCoherent d
    → find_live device d.live ≡ some g
    → let r = update_session_list_from valid d g sessions capabilities version in
      let told = get_device_session_snapshot r.0 device in
      let v = if valid version then version else [] in
      (report : Report) × (r.1 ≡ some report)
      × (report.device_id ≡ device)
      × (with_id id report.sessions ≡ entries id sessions)
      × (with_id id told.0 ≡ maybe_one (last_of (entries id sessions)))
      × (report.capabilities ≡ told.1)
      × (is_some told.1 ≡ is_some capabilities)
      × (of_agent agent told.1
          ≡ (if known_agent agent then head_of (of_agent agent capabilities) else []))
      × (report.version ≡ v)
      × (told.2 ≡ v)
unfolding clean_agent_start_capabilities
get_device_session_snapshot-update valid d device g sessions capabilities version id agent w e =
    let (sent, told) =
      get_device_session_snapshot-cached valid d device g sessions capabilities version w e in
    (
      _,
      sent,
      refl,
      clean_sessions-with_id id sessions,
      rw told (snapshot-with_id id sessions),
      rw told refl,
      rw told (ground arith),
      rw told (of_agent-clean agent capabilities),
      refl,
      rw told refl,
    )
