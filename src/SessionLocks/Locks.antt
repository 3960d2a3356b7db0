-- ===== src/SessionLocks/Locks.antt =====
-- sessionLockMap of daemon/cmd/daemon/prompt_state.go, for any number of goroutines. The two sections under
-- the map's mutex are one step each, and so are the acquisition and the release of an entry's mutex; between
-- them the other goroutines run.
use nekonest.Prelude.{
  ℕ, ◌+◌, ◌-◌, ◌≡◌, Bool, true, false, List, [], Option, none, some, Bytes, bytes_discrete,
  ℕ_discrete, ◌==◌, if◌then◌else◌, lookup, insert, delete,
}

-- sessionLock: its count, and whether some goroutine has its mutex.
pub record SessionLock : Type 0 where
  pub locked : Bool
  pub refs : ℕ

-- Where a goroutine stands: outside, before the lock of an entry, between lock and unlock, or after the unlock
-- and before the entry is given up.
pub data Goroutine : Type 0 where
  outside : Goroutine
  waiting inside leaving : Bytes → ℕ → Goroutine

-- The map from sessions to entries, the entries by their addresses, the next address, and the goroutines.
pub record System : Type 0 where
  pub locks : List (Bytes × ℕ)
  pub entries : List (ℕ × SessionLock)
  pub fresh : ℕ
  pub goroutines : List (ℕ × Goroutine)

abbrev pub find_lock : Bytes → System → Option ℕ
find_lock session s = lookup bytes_discrete session s.locks

abbrev pub find_entry : ℕ → System → Option SessionLock
find_entry e s = lookup ℕ_discrete e s.entries

-- A goroutine that is not in the list is outside.
abbrev pub or_outside : Option Goroutine → Goroutine
or_outside none = outside
or_outside (some g) = g

abbrev pub at : ℕ → System → Goroutine
at i s = or_outside (lookup ℕ_discrete i s.goroutines)

abbrev pub move : ℕ → Goroutine → System → System
move i g s = record s { goroutines = insert ℕ_discrete i g s.goroutines }

abbrev pub put_entry : ℕ → SessionLock → System → System
put_entry e entry s = record s { entries = insert ℕ_discrete e entry s.entries }

-- `entry == nil`: a new entry is put into the map.
abbrev pub create : Bytes → System → System
create session s = record s {
  locks = insert bytes_discrete session s.fresh s.locks;
  entries = insert ℕ_discrete s.fresh (record { locked = false; refs = 1 }) s.entries;
  fresh = s.fresh + 1;
}

abbrev pub more_refs : ℕ → SessionLock → System → System
more_refs e entry s = put_entry e (record entry { refs = entry.refs + 1 }) s

-- `entry.refs--`, and the entry goes from the map if nobody is left.
abbrev pub fewer_refs : Bytes → ℕ → SessionLock → System → System
fewer_refs session e entry s =
    let rest = put_entry e (record entry { refs = entry.refs - 1 }) s in
    if entry.refs - 1 == 0
    then record rest { locks = delete bytes_discrete session s.locks }
    else rest

pub data Step (s : System) : System → Type 0 where
  creates :
      (i : ℕ) (session : Bytes)
      → at i s ≡ outside
      → find_lock session s ≡ none
      → Step s (move i (waiting session s.fresh) (create session s))
  joins :
      (i : ℕ) (session : Bytes) (e : ℕ) (entry : SessionLock)
      → at i s ≡ outside
      → find_lock session s ≡ some e
      → find_entry e s ≡ some entry
      → Step s (move i (waiting session e) (more_refs e entry s))
  locks_entry :
      (i : ℕ) (session : Bytes) (e : ℕ) (entry : SessionLock)
      → at i s ≡ waiting session e
      → find_entry e s ≡ some entry
      → entry.locked ≡ false
      → Step s (move i (inside session e) (put_entry e (record entry { locked = true }) s))
  unlocks_entry :
      (i : ℕ) (session : Bytes) (e : ℕ) (entry : SessionLock)
      → at i s ≡ inside session e
      → find_entry e s ≡ some entry
      → Step s (move i (leaving session e) (put_entry e (record entry { locked = false }) s))
  leaves :
      (i : ℕ) (session : Bytes) (e : ℕ) (entry : SessionLock)
      → at i s ≡ leaving session e
      → find_entry e s ≡ some entry
      → Step s (move i outside (fewer_refs session e entry s))

abbrev pub new_session_lock_map : System
new_session_lock_map = record { locks = []; entries = []; fresh = 0; goroutines = [] }

pub data Reach : System → Type 0 where
  start : Reach new_session_lock_map
  later : {s s' : System} → Reach s → Step s s' → Reach s'
