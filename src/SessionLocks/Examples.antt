-- ===== src/SessionLocks/Examples.antt =====
-- Two goroutines at the lock of one session (daemon/cmd/daemon/prompt_state.go).
use nekonest.Prelude.{
  false, ℕ, ◌≡◌, refl, true, [], ◌∷◌, Bytes, ascii, bytes_discrete, lookup, insert, ℕ_discrete,
}
use nekonest.SessionLocks.Locks.{
  System, waiting, inside, Reach, start, later, creates, joins, locks_entry,
}
use nekonest.SessionLocks.Exclusion.{Reach-excludes}

abbrev session : Bytes
session = ascii "s"

-- One goroutine is inside, another waits.
abbrev contended : System
contended = record {
  locks = (session, 0) ∷ [];
  entries = (0, record { locked = true; refs = 2 }) ∷ [];
  fresh = 1;
  goroutines = (7, inside session 0) ∷ (8, waiting session 0) ∷ [];
}

contending : Reach contended
unfolding lookup insert bytes_discrete
contending =
    later
      (later (later start (creates 7 session refl refl))
        (joins 8 session 0 (record { locked = false; refs = 1 }) refl refl refl))
      (locks_entry 7 session 0 (record { locked = false; refs = 2 }) refl refl refl)

Reach-excludes_example : ◌≡◌ {A = ℕ} 7 7
unfolding lookup ℕ_discrete
Reach-excludes_example = Reach-excludes 7 7 session 0 0 contending refl refl
