-- ===== src/PromptJournal/Examples.antt =====
-- Runs of the journal of daemon/cmd/daemon/prompt_journal.go at small inputs.
use mathlib.Core.List.{Memᴰ}
use nekonest.Prelude.{
  ℕ, zero, suc, pos, ◌≡◌, ◌⊎◌, refl, true, false, List, [], ◌∷◌, none, some, Bytes, ascii, err,
  length, arith, bytes_discrete, lookup, insert,
}
use nekonest.Text.{valid_utf8, is_blank, trim_space}
use nekonest.Text.Bounded.{bounded_utf8}
use nekonest.AtomicWrite.{Syscalls, working, write_file_atomic}
use nekonest.PromptJournal.Record.{
  Record, Disk, Codec, dispatching, indeterminate, already_recorded, validate_journal_identifiers,
  sort_records,
}
use nekonest.PromptJournal.Journal.{
  Journal, evict_oldest_committed, oldest_committed, mark_dispatching, make_room, commit,
  persist_records,
}
use nekonest.PromptJournal.Steps.{Command, dispatches, accepts, gives_up, outcome, run}
use nekonest.PromptJournal.Bounds.{IsWithin, run-IsWithin}
use nekonest.PromptJournal.Once.{mark_dispatching_once}
use nekonest.PromptJournal.Durable.{Settled, outcome-Settled}
use nekonest.PromptJournal.Load.{
  Opening, limit_of, load_prompt_journal, load_disk, load_records, check_record, check_identifiers,
  valid_journal_key, normalize, trim_committed, trim,
}
use nekonest.PromptJournal.Restart.{load_prompt_journal-refuses}

abbrev copies : ℕ → Bytes
copies zero = []
copies (suc n) = 0x61 ∷ copies n

-- A record of the prompt "a" of the session "s", on its way to the agent.
abbrev sent : Record
sent = record {
  key = copies 64;
  session_id = ascii "s";
  client_msg_id = ascii "a";
  legacy_opaque = false;
  status = dispatching;
  prompt_echo = ascii "hi";
  updated_at = pos 3;
}

abbrev disk : Disk
disk = record { version = pos 2; device_hash = copies 64; records = sent ∷ [] }

-- A codec whose files hold the number of records.
abbrev codec : Codec
codec = record {
  marshal = λ d. some (length d.records ∷ []);
  unmarshal = λ _. some disk;
  digest = λ _. copies 64;
}

abbrev fresh : Journal
fresh = record { device_hash = ascii "d"; max = 2; records = []; file = none }

abbrev broken_write : Syscalls
broken_write = record working { write = false }

empty-IsWithin : IsWithin 2 []
empty-IsWithin = record { keyed = record { keys = tt; unique = tt }; small = omega arith }

abbrev history : List (Syscalls × Command)
history =
    (working, accepts (pos 4) (ascii "s") (ascii "a"))
    ∷ (broken_write, gives_up (pos 5) (ascii "s") (ascii "a"))
    ∷ []

run-IsWithin_example : IsWithin 2 (run codec fresh history).records
run-IsWithin_example = run-IsWithin codec fresh history empty-IsWithin

mark_dispatching_once_example :
    let first =
      (mark_dispatching codec working fresh (pos 3) (ascii "s") (ascii "a") (ascii "hi")).0 in
    let after = run codec first history in
    mark_dispatching codec working after (pos 9) (ascii "s") (ascii "a") (ascii "hi")
    ≡ (after, err already_recorded)
unfolding mark_dispatching make_room commit persist_records write_file_atomic
    validate_journal_identifiers is_blank trim_space valid_utf8 bytes_discrete lookup insert
    sort_records bounded_utf8
mark_dispatching_once_example =
    mark_dispatching_once codec working working fresh (pos 3) (pos 9) (ascii "s") (ascii "a")
      (ascii "hi") (ascii "hi") history empty-IsWithin refl (tt, (tt, tt))

outcome-Settled_example :
    let r =
      outcome codec fresh (broken_write, dispatches (pos 3) (ascii "s") (ascii "a") (ascii "hi")) in
    (r.0 ≡ fresh) ⊎ Settled codec broken_write fresh r
outcome-Settled_example =
    outcome-Settled codec broken_write fresh
      (dispatches (pos 3) (ascii "s") (ascii "a") (ascii "hi"))

abbrev opening : Opening
opening = record { stat = true; chmod = true; read = true }

abbrev reloaded : Journal
reloaded = record {
  device_hash = copies 64;
  max = 2;
  records = (copies 64, record sent { status = indeterminate }) ∷ [];
  file = some (1 ∷ []);
}

load_prompt_journal-refuses_example :
    IsWithin (limit_of (pos 2)) reloaded.records
    × (mark_dispatching codec working reloaded (pos 9) (ascii "s") (ascii "a") (ascii "hi")
        ≡ (reloaded, err already_recorded))
unfolding load_prompt_journal load_disk load_records check_record check_identifiers
    valid_journal_key normalize trim_committed trim persist_records write_file_atomic
    validate_journal_identifiers is_blank trim_space valid_utf8 bytes_discrete lookup insert
    sort_records bounded_utf8 evict_oldest_committed oldest_committed
load_prompt_journal-refuses_example =
    load_prompt_journal-refuses codec opening working working (ascii "id") (pos 2) (7 ∷ []) disk
      sent (pos 9) (ascii "s") (ascii "a") (ascii "hi") {j = reloaded} refl refl (Memᴰ.head refl)
      refl refl refl
