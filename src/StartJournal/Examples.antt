-- ===== src/StartJournal/Examples.antt =====
-- Runs of the journal of daemon/internal/startjournal/journal.go at small inputs.
use nekonest.Prelude.{
  ℕ, zero, suc, pos, ◌≡◌, refl, false, [], ◌∷◌, none, some, Bytes, ascii, ◌++◌, ok, err, length,
  bytes_discrete, lookup, insert,
}
use nekonest.Text.{valid_utf8, is_blank, trim_space}
use nekonest.AtomicWrite.{working, write_file_atomic}
use nekonest.StartJournal.Record.{
  Record, Request, Codec, conflict, validate_operation_id, validate_request, sort_records,
}
use nekonest.StartJournal.Journal.{Journal, begin, commit, persist, started}
use nekonest.StartJournal.Begin.{begin_again}

abbrev copies : ℕ → Bytes
copies zero = []
copies (suc n) = 0x61 ∷ copies n

-- A codec whose files hold the number of records.
abbrev codec : Codec
codec = record {
  marshal = λ d. some (length d.records ∷ []);
  unmarshal = λ _. none;
  digest = λ b. b;
}

abbrev fresh : Journal
fresh = record { device_hash = ascii "d"; records = []; file = none }

abbrev wanted : Request
wanted = record {
  agent_type = ascii "codex";
  project_dir = ascii "/p";
  prompt_digest = copies 64;
  attachments_digest = [];
}

abbrev elsewhere : Request
elsewhere = record wanted { project_dir = ascii "/q" }

abbrev recorded : Record
recorded = started (ascii "d" ++ (0 ∷ ascii "o")) (ascii "o") wanted (pos 3)

begin_again_example :
    let after = (begin codec working fresh (pos 3) (ascii "o") wanted).0 in
    (begin codec working after (pos 4) (ascii "o") wanted ≡ (after, ok (recorded, false)))
    × (begin codec working after (pos 4) (ascii "o") elsewhere ≡ (after, err conflict))
unfolding begin commit persist write_file_atomic validate_operation_id validate_request is_blank
    trim_space valid_utf8 bytes_discrete lookup insert sort_records
begin_again_example =
    begin_again codec working working fresh (pos 3) (pos 4) (ascii "o") wanted elsewhere
      {r = recorded} refl refl refl
