-- ===== src/PromptQueue/Examples.antt =====
-- Runs of the prompt queue of daemon/cmd/daemon/prompt_queue.go at small inputs.
use mathlib.Core.List.{Memᴰ}
use nekonest.Prelude.{
  pos, ◌≡◌, ◌≢◌, ◌⊎◌, refl, true, false, List, [], ◌∷◌, none, some, Bytes, ascii, bytes_discrete,
  lookup, insert, length, ok, arith, count,
}
use nekonest.Text.{valid_utf8, trim_space, is_blank}
use nekonest.AtomicWrite.{Syscalls, working, write_file_atomic}
use nekonest.PromptQueue.Item.{
  Item, queued, running, completed, blocked_indeterminate, Disk, Json, prompt_queue_key,
  validate_prompt_queue_item, validate_prompt_queue_string, validate_payload, validate_ids,
}
use nekonest.PromptQueue.Store.{
  Queue, find, put, persist, commit, disk_of, sort_ascending, active_count,
}
use nekonest.PromptQueue.Queries.{scan_claim}
use nekonest.PromptQueue.Transitions.{claim_next}
use nekonest.PromptQueue.Steps.{Command, enqueues, claims, completes, cancels, run, outcome}
use nekonest.PromptQueue.Keyed.{IsKeyed, key_of}
use nekonest.PromptQueue.Bounds.{Inv, WithinLimits, run-Inv}
use nekonest.PromptQueue.Fifo.{Oldest, holds_up}
use nekonest.PromptQueue.Claim.{claim_next-Oldest, claim_next-progress}
use nekonest.PromptQueue.Durable.{Synced, run-Synced, outcome_failed}
use nekonest.PromptQueue.Orders.{Ordered}
use nekonest.PromptQueue.Numbering.{run-Ordered}
use nekonest.PromptQueue.Load.{
  Opening, load_prompt_queue, load_disk, load_items, normalize, normalizes, check_one, load_one,
}
use nekonest.PromptQueue.Recovery.{IsRecovered, load_prompt_queue-IsRecovered}
use nekonest.PromptQueue.Restart.{Recovered, load_prompt_queue-find}

abbrev waiting : Item
waiting = record {
  session_id = ascii "s";
  client_msg_id = ascii "a";
  agent_type = ascii "codex";
  prompt = ascii "hi";
  attachments = [];
  sealed_envelope = [];
  collaboration_mode = [];
  created_at = pos 5;
  order = 1;
  status = queued;
}

abbrev at_work : Item
at_work = record waiting { status = running }

abbrev done_item : Item
done_item = record waiting { status = completed; prompt = [] }

abbrev later : Item
later = record waiting { client_msg_id = ascii "b"; order = 0 }

-- A codec whose files hold the number of items.
abbrev disk : Disk
disk = record { version = pos 2; items = at_work ∷ [] }

abbrev codec : Json
codec = record {
  valid = λ _. true;
  marshal = λ d. some (length d.items ∷ []);
  unmarshal = λ _. some disk;
}

abbrev queue_with : Item → Queue
queue_with it = record {
  items = (prompt_queue_key it.session_id it.client_msg_id, it) ∷ [];
  next_id = 1;
  file = some (1 ∷ []);
}

keyed : (it : Item) → IsKeyed (queue_with it).items
keyed it = record { keys = (refl, tt); unique = (tt, tt) }

abbrev broken_write : Syscalls
broken_write = record working { write = false }

abbrev broken_chmod : Syscalls
broken_chmod = record working { chmod = false }

abbrev history : List (Syscalls × Command)
history =
    (working, enqueues (pos 9) later)
    ∷ (broken_write, claims (ascii "s"))
    ∷ (working, claims (ascii "s"))
    ∷ (working, completes (ascii "s") (ascii "a"))
    ∷ []

claim_next-Oldest_example :
    (old : Item) × Oldest (ascii "s") old (waiting ∷ [])
    × (count (holds_up (ascii "s")) (waiting ∷ []) ≡ 0)
    × (at_work ≡ record old { status = running })
    × ((claim_next codec working (queue_with waiting) (ascii "s")).0.items
        ≡ put (key_of old) at_work (queue_with waiting).items)
unfolding claim_next scan_claim bytes_discrete commit persist write_file_atomic disk_of
    sort_ascending
claim_next-Oldest_example =
    claim_next-Oldest codec working (queue_with waiting) (ascii "s") {it = at_work} refl

claim_next-progress_example :
    (claim_next codec broken_write (queue_with waiting) (ascii "s")).1 ≢ ok none
unfolding bytes_discrete
claim_next-progress_example =
    claim_next-progress codec broken_write (queue_with waiting) (ascii "s") waiting refl
      (Memᴰ.head refl) refl

within : (session : Bytes) → WithinLimits session (queue_with waiting).items
unfolding active_count
within session = record { one_running = ground arith; few_active = ground arith }

run-Inv_example : Inv (run codec (queue_with waiting) history).items
run-Inv_example =
    run-Inv codec (queue_with waiting) history (record { keyed = keyed waiting; limits = within })

run-Synced_example : let r = run codec (queue_with waiting) history in Synced codec r.items r.file
unfolding disk_of sort_ascending
run-Synced_example =
    run-Synced codec (queue_with waiting) history (refl, (refl, (refl, (refl, tt))))
      (1 ∷ [], refl, refl)

outcome_failed_example :
    let r = (outcome codec (queue_with waiting) (broken_write, claims (ascii "s"))).0 in
    (r.items ≡ (queue_with waiting).items)
    × (r.next_id ≡ 1)
    × ((r.file ≡ some (1 ∷ [])) ⊎ (broken_write.chmod ≡ false))
unfolding outcome claim_next scan_claim bytes_discrete commit persist write_file_atomic disk_of
    sort_ascending
outcome_failed_example =
    outcome_failed codec (queue_with waiting) broken_write (claims (ascii "s")) refl

abbrev between : List (Syscalls × Command)
between = (working, claims (ascii "s")) ∷ (broken_write, cancels (ascii "s") (ascii "a")) ∷ []

abbrev opening : Opening
opening = record { stat = true; chmod = true; read = true }

abbrev reloaded : Queue
reloaded = record {
  items =
      (
        prompt_queue_key at_work.session_id at_work.client_msg_id,
        record at_work { status = blocked_indeterminate },
      )
      ∷ [];
  next_id = 1;
  file = some (1 ∷ []);
}

load_prompt_queue-find_example :
    (new : Item) × (find (key_of at_work) reloaded.items ≡ some new) × Recovered false at_work new
unfolding load_prompt_queue load_disk load_items check_one load_one normalize normalizes
    validate_ids validate_payload validate_prompt_queue_item validate_prompt_queue_string is_blank
    trim_space valid_utf8 persist write_file_atomic disk_of sort_ascending lookup insert
load_prompt_queue-find_example =
    load_prompt_queue-find codec opening working (7 ∷ []) disk at_work {q = reloaded} refl
      (Memᴰ.head refl) refl

load_prompt_queue-IsRecovered_example : IsRecovered codec reloaded.items reloaded.next_id
unfolding load_prompt_queue load_disk load_items check_one load_one normalize normalizes
    validate_ids validate_payload validate_prompt_queue_item validate_prompt_queue_string is_blank
    trim_space valid_utf8 persist write_file_atomic disk_of sort_ascending lookup insert
load_prompt_queue-IsRecovered_example =
    load_prompt_queue-IsRecovered codec opening working (some (7 ∷ [])) {q = reloaded} refl

ordered : Ordered (queue_with waiting).items 1
ordered = record { up_to = (omega arith, tt); distinct = (tt, tt); fits = omega arith }

run-Ordered_example :
    let r = run codec (queue_with waiting) history in IsKeyed r.items × Ordered r.items r.next_id
run-Ordered_example = run-Ordered codec (queue_with waiting) history (keyed waiting) ordered
