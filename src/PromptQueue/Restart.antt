-- ===== src/PromptQueue/Restart.antt =====
-- Nothing that the file lists is lost when the daemon restarts, and what was running holds its
-- session up (daemon/cmd/daemon/prompt_queue.go).
use mathlib.Core.List.{Memᴰ}
use nekonest.Prelude.{
  ◌≢◌, ascii, true, ◌≡◌, ◌⊎◌, inl, inr, Bool, List, [], ◌∷◌, none, some, Bytes, arith, ok,
  Result-cases, lookup-insert, bytes_discrete, is_ℤ,
}
use nekonest.AtomicWrite.{Syscalls}
use nekonest.PromptQueue.Item.{
  cancelled, completed, blocked_indeterminate, other, running, Status, Item, Json, Disk,
  prompt_queue_legacy_version,
}
use nekonest.PromptQueue.Store.{Queue, find}
use nekonest.PromptQueue.Keyed.{key_of}
use nekonest.PromptQueue.Load.{
  Loaded, Opening, normalize, load_one, check_one, load_items, load_disk, load_prompt_queue,
  no_items,
}
use nekonest.PromptQueue.Recovery.{normalize-key, check_one-ok, load_prompt_queue-ok}

abbrev pub paused : Status
paused = other (ascii "paused")

-- What an item of the file becomes: what was running, or paused in the old format, is indeterminate; a
-- completed or cancelled item has no payload; everything else is as it was.
pub record Recovered (legacy : Bool) (it new : Item) : Type 0 where
  pub session : new.session_id ≡ it.session_id
  pub client : new.client_msg_id ≡ it.client_msg_id
  pub agent : new.agent_type ≡ it.agent_type
  pub mode : new.collaboration_mode ≡ it.collaboration_mode
  pub created : new.created_at ≡ it.created_at
  pub order : new.order ≡ it.order
  pub was_running : it.status ≡ running → new.status ≡ blocked_indeterminate
  pub was_paused : legacy ≡ true → it.status ≡ paused → new.status ≡ blocked_indeterminate
  pub same_status :
      it.status ≢ running → (legacy ≡ true → it.status ≢ paused) → new.status ≡ it.status
  pub finished_payload :
      (it.status ≡ completed) ⊎ (it.status ≡ cancelled)
      → (new.prompt ≡ []) × (new.attachments ≡ []) × (new.sealed_envelope ≡ [])
  pub same_payload :
      it.status ≢ completed
      → it.status ≢ cancelled
      → (new.prompt ≡ it.prompt)
        × (new.attachments ≡ it.attachments)
        × (new.sealed_envelope ≡ it.sealed_envelope)

normalize-Recovered : (legacy : Bool) (it : Item) → Recovered legacy it (normalize legacy it)
unfolding normalize
normalize-Recovered legacy it = record {
  session = ground arith;
  client = ground arith;
  agent = ground arith;
  mode = ground arith;
  created = ground arith;
  order = ground arith;
  was_running = λ e. ground (arith, e);
  was_paused = λ l e. ground (arith, l, e);
  same_status = λ n m. ground (arith, n, m);
  finished_payload = λ e. ground (arith, e);
  same_payload = λ n m. ground (arith, n, m);
}

load_one-find :
    (json : Json) (legacy : Bool) (it x : Item) (rest : List Item) (l : Loaded)
    → find (key_of (normalize legacy x)) l.items ≡ none
    → Memᴰ it (x ∷ rest) ⊎ (find (key_of it) l.items ≡ some (normalize legacy it))
    → Memᴰ it rest ⊎ (find (key_of it) (load_one legacy x l).items ≡ some (normalize legacy it))
unfolding load_one
load_one-find json legacy it x rest l fresh (inl (Memᴰ.tail m)) = inl m
load_one-find json legacy it x rest l fresh (inl (Memᴰ.head e)) = inr (
    ground (
      arith,
      e,
      normalize-key legacy x,
      lookup-insert bytes_discrete (key_of (normalize legacy x)) (key_of it) (normalize legacy x)
          l.items,
    ))
load_one-find json legacy it x rest l fresh (inr found) = inr (
    ground (
      arith,
      lookup-insert bytes_discrete (key_of (normalize legacy x)) (key_of it) (normalize legacy x)
          l.items,
    ))

load_items-find :
    (json : Json) (legacy : Bool) (it : Item) (items : List Item) (l : Loaded) {r : Loaded}
    → load_items json legacy items l ≡ ok r
    → Memᴰ it items ⊎ (find (key_of it) l.items ≡ some (normalize legacy it))
    → find (key_of it) r.items ≡ some (normalize legacy it)
unfolding load_items
load_items-find json legacy it [] l h (inl m) = elim m [ ]
load_items-find json legacy it [] l h (inr e) = ground arith
load_items-find json legacy it (x ∷ rest) l {r} h c =
    elim (Result-cases (check_one json legacy x l)) [
      | inr (bad, e) ↦ absurd (ground arith)
      | inl (u, e) ↦
          load_items-find json legacy it rest (load_one legacy x l) {r = r} (ground arith)
            (load_one-find json legacy it x rest l (check_one-ok json legacy x l e).1 c)
    ]

load_prompt_queue-normalized :
    (json : Json) (open_file : Opening) (os : Syscalls) (content : Bytes) (disk : Disk) (it : Item)
    {q : Queue}
    → json.unmarshal content ≡ some disk
    → Memᴰ it disk.items
    → (load_prompt_queue json open_file os (some content)).1 ≡ ok q
    → find (key_of it) q.items ≡ some (normalize (is_ℤ disk.version prompt_queue_legacy_version) it)
unfolding load_disk
load_prompt_queue-normalized json open_file os content disk it {q} e m h =
    let (l, from_disk, items, number) = load_prompt_queue-ok json open_file os (some content) h in
    rw items (
      load_items-find json (is_ℤ disk.version prompt_queue_legacy_version) it disk.items
        (no_items (is_ℤ disk.version prompt_queue_legacy_version)) {r = l} (ground arith) (inl m))

-- Every item that a readable file lists is in the loaded queue under its key, when the load succeeds: what
-- was running, or paused in a file of the old version, is indeterminate there and keeps its payload; a
-- completed or cancelled item has no payload; and every other field is as the file has it.
pub load_prompt_queue-find :
    (json : Json) (open_file : Opening) (os : Syscalls) (content : Bytes) (disk : Disk) (it : Item)
    {q : Queue}
    → json.unmarshal content ≡ some disk
    → Memᴰ it disk.items
    → (load_prompt_queue json open_file os (some content)).1 ≡ ok q
    → (new : Item) × (find (key_of it) q.items ≡ some new)
      × Recovered (is_ℤ disk.version prompt_queue_legacy_version) it new
load_prompt_queue-find json open_file os content disk it {q} e m h =
    let legacy = is_ℤ disk.version prompt_queue_legacy_version in
    (
      normalize legacy it,
      load_prompt_queue-normalized json open_file os content disk it {q = q} e m h,
      normalize-Recovered legacy it,
    )
