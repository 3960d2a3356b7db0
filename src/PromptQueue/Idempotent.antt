-- ===== src/PromptQueue/Idempotent.antt =====
-- enqueue of daemon/cmd/daemon/prompt_queue.go and the client_msg_id: one prompt, one item.
use mathlib.Core.List.{append_assoc}
use nekonest.Prelude.{
  ℤ, ◌<◌, ◌≡◌, ◌≢◌, refl, sym, ap, ◌∙◌, inl, inr, Bool, true, false, [], ◌∷◌, ◌++◌, none, some,
  Bytes, arith, ok, Result-cases, Option-cases, Bool-cases, lookup-insert, bytes_discrete, leb,
}
use nekonest.AtomicWrite.{Syscalls}
use nekonest.PromptQueue.Item.{
  Item, Json, prompt_queue_key, max_prompt_queue_per_session, validate_prompt_queue_item,
}
use nekonest.PromptQueue.Store.{Queue, find, active_count, compact_prompt_queue_tombstones}
use nekonest.PromptQueue.Enqueue.{enqueue, enqueue_locked, add_new, with_new, stamp, check_new}
use nekonest.PromptQueue.Keyed.{key_of}
use nekonest.PromptQueue.Durable.{commit_cases}

-- A prompt that is already in the map is returned as it stands, and nothing changes.
pub enqueue-known :
    (json : Json) (os : Syscalls) (q : Queue) (now : ℤ) (it current : Item)
    → check_new json it ≡ ok tt
    → find (key_of it) q.items ≡ some current
    → enqueue json os q now it ≡ (q, ok (current, false))
unfolding enqueue
enqueue-known json os q now it current c f = rw (c, enqueue) (rw (f, enqueue_locked) refl)

-- What a call of enqueue that added an item has checked and done.
pub record Added (json : Json) (q : Queue) (now : ℤ) (it new : Item) (after : Queue) : Type 0 where
  pub checked : check_new json it ≡ ok tt
  pub missing : find (key_of it) q.items ≡ none
  pub room : active_count q.items it.session_id < max_prompt_queue_per_session
  pub stamped : new ≡ stamp q now it
  pub stored : find (key_of it) after.items ≡ some new
  pub counted : after.next_id ≡ new.order

add_new-added :
    (json : Json) (os : Syscalls) (q : Queue) (it : Item) {new : Item}
    → (add_new json os q it).1 ≡ ok (new, true)
    → (new ≡ it)
      × (find (key_of it) (add_new json os q it).0.items ≡ some it)
      × ((add_new json os q it).0.next_id ≡ it.order)
add_new-added json os q it {new} h = elim (Result-cases (validate_prompt_queue_item json it)) [
  | inr (x, e) ↦ absurd (ground arith)
  | inl (u, e) ↦ elim (commit_cases json os {A = Item × Bool} q (with_new q it) (it, true)) [
    | inr (x, failed, items, number, file) ↦ absurd (ground arith)
    | inl (done, items, number, s) ↦ (
      ground arith,
      ground (
        arith,
        lookup-insert bytes_discrete (key_of it) (key_of it) it
            (compact_prompt_queue_tombstones q.items it.session_id),
      ),
      ground arith,
    )
  ]
]

enqueue_locked-Added :
    (json : Json) (os : Syscalls) (q : Queue) (now : ℤ) (it : Item) {new : Item}
    → check_new json it ≡ ok tt
    → (enqueue_locked json os q now it).1 ≡ ok (new, true)
    → Added json q now it new (enqueue_locked json os q now it).0
enqueue_locked-Added json os q now it {new} c h = elim (Option-cases (find (key_of it) q.items)) [
  | inr (current, f) ↦ absurd (ground arith)
  | inl f ↦
      elim (Bool-cases (leb max_prompt_queue_per_session (active_count q.items it.session_id))) [
        | inl full ↦ absurd (ground arith)
        | inr room ↦
            let same : enqueue_locked json os q now it ≡ add_new json os q (stamp q now it) =
              rw (f, enqueue_locked) (rw room refl) in
            let (eq, found, number) = add_new-added json os q (stamp q now it) (rw same at h) in
            rw same (record {
              checked = c;
              missing = f;
              room = ground arith;
              stamped = eq;
              stored = found ∙ ap some (sym eq);
              counted = number ∙ ap Item.order (sym eq);
            })
      ]
]

pub enqueue-Added :
    (json : Json) (os : Syscalls) (q : Queue) (now : ℤ) (it : Item) {new : Item}
    → (enqueue json os q now it).1 ≡ ok (new, true)
    → Added json q now it new (enqueue json os q now it).0
unfolding enqueue
enqueue-Added json os q now it {new} h = elim (Result-cases (check_new json it)) [
  | inr (x, e) ↦ absurd (ground arith)
  | inl (u, e) ↦ rw (e, enqueue) (enqueue_locked-Added json os q now it e (ground arith))
]

-- A text without a zero byte.
abbrev pub NoZero : Bytes → Type 0
NoZero [] = Unit
NoZero (b ∷ r) = (b ≢ 0) × NoZero r

-- Where no session id holds a zero byte, only equal pairs of ids have equal keys.
pub prompt_queue_key-injective :
    (s s' c c' : Bytes)
    → NoZero s
    → NoZero s'
    → prompt_queue_key s c ≡ prompt_queue_key s' c'
    → (s ≡ s') × (c ≡ c')
unfolding prompt_queue_key
prompt_queue_key-injective [] [] c c' n n' e = (refl, cc)
prompt_queue_key-injective [] (b ∷ s') c c' n n' e = absurd (n'.0 (cc))
prompt_queue_key-injective (b ∷ s) [] c c' n n' e = absurd (n.0 (cc))
prompt_queue_key-injective (b ∷ s) (b' ∷ s') c c' n n' e =
    let (p, r) = prompt_queue_key-injective s s' c c' n.1 n'.1 (cc) in (cc, r)

-- With a zero byte in a session id the keys of different prompts coincide: the byte that separates
-- the two ids may belong to either.
pub prompt_queue_key-collides :
    (s t c : Bytes) → prompt_queue_key (s ++ (0 ∷ t)) c ≡ prompt_queue_key s (t ++ (0 ∷ c))
unfolding prompt_queue_key
prompt_queue_key-collides s t c = append_assoc s (0 ∷ t) (0 ∷ c)
