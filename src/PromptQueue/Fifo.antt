-- ===== src/PromptQueue/Fifo.antt =====
-- The order in which claimNext and next of daemon/cmd/daemon/prompt_queue.go hand items out.
use mathlib.Core.List.{Memᴰ}
use nekonest.Prelude.{
  subst, ◌||◌, ℕ, ◌≤◌, ◌≡◌, refl, sym, ◌⊎◌, inl, inr, Bool, true, ◌&&◌, List, [], ◌∷◌, Option, none,
  some, Bytes, arith, count, if◌then◌else◌, Bool-cases, ltb,
}
use nekonest.PromptQueue.Item.{Item, in_session, is_running, is_queued, is_prompt_queue_blocked}
use nekonest.PromptQueue.Queries.{scan_claim, scan_next, candidate, older}

abbrev pub waits_in : Bytes → Item → Bool
waits_in session it = in_session session it && is_queued it.status

abbrev pub holds_up : Bytes → Item → Bool
holds_up session it =
    in_session session it && (is_running it.status || is_prompt_queue_blocked it.status)

abbrev Waits : Bytes → Option Item → Type 0
Waits session none = Unit
Waits session (some it) = (it.session_id ≡ session) × (is_queued it.status ≡ true)

-- No waiting item of the session is older than `order`.
abbrev pub NoneOlder : Bytes → ℕ → List Item → Type 0
NoneOlder session order [] = Unit
NoneOlder session order (it ∷ rest) =
    (waits_in session it ≡ true → order ≤ it.order) × NoneOlder session order rest

abbrev NotAfter : ℕ → Option Item → Type 0
NotAfter order none = Unit
NotAfter order (some it) = order ≤ it.order

abbrev pub pick : Bytes → Option Item → Item → Option Item
pick session best it = if in_session session it && is_queued it.status then older best it else best

pub waits_in_parts :
    (session : Bytes) (it : Item)
    → waits_in session it ≡ true
    → (it.session_id ≡ session) × (is_queued it.status ≡ true)
waits_in_parts session it h = ground arith

older-Waits :
    (session : Bytes) (b it : Item)
    → Waits session (some b)
    → Waits session (some it)
    → Waits session (older (some b) it)
older-Waits session b it w v = elim (Bool-cases (ltb it.order b.order)) [
  | inl lt ↦ rw lt v
  | inr ge ↦ rw ge w
]

pick-Waits :
    (session : Bytes) (best : Option Item) (it : Item)
    → Waits session best
    → Waits session (pick session best it)
pick-Waits session none it w = elim (Bool-cases (waits_in session it)) [
  | inl y ↦ rw y (waits_in_parts session it y)
  | inr n ↦ rw n tt
]
pick-Waits session (some b) it w = elim (Bool-cases (waits_in session it)) [
  | inl y ↦ rw y (older-Waits session b it w (waits_in_parts session it y))
  | inr n ↦ rw n w
]

scan_next-Waits :
    (session : Bytes) (l : List Item) (best : Option Item)
    → Waits session best
    → Waits session (scan_next session l best)
unfolding scan_next
scan_next-Waits session [] best w = w
scan_next-Waits session (it ∷ rest) best w =
    scan_next-Waits session rest (pick session best it) (pick-Waits session best it w)

pick-NotAfter :
    (session : Bytes) (best : Option Item) (it : Item) (order : ℕ)
    → NotAfter order (pick session best it)
    → NotAfter order best × (waits_in session it ≡ true → order ≤ it.order)
pick-NotAfter session none it order h = ground arith
pick-NotAfter session (some b) it order h = ground arith

scan_next-NoneOlder :
    (session : Bytes) (l : List Item) (best : Option Item) (it : Item)
    → scan_next session l best ≡ some it
    → NotAfter it.order best × NoneOlder session it.order l
unfolding scan_next
scan_next-NoneOlder session [] none it h = cc
scan_next-NoneOlder session [] (some b) it h = (ground arith, tt)
scan_next-NoneOlder session (x ∷ rest) best it h =
    let (first, later) = scan_next-NoneOlder session rest (pick session best x) it h in
    let (kept, here) = pick-NotAfter session best x it.order first in (kept, (here, later))

pick-cases :
    (session : Bytes) (best : Option Item) (x it : Item)
    → pick session best x ≡ some it
    → (best ≡ some it) ⊎ (x ≡ it)
pick-cases session none x it h = ground arith
pick-cases session (some b) x it h = ground arith

scan_next-Mem :
    (session : Bytes) (l : List Item) (best : Option Item) (it : Item)
    → scan_next session l best ≡ some it
    → (best ≡ some it) ⊎ Memᴰ it l
unfolding scan_next
scan_next-Mem session [] best it h = inl h
scan_next-Mem session (x ∷ rest) best it h =
    elim (scan_next-Mem session rest (pick session best x) it h) [
      | inr m ↦ inr (Memᴰ.tail m)
      | inl e ↦ elim (pick-cases session best x it e) [
        | inl old ↦ inl old
        | inr new ↦ inr (Memᴰ.head (sym new))
      ]
    ]

-- Where the scan of claimNext is not stopped it agrees with that of next, and nothing holds the
-- session up.
pub scan_claim-candidate :
    (session : Bytes) (l : List Item) (best : Option Item) {found : Option Item}
    → scan_claim session l best ≡ candidate found
    → (scan_next session l best ≡ found) × (count (holds_up session) l ≡ 0)
unfolding scan_claim scan_next
scan_claim-candidate session [] best h = (ground arith, refl)
scan_claim-candidate session (it ∷ rest) best {found} h =
    ground (arith, scan_claim-candidate session rest (pick session best it) {found = found})

-- What claimNext may hand out.
pub record Oldest (session : Bytes) (it : Item) (l : List Item) : Type 0 where
  pub listed : Memᴰ it l
  pub of_session : it.session_id ≡ session
  pub waits : is_queued it.status ≡ true
  pub none_older : NoneOlder session it.order l

scan_next-Oldest :
    (session : Bytes) (l : List Item) (it : Item)
    → scan_next session l none ≡ some it
    → Oldest session it l
scan_next-Oldest session l it h = record {
  listed = elim (scan_next-Mem session l none it h) [ inl e ↦ absurd (cc) | inr m ↦ m ];
  of_session = found.0;
  waits = found.1;
  none_older = (scan_next-NoneOlder session l none it h).1;
}
  where
    found : Waits session (some it)
    found = subst (Waits session) h (scan_next-Waits session l none tt)

pub scan_claim-Oldest :
    (session : Bytes) (l : List Item) (it : Item)
    → scan_claim session l none ≡ candidate (some it)
    → Oldest session it l × (count (holds_up session) l ≡ 0)
scan_claim-Oldest session l it h =
    let (e, clear) = scan_claim-candidate session l none h in
    (scan_next-Oldest session l it e, clear)
