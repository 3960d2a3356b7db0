-- ===== src/PromptQueue/Claim.antt =====
-- claimNext of daemon/cmd/daemon/prompt_queue.go: what it hands out, and when it hands out nothing.
use mathlib.Core.List.{Memᴰ}
use nekonest.Prelude.{
  ◌≢◌, ap, ◌∙◌, ltb, ◌≡◌, refl, sym, inl, inr, true, List, [], ◌∷◌, Option, none, some, Bytes,
  arith, count, values, ok, if◌then◌else◌,
}
use nekonest.AtomicWrite.{Syscalls}
use nekonest.PromptQueue.Item.{Item, Json, running}
use nekonest.PromptQueue.Store.{Queue, put}
use nekonest.PromptQueue.Queries.{Scan, stopped, candidate, scan_claim, scan_next}
use nekonest.PromptQueue.Transitions.{claim_next, claim_found, replace}
use nekonest.PromptQueue.Keyed.{key_of}
use nekonest.PromptQueue.Durable.{commit_cases}
use nekonest.PromptQueue.Fifo.{waits_in, holds_up, Oldest, scan_claim-Oldest, pick}

claim_found-ok :
    (json : Json) (os : Syscalls) (q : Queue) (found : Scan) {it : Item}
    → (claim_found json os q found).1 ≡ ok (some it)
    → (old : Item) × (found ≡ candidate (some old))
      × (it ≡ record old { status = running })
      × ((claim_found json os q found).0.items ≡ put (key_of old) it q.items)
claim_found-ok json os q stopped h = absurd (cc)
claim_found-ok json os q (candidate none) h = absurd (cc)
claim_found-ok json os q (candidate (some old)) {it} h =
    elim (commit_cases json os q (replace q (key_of old) (record old { status = running }))
      (some (record old { status = running }))) [
        | inl (done, items, number, s) ↦
            let eq : it ≡ record old { status = running } = cc in
            (old, refl, eq, items ∙ ap (λ x. put (key_of old) x q.items) (sym eq))
        | inr (x, failed, same_items, number, file) ↦ absurd (cc)
      ]

-- A claim that hands an item out has taken the oldest queued item of the session, while nothing of
-- the session ran or was blocked; the item is now running, and the rest of the map is unchanged.
pub claim_next-Oldest :
    (json : Json) (os : Syscalls) (q : Queue) (session : Bytes) {it : Item}
    → (claim_next json os q session).1 ≡ ok (some it)
    → (old : Item) × Oldest session old (values q.items)
      × (count (holds_up session) (values q.items) ≡ 0)
      × (it ≡ record old { status = running })
      × ((claim_next json os q session).0.items ≡ put (key_of old) it q.items)
unfolding claim_next
claim_next-Oldest json os q session h =
    let (old, found, eq, items) = claim_found-ok json os q _ h in
    let (oldest, clear) = scan_claim-Oldest session (values q.items) old found in
    (old, oldest, clear, eq, items)

scan_claim-stopped :
    (session : Bytes) (it : Item) (l : List Item) (best : Option Item)
    → Memᴰ it l
    → holds_up session it ≡ true
    → scan_claim session l best ≡ stopped
unfolding scan_claim
scan_claim-stopped session it [] best m h = elim m [ ]
scan_claim-stopped session it (x ∷ rest) best (Memᴰ.head e) h = rw (← e) (ground arith)
scan_claim-stopped session it (x ∷ rest) best (Memᴰ.tail m) h =
    ground (arith, scan_claim-stopped session it rest (pick session best x) m)

-- A running or blocked item of the session holds it up: nothing is handed out or changed.
pub claim_next-held_up :
    (json : Json) (os : Syscalls) (q : Queue) (session : Bytes) (it : Item)
    → Memᴰ it (values q.items)
    → holds_up session it ≡ true
    → claim_next json os q session ≡ (q, ok none)
unfolding claim_next
claim_next-held_up json os q session it m h =
    rw (scan_claim-stopped session it (values q.items) none m h)

scan_claim-found :
    (session : Bytes) (l : List Item) (best : Option Item)
    → count (holds_up session) l ≡ 0
    → scan_claim session l best ≡ candidate (scan_next session l best)
unfolding scan_claim scan_next
scan_claim-found session [] best h = refl
scan_claim-found session (x ∷ rest) best h =
    ground (arith, scan_claim-found session rest (pick session best x))

pick-some : (session : Bytes) (b it : Item) → (c : Item) × (pick session (some b) it ≡ some c)
pick-some session b it =
    (if waits_in session it then if ltb it.order b.order then it else b else b, ground arith)

scan_next-some :
    (session : Bytes) (l : List Item) (b : Item)
    → (c : Item) × (scan_next session l (some b) ≡ some c)
unfolding scan_next
scan_next-some session [] b = (b, refl)
scan_next-some session (x ∷ rest) b =
    let (c, e) = pick-some session b x in
    let (d, f) = scan_next-some session rest c in (d, ap (scan_next session rest) e ∙ f)

scan_next-waiting :
    (session : Bytes) (it : Item) (l : List Item) (best : Option Item)
    → Memᴰ it l
    → waits_in session it ≡ true
    → (c : Item) × (scan_next session l best ≡ some c)
unfolding scan_next
scan_next-waiting session it [] best m h = elim m [ ]
scan_next-waiting session it (x ∷ rest) best (Memᴰ.tail m) h =
    scan_next-waiting session it rest (pick session best x) m h
scan_next-waiting session it (x ∷ rest) none (Memᴰ.head e) h =
    let (d, f) = scan_next-some session rest x in (d, rw (← e, h) (rw e f))
scan_next-waiting session it (x ∷ rest) (some b) (Memᴰ.head e) h =
    let (c, p) = pick-some session b x in
    let (d, f) = scan_next-some session rest c in (d, ap (scan_next session rest) p ∙ f)

claim_found-some :
    (json : Json) (os : Syscalls) (q : Queue) (it : Item)
    → (claim_found json os q (candidate (some it))).1 ≢ ok none
claim_found-some json os q it h =
    elim (commit_cases json os q (replace q (key_of it) (record it { status = running }))
      (some (record it { status = running }))) [
        | inl (done, items, number, s) ↦ cc
        | inr (x, failed, same_items, number, file) ↦ cc
      ]

-- Where nothing of the session runs or is blocked and an item of it is queued, a claim hands an item
-- out or reports that its write failed: it never says that there is nothing to do.
pub claim_next-progress :
    (json : Json) (os : Syscalls) (q : Queue) (session : Bytes) (it : Item)
    → count (holds_up session) (values q.items) ≡ 0
    → Memᴰ it (values q.items)
    → waits_in session it ≡ true
    → (claim_next json os q session).1 ≢ ok none
unfolding claim_next
claim_next-progress json os q session it clear m h =
    let (c, e) = scan_next-waiting session it (values q.items) none m h in
    rw (scan_claim-found session (values q.items) none clear, e) (claim_found-some json os q c)
