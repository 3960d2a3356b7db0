-- ===== src/PromptQueue/Settled.antt =====
-- A completed or cancelled prompt of daemon/cmd/daemon/prompt_queue.go is never taken up again.
use nekonest.Prelude.{count, suc, ◌≤◌, ◌≡◌, ◌⊎◌, Option, none, some, values}
use nekonest.PromptQueue.Item.{retain_queue_tombstones, compact_queue_tombstones_at, Item}
use nekonest.PromptQueue.Store.{is_tombstone_in, Items}
use nekonest.PromptQueue.Compaction.{not_older}

-- What becomes of a finished item: it is as it was, or it is gone, and compaction was due: its session
-- had 256 finished items or more, of which 128 were not older, where one of these may be the item that
-- the command has just finished.
abbrev pub Fate : Items → Item → Option Item → Type 0
Fate m it o =
    (o ≡ some it)
    ⊎ ((o ≡ none)
        × (compact_queue_tombstones_at ≤ suc (count (is_tombstone_in it.session_id) (values m)))
        × (retain_queue_tombstones ≤ suc (count (not_older it) (values m))))
