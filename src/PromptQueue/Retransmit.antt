-- ===== src/PromptQueue/Retransmit.antt =====
-- A prompt that is sent again to daemon/cmd/daemon/prompt_queue.go.
use nekonest.Prelude.{ℕ, ◌≡◌, List, ◌++◌, none, some, Bytes}
use nekonest.AtomicWrite.{Syscalls}
use nekonest.PromptQueue.Item.{Item, Json}
use nekonest.PromptQueue.Store.{Items, Queue, find}
use nekonest.PromptQueue.Steps.{Command, run}

-- The key has an item that was given this order.
abbrev pub Holds : ℕ → Bytes → Items → Type 0
Holds order key m = (it : Item) × (find key m ≡ some it) × (it.order ≡ order)

-- Some of the commands have led to a queue without an item of the key.
abbrev pub Dropped : Json → Bytes → Queue → List (Syscalls × Command) → Type 0
Dropped json key q cs =
    (earlier : List (Syscalls × Command)) × (rest : List (Syscalls × Command)) × (cs
      ≡ earlier ++ rest)
    × (find key (run json q earlier).items ≡ none)
