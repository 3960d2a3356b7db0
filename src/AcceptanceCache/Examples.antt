-- ===== src/AcceptanceCache/Examples.antt =====
-- Runs of the acceptance cache of daemon/cmd/daemon/prompt_state.go at small inputs.
use nekonest.Prelude.{[], ◌∷◌, ascii, ◌≡◌, refl, arith}
use nekonest.AcceptanceCache.Cache.{Cache, add_new, set_index}
use nekonest.AcceptanceCache.Ring.{IsRing, queue_of, add_new-enqueues}

-- A full cache of one prompt.
abbrev full : Cache
full = record { max = 1; entries = (ascii "k", ascii "hi") ∷ []; order = ascii "k" ∷ []; next = 0 }

full-IsRing : IsRing full
full-IsRing = record { room = omega arith; place = omega arith; filling = λ less. refl }

add_new-enqueues_example :
    (queue_of (add_new full (ascii "n") (ascii "yo")) ≡ ascii "n" ∷ [])
    × IsRing (add_new full (ascii "n") (ascii "yo"))
unfolding set_index
add_new-enqueues_example = add_new-enqueues full (ascii "n") (ascii "yo") full-IsRing
