-- ===== src/Relay/Bounded.antt =====
-- The bounds that the queue of a phone keeps
-- (relaycore/connections.go).
use nekonest.Prelude.{
  ℕ, ◌+◌, ◌-◌, ◌≤◌, ◌<◌, ◌≡◌, refl, sym, ap, ◌∙◌, true, false, List, [], ◌∷◌, ◌++◌, Bytes, length,
  arith, inl, inr, Bool-cases, length-append,
}
use nekonest.Relay.Outbound.{
  Outbound, phone_outbound_queue_size, max_phone_outbound_bytes, release_bytes, begin_close,
  drain_one, enqueue_phone, Writer, waiting, stopped, dropping, holding, writing, discarding, Line,
  Step, enqueues, begins_close, drains, ends_close, receives, gives_up, discards, writes, finishes,
  fails, drops, ends, Reach, start, later,
}

abbrev pub bytes_of : List Bytes → ℕ
bytes_of [] = 0
bytes_of (frame ∷ rest) = length frame + bytes_of rest

-- The bytes that the writer holds.
abbrev pub in_flight : Writer → ℕ
in_flight waiting = 0
in_flight stopped = 0
in_flight dropping = 0
in_flight (holding frame) = length frame
in_flight (writing frame) = length frame
in_flight (discarding frame) = length frame

pub record IsBounded (l : Line) : Type 0 where
  pub budget : l.out.reserved_bytes ≡ bytes_of l.out.queue + in_flight l.writer
  pub small : l.out.reserved_bytes ≤ max_phone_outbound_bytes
  pub short : length l.out.queue ≤ phone_outbound_queue_size
  pub emptied : l.out.closed ≡ true → l.draining ≡ false → l.out.queue ≡ []
  pub shut : l.draining ≡ true → l.out.closed ≡ true

bytes_of-append : (xs ys : List Bytes) → bytes_of (xs ++ ys) ≡ bytes_of xs + bytes_of ys
bytes_of-append [] ys = omega arith
bytes_of-append (x ∷ xs) ys = omega (arith, bytes_of-append xs ys)

release_bytes_lem :
    (out : Outbound) (n : ℕ) → (release_bytes out n).reserved_bytes ≡ out.reserved_bytes - n
unfolding release_bytes
release_bytes_lem out n = ground arith

pub release_bytes_rest :
    (out : Outbound) (n : ℕ)
    → ((release_bytes out n).queue ≡ out.queue) × ((release_bytes out n).closed ≡ out.closed)
unfolding release_bytes
release_bytes_rest out n = ground arith

-- A refused frame changes nothing.
pub enqueue_phone_refused :
    (out : Outbound) (frame : Bytes)
    → (enqueue_phone out frame).1 ≡ false
    → let after = (enqueue_phone out frame).0 in
      (after.queue ≡ out.queue)
      × (after.closed ≡ out.closed)
      × (after.reserved_bytes ≡ out.reserved_bytes)
unfolding enqueue_phone release_bytes
enqueue_phone_refused out frame h = ground arith

-- A frame that is taken stands at the end of an open queue and within its budget.
pub enqueue_phone_taken :
    (out : Outbound) (frame : Bytes)
    → (enqueue_phone out frame).1 ≡ true
    → let after = (enqueue_phone out frame).0 in
      (out.closed ≡ false)
      × (after.closed ≡ false)
      × (after.queue ≡ out.queue ++ (frame ∷ []))
      × (after.reserved_bytes ≡ out.reserved_bytes + length frame)
      × (after.reserved_bytes ≤ max_phone_outbound_bytes)
      × (length out.queue < phone_outbound_queue_size)
unfolding enqueue_phone release_bytes
enqueue_phone_taken out frame h = ground arith

enqueues-IsBounded :
    (l : Line) (frame : Bytes) {taken : List Bytes}
    → IsBounded l
    → l.draining ≡ false
    → IsBounded (record l { out = (enqueue_phone l.out frame).0; taken = taken })
enqueues-IsBounded l frame b free = elim (Bool-cases (enqueue_phone l.out frame).1) [
  | inr no_room ↦
      let (q, c, n) = enqueue_phone_refused l.out frame no_room in
      record {
        budget = n ∙ b.budget ∙ ap (λ x. bytes_of x + in_flight l.writer) (sym q);
        small = omega (arith, n, b.small);
        short = omega (arith, ap length q, b.short);
        emptied = λ y f. q ∙ b.emptied (sym c ∙ y) f;
        shut = λ d. c ∙ b.shut d;
      }
  | inl done ↦
      let (open_before, open_after, q, n, small, room) = enqueue_phone_taken l.out frame done in
      record {
        budget =
            omega (arith, n, b.budget, ap bytes_of q, bytes_of-append l.out.queue (frame ∷ []));
        small = small;
        short = omega (arith, ap length q, length-append l.out.queue (frame ∷ []), room);
        emptied = λ y f. absurd (cc);
        shut = λ d. absurd (cc);
      }
]

-- What releasing the frame in flight leaves.
release-IsBounded :
    (l : Line) (frame : Bytes) (idle : Writer)
    → IsBounded l
    → in_flight l.writer ≡ length frame
    → in_flight idle ≡ 0
    → IsBounded (record l { out = release_bytes l.out (length frame); writer = idle })
release-IsBounded l frame idle b f z =
    let (q, c) = release_bytes_rest l.out (length frame) in
    let n = release_bytes_lem l.out (length frame) in
    record {
      budget = omega (arith, n, b.budget, f, z, ap bytes_of q);
      small = omega (arith, n, b.small);
      short = omega (arith, ap length q, b.short);
      emptied = λ y d. q ∙ b.emptied (sym c ∙ y) d;
      shut = λ d. c ∙ b.shut d;
    }

-- One turn of the loop of close.
drains-IsBounded :
    (l : Line) (frame : Bytes) (rest : List Bytes)
    → IsBounded l
    → l.draining ≡ true
    → l.out.queue ≡ frame ∷ rest
    → IsBounded (record l { out = drain_one l.out frame rest })
unfolding drain_one
drains-IsBounded l frame rest b d e =
    let shorter : Outbound = record (l.out) { queue = rest } in
    let (q, c) = release_bytes_rest shorter (length frame) in
    let n = release_bytes_lem shorter (length frame) in
    record {
      budget = omega (arith, n, b.budget, ap bytes_of q, ap bytes_of e);
      small = omega (arith, n, b.small);
      short = omega (arith, ap length q, ap length e, b.short);
      emptied = λ y f. absurd (cc);
      shut = λ y. c ∙ b.shut y;
    }

-- A step of the writer that leaves the queue and the bytes in flight.
moves-IsBounded :
    (l : Line) (next : Writer) {written : List Bytes}
    → IsBounded l
    → in_flight next ≡ in_flight l.writer
    → IsBounded (record l { writer = next; written = written })
moves-IsBounded l next b f = record {
  budget = omega (arith, b.budget, f);
  small = b.small;
  short = b.short;
  emptied = b.emptied;
  shut = b.shut;
}

Step-IsBounded : {l l' : Line} → Step l l' → IsBounded l → IsBounded l'
unfolding begin_close
Step-IsBounded {l} (enqueues frame free) b = enqueues-IsBounded l frame b free
Step-IsBounded {l} (begins_close free n) b = record {
  budget = b.budget;
  small = b.small;
  short = b.short;
  emptied = λ y d. absurd (ground arith);
  shut = λ d. refl;
}
Step-IsBounded {l} (drains frame rest d q) b = drains-IsBounded l frame rest b d q
Step-IsBounded {l} (ends_close d q) b = record {
  budget = b.budget;
  small = b.small;
  short = b.short;
  emptied = λ y f. q;
  shut = λ f. absurd (ground arith);
}
Step-IsBounded {l} (receives frame rest w q) b = record {
  budget = omega (arith, b.budget, ap in_flight w, ap bytes_of q);
  small = b.small;
  short = omega (arith, b.short, ap length q);
  emptied = λ y f. absurd (cc (b.emptied y f));
  shut = b.shut;
}
Step-IsBounded {l} (gives_up frame w free y) b =
    moves-IsBounded l (discarding frame) b (ap in_flight (sym w))
Step-IsBounded {l} (discards frame w free) b =
    release-IsBounded l frame stopped b (ap in_flight w) refl
Step-IsBounded {l} (writes frame w free n) b =
    moves-IsBounded l (writing frame) b (ap in_flight (sym w))
Step-IsBounded {l} (finishes frame w free) b =
    release-IsBounded l frame waiting b (ap in_flight w) refl
Step-IsBounded {l} (fails frame w free) b =
    release-IsBounded l frame dropping b (ap in_flight w) refl
Step-IsBounded {l} (drops w free y) b = moves-IsBounded l stopped b (ap in_flight (sym w))
Step-IsBounded {l} (ends w y) b = moves-IsBounded l stopped b (ap in_flight (sym w))

-- In every state that a phone's queue reaches, whoever sends to it or closes it and whenever, its
-- reservation is exactly the bytes that are queued or held by the writer, at most 8 MiB; at most 64
-- frames are queued; and once a call of close has drained it nothing is.
pub Reach-IsBounded : {l : Line} → Reach l → IsBounded l
Reach-IsBounded start = record {
  budget = refl;
  small = omega arith;
  short = omega arith;
  emptied = λ _ _. refl;
  shut = λ d. absurd (ground arith);
}
Reach-IsBounded (later r s) = Step-IsBounded s (Reach-IsBounded r)
