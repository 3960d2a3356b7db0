-- ===== src/Relay/Outbound.antt =====
-- phoneOutbound of relaycore/connections.go, the bounded queue of frames of one phone's socket, and
-- phoneWriter, the goroutine that empties it. The writer takes a frame, looks whether the queue was closed,
-- writes and releases; close sets the flag and drains frame by frame; and anything that does not wait for
-- stateMu may happen between these.
use nekonest.Prelude.{
  ℕ, ◌+◌, ◌-◌, ◌≡◌, Bool, true, false, List, [], ◌∷◌, ◌++◌, Bytes, length, leb, ltb, if◌then◌else◌,
}

-- phoneOutbound; the channel `done` is closed with the flag.
pub record Outbound : Type 0 where
  pub queue : List Bytes
  pub closed : Bool
  pub reserved_bytes : ℕ

abbrev pub phone_outbound_queue_size : ℕ
phone_outbound_queue_size = 64

abbrev pub max_phone_outbound_bytes : ℕ
max_phone_outbound_bytes = 8388608

abbrev pub new_phone_outbound : Outbound
new_phone_outbound = record { queue = []; closed = false; reserved_bytes = 0 }

unfoldable pub release_bytes : Outbound → ℕ → Outbound
release_bytes out frame =
    if leb out.reserved_bytes frame
    then record out { reserved_bytes = 0 }
    else record out { reserved_bytes = out.reserved_bytes - frame }

-- close sets the flag, if it is not set yet,
unfoldable pub begin_close : Outbound → Outbound
begin_close out = record out { closed = true }

-- and its loop takes one frame after the other from the queue and releases it.
unfoldable pub drain_one : Outbound → Bytes → List Bytes → Outbound
drain_one out frame rest = release_bytes (record out { queue = rest }) (length frame)

-- enqueuePhone. The test of the budget is a difference of int64 in the code, here a sum.
unfoldable pub enqueue_phone : Outbound → Bytes → Outbound × Bool
enqueue_phone out frame =
    if ltb max_phone_outbound_bytes (length frame)
    then (out, false)
    else if out.closed
    then (out, false)
    else if ltb max_phone_outbound_bytes (out.reserved_bytes + length frame)
    then (out, false)
    else let reserved = record out { reserved_bytes = out.reserved_bytes + length frame } in
      if ltb (length out.queue) phone_outbound_queue_size
      then (record reserved { queue = out.queue ++ (frame ∷ []) }, true)
      else (release_bytes reserved (length frame), false)

-- Where the writer stands: at its `select`, at its end, or in dropPhone after a failed write; with a frame
-- whose flag is still to be tested, that is being written, or that it gives up.
pub data Writer : Type 0 where
  waiting stopped dropping : Writer
  holding writing discarding : Bytes → Writer

-- The queue, its writer, whether a call of close is draining the queue and so holds stateMu, and what
-- passed through: the frames that enqueuePhone took, and those that were given to the socket, in order.
pub record Line : Type 0 where
  pub out : Outbound
  pub draining : Bool
  pub writer : Writer
  pub taken : List Bytes
  pub written : List Bytes

abbrev pub new_line : Line
new_line = record {
  out = new_phone_outbound;
  draining = false;
  writer = waiting;
  taken = [];
  written = [];
}

abbrev pub note : Bool → List Bytes → Bytes → List Bytes
note true taken frame = taken ++ (frame ∷ [])
note false taken frame = taken

-- One step of a producer, of whoever closes the queue, or of the writer. What takes stateMu waits for
-- the end of a drain; the two receives of the writer's `select` do not take it.
pub data Step (l : Line) : Line → Type 0 where
  enqueues :
      (frame : Bytes)
      → l.draining ≡ false
      → Step l (record l {
        out = (enqueue_phone l.out frame).0;
        taken = note (enqueue_phone l.out frame).1 l.taken frame;
      })
  begins_close :
      l.draining ≡ false
      → l.out.closed ≡ false
      → Step l (record l { out = begin_close l.out; draining = true })
  drains :
      (frame : Bytes) (rest : List Bytes)
      → l.draining ≡ true
      → l.out.queue ≡ frame ∷ rest
      → Step l (record l { out = drain_one l.out frame rest })
  ends_close : l.draining ≡ true → l.out.queue ≡ [] → Step l (record l { draining = false })
  receives :
      (frame : Bytes) (rest : List Bytes)
      → l.writer ≡ waiting
      → l.out.queue ≡ frame ∷ rest
      → Step l (record l { out = record (l.out) { queue = rest }; writer = holding frame })
  gives_up :
      (frame : Bytes)
      → l.writer ≡ holding frame
      → l.draining ≡ false
      → l.out.closed ≡ true
      → Step l (record l { writer = discarding frame })
  discards :
      (frame : Bytes)
      → l.writer ≡ discarding frame
      → l.draining ≡ false
      → Step l (record l { out = release_bytes l.out (length frame); writer = stopped })
  writes :
      (frame : Bytes)
      → l.writer ≡ holding frame
      → l.draining ≡ false
      → l.out.closed ≡ false
      → Step l (record l { writer = writing frame; written = l.written ++ (frame ∷ []) })
  finishes :
      (frame : Bytes)
      → l.writer ≡ writing frame
      → l.draining ≡ false
      → Step l (record l { out = release_bytes l.out (length frame); writer = waiting })
  -- After a failed write the writer releases the frame and is in dropPhone,
  fails :
      (frame : Bytes)
      → l.writer ≡ writing frame
      → l.draining ≡ false
      → Step l (record l { out = release_bytes l.out (length frame); writer = dropping })
  -- whose call of close returns when the queue is closed and drained.
  drops :
      l.writer ≡ dropping
      → l.draining ≡ false
      → l.out.closed ≡ true
      → Step l (record l { writer = stopped })
  ends : l.writer ≡ waiting → l.out.closed ≡ true → Step l (record l { writer = stopped })

pub data Reach : Line → Type 0 where
  start : Reach new_line
  later : {l l' : Line} → Reach l → Step l l' → Reach l'
