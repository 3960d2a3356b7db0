-- ===== src/Relay/Delivery.antt =====
-- The order in which the frames of a phone reach its socket (relaycore/connections.go).
use mathlib.Core.List.{append_assoc}
use nekonest.Prelude.{
  Bool, ◌≡◌, refl, sym, ap, ◌∙◌, false, true, List, [], ◌∷◌, ◌++◌, Bytes, length, inl, inr,
  Bool-cases, arith,
}
use nekonest.Relay.Outbound.{
  Outbound, release_bytes, begin_close, drain_one, enqueue_phone, Writer, waiting, stopped,
  dropping, holding, writing, discarding, Line, Step, enqueues, begins_close, drains, ends_close,
  receives, gives_up, discards, writes, finishes, fails, drops, ends, Reach, start, later, note,
}
use nekonest.Relay.Bounded.{
  Reach-IsBounded, IsBounded, enqueue_phone_refused, enqueue_phone_taken, release_bytes_rest,
}

-- The frame that was received and may still be given to the socket.
abbrev pub held : Writer → List Bytes
held (holding frame) = frame ∷ []
held waiting = []
held stopped = []
held dropping = []
held (writing frame) = []
held (discarding frame) = []

-- The frames that were given to the socket are a beginning of those that were taken; and while the
-- queue is open the others are on their way, in their order.
abbrev pub IsInOrder : Line → Type 0
IsInOrder l =
    (others : List Bytes) × (l.taken ≡ l.written ++ others)
    × (l.out.closed ≡ false → others ≡ held l.writer ++ l.out.queue)

enqueues-IsInOrder :
    (l : Line) (frame : Bytes)
    → IsInOrder l
    → IsInOrder (record l {
      out = (enqueue_phone l.out frame).0;
      taken = note (enqueue_phone l.out frame).1 l.taken frame;
    })
enqueues-IsInOrder l frame (others, order, way) = elim (Bool-cases (enqueue_phone l.out frame).1) [
  | inr no_room ↦
      let (q, c, n) = enqueue_phone_refused l.out frame no_room in
      rw (no_room, q, c) (others, order, way)
  | inl done ↦
      let (open_before, open_after, q, n, small, room) = enqueue_phone_taken l.out frame done in
      rw (done, q)
        (
          others ++ (frame ∷ []),
          rw order (simp append_assoc),
          λ _. rw (way open_before) (simp append_assoc),
        )
]

-- A step that gives nothing to the socket and, while the queue is open, leaves what is on its way.
stays-IsInOrder :
    (l : Line) (out : Outbound) (draining : Bool) (writer : Writer)
    → (out.closed ≡ false
        → (l.out.closed ≡ false) × (held writer ++ out.queue ≡ held l.writer ++ l.out.queue))
    → IsInOrder l
    → IsInOrder (record l { out = out; draining = draining; writer = writer })
stays-IsInOrder l out draining writer same (others, order, way) =
    (others, order, λ n. let (before, q) = same n in way before ∙ sym q)

release-IsInOrder :
    (l : Line) (frame : Bytes) (writer : Writer)
    → held l.writer ≡ []
    → held writer ≡ []
    → IsInOrder l
    → IsInOrder (record l { out = release_bytes l.out (length frame); writer = writer })
release-IsInOrder l frame writer w v =
    let (q, c) = release_bytes_rest l.out (length frame) in
    stays-IsInOrder l (release_bytes l.out (length frame)) l.draining writer
      (λ n. (sym c ∙ n, rw (w, v, q) refl))

Step-IsInOrder : {l l' : Line} → Step l l' → IsBounded l → IsInOrder l → IsInOrder l'
unfolding begin_close drain_one
Step-IsInOrder {l} (enqueues frame free) b o = enqueues-IsInOrder l frame o
Step-IsInOrder {l} (begins_close free n) b o =
    stays-IsInOrder l (begin_close l.out) true l.writer (λ y. absurd (ground arith)) o
Step-IsInOrder {l} (drains frame rest d q) b o =
    let (r, c) = release_bytes_rest (record (l.out) { queue = rest }) (length frame) in
    stays-IsInOrder l (drain_one l.out frame rest) l.draining l.writer (λ n. absurd (cc (b.shut d)))
      o
Step-IsInOrder {l} (ends_close d q) b o = stays-IsInOrder l l.out false l.writer (λ n. (n, refl)) o
Step-IsInOrder {l} (receives frame rest w q) b o =
    stays-IsInOrder l (record (l.out) { queue = rest }) l.draining (holding frame)
      (λ n. (n, rw (w, q) refl)) o
Step-IsInOrder {l} (gives_up frame w free y) b o =
    stays-IsInOrder l l.out l.draining (discarding frame) (λ n. absurd (cc)) o
Step-IsInOrder {l} (discards frame w free) b o =
    release-IsInOrder l frame stopped (ap held w) refl o
Step-IsInOrder {l} (writes frame w free n) b (others, order, way) =
    (l.out.queue, order ∙ rw (way n, w) (simp append_assoc), λ _. refl)
Step-IsInOrder {l} (finishes frame w free) b o =
    release-IsInOrder l frame waiting (ap held w) refl o
Step-IsInOrder {l} (fails frame w free) b o = release-IsInOrder l frame dropping (ap held w) refl o
Step-IsInOrder {l} (drops w free y) b o =
    stays-IsInOrder l l.out l.draining stopped (λ n. absurd (cc)) o
Step-IsInOrder {l} (ends w y) b o = stays-IsInOrder l l.out l.draining stopped (λ n. absurd (cc)) o

-- In every state that a phone's queue reaches, also while a call of close drains it and the writer takes
-- frames from it, the frames given to the socket are a beginning of the frames taken, in their order; and
-- as long as the queue is open every other frame that was taken is with the writer or in the queue, in
-- its order.
pub Reach-IsInOrder : {l : Line} → Reach l → IsInOrder l
Reach-IsInOrder start = ([], refl, λ _. refl)
Reach-IsInOrder (later r s) = Step-IsInOrder s (Reach-IsBounded r) (Reach-IsInOrder r)
