-- ===== src/Websocket/Hub/Rooms.antt =====
-- The rooms of the hub under `remove` (backend/internal/websocket/hub.go).
use live_polling.Prelude.{
  ◌<◌, ◌≤◌, ◌≡◌, ◌⊎◌, refl, sym, subst, inl, inr, true, false, not, ◌&&◌, none, some, List, [], ◌∷◌,
  arith, Str, str_eq, str_eq_iff, ◌==◌, reject, is_empty, length, Dict, lookup, lookup-insert,
  if_elim, if◌then◌else◌,
}
use live_polling.Websocket.Hub.{
  ClientRef, Client, Hub, send_buffer, broadcast_buffer, has, room_of, erase, remove,
}

-- No client stands twice.
abbrev pub Once : List ClientRef → Type 0
Once [] = Unit
Once (c ∷ cs) = (has c cs ≡ false) × Once cs

pub lookup-erase :
    (p q : Str) (d : Dict (List ClientRef))
    → lookup q (erase p d) ≡ (if str_eq p q then none else lookup q d)
lookup-erase p q [] = ground arith
lookup-erase p q ((j, r) ∷ d) =
    ground (arith, str_eq_iff p q, str_eq_iff j p, str_eq_iff j q, lookup-erase p q d)

pub has-reject :
    (c x : ClientRef) (r : List ClientRef)
    → has x (reject (λ y. y == c) r) ≡ (has x r && not (x == c))
has-reject c x [] = refl
has-reject c x (y ∷ r) = ground (arith, has-reject c x r)

pub Once-reject : (c : ClientRef) (r : List ClientRef) → Once r → Once (reject (λ y. y == c) r)
Once-reject c [] h = tt
Once-reject c (y ∷ r) h = ground (arith, has-reject c y r, Once-reject c r h.1)

reject-absent : (c : ClientRef) (r : List ClientRef) → has c r ≡ false → reject (λ y. y == c) r ≡ r
reject-absent c [] h = refl
reject-absent c (y ∷ r) h = ground (arith, reject-absent c r)

-- Every room of a map that a hub reaches: its clients watch that poll and are open, none stands
-- twice, and it is not empty. The queues and the pending broadcasts are within their bounds.
pub record IsSound (h : Hub) : Type 0 where
  pub members :
      (p : Str) (c : ClientRef)
      → has c (room_of p h.rooms) ≡ true
      → ((h.heap c).poll_id ≡ p) × ((h.heap c).closed ≡ false) × (c < h.next)
  pub once : (p : Str) → Once (room_of p h.rooms)
  pub not_empty : (p : Str) (r : List ClientRef) → lookup p h.rooms ≡ some r → is_empty r ≡ false
  pub queues : (c : ClientRef) → length (h.heap c).queue ≤ send_buffer
  pub buffer : length h.pending ≤ broadcast_buffer

pub lookup-remove :
    (c : ClientRef) (h : Hub) (q : Str) (r : List ClientRef)
    → lookup q (remove c h).rooms ≡ some r
    → (is_empty r ≡ false) ⊎ (lookup q h.rooms ≡ some r)
unfolding remove
lookup-remove c h q r e =
    let p = (h.heap c).poll_id in
    let left = reject (λ x. x == c) (room_of p h.rooms) in
    ground (arith, str_eq_iff p q, lookup-insert p q left h.rooms, lookup-erase p q h.rooms)

pub room_of-remove :
    (c : ClientRef) (h : Hub) (q : Str)
    → room_of q (remove c h).rooms ≡ (
        if str_eq (h.heap c).poll_id q
        then reject (λ x. x == c) (room_of q h.rooms)
        else room_of q h.rooms)
unfolding remove
room_of-remove c h q =
    let p = (h.heap c).poll_id in
    ground (
      arith,
      str_eq_iff p q,
      reject-absent c (room_of p h.rooms),
      lookup-insert p q (reject (λ x. x == c) (room_of p h.rooms)) h.rooms,
      lookup-erase p q h.rooms,
    )

pub heap-remove :
    (c : ClientRef) (h : Hub) (x : ClientRef)
    → (remove c h).heap x ≡ (
        if x == c && has c (room_of (h.heap c).poll_id h.rooms)
        then record (h.heap c) { closed = true }
        else h.heap x)
unfolding remove
heap-remove c h x = ground arith

pub remove_others :
    (c : ClientRef) (h : Hub)
    → ((remove c h).next ≡ h.next)
      × ((remove c h).pending ≡ h.pending)
      × ((remove c h).stopped ≡ h.stopped)
unfolding remove
remove_others c h = ground arith

-- Removing any client keeps the hub sound.
pub remove-IsSound : (c : ClientRef) (h : Hub) → IsSound h → IsSound (remove c h)
remove-IsSound c h s =
    let p = (h.heap c).poll_id in
    record {
      members = λ q x m. ground (
        arith,
        str_eq_iff p q,
        room_of-remove c h q,
        has-reject c x (room_of q h.rooms),
        heap-remove c h x,
        s.members q x,
        s.members q c,
        remove_others c h,
      );
      once = λ q.
          subst Once (sym (room_of-remove c h q))
            (if_elim Once (str_eq p q) _ _ (λ _. Once-reject c _ (s.once q)) (λ _. s.once q));
      not_empty = λ q r e. elim (lookup-remove c h q r e) [
        | inl full ↦ full
        | inr before ↦ s.not_empty q r before
      ];
      queues = λ x.
          subst (λ (k : Client). length k.queue ≤ send_buffer) (sym (heap-remove c h x))
            (if_elim (λ (k : Client). length k.queue ≤ send_buffer) _ _ _ (λ _. s.queues c)
              (λ _. s.queues x));
      buffer =
          subst (λ (b : List _). length b ≤ broadcast_buffer) (sym (remove_others c h).1) s.buffer;
    }
