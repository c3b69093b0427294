-- ===== src/Websocket/Hub/Runs.antt =====
-- What holds of the hub after any sequence of events (backend/internal/websocket/hub.go).
use live_polling.Prelude.{
  suc, ◌<◌, ◌≤◌, ◌≡◌, ◌⊎◌, refl, sym, ap, subst, ◌∙◌, inl, inr, true, false, some, List, [], ◌∷◌,
  arith, Str, str_eq, str_eq_iff, str_eq_refl, ◌==◌, length, length-append, ltb, lookup-insert,
  if_elim, if◌then◌else◌,
}
use live_polling.Websocket.Hub.{
  ClientRef, Client, Broadcast, Hub, Event, send_buffer, broadcast_buffer, has, room_of, store,
  remove, register, enqueue, close_all, closed_in, deliver_from, act, step, run, new_hub,
  new_client, tail,
}
use live_polling.Websocket.Hub.Rooms.{
  Once, IsSound, remove-IsSound, heap-remove, room_of-remove, has-reject,
}
use live_polling.Websocket.Hub.Delivery.{Delivered, fan_out-Delivered}

room_of-register :
    (c : ClientRef) (h : Hub) (q : Str)
    → room_of q (register c h).rooms ≡ (
        if str_eq (h.heap c).poll_id q
        then if has c (room_of q h.rooms) then room_of q h.rooms else c ∷ room_of q h.rooms
        else room_of q h.rooms)
unfolding register
room_of-register c h q =
    let p = (h.heap c).poll_id in
    let r = room_of p h.rooms in
    ground (arith, str_eq_iff p q, lookup-insert p q (if has c r then r else c ∷ r) h.rooms)

-- Registering an open client keeps the hub sound.
register-IsSound :
    (c : ClientRef) (h : Hub)
    → (h.heap c).closed ≡ false
    → c < h.next
    → IsSound h
    → IsSound (register c h)
unfolding register
register-IsSound c h is_open known s =
    let p = (h.heap c).poll_id in
    let r = room_of p h.rooms in
    record {
      members = λ q x m. ground (arith, str_eq_iff p q, room_of-register c h q, s.members q x);
      once = λ q. subst Once (sym (room_of-register c h q)) (
          if_elim Once (str_eq p q) _ _
            (λ _.
              if_elim Once (has c (room_of q h.rooms)) _ _ (λ _. s.once q) (λ new. (new, s.once q)))
            (λ _. s.once q));
      not_empty = λ q x e.
          ground (arith, lookup-insert p q (if has c r then r else c ∷ r) h.rooms, s.not_empty q x);
      queues = s.queues;
      buffer = s.buffer;
    }

-- A new client stands in no room yet.
store-IsSound :
    (k : Client) (h : Hub)
    → length k.queue ≤ send_buffer
    → IsSound h
    → IsSound (store h.next k (record h { next = suc h.next }))
store-IsSound k h small s = record {
  members = λ q x m. ground (arith, s.members q x m);
  once = s.once;
  not_empty = s.not_empty;
  queues = λ x. ground (arith, s.queues x);
  buffer = s.buffer;
}

pump-IsSound :
    (c : ClientRef) (h : Hub)
    → IsSound h
    → IsSound (store c (record (h.heap c) { queue = tail (h.heap c).queue }) h)
pump-IsSound c h s = record {
  members = λ q x m. ground (arith, s.members q x m);
  once = s.once;
  not_empty = s.not_empty;
  queues = λ x.
      if_elim (λ (k : Client). length k.queue ≤ send_buffer) (x == c) _ _
        (λ _. shorter (h.heap c).queue (s.queues c)) (λ _. s.queues x);
  buffer = s.buffer;
}
  where
    shorter : (xs : List Str) → length xs ≤ send_buffer → length (tail xs) ≤ send_buffer
    shorter [] le = le
    shorter (x ∷ xs) le = omega arith

enqueue-IsSound : (m : Broadcast) (h : Hub) → IsSound h → IsSound (enqueue m h)
unfolding enqueue
enqueue-IsSound m h s =
    if_elim IsSound (ltb (length h.pending) broadcast_buffer) _ _
      (λ fits. record {
        members = s.members;
        once = s.once;
        not_empty = s.not_empty;
        queues = s.queues;
        buffer = ground (arith, length-append h.pending (m ∷ []));
      })
      (λ _. s)

close_all-IsSound : (h : Hub) → IsSound h → IsSound (close_all h)
unfolding close_all
close_all-IsSound h s = record {
  members = λ q x m. cc;
  once = λ q. tt;
  not_empty = λ q r e. cc;
  queues = λ x.
      if_elim (λ (k : Client). length k.queue ≤ send_buffer) (closed_in h.rooms x) _ _
        (λ _. s.queues x) (λ _. s.queues x);
  buffer = s.buffer;
}

-- In a sound hub with a broadcast pending, the hub takes it without a panic and stays sound: every
-- client that watches its poll gets the payload at the end of its queue, or is closed and leaves
-- the room where its queue holds 16 already, and no other client changes.
pub deliver-Delivered :
    (h : Hub) (m : Broadcast) (ms : List Broadcast)
    → IsSound h
    → h.pending ≡ m ∷ ms
    → (h' : Hub) × (act Event.deliver h ≡ some h')
      × IsSound h'
      × Delivered (room_of m.poll_id h.rooms) m.payload h h'
      × ((h'.next ≡ h.next) × (h'.pending ≡ ms) × (h'.stopped ≡ h.stopped))
unfolding act deliver_from
deliver-Delivered h m ms s e =
    let g : Hub = record h { pending = ms } in
    let fewer : length ms ≤ broadcast_buffer =
      ground (arith, s.buffer, ap (λ (b : List Broadcast). length b) e) in
    let sound : IsSound g = record {
      members = s.members;
      once = s.once;
      not_empty = s.not_empty;
      queues = s.queues;
      buffer = fewer;
    } in
    let (h', out, s', d, others) =
      fan_out-Delivered (room_of m.poll_id h.rooms) m.payload g (s.once m.poll_id) sound (λ c here.
        subst (λ q. has c (room_of q h.rooms) ≡ true) (sym (s.members m.poll_id c here).0) here) in
    (h', ap (λ b. deliver_from b h) e ∙ out, s', d, others)

act-IsSound : (e : Event) (h : Hub) → IsSound h → (h' : Hub) × (act e h ≡ some h') × IsSound h'
unfolding act
act-IsSound (Event.join p) h s = (
  _,
  refl,
  register-IsSound h.next (store h.next (new_client p) (record h { next = suc h.next }))
      (ground arith) (omega arith) (store-IsSound (new_client p) h (omega arith) s),
)
act-IsSound (Event.leave c) h s = (_, refl, remove-IsSound c h s)
act-IsSound (Event.announce p payload) h s =
    (_, refl, enqueue-IsSound (record { poll_id = p; payload = payload }) h s)
act-IsSound Event.deliver h s = elim (pending-cases h.pending) [
  | inl e ↦ (h, ap (λ b. deliver_from b h) e, s)
  | inr (m, ms, e) ↦ let (h', out, s', _, _) = deliver-Delivered h m ms s e in (h', out, s')
]
  where
    pending-cases :
        (b : List Broadcast) → (b ≡ []) ⊎ ((m : Broadcast) × (ms : List Broadcast) × (b ≡ m ∷ ms))
    pending-cases [] = inl refl
    pending-cases (m ∷ ms) = inr (m, ms, refl)
act-IsSound (Event.pump c) h s = (_, refl, pump-IsSound c h s)
act-IsSound Event.stop h s =
    let t = close_all-IsSound h s in
    (
      _,
      refl,
      record {
        members = t.members;
        once = t.once;
        not_empty = t.not_empty;
        queues = t.queues;
        buffer = t.buffer;
      },
    )

remove_absent :
    (c : ClientRef) (h : Hub) → has c (room_of (h.heap c).poll_id h.rooms) ≡ false → remove c h ≡ h
unfolding remove
remove_absent c h out = ground (arith, out)

remove_out :
    (c : ClientRef) (h : Hub)
    → has c (room_of ((remove c h).heap c).poll_id (remove c h).rooms) ≡ false
remove_out c h =
    let p = (h.heap c).poll_id in
    let same : ((remove c h).heap c).poll_id ≡ p = ground (arith, heap-remove c h c) in
    subst (λ q. has c (room_of q (remove c h).rooms) ≡ false) (sym same)
      (ground (arith, room_of-remove c h p, str_eq_refl p, has-reject c c (room_of p h.rooms)))

-- A client that is removed twice, which happens where both of its pumps ask for it, is removed once:
-- the second time changes nothing.
pub remove_idem : (c : ClientRef) (h : Hub) → remove c (remove c h) ≡ remove c h
remove_idem c h = remove_absent c (remove c h) (remove_out c h)

gated :
    (e : Event) (h : Hub)
    → IsSound h
    → (h' : Hub) × ((if h.stopped then some h else act e h) ≡ some h') × IsSound h'
gated e h s =
    if_elim (λ x. (h' : Hub) × (x ≡ some h') × IsSound h') h.stopped _ _ (λ _. (h, refl, s))
      (λ _. act-IsSound e h s)

step-IsSound : (e : Event) (h : Hub) → IsSound h → (h' : Hub) × (step e h ≡ some h') × IsSound h'
unfolding step
step-IsSound (Event.pump c) h s = act-IsSound (Event.pump c) h s
step-IsSound (Event.join p) h s = gated (Event.join p) h s
step-IsSound (Event.leave c) h s = gated (Event.leave c) h s
step-IsSound (Event.announce p payload) h s = gated (Event.announce p payload) h s
step-IsSound Event.deliver h s = gated Event.deliver h s
step-IsSound Event.stop h s = gated Event.stop h s

-- Whatever events reach a sound hub and in whatever order, none makes it panic, and it is sound
-- afterwards: a client in a room watches that room's poll and its channel is open, it stands there
-- once, no room is empty, and the queues and the broadcast buffer keep to their sizes.
pub run-IsSound :
    (es : List Event) (h : Hub) → IsSound h → (h' : Hub) × (run es h ≡ some h') × IsSound h'
unfolding run
run-IsSound [] h s = (h, refl, s)
run-IsSound (e ∷ es) h s =
    let (h₁, one, s₁) = step-IsSound e h s in
    let (h₂, rest, s₂) = run-IsSound es h₁ s₁ in (h₂, rw (run, one) rest, s₂)

-- The hub that `NewHub` makes is sound.
pub new_hub-IsSound : IsSound new_hub
new_hub-IsSound = record {
  members = λ q x m. cc;
  once = λ q. tt;
  not_empty = λ q r e. cc;
  queues = λ x. omega arith;
  buffer = omega arith;
}
