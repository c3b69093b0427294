-- ===== src/Websocket/Hub.antt =====
-- The hub and the send queues of its clients: backend/internal/websocket/hub.go and client.go. The
-- hub's goroutine takes one event at a time; a client is a reference into the heap, and a call that
-- would panic returns `none`.
pub mod Rooms
pub mod Delivery
pub mod Runs
mod Tests
use live_polling.Prelude.{
  ℕ, suc, Bool, true, false, Option, none, some, List, [], ◌∷◌, ◌++◌, Str, str_eq, ◌==◌, ltb,
  length, any, reject, is_empty, Dict, lookup, insert, if◌then◌else◌,
}

abbrev pub ClientRef : Type 0
ClientRef = ℕ

-- `Client`: `queue` is what is in its `send` channel, and `closed` whether that channel is.
pub record Client : Type 0 where
  pub poll_id : Str
  pub queue : List Str
  pub closed : Bool

-- `Broadcast`
pub record Broadcast : Type 0 where
  pub poll_id : Str
  pub payload : Str

-- `Hub`, with the clients that its rooms point to: `next` is the first reference that is not in
-- use, `pending` the buffer of the `broadcast` channel, and `stopped` whether `done` is closed.
pub record Hub : Type 0 where
  pub heap : ClientRef → Client
  pub next : ClientRef
  pub rooms : Dict (List ClientRef)
  pub pending : List Broadcast
  pub stopped : Bool

-- `sendBuffer`, and the buffer of the `broadcast` channel.
abbrev pub send_buffer : ℕ
send_buffer = 16

abbrev pub broadcast_buffer : ℕ
broadcast_buffer = 256

abbrev pub has : ClientRef → List ClientRef → Bool
has c = any (λ x. x == c)

-- `h.rooms[p]`, which is empty where the key is missing.
abbrev pub room_of : Str → Dict (List ClientRef) → List ClientRef
room_of p rooms = elim (lookup p rooms) [ none ↦ [] | some room ↦ room ]

-- `delete(h.rooms, p)`
abbrev pub erase : Str → Dict (List ClientRef) → Dict (List ClientRef)
erase p = reject (λ e. str_eq e.0 p)

-- `*c = k`
abbrev pub store : ClientRef → Client → Hub → Hub
store c k h = record h { heap = λ x. if x == c then k else h.heap x }

abbrev pub is_full : Client → Bool
is_full k = if ltb (length k.queue) send_buffer then false else true

-- `Client.Send`: a send on a closed channel panics.
unfoldable pub send : ClientRef → Str → Hub → Option (Bool × Hub)
send c payload h =
    let k = h.heap c in
    if k.closed
    then none
    else if is_full k
    then some (false, h)
    else some (true, store c (record k { queue = k.queue ++ payload ∷ [] }) h)

-- `Client.close`, which the `sync.Once` makes harmless the second time.
abbrev pub close : ClientRef → Hub → Hub
close c h = store c (record (h.heap c) { closed = true }) h

-- The case of `Run` for a client to register.
unfoldable pub register : ClientRef → Hub → Hub
register c h =
    let p = (h.heap c).poll_id in
    let room = room_of p h.rooms in
    record h { rooms = insert p (if has c room then room else c ∷ room) h.rooms }

-- `Hub.remove`
unfoldable pub remove : ClientRef → Hub → Hub
remove c h =
    let p = (h.heap c).poll_id in
    let room = room_of p h.rooms in
    let left = reject (λ x. x == c) room in
    if has c room
    then record (close c h) {
      rooms = if is_empty left then erase p h.rooms else insert p left h.rooms;
    }
    else h

-- The case of `Run` for a broadcast: the loop over the clients of the room.
unfoldable pub fan_out : List ClientRef → Str → Hub → Option Hub
unfolding send remove
fan_out [] payload h = some h
fan_out (c ∷ cs) payload h = elim (send c payload h) [
  | none ↦ none
  | some (sent, h') ↦ fan_out cs payload (if sent then h' else remove c h')
]

-- `closeAll`, which also deletes every room.
abbrev pub closed_in : List (Str × List ClientRef) → ClientRef → Bool
closed_in rooms c = any (λ e. has c e.1) rooms

unfoldable pub close_all : Hub → Hub
close_all h = record h {
  heap = λ c. let k = h.heap c in if closed_in h.rooms c then record k { closed = true } else k;
  rooms = [];
}

-- What reaches the hub: `join` is `NewClient` and `Register`, `leave` is `Unregister`, `announce` is
-- `Broadcast`, `deliver` lets `Run` take the oldest broadcast, `pump` lets a client's writer take its
-- oldest payload, and `stop` cancels the context.
pub data Event : Type 0 where
  join : Str → Event
  leave : ClientRef → Event
  announce : Str → Str → Event
  deliver : Event
  pump : ClientRef → Event
  stop : Event

-- `NewClient`
abbrev pub new_client : Str → Client
new_client poll_id = record { poll_id = poll_id; queue = []; closed = false }

abbrev pub tail : List Str → List Str
tail [] = []
tail (x ∷ xs) = xs

-- `Hub.Broadcast`: where the buffer is full the message is dropped.
unfoldable pub enqueue : Broadcast → Hub → Hub
enqueue m h =
    if ltb (length h.pending) broadcast_buffer
    then record h { pending = h.pending ++ m ∷ [] }
    else h

deliver_from : List Broadcast → Hub → Option Hub
unfolding fan_out
deliver_from [] h = some h
deliver_from (m ∷ ms) h = fan_out (room_of m.poll_id h.rooms) m.payload (record h { pending = ms })

-- One event of a hub that runs.
unfoldable pub act : Event → Hub → Option Hub
unfolding register remove enqueue deliver_from close_all
act (Event.join p) h =
    some (register h.next (store h.next (new_client p) (record h { next = suc h.next })))
act (Event.leave c) h = some (remove c h)
act (Event.announce p payload) h = some (enqueue (record { poll_id = p; payload = payload }) h)
act Event.deliver h = deliver_from h.pending h
act (Event.pump c) h = some (store c (record (h.heap c) { queue = tail (h.heap c).queue }) h)
act Event.stop h = some (record (close_all h) { stopped = true })

-- Once the hub has stopped, only the writers go on: a call that still finds room in the broadcast
-- channel puts its message where nobody reads it.
unfoldable pub step : Event → Hub → Option Hub
unfolding act
step (Event.pump c) h = act (Event.pump c) h
step e h = if h.stopped then some h else act e h

unfoldable pub run : List Event → Hub → Option Hub
unfolding step
run [] h = some h
run (e ∷ es) h = elim (step e h) [ none ↦ none | some h' ↦ run es h' ]

-- `NewHub`
abbrev pub new_hub : Hub
new_hub = record { heap = λ c. new_client []; next = 0; rooms = []; pending = []; stopped = false }

-- `Viewers`
unfoldable pub viewers : Str → Hub → ℕ
viewers p h = if h.stopped then 0 else length (room_of p h.rooms)
