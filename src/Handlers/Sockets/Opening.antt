-- ===== src/Handlers/Sockets/Opening.antt =====
-- What a new client finds in its queue (backend/internal/handlers/websocket_handler.go).
use live_polling.Prelude.{
  suc, ◌≡◌, refl, ap, ◌∙◌, true, false, Option, none, some, List, [], ◌∷◌, Str, if_elim,
  str_eq_refl, ==_refl, if◌then◌else◌, Dict, insert, lookup-insert,
}
use live_polling.Apperr.{ok, done}
use live_polling.Models.{Poll}
use live_polling.Events.{Codec, encode}
use live_polling.Services.World.{Stores, World}
use live_polling.Services.Results.{Results, for_poll}
use live_polling.Services.Realtime.{event_of}
use live_polling.Websocket.Hub.{
  ClientRef, Hub, has, room_of, new_client, act, send, store, register,
}
use live_polling.Handlers.Sockets.{live, joined, snapshot_event, snapshot, subscribe}

-- The client is in its poll's room with this one message waiting.
abbrev pub IsWelcomed : Str → Str → ClientRef → Hub → Type 0
IsWelcomed poll_id payload c h =
    (has c (room_of poll_id h.rooms) ≡ true)
    × (h.heap c ≡ record { poll_id = poll_id; queue = payload ∷ []; closed = false })

room_of-insert :
    (p : Str) (room : List ClientRef) (rooms : Dict (List ClientRef))
    → room_of p (insert p room rooms) ≡ room
room_of-insert p room rooms =
    ap (λ (o : Option (List ClientRef)). elim o [ none ↦ [] | some r ↦ r ])
      (lookup-insert p p room rooms)
    ∙ rw (str_eq_refl p) refl

joined-IsWelcomed :
    (poll_id payload : Str) (h : Hub)
    → h.stopped ≡ false
    → (h' : Hub) × (joined poll_id payload h ≡ some (live h.next, h'))
      × IsWelcomed poll_id payload h.next h'
unfolding joined act send register
joined-IsWelcomed poll_id payload h runs = (
  h',
  rw (runs, ==_refl h.next) refl,
  (
    rw (==_refl h.next) (ap (has h.next) (room_of-insert poll_id _ h.rooms) ∙ entered),
    rw (==_refl h.next) refl,
  ),
)
  where
    c : ClientRef
    c = h.next

    h₁ : Hub
    h₁ = register c (store c (new_client poll_id) (record h { next = suc h.next }))

    h' : Hub
    h' = store c (record (new_client poll_id) { queue = payload ∷ [] }) h₁

    room : List ClientRef
    room = room_of poll_id h.rooms

    entered : has c (if has c room then room else c ∷ room) ≡ true
    entered = if_elim (λ r. has c r ≡ true) (has c room) _ _ (λ e. e) (λ _. rw (==_refl c) refl)

-- The snapshot's event goes out as the event of a publication does.
encode-snapshot_event :
    (c : Codec) (r : Results) → encode c (snapshot_event r) ≡ encode c (event_of r)
unfolding encode snapshot_event event_of
encode-snapshot_event c r = refl

module _ (s : Stores) where
  -- A request for a socket that is upgraded while the hub runs, for a poll that is found and whose
  -- standing is read and encoded: the new client is in the poll's room, and what waits for it is the
  -- very message that a publication of this standing would bring.
  pub subscribe-IsWelcomed :
      (poll_id : Str) (h : Hub) (w : World s) (p : Poll) (r : Results) (payload : Str)
      → h.stopped ≡ false
      → (s.polls.find_by_id poll_id w.polls).0 ≡ ok p
      → (for_poll s p (record w { polls = (s.polls.find_by_id poll_id w.polls).1 })).0 ≡ ok r
      → encode s.codec (event_of r) ≡ done payload
      → (h' : Hub) × ((subscribe s poll_id true h w).0 ≡ some (live h.next, h'))
        × IsWelcomed (s.ids.hex p.id) payload h.next h'
  unfolding subscribe snapshot
  subscribe-IsWelcomed poll_id h w p r payload runs looked read written =
      let (h', is, welcomed) = joined-IsWelcomed (s.ids.hex p.id) payload h runs in
      (h', rw (looked, read, encode-snapshot_event s.codec r ∙ written) is, welcomed)
