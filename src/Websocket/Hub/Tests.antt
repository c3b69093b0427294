-- ===== src/Websocket/Hub/Tests.antt =====
-- The hub at examples: two viewers of one poll, one of whom has fallen behind.
use live_polling.Prelude.{
  ◌≡◌, refl, true, false, some, none, Option, List, [], ◌∷◌, Str, codes, arith, str_eq, length, ◌≤◌,
  ◌==◌, if◌then◌else◌, str_eq_iff, ◌<◌, ◌∙◌, if_elim,
}
use live_polling.Websocket.Hub.{
  ClientRef, Client, Broadcast, Hub, Event, new_hub, new_client, has, remove, act, run, room_of,
}
use live_polling.Websocket.Hub.Rooms.{Once, IsSound}
use live_polling.Websocket.Hub.Delivery.{Delivered}
use live_polling.Websocket.Hub.Runs.{deliver-Delivered, remove_idem, run-IsSound, new_hub-IsSound}

abbrev update : Broadcast
update = record { poll_id = codes "p"; payload = codes "{}" }

abbrev two_viewers : List Event
two_viewers =
    Event.join (codes "p") ∷ Event.join (codes "p") ∷ Event.announce (codes "p") (codes "{}") ∷ []

abbrev poll : Str
poll = codes "p"

-- A client whose queue holds 16 payloads.
abbrev slow : Client
slow = record (new_client poll) {
  queue = [] ∷ [] ∷ [] ∷ [] ∷ [] ∷ [] ∷ [] ∷ [] ∷ [] ∷ [] ∷ [] ∷ [] ∷ [] ∷ [] ∷ [] ∷ [] ∷ [];
}

-- Client 1 is slow, and client 0 keeps up.
abbrev busy : Hub
busy = record {
  heap = λ c. if c == 1 then slow else new_client poll;
  next = 2;
  rooms = (poll, 0 ∷ 1 ∷ []) ∷ [];
  pending = update ∷ [];
  stopped = false;
}

in_poll :
    (q : Str) (c : ClientRef)
    → has c (room_of q busy.rooms) ≡ true
    → (poll ≡ q) × ((busy.heap c).poll_id ≡ poll) × ((busy.heap c).closed ≡ false) × (c < 2)
in_poll q c m = ground (arith, str_eq_iff poll q)

busy-IsSound : IsSound busy
busy-IsSound = record {
  members = λ q c m. let (e, p, o, k) = in_poll q c m in (p ∙ e, o, k);
  once = λ q.
      if_elim (λ (r : Option (List ClientRef)). Once (elim r [ none ↦ [] | some x ↦ x ]))
        (str_eq poll q) _ _ (λ _. (refl, (refl, tt))) (λ _. tt);
  not_empty = λ q r e. ground arith;
  queues = λ c.
      if_elim (λ (k : Client). length k.queue ≤ 16) (c == 1) _ _ (λ _. omega arith)
        (λ _. omega arith);
  buffer = omega arith;
}

deliver-Delivered_example :
    (h' : Hub) × (act Event.deliver busy ≡ some h')
    × IsSound h'
    × Delivered (room_of poll busy.rooms) (codes "{}") busy h'
    × ((h'.next ≡ 2) × (h'.pending ≡ []) × (h'.stopped ≡ false))
deliver-Delivered_example = deliver-Delivered busy update [] busy-IsSound refl

remove_idem_example : remove 0 (remove 0 busy) ≡ remove 0 busy
remove_idem_example = remove_idem 0 busy

run-IsSound_example : (h' : Hub) × (run two_viewers new_hub ≡ some h') × IsSound h'
run-IsSound_example = run-IsSound two_viewers new_hub new_hub-IsSound
