-- ===== src/Websocket/Manager/Relay.antt =====
-- What travels from a publication to the hubs (backend/internal/services/realtime_service.go,
-- backend/internal/websocket/manager.go).
use live_polling.Prelude.{
  ◌≡◌, refl, ap, inr, false, some, List, [], ◌∷◌, Str, All, map, is_empty, str_eq_refl,
}
use live_polling.Apperr.{done}
use live_polling.Events.{PollResultsUpdated, Message, Codec, encode}
use live_polling.Events.Laws.{decode-encode}
use live_polling.Services.Results.{Results}
use live_polling.Services.Realtime.{event_of, forward, subscribe}
use live_polling.Services.Realtime.Laws.{is_event_of, forward-foreign}
use live_polling.Websocket.Hub.{Event}
use live_polling.Websocket.Manager.{pump}

-- What may stand on the channels: a standing as `PublishResults` encodes it, or anything else.
pub data Traffic : Type 0 where
  standing : Results → Str → Traffic
  noise : Message → Traffic

abbrev pub message_of : Traffic → Message
message_of (standing r payload) = record { poll_id = r.poll_id; payload = payload }
message_of (noise m) = m

-- A standing names a poll and is encoded; the bytes of anything else are no JSON of an event, or of
-- one with another type, with no poll, or with another poll than the channel's.
abbrev pub IsTraffic : Codec → Traffic → Type 0
IsTraffic c (standing r payload) =
    (is_empty r.poll_id ≡ false) × (encode c (event_of r) ≡ done payload)
IsTraffic c (noise m) =
    (e : PollResultsUpdated) → c.unmarshal m.payload ≡ done e → is_event_of m.poll_id e ≡ false

abbrev pub standings : List Traffic → List Event
standings [] = []
standings (standing r payload ∷ ts) = Event.announce r.poll_id payload ∷ standings ts
standings (noise m ∷ ts) = standings ts

forward-standing :
    (c : Codec) (r : Results) (payload : Str)
    → is_empty r.poll_id ≡ false
    → encode c (event_of r) ≡ done payload
    → forward c (record { poll_id = r.poll_id; payload = payload }) ≡ some (event_of r)
unfolding forward event_of
forward-standing c r payload named h =
    rw (decode-encode c (event_of r) payload named (inr refl) h, str_eq_refl r.poll_id) refl

-- Of what arrives on the channels, standings as they were published and messages that are no event
-- of their channel's poll, the hub is given just the standings, in their order, each for its poll and
-- with the very bytes that were published.
pub pump-subscribe :
    (c : Codec) (ts : List Traffic)
    → All (IsTraffic c) ts
    → pump c (subscribe c (map message_of ts)) ≡ standings ts
unfolding pump subscribe event_of
pump-subscribe c [] all = refl
pump-subscribe c (standing r payload ∷ ts) ((named, h), all) =
    rw (forward-standing c r payload named h, h)
      (ap (λ es. Event.announce r.poll_id payload ∷ es) (pump-subscribe c ts all))
pump-subscribe c (noise m ∷ ts) (dropped, all) =
    rw (forward-foreign c m dropped) (pump-subscribe c ts all)
