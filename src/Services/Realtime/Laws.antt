-- ===== src/Services/Realtime/Laws.antt =====
-- What an announcement does, and what comes out of a subscription
-- (backend/internal/services/realtime_service.go).
use live_polling.Prelude.{
  ◌≡◌, refl, ap, Bool, true, false, not, ◌&&◌, none, Str, str_eq, str_eq_iff, is_empty, if_elim,
  arith,
}
use live_polling.Apperr.{Attempt, done, failed}
use live_polling.Events.{PollResultsUpdated, Message, Codec, type_poll_results_updated, decode}
use live_polling.Events.Laws.{decode_known}
use live_polling.Services.World.{Stores, World}
use live_polling.Services.Results.{Results}
use live_polling.Services.Realtime.{publish_payload, publish_results, accepted, forward}

module _ (s : Stores) where
  publish_payload_keeps :
      (k : Str) (a : Attempt Str) (w : World s)
      → publish_payload s k a w ≡ record w { bus = (publish_payload s k a w).bus }
  unfolding publish_payload
  publish_payload_keeps k (failed _) w = refl
  publish_payload_keeps k (done _) w = refl

  -- An announcement changes nothing but the bus.
  pub publish_results_keeps :
      (r : Results) (w : World s)
      → publish_results s r w ≡ record w { bus = (publish_results s r w).bus }
  unfolding publish_results
  publish_results_keeps r w =
      if_elim (λ w'. w' ≡ record w { bus = w'.bus }) s.has_publisher _ _
        (λ _. publish_payload_keeps _ _ w) (λ _. refl)

-- An event that the application may have put on the channel of a poll: it has the known type, and
-- the poll that it names is the channel's.
abbrev pub is_event_of : Str → PollResultsUpdated → Bool
is_event_of poll_id e =
    str_eq e.kind type_poll_results_updated && not (is_empty e.poll_id) && str_eq e.poll_id poll_id

accepted-foreign :
    (c : Codec) (m : Message) (a : Attempt PollResultsUpdated)
    → decode c m.payload ≡ a
    → ((e : PollResultsUpdated) → c.unmarshal m.payload ≡ done e → is_event_of m.poll_id e ≡ false)
    → accepted m.poll_id a ≡ none
unfolding accepted
accepted-foreign c m (failed x) h foreign = refl
accepted-foreign c m (done e) h foreign =
    let (known, named, parsed) = decode_known c m.payload e h in
    let other : str_eq e.poll_id m.poll_id ≡ false =
      last_false (str_eq e.kind type_poll_results_updated) _ _ ((str_eq_iff _ _).1 known)
        (ap not named) (foreign e parsed) in
    rw other refl
  where
    last_false : (x y z : Bool) → x ≡ true → y ≡ true → (x && y && z) ≡ false → z ≡ false
    last_false x y z p q h = ground arith

-- A message that is no event of its channel's poll is not forwarded.
pub forward-foreign :
    (c : Codec) (m : Message)
    → ((e : PollResultsUpdated) → c.unmarshal m.payload ≡ done e → is_event_of m.poll_id e ≡ false)
    → forward c m ≡ none
unfolding forward
forward-foreign c m foreign = accepted-foreign c m _ refl foreign
