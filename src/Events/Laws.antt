-- ===== src/Events/Laws.antt =====
-- The event contract: what is decoded, and that an encoded event is decoded to itself
-- (backend/internal/events/events.go).
use live_polling.Prelude.{
  ◌≡◌, ◌⊎◌, inl, inr, true, false, Str, str_eq_iff, str_eq_refl, is_empty, arith, ap,
}
use live_polling.Apperr.{Attempt, done, failed}
use live_polling.Events.{
  PollResultsUpdated, Codec, type_poll_results_updated, encode, decode, decode_from, checked,
  with_type,
}

with_type_known :
    (e : PollResultsUpdated)
    → (is_empty e.kind ≡ true) ⊎ (e.kind ≡ type_poll_results_updated)
    → with_type e ≡ record e { kind = type_poll_results_updated }
unfolding with_type
with_type_known e (inl untyped) = rw untyped
with_type_known e (inr known) =
    let typed : is_empty e.kind ≡ false = ap (λ (k : Str). is_empty k) known in
    rw typed (ap (λ (k : Str). record e { kind = k }) known)

-- An event that names a poll, and that has the known type or none, is decoded from what it is
-- encoded to, with the known type filled in.
pub decode-encode :
    (c : Codec) (e : PollResultsUpdated) (bytes : Str)
    → is_empty e.poll_id ≡ false
    → (is_empty e.kind ≡ true) ⊎ (e.kind ≡ type_poll_results_updated)
    → encode c e ≡ done bytes
    → decode c bytes ≡ done (record e { kind = type_poll_results_updated })
unfolding encode decode checked
decode-encode c e bytes named kind h = rw (
  c.unmarshal-marshal (with_type e) bytes h,
  with_type_known e kind,
  decode_from,
  named,
  str_eq_refl type_poll_results_updated,
)

-- Whatever bytes are decoded, an event that comes out has the known type and names a poll, and is
-- what the bytes say.
pub decode_known :
    (c : Codec) (bytes : Str) (e : PollResultsUpdated)
    → decode c bytes ≡ done e
    → (e.kind ≡ type_poll_results_updated)
      × (is_empty e.poll_id ≡ false)
      × (c.unmarshal bytes ≡ done e)
unfolding decode
decode_known c bytes e h = known (c.unmarshal bytes) h
  where
    known :
        (r : Attempt PollResultsUpdated)
        → decode_from r ≡ done e
        → (e.kind ≡ type_poll_results_updated) × (is_empty e.poll_id ≡ false) × (r ≡ done e)
    known (failed x) g = cc
    known (done x) g = ground (arith, str_eq_iff x.kind type_poll_results_updated)
