-- ===== src/Events/Tests.antt =====
-- The event contract at an example, with a codec of events that have no rows.
use live_polling.Prelude.{
  ◌≡◌, refl, ap, subst, inl, List, [], ◌∷◌, ◌++◌, Str, codes, length, take, drop, take-append,
  drop-append,
}
use live_polling.Apperr.{Cause, Attempt, done, failed, done-injective}
use live_polling.Models.{OptionCount}
use live_polling.Events.{PollResultsUpdated, Codec, type_poll_results_updated, encode, decode}
use live_polling.Events.Laws.{decode-encode}

abbrev marshal_rows : List OptionCount → PollResultsUpdated → Attempt Str
marshal_rows [] e = done (
    e.total_votes ∷ e.timestamp ∷ length e.kind ∷ length e.poll_id ∷ e.kind
    ++ (e.poll_id ++ e.status))
marshal_rows (r ∷ rows) e = failed (Cause.other 0)

abbrev unmarshal : Str → Attempt PollResultsUpdated
unmarshal (total ∷ time ∷ n ∷ m ∷ xs) = done (record {
  kind = take n xs;
  poll_id = take m (drop n xs);
  results = [];
  total_votes = total;
  status = drop m (drop n xs);
  timestamp = time;
})
unmarshal xs = failed (Cause.other 0)

abbrev event_of : PollResultsUpdated → Str → Str → Str → PollResultsUpdated
event_of e kind poll_id status = record {
  kind = kind;
  poll_id = poll_id;
  results = [];
  total_votes = e.total_votes;
  status = status;
  timestamp = e.timestamp;
}

pub unmarshal-marshal :
    (rows : List OptionCount) (e : PollResultsUpdated) (bytes : Str)
    → rows ≡ e.results
    → marshal_rows rows e ≡ done bytes
    → unmarshal bytes ≡ done e
unmarshal-marshal [] e bytes none h =
    subst (λ b. unmarshal b ≡ done e) (done-injective h)
      (rw
        (
          drop-append e.kind (e.poll_id ++ e.status),
          take-append e.kind (e.poll_id ++ e.status),
          drop-append e.poll_id e.status,
          take-append e.poll_id e.status,
        )
        (ap (λ rs. done (record e { results = rs })) none))
unmarshal-marshal (r ∷ rows) e bytes none h = cc

abbrev pub plain_codec : Codec
plain_codec = record {
  marshal = λ e. marshal_rows e.results e;
  unmarshal = unmarshal;
  unmarshal-marshal = λ e bytes h. unmarshal-marshal e.results e bytes refl h;
}

abbrev no_votes_yet : PollResultsUpdated
no_votes_yet = record {
  kind = [];
  poll_id = codes "p7";
  results = [];
  total_votes = 0;
  status = codes "active";
  timestamp = 10;
}

abbrev sent : PollResultsUpdated
sent = record no_votes_yet { kind = type_poll_results_updated }

abbrev bytes : Str
bytes =
    0 ∷ 10 ∷ length type_poll_results_updated ∷ 2 ∷ type_poll_results_updated ++ codes "p7active"

decode-encode_example : decode plain_codec bytes ≡ done sent
unfolding encode
decode-encode_example = decode-encode plain_codec no_votes_yet bytes refl (inl refl) refl
