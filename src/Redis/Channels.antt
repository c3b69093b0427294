-- ===== src/Redis/Channels.antt =====
-- The channels of poll updates: backend/internal/redis/subscriber.go, with the channel's name from
-- backend/internal/redis/client.go.
use live_polling.Prelude.{
  ℕ, ◌-◌, ◌≡◌, ap, ◌∙◌, Bool, ◌&&◌, true, Option, none, some, [], ◌++◌, arith, Str, str_eq,
  str_eq_refl, codes, length, length-append, take, drop, take-append, drop-append, leb, le→leb,
  if◌then◌else◌,
}
use live_polling.Redis.Counters.{updates_channel}

-- `strings.HasPrefix` and `strings.HasSuffix`
abbrev pub has_prefix : Str → Str → Bool
has_prefix text prefix = str_eq (take (length prefix) text) prefix

abbrev pub has_suffix : Str → Str → Bool
has_suffix text suffix =
    leb (length suffix) (length text) && str_eq (drop (length text - length suffix) text) suffix

-- `text[low:high]`, which panics where the bounds are out of order.
abbrev pub slice : ℕ → ℕ → Str → Option Str
slice low high text = if leb low high then some (take (high - low) (drop low text)) else none

abbrev pub prefix : Str
prefix = codes "poll:"

abbrev pub suffix : Str
suffix = codes ":updates"

-- `pollIDFromChannel`; a call that panics gives none.
unfoldable pub poll_id_from_channel : Str → Option Str
poll_id_from_channel channel =
    if has_prefix channel prefix && has_suffix channel suffix
    then slice (length prefix) (length channel - length suffix) channel
    else some []

end_of :
    (poll_id : Str)
    → length (prefix ++ poll_id ++ suffix) - length suffix ≡ length (prefix ++ poll_id)
end_of poll_id = omega (arith, length-append poll_id suffix)

ends : (poll_id : Str) → has_suffix (prefix ++ poll_id ++ suffix) suffix ≡ true
ends poll_id =
    let fits : leb (length suffix) (length (prefix ++ poll_id ++ suffix)) ≡ true =
      le→leb _ _ (omega (arith, length-append poll_id suffix)) in
    rw (fits, end_of poll_id, drop-append (prefix ++ poll_id) suffix) (str_eq_refl suffix)

starts : (poll_id : Str) → has_prefix (prefix ++ poll_id ++ suffix) prefix ≡ true
starts poll_id = str_eq_refl prefix

sliced :
    (poll_id : Str)
    → slice (length prefix) (length (prefix ++ poll_id)) (prefix ++ poll_id ++ suffix)
      ≡ some poll_id
sliced poll_id =
    let ordered : leb (length prefix) (length (prefix ++ poll_id)) ≡ true =
      le→leb _ _ (omega arith) in
    let middle : length (prefix ++ poll_id) - length prefix ≡ length poll_id = omega arith in
    rw (ordered, middle) (ap some (take-append poll_id suffix))

-- The poll of every channel that `updatesChannel` names is read back from it, without a panic.
pub poll_id_from_channel-updates_channel :
    (poll_id : Str) → poll_id_from_channel (updates_channel poll_id) ≡ some poll_id
unfolding poll_id_from_channel updates_channel
poll_id_from_channel-updates_channel poll_id = if_true _ (some []) (starts poll_id) (ends poll_id) (
    ap (λ n. slice (length prefix) n (prefix ++ poll_id ++ suffix)) (end_of poll_id)
    ∙ sliced poll_id)
  where
    if_true :
        {a b : Bool} (x y : Option Str)
        → a ≡ true
        → b ≡ true
        → x ≡ some poll_id
        → (if a && b then x else y) ≡ some poll_id
    if_true x y p q e = rw (p, q) e
