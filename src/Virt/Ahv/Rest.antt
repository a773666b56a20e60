-- ===== src/Virt/Ahv/Rest.antt =====
-- `AhvInterface._send` of virtwho/virt/ahv/ahv_interface.py: a request that is tried again.
pub mod Bounds
use virt_who.Base.{
  ℕ, zero, suc, ◌+◌, Bool, true, false, not, ◌||◌, ◌&&◌, Option, none, some, List, [], ◌∷◌, any,
  ltb, nat_eq, if◌then◌else◌,
}

-- What a request comes to: a ConnectionError or a ReadTimeout, or a response with a code, which is
-- `ok` below 400.
pub data Reply : Type 0 where
  unreachable : Reply
  response : ℕ → Reply

-- How `_send` ends: with the response, with one of its two VirtErrors, or without a response.
pub data Sent : Type 0 where
  returned : ℕ → Sent
  auth_failed conflict gave_up : Sent

abbrev pub no_retry_http_codes : List ℕ
no_retry_http_codes = 400 ∷ 404 ∷ 500 ∷ 502 ∷ 503 ∷ []

abbrev pub is_ok : ℕ → Bool
is_ok code = ltb code 400

abbrev pub is_auth : ℕ → Bool
is_auth code = nat_eq code 401 || nat_eq code 403

-- What is made of a reply that ends the loop, and of the last one.
unfoldable pub verdict : Reply → Sent
verdict unreachable = gave_up
verdict (response code) =
    if is_ok code
    then returned code
    else if is_auth code
    then auth_failed
    else if nat_eq code 409
    then conflict
    else gave_up

-- Whether the loop goes on behind a reply, if there is a round left.
unfoldable pub is_retried : Reply → Bool
is_retried unreachable = true
is_retried (response code) =
    not (is_ok code || is_auth code || nat_eq code 409 || any (nat_eq code) no_retry_http_codes)

-- The end of the loop, with the number of the last request from 0 on and the seconds slept.
pub record Sending : Type 0 where
  pub sent : Sent
  pub last : ℕ
  pub slept : ℕ

-- `retry_count`: the `retries` of the call, unless they are missing or zero.
unfoldable pub retry_count : Option ℕ → ℕ → ℕ
retry_count none default = default
retry_count (some zero) default = default
retry_count (some (suc n)) default = suc n

module _ (reply : ℕ → Reply) (retry_interval : ℕ) where
  -- The loop from a request on, by the number of those that may follow it.
  unfoldable pub send_from : ℕ → ℕ → ℕ → Sending
  unfolding verdict is_retried
  send_from zero i slept = record { sent = verdict (reply i); last = i; slept = slept }
  send_from (suc left) i slept =
      let rest = send_from left (i + 1) (slept + retry_interval) in
      if is_retried (reply i)
      then rest
      else record { sent = verdict (reply i); last = i; slept = slept }

  -- `_send`, by the number of rounds. Without a round there is no request.
  unfoldable pub send_request : ℕ → Option Sending
  unfolding send_from
  send_request zero = none
  send_request (suc left) = some (send_from left 0 0)
