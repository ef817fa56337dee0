-- ===== src/Oidc/Device/Store.antt =====
-- apps/server/src/features/oidc/device.ts, `DeviceCodeStore`: the requests that wait for an answer, in
-- memory, by device code. The time, the device code that `randomBytes` draws and the draws of
-- `randomInt` (by attempt and position) are arguments of the calls.
mod Tests
pub mod Apart
pub mod Sound
pub mod Mistyped
pub mod Caps
pub mod Poll
use server_central.Prelude.{
  ℕ, zero, suc, ◌+◌, ◌-◌, ◌*◌, String, Bool, true, false, not, ◌&&◌, List, Option, none, some,
  Result, ok, err, if◌then◌else◌, ◌==◌, ◌===◌, ltb, leb, same_option, is_some, length, length16,
  every, filter, find,
}
use server_central.Prelude.Dict.{Dict, get, put, remove, values, keep}
use server_central.Oidc.Device.Code.{
  user_code_length, differs_enough, draw_code, normalize_user_code,
}

abbrev pub device_ttl_ms : ℕ
device_ttl_ms = 5 * 60 * 1000

abbrev pub poll_interval_s : ℕ
poll_interval_s = 5

abbrev pub poll_grace_ms : ℕ
poll_grace_ms = 500

abbrev pub max_pending : ℕ
max_pending = 64

abbrev pub max_pending_per_ip : ℕ
max_pending_per_ip = 8

abbrev pub generate_attempts : ℕ
generate_attempts = 100

pub data Status : Type 0 where
  pending approved denied : Status

pub record DeviceRequest : Type 0 where
  pub device_code : String
  pub user_code : String
  pub client_id : String
  pub scope : String
  pub ip : Option String
  pub user_agent : Option String
  pub created_at : ℕ
  pub expires_at : ℕ
  pub status : Status
  pub user_id : Option String
  pub approved_at : Option ℕ
  pub last_polled_at : ℕ

abbrev pub DeviceStore : Type 0
DeviceStore = Dict DeviceRequest

-- `DeviceCapError`, by its message.
pub data CapError : Type 0 where
  too_many too_many_from_address no_code : CapError

abbrev pub is_pending : Status → Bool
is_pending pending = true
is_pending approved = false
is_pending denied = false

unfoldable pub prune : ℕ → DeviceStore → DeviceStore
prune now s = keep (λ k r. not (ltb r.expires_at now)) s

-- The pending requests among all of the store.
unfoldable pub pending_of : DeviceStore → List DeviceRequest
unfolding filter values
pending_of s = filter (λ r. is_pending r.status) (values s)

unfoldable pub generate_user_code : (ℕ → ℕ → ℕ) → ℕ → List DeviceRequest → Option String
generate_user_code draws zero waiting = none
generate_user_code draws (suc attempts) waiting =
    let code = draw_code (draws 0) user_code_length "" in
    elim (every (λ r. differs_enough code r.user_code) waiting) [
      | true ↦ some code
      | false ↦ generate_user_code (λ i. draws (suc i)) attempts waiting
    ]

abbrev pub from_ip : Option String → List DeviceRequest → List DeviceRequest
from_ip ip waiting = filter (λ r. same_option r.ip ip) waiting

unfoldable pub over_share : Option String → List DeviceRequest → Bool
over_share ip waiting = is_some ip && leb max_pending_per_ip (length (from_ip ip waiting))

pub record Params : Type 0 where
  pub client_id : String
  pub scope : String
  pub ip : Option String
  pub user_agent : Option String

abbrev pub new_request : Params → (device_code user_code : String) → ℕ → DeviceRequest
new_request params device_code user_code now = record {
  device_code = device_code;
  user_code = user_code;
  client_id = params.client_id;
  scope = params.scope;
  ip = params.ip;
  user_agent = params.user_agent;
  created_at = now;
  expires_at = now + device_ttl_ms;
  status = pending;
  user_id = none;
  approved_at = none;
  last_polled_at = now;
}

-- `request`, behind its pruning.
pub open_request :
    Params
    → (device_code : String) → (ℕ → ℕ → ℕ)
    → ℕ
    → DeviceStore
    → Result CapError DeviceRequest × DeviceStore
open_request params device_code draws now s =
    if leb max_pending (length (pending_of s))
    then (err too_many, s)
    else if over_share params.ip (pending_of s)
    then (err too_many_from_address, s)
    else elim (generate_user_code draws generate_attempts (pending_of s)) [
      | none ↦ (err no_code, s)
      | some code ↦ (
        ok (new_request params device_code code now),
        put s device_code (new_request params device_code code now),
      )
    ]

unfoldable pub request :
    Params
    → (device_code : String) → (ℕ → ℕ → ℕ)
    → ℕ
    → DeviceStore
    → Result CapError DeviceRequest × DeviceStore
unfolding open_request
request params device_code draws now s = open_request params device_code draws now (prune now s)

-- `resolve` once the request is looked up: the record is changed in the map, and returned. `outcome`
-- is `approved` or `denied`.
answer :
    Option (String × DeviceRequest)
    → (outcome : Status) → (user_id : String) → ℕ
    → DeviceStore
    → Option DeviceRequest × DeviceStore
answer none outcome user_id now s = (none, s)
answer (some (key, r)) outcome user_id now s =
    let answered : DeviceRequest = record r {
      status = outcome;
      user_id = some user_id;
      approved_at = some now;
    } in
    (some answered, put s key answered)

module _ (to_upper_case : String → String) where
  -- The entry found, and the pruned store.
  unfoldable pub find_pending :
      String → ℕ → DeviceStore → Option (String × DeviceRequest) × DeviceStore
  find_pending typed now s =
      if not (length16 (normalize_user_code to_upper_case typed) == user_code_length)
      then (none, prune now s)
      else (
        find
            (λ e.
              e.1.user_code === normalize_user_code to_upper_case typed && is_pending e.1.status)
            (prune now s),
        prune now s,
      )

  unfoldable pub resolve :
      String
      → (outcome : Status) → (user_id : String) → ℕ
      → DeviceStore
      → Option DeviceRequest × DeviceStore
  unfolding find_pending answer
  resolve typed outcome user_id now s =
      answer (find_pending typed now s).0 outcome user_id now (find_pending typed now s).1

pub data PollResult : Type 0 where
  collected : DeviceRequest → (user_id : String) → (approved_at : ℕ) → PollResult
  authorization_pending slow_down access_denied expired_token invalid_grant : PollResult

abbrev collect : DeviceRequest → Option String → Option ℕ → Option PollResult
collect r (some user) (some at) = some (collected r user at)
collect r _ _ = none

-- The rest of `poll`, once the time of this poll is recorded as `r.last_polled_at` in the store;
-- `polled_at` is the time of the one before.
poll_recorded :
    (device_code : String)
    → DeviceRequest
    → (polled_at now : ℕ) → DeviceStore
    → PollResult × DeviceStore
poll_recorded device_code r polled_at now s = elim r.status [
  | denied ↦ (access_denied, remove s device_code)
  | pending ↦
      if ltb (now - polled_at) (poll_interval_s * 1000 - poll_grace_ms)
      then (slow_down, s)
      else (authorization_pending, s)
  | approved ↦
      if ltb (now - polled_at) (poll_interval_s * 1000 - poll_grace_ms)
      then (slow_down, s)
      else elim (collect r r.user_id r.approved_at) [
        | none ↦ (invalid_grant, s)
        | some result ↦ (result, remove s device_code)
      ]
]

poll_found :
    (device_code client_id : String)
    → Option DeviceRequest
    → ℕ
    → DeviceStore
    → PollResult × DeviceStore
unfolding poll_recorded
poll_found device_code client_id none now s = (invalid_grant, s)
poll_found device_code client_id (some r) now s =
    if not (r.client_id === client_id)
    then (invalid_grant, s)
    else if ltb r.expires_at now
    then (expired_token, remove s device_code)
    else poll_recorded device_code (record r { last_polled_at = now }) r.last_polled_at now
        (put s device_code (record r { last_polled_at = now }))

unfoldable pub poll : (device_code client_id : String) → ℕ → DeviceStore → PollResult × DeviceStore
unfolding poll_found
poll device_code client_id now s = poll_found device_code client_id (get s device_code) now s

unfoldable pub size : ℕ → DeviceStore → ℕ × DeviceStore
size now s = (length (prune now s), prune now s)
