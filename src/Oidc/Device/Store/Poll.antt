-- ===== src/Oidc/Device/Store/Poll.antt =====
-- Polling: a grant is collected once, by the client that opened it, after a person approved it.
use text.Mathlib.TextEquality.{eq_iff}
use text.Mathlib.TextPositions.{eq_refl}
use server_central.Prelude.{
  ℕ, ◌-◌, ◌≤◌, String, false, Option, none, some, ◌≡◌, refl, arith, ◌===◌, Option-cases, inl, inr,
}
use server_central.Prelude.Dict.{get, put, get-remove}
use server_central.Oidc.Device.Store.{
  DeviceRequest, DeviceStore, approved, collected, invalid_grant, poll_recorded, poll_found, poll,
}

-- What a poll that hands out a grant has found, and what it leaves.
pub record IsCollection (device_code client_id : String) (now : ℕ) (s : DeviceStore) (user : String)
    (s' : DeviceStore) : Type 0 where
  pub before : DeviceRequest
  pub found : get s device_code ≡ some before
  pub same_client : before.client_id ≡ client_id
  pub in_time : now ≤ before.expires_at
  pub answered : before.status ≡ approved
  pub by_user : before.user_id ≡ some user
  pub waited : 4500 ≤ now - before.last_polled_at
  pub consumed : get s' device_code ≡ none

poll_found-IsCollection :
    (device_code client_id : String) (o : Option DeviceRequest) (now : ℕ) (s : DeviceStore)
    (r : DeviceRequest) (user : String) (at : ℕ)
    → get s device_code ≡ o
    → (poll_found device_code client_id o now s).0 ≡ collected r user at
    → IsCollection device_code client_id now s user (poll_found device_code client_id o now s).1
unfolding poll_found poll_recorded
poll_found-IsCollection device_code client_id none now s r user at g e = cc
poll_found-IsCollection device_code client_id (some b) now s r user at g e = record {
  before = b;
  found = g;
  same_client = (eq_iff b.client_id client_id).0 (ground arith);
  in_time = ground arith;
  answered = ground arith;
  by_user = ground arith;
  waited = ground arith;
  consumed = ground (
    arith,
    eq_refl device_code,
    get-remove (put s device_code (record b { last_polled_at = now })) device_code device_code,
  );
}

-- A grant is handed out only for a stored request of the same client that is not past its expiry,
-- that a person approved, and whose last poll lies at least 4.5 s back; it goes to the account that
-- approved it, and the request is consumed.
pub poll-IsCollection :
    (device_code client_id : String) (now : ℕ) (s : DeviceStore) (r : DeviceRequest) (user : String)
    (at : ℕ)
    → (poll device_code client_id now s).0 ≡ collected r user at
    → IsCollection device_code client_id now s user (poll device_code client_id now s).1
unfolding poll
poll-IsCollection device_code client_id now s r user at e =
    poll_found-IsCollection device_code client_id (get s device_code) now s r user at refl e

-- A poll right after one that handed out the grant of a code, by whatever client and at whatever
-- time, is refused for the same code, and changes nothing.
poll_twice :
    (device_code client_id other : String) (now later : ℕ) (s : DeviceStore) (r : DeviceRequest)
    (user : String) (at : ℕ)
    → (poll device_code client_id now s).0 ≡ collected r user at
    → poll device_code other later (poll device_code client_id now s).1
      ≡ (invalid_grant, (poll device_code client_id now s).1)
unfolding poll_found
poll_twice device_code client_id other now later s r user at e =
    poll_unknown device_code other later _
      (poll-IsCollection device_code client_id now s r user at e).consumed
  where
    poll_unknown :
        (code by : String) (t : ℕ) (u : DeviceStore)
        → get u code ≡ none
        → poll code by t u ≡ (invalid_grant, u)
    poll_unknown code by t u g = unfold poll in rw g

-- A poll for a code that is not stored for that client is refused in one and the same way, whether
-- the code exists or not, and changes nothing.
poll_wrong_client :
    (device_code client_id : String) (now : ℕ) (s : DeviceStore)
    → ((r : DeviceRequest) → get s device_code ≡ some r → (r.client_id === client_id) ≡ false)
    → poll device_code client_id now s ≡ (invalid_grant, s)
unfolding poll poll_found
poll_wrong_client device_code client_id now s h = elim (Option-cases (get s device_code)) [
  | inl g ↦ rw g
  | inr (r, g) ↦ rw g (rw (h r g))
]
