-- ===== src/Oidc/Device/Store/Sound.antt =====
-- The store over any run of its operations: the codes stay far apart.
use text.Mathlib.TextEquality.{eq_iff}
use server_central.Prelude.{
  ℕ, String, true, false, ◌&&◌, [], Option, none, some, ◌≡◌, refl, sym, subst, inl, inr, arith,
  ◌===◌, leb, ltb, filter, ◌∷◌, length, find, find-test, and-eq-true, Bool-cases, Option-cases,
}
use server_central.Prelude.Dict.{get, put, remove}
use server_central.Prelude.Dict.Keyed.{IsKeyed, put-IsKeyed, keep-IsKeyed, remove-IsKeyed, get-find}
use server_central.Oidc.Device.Code.{normalize_user_code}
use server_central.Oidc.Device.Store.{
  DeviceRequest, DeviceStore, Status, is_pending, prune, pending_of, generate_user_code,
  generate_attempts, Params, new_request, over_share, max_pending, open_request, request,
  find_pending, answer, resolve, poll, poll_found, poll_recorded, size,
}
use server_central.Oidc.Device.Store.Apart.{
  IsApart, IsLater, keep-IsApart, remove-IsApart, put-IsApart, put_new, generated_apart,
  append-IsApart,
}

pub record IsDistinct (s : DeviceStore) : Type 0 where
  pub keyed : IsKeyed s
  pub apart : IsApart s

pub prune-IsDistinct : (now : ℕ) (s : DeviceStore) → IsDistinct s → IsDistinct (prune now s)
unfolding prune
prune-IsDistinct now s h = record {
  keyed = keep-IsKeyed _ s h.keyed;
  apart = keep-IsApart _ s h.apart;
}

open_request-IsDistinct :
    (params : Params) (code : String) (draws : ℕ → ℕ → ℕ) (now : ℕ) (s : DeviceStore)
    → get s code ≡ none
    → IsDistinct s
    → IsDistinct (open_request params code draws now s).1
unfolding open_request
open_request-IsDistinct params code draws now s g h =
    elim (Bool-cases (leb max_pending (length (pending_of s)))) [
      | inl full ↦ rw full h
      | inr room ↦ rw room (elim (Bool-cases (over_share params.ip (pending_of s))) [
        | inl over ↦ rw over h
        | inr share ↦
            rw share
              (elim (Option-cases (generate_user_code draws generate_attempts (pending_of s))) [
                | inl e ↦ rw e h
                | inr (c, e) ↦ rw e (record {
                  keyed = put-IsKeyed s code _ h.keyed;
                  apart = rw (put_new s code (new_request params code c now) g) (
                      append-IsApart s code (new_request params code c now) h.apart refl
                        (generated_apart draws generate_attempts (pending_of s) c e));
                })
              ])
      ])
    ]

removed : (s : DeviceStore) (k : String) → IsDistinct s → IsDistinct (remove s k)
removed s k h = record { keyed = remove-IsKeyed s k h.keyed; apart = remove-IsApart s k h.apart }

changed :
    (s : DeviceStore) (k : String) (r r' : DeviceRequest)
    → get s k ≡ some r
    → IsLater r r'
    → IsDistinct s
    → IsDistinct (put s k r')
changed s k r r' g l h = record {
  keyed = put-IsKeyed s k r' h.keyed;
  apart = put-IsApart r r' s k g l h.apart;
}

pub store-find_pending :
    (upper : String → String) (typed : String) (now : ℕ) (s : DeviceStore)
    → (find_pending upper typed now s).1 ≡ prune now s
unfolding find_pending
store-find_pending upper typed now s = ground arith

prune_again : (now : ℕ) (s : DeviceStore) → prune now (prune now s) ≡ prune now s
unfolding prune filter
prune_again now [] = refl
prune_again now ((k, r) ∷ s) = elim (Bool-cases (ltb r.expires_at now)) [
  | inl late ↦ rw (late, prune_again now s) refl
  | inr timely ↦ rw (timely, timely, prune_again now s) refl
]

-- Looking up again at once finds the same.
find_pending_again :
    (upper : String → String) (typed : String) (now : ℕ) (s : DeviceStore)
    → find_pending upper typed now (prune now s) ≡ find_pending upper typed now s
unfolding find_pending
find_pending_again upper typed now s = rw (prune_again now s) refl

pub resolve-pruned :
    (upper : String → String) (typed : String) (outcome : Status) (user : String) (now : ℕ)
    (s : DeviceStore) (k : String) (r : DeviceRequest)
    → (find_pending upper typed now s).0 ≡ some (k, r)
    → (resolve upper typed outcome user now (prune now s)).1
      ≡ put
          (prune now s)
          k
          (record r { status = outcome; user_id = some user; approved_at = some now })
unfolding resolve answer
resolve-pruned upper typed outcome user now s k r e =
    rw (find_pending_again upper typed now s, e, store-find_pending upper typed now s) refl

-- What is found stands in the pruned store under its key, is pending, and has the typed code.
pub record IsFound (upper : String → String) (typed : String) (m : DeviceStore) (k : String)
    (r : DeviceRequest) : Type 0 where
  pub entry :
      find (λ e. e.1.user_code === normalize_user_code upper typed && is_pending e.1.status) m
      ≡ some (k, r)
  pub code : r.user_code ≡ normalize_user_code upper typed
  pub waits : is_pending r.status ≡ true

pub find_pending-IsFound :
    (upper : String → String) (typed : String) (now : ℕ) (s : DeviceStore) (k : String)
    (r : DeviceRequest)
    → (find_pending upper typed now s).0 ≡ some (k, r)
    → IsFound upper typed (prune now s) k r
unfolding find_pending
find_pending-IsFound upper typed now s k r e =
    let hit : find (λ e. e.1.user_code === normalize_user_code upper typed && is_pending e.1.status)
          (prune now s)
        ≡ some (k, r) =
      ground arith in
    let test = and-eq-true (find-test _ (prune now s) (k, r) hit) in
    record { entry = hit; code = (eq_iff r.user_code _).0 test.0; waits = test.1 }

answer-IsDistinct :
    (upper : String → String) (typed : String) (o : Option (String × DeviceRequest))
    (outcome : Status) (user : String) (now : ℕ) (s : DeviceStore)
    → is_pending outcome ≡ false
    → (find_pending upper typed now s).0 ≡ o
    → IsDistinct s
    → IsDistinct (answer o outcome user now (prune now s)).1
unfolding answer
answer-IsDistinct upper typed none outcome user now s n e h = prune-IsDistinct now s h
answer-IsDistinct upper typed (some (k, r)) outcome user now s n e h =
    let f = find_pending-IsFound upper typed now s k r e in
    let p = prune-IsDistinct now s h in
    changed (prune now s) k r _ (get-find _ (prune now s) k r p.keyed f.entry)
      (record { code = refl; answered = inr n }) p

resolve-IsDistinct :
    (upper : String → String) (typed : String) (outcome : Status) (user : String) (now : ℕ)
    (s : DeviceStore)
    → is_pending outcome ≡ false
    → IsDistinct s
    → IsDistinct (resolve upper typed outcome user now s).1
unfolding resolve
resolve-IsDistinct upper typed outcome user now s n h =
    subst (λ t. IsDistinct (answer (find_pending upper typed now s).0 outcome user now t).1)
      (sym (store-find_pending upper typed now s))
      (answer-IsDistinct upper typed _ outcome user now s n refl h)

poll_found-IsDistinct :
    (code client : String) (o : Option DeviceRequest) (now : ℕ) (s : DeviceStore)
    → get s code ≡ o
    → IsDistinct s
    → IsDistinct (poll_found code client o now s).1
unfolding poll_found poll_recorded
poll_found-IsDistinct code client none now s g h = h
poll_found-IsDistinct code client (some r) now s g h =
    let r' : DeviceRequest = record r { last_polled_at = now } in
    let marked = changed s code r r' g (record { code = refl; answered = inl refl }) h in
    ground (arith, marked, removed (put s code r') code marked, removed s code h)

-- What can be called on the store. A new request takes a device code that is not in use.
pub data Step (upper : String → String) : DeviceStore → DeviceStore → Type 0 where
  requests :
      (s : DeviceStore) (params : Params) (code : String) (draws : ℕ → ℕ → ℕ) (now : ℕ)
      → get (prune now s) code ≡ none
      → Step upper s (request params code draws now s).1
  finds :
      (s : DeviceStore) (typed : String) (now : ℕ) → Step upper s (find_pending upper typed now s).1
  resolves :
      (s : DeviceStore) (typed : String) (outcome : Status) (user : String) (now : ℕ)
      → is_pending outcome ≡ false
      → Step upper s (resolve upper typed outcome user now s).1
  polls :
      (s : DeviceStore) (code client : String) (now : ℕ) → Step upper s (poll code client now s).1
  sizes : (s : DeviceStore) (now : ℕ) → Step upper s (size now s).1

pub data Reach (upper : String → String) : DeviceStore → Type 0 where
  start : Reach upper []
  next : {s t : DeviceStore} → Reach upper s → Step upper s t → Reach upper t

Step-IsDistinct :
    (upper : String → String) {s t : DeviceStore} → Step upper s t → IsDistinct s → IsDistinct t
unfolding request poll size
Step-IsDistinct upper (requests s params code draws now g) h =
    open_request-IsDistinct params code draws now (prune now s) g (prune-IsDistinct now s h)
Step-IsDistinct upper (finds s typed now) h =
    subst IsDistinct (sym (store-find_pending upper typed now s)) (prune-IsDistinct now s h)
Step-IsDistinct upper (resolves s typed outcome user now n) h =
    resolve-IsDistinct upper typed outcome user now s n h
Step-IsDistinct upper (polls s code client now) h =
    poll_found-IsDistinct code client (get s code) now s refl h
Step-IsDistinct upper (sizes s now) h = prune-IsDistinct now s h

-- From the empty store on, whatever is called in whatever order, if a new request takes an unused
-- device code: any two pending requests have codes that differ enough, and no device code stands
-- in the store twice.
pub Reach-IsDistinct : (upper : String → String) {s : DeviceStore} → Reach upper s → IsDistinct s
Reach-IsDistinct upper start = record { keyed = tt; apart = tt }
Reach-IsDistinct upper (next r st) = Step-IsDistinct upper st (Reach-IsDistinct upper r)
