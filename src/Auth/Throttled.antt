-- ===== src/Auth/Throttled.antt =====
-- The throttle of `login`: failures of one source in a row.
use text.Mathlib.TextPositions.{eq_refl}
use server_central.Prelude.{
  ℕ, suc, ◌*◌, ◌++◌, ◌+◌, ◌≤◌, ◌<◌, String, Bool, true, false, not, List, [], ◌∷◌, Option, none,
  some, err, ◌≡◌, refl, sym, ◌∙◌, ap, subst, arith, leb, or_else, length, All,
}
use server_central.Prelude.Dict.{get, get-put}
use server_central.Roles.{RoleStore}
use server_central.Auth.{UserRecord, Throttle, AuthStore, too_many_attempts}
use server_central.Auth.Login.{
  count_failure, record_login_failure, is_blocked, throttle_key, account_of, login_checked, login,
}

-- What the source of the attempts has on record.
abbrev entry_of : String → AuthStore → Throttle
entry_of key s = or_else (get s.login_failures key) (record { count = 0; blocked_until = 0 })

get-record :
    (key : String) (now : ℕ) (s : AuthStore)
    → get (record_login_failure key now s).login_failures key
      ≡ some (count_failure now (get s.login_failures key))
unfolding record_login_failure
get-record key now s =
    rw
      (get-put s.login_failures key key (count_failure now (get s.login_failures key)), eq_refl key)

entry_of-record :
    (key : String) (now : ℕ) (s : AuthStore)
    → entry_of key (record_login_failure key now s) ≡ count_failure now (get s.login_failures key)
entry_of-record key now s = rw (get-record key now s)

-- Fewer than ten failures count, and block nothing.
counted :
    (now : ℕ) (o : Option Throttle) (c : ℕ)
    → or_else o (record { count = 0; blocked_until = 0 }) ≡ record { count = c; blocked_until = 0 }
    → c < 9
    → count_failure now o ≡ record { count = c + 1; blocked_until = 0 }
unfolding count_failure
counted now o c e h = rw e (let low : leb 10 (c + 1) ≡ false = ground arith in rw low)

open_entry :
    (now : ℕ) (o : Option Throttle) (c : ℕ)
    → or_else o (record { count = 0; blocked_until = 0 }) ≡ record { count = c; blocked_until = 0 }
    → is_blocked now o ≡ false
open_entry now none c e = refl
open_entry now (some t) c e = rw e (ground arith)

plus_none : (c : ℕ) → c + 0 ≡ c
plus_none c = omega arith

plus_suc : (c n : ℕ) → c + suc n ≡ c + 1 + n
plus_suc c n = omega arith

blocked_entry :
    (now : ℕ) (o : Option Throttle) (until : ℕ)
    → o ≡ some (record { count = 0; blocked_until = until })
    → now < until
    → is_blocked now o ≡ true
blocked_entry now o until e h = rw e (ground arith)

-- The tenth failure blocks.
tenth :
    (now : ℕ) (o : Option Throttle)
    → or_else o (record { count = 0; blocked_until = 0 }) ≡ record { count = 9; blocked_until = 0 }
    → count_failure now o ≡ record { count = 0; blocked_until = now + 15 * 60 * 1000 }
unfolding count_failure
tenth now o e = rw e

module _ (lower : String → String) (verify : (password hash : String) → Bool) (roles : RoleStore)
    (username : String) (ip agent : Option String) where
  -- The password is none of the account's.
  abbrev pub rejects : Option UserRecord → String → Bool
  rejects none password = true
  rejects (some rec) password = not (verify password rec.password_hash)

  -- Attempts in a row, each with its password and its time.
  abbrev pub attempts : List (String × ℕ) → AuthStore → AuthStore
  attempts [] s = s
  attempts ((password, now) ∷ more) s =
      attempts more (login lower verify roles username password "" "" ip agent now s).1

  wrong :
      (password : String) (now : ℕ) (o : Option UserRecord) (s : AuthStore)
      → account_of lower verify username s ≡ o
      → rejects o password ≡ true
      → is_blocked now (get s.login_failures (throttle_key lower verify username ip)) ≡ false
      → (login lower verify roles username password "" "" ip agent now s).1
        ≡ record_login_failure (throttle_key lower verify username ip) now s
  unfolding login login_checked
  wrong password now none s a r b = rw (b, login) (rw (a, login_checked))
  wrong password now (some rec) s a r b =
      rw (b, login)
        (rw (a, login_checked)
          (let w : verify password rec.password_hash ≡ false = ground arith in rw w))

  account_of-record :
      (key : String) (now : ℕ) (s : AuthStore)
      → account_of lower verify username (record_login_failure key now s)
        ≡ account_of lower verify username s
  unfolding record_login_failure
  account_of-record key now s = refl

  -- So many failures are on record, and the account is the one it was.
  abbrev Counted : ℕ → Option UserRecord → AuthStore → Type 0
  Counted n o s =
      (entry_of (throttle_key lower verify username ip) s ≡ record { count = n; blocked_until = 0 })
      × (account_of lower verify username s ≡ o)

  count_up :
      (tried : List (String × ℕ)) (o : Option UserRecord) (c : ℕ) (s : AuthStore)
      → account_of lower verify username s ≡ o
      → All (λ a. rejects o a.0 ≡ true) tried
      → entry_of (throttle_key lower verify username ip) s ≡ record { count = c; blocked_until = 0 }
      → c + length tried ≤ 9
      → Counted (c + length tried) o (attempts tried s)
  count_up [] o c s a r e h = subst (λ n. Counted n o s) (sym (plus_none c)) (e, a)
  count_up ((password, now) ∷ more) o c s a (r, rs) e h =
      let key = throttle_key lower verify username ip in
      let made = wrong password now o s a r (open_entry now (get s.login_failures key) c e) in
      let entry =
        entry_of-record key now s ∙ counted now (get s.login_failures key) c e (omega (arith, h)) in
      let rest =
        count_up more o (c + 1) (record_login_failure key now s) (account_of-record key now s ∙ a)
          rs entry (omega (arith, h)) in
      subst (λ t. Counted (c + suc (length more)) o (attempts more t)) (sym made)
        (subst (λ n. Counted n o (attempts more (record_login_failure key now s)))
          (sym (plus_suc c (length more))) rest)

  refused :
      (now : ℕ) (password token uuid : String) (s : AuthStore)
      → is_blocked now (get s.login_failures (throttle_key lower verify username ip)) ≡ true
      → login lower verify roles username password token uuid ip agent now s
        ≡ (err too_many_attempts, s)
  unfolding login
  refused now password token uuid s b = rw (b, login)

  attempts-append :
      (tried : List (String × ℕ)) (last : String) (now : ℕ) (s : AuthStore)
      → attempts (tried ++ (last, now) ∷ []) s
        ≡ (login lower verify roles username last "" "" ip agent now (attempts tried s)).1
  attempts-append [] last now s = refl
  attempts-append ((p, t) ∷ more) last now s = attempts-append more last now _

  -- From a source with nothing on record, after ten attempts in a row whose passwords are wrong,
  -- whenever they were made, a login of the same name from the same address fails for 15 minutes
  -- after the tenth, whatever the password, and changes nothing.
  pub ten_failures-block :
      (tried : List (String × ℕ)) (last : String) (at_last now : ℕ) (password token uuid : String)
      (s : AuthStore)
      → get s.login_failures (throttle_key lower verify username ip) ≡ none
      → All (λ a. rejects (account_of lower verify username s) a.0 ≡ true) tried
      → length tried ≡ 9
      → rejects (account_of lower verify username s) last ≡ true
      → now < at_last + 15 * 60 * 1000
      → login lower verify roles username password token uuid ip agent now
          (attempts (tried ++ (last, at_last) ∷ []) s)
        ≡ (err too_many_attempts, attempts (tried ++ (last, at_last) ∷ []) s)
  ten_failures-block tried last at_last now password token uuid s none_yet fail nine lost soon =
      subst Blocked (sym (attempts-append tried last at_last s)) (subst Blocked (sym made) blocked)
    where
      key : String
      key = throttle_key lower verify username ip

      Blocked : AuthStore → Type 0
      Blocked t =
          login lower verify roles username password token uuid ip agent now t
          ≡ (err too_many_attempts, t)

      total : 0 + length tried ≡ 9
      total = omega (arith, nine)

      nine_counted : Counted 9 (account_of lower verify username s) (attempts tried s)
      nine_counted =
          subst (λ n. Counted n (account_of lower verify username s) (attempts tried s)) total
            (count_up tried (account_of lower verify username s) 0 s refl fail (rw none_yet)
              (omega (arith, nine)))

      made :
          (login lower verify roles username last "" "" ip agent at_last (attempts tried s)).1
          ≡ record_login_failure key at_last (attempts tried s)
      made =
          wrong last at_last (account_of lower verify username s) (attempts tried s) nine_counted.1
            lost (open_entry at_last (get (attempts tried s).login_failures key) 9 nine_counted.0)

      recorded :
          get (record_login_failure key at_last (attempts tried s)).login_failures key
          ≡ some (count_failure at_last (get (attempts tried s).login_failures key))
      recorded = get-record key at_last (attempts tried s)

      blocked : Blocked (record_login_failure key at_last (attempts tried s))
      blocked =
          refused now password token uuid (record_login_failure key at_last (attempts tried s)) (
            blocked_entry now
              (get (record_login_failure key at_last (attempts tried s)).login_failures key)
              (at_last + 15 * 60 * 1000) (recorded ∙ ap some (tenth at_last _ nine_counted.0)) soon)
