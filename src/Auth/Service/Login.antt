-- ===== src/Auth/Service/Login.antt =====
-- What a login needs and does.
use egress_manager.Base.{
  ℕ, ◌-◌, ◌/◌, ◌≡◌, ◌<◌, refl, sym, ap, ◌∙◌, subst, Bool, true, false, ◌&&◌, Option, none, some, [],
  ◌∷◌, ◌++◌, leb, Bytes, select, length, arith, Bool-cases, Option-cases, inl, inr,
}
use egress_manager.Net.{Addr, is_valid}
use egress_manager.Effect.{Result, ok, err}
use egress_manager.Database.{
  StoreError, not_found, statement_failed, conflict, invalid, out_of_limits, second,
}
use egress_manager.Database.Accounts.{
  Admin, Session, Accounts, is_recent_failure, find_admin, admin_by_username, record_login_attempt,
  count_recent_failures,
}
use egress_manager.Auth.Password.{PasswordError, verify_password}
use egress_manager.Auth.Session.{
  Secrecy, AuthError, invalid_credentials, login_throttled, store_failed, bad_password, World,
  SessionTokens, with_accounts,
}
use egress_manager.Auth.Session.Issued.{issued, failed, create_tokens-Ending}
use egress_manager.Auth.Service.{
  Service, normalize_username, name_or_dummy, is_some, is_true, login_bucket, login_recorded,
  login_verified, login_found, login_counted, login,
}

module _ {R : Type 0} (secrecy : Secrecy R) (fault : ℕ → Bool) (service : Service)
    (username password : Bytes) (client : Addr) (now : ℕ) (w : World R) where
  -- The failures that count against a name.
  abbrev pub recent_failures : Bytes → ℕ
  recent_failures name = length (
      select
        (is_recent_failure (login_bucket service name client)
          ((now - service.policy.window) / second))
        w.accounts.attempts)

  -- How a login ends.
  pub data Outcome (r : Result AuthError SessionTokens × World R) : Type 0 where
    admitted :
        (tokens : SessionTokens) (name : Bytes) (admin : Admin) (row : Session)
        → r.0 ≡ ok tokens
        → normalize_username username ≡ some name
        → recent_failures name < service.policy.max_failures
        → find_admin name w.accounts.admins ≡ some admin
        → verify_password service.primitives admin.password_hash password ≡ ok true
        → r.1.accounts.sessions ≡ w.accounts.sessions ++ row ∷ []
        → row.admin_id ≡ admin.id
        → Outcome r
    denied : (e : AuthError) → r.0 ≡ err e → r.1.accounts.sessions ≡ w.accounts.sessions → Outcome r

  -- How a login goes on with an operator and a verdict on the password.
  data Verdict (valid : Bool) (id : Bytes) (v : World R)
      (r : Result AuthError SessionTokens × World R) : Type 0 where
    accepted :
        (tokens : SessionTokens) (row : Session)
        → valid ≡ true
        → r.0 ≡ ok tokens
        → r.1.accounts.sessions ≡ v.accounts.sessions ++ row ∷ []
        → row.admin_id ≡ id
        → Verdict valid id v r
    rejected :
        (e : AuthError)
        → r.0 ≡ err e
        → r.1.accounts.sessions ≡ v.accounts.sessions
        → Verdict valid id v r

  login_recorded-Verdict :
      (failure : Option StoreError) (valid : Bool) (id : Bytes) (v : World R)
      → Verdict valid id v (login_recorded secrecy fault service failure valid id now v)
  login_recorded-Verdict (some e) valid id v = rejected store_failed refl refl
  login_recorded-Verdict none false id v = rejected invalid_credentials refl refl
  login_recorded-Verdict none true id v =
      elim (create_tokens-Ending secrecy fault service.lifetime id now v) [
        | issued tokens row r rows own ↦ accepted tokens row refl r rows own
        | failed e r same ↦ rejected e r same
      ]

  record_login_attempt-sessions :
      (bucket : Bytes) (valid : Bool) (a : Accounts)
      → (record_login_attempt fault bucket valid now a).1.sessions ≡ a.sessions
  unfolding record_login_attempt
  record_login_attempt-sessions bucket valid a = ground arith

  login_verified-Verdict :
      (matches : Result PasswordError Bool) (known : Bool) (id bucket : Bytes) (v : World R)
      → Verdict
          (known && is_true matches)
          id
          v
          (login_verified secrecy fault service matches known id bucket now v)
  login_verified-Verdict (err e) known id bucket v = rejected bad_password refl refl
  login_verified-Verdict (ok b) known id bucket v =
      let (failure, a) = record_login_attempt fault bucket (known && b) now v.accounts in
      let kept = record_login_attempt-sessions bucket (known && b) v.accounts in
      elim (login_recorded-Verdict failure (known && b) id (with_accounts secrecy fault v a)) [
        | accepted tokens row y r rows own ↦
            accepted tokens row y r (rows ∙ ap (λ k. k ++ row ∷ []) kept) own
        | rejected e r same ↦ rejected e r (same ∙ kept)
      ]

  is_true→eq : (r : Result PasswordError Bool) → is_true r ≡ true → r ≡ ok true
  is_true→eq (ok b) h = ap ok h
  is_true→eq (err e) h = absurd (ground arith)

  -- What is known once the operator was looked up.
  data Found (found : Result StoreError Admin) (well_formed : Bool) (v : World R)
      (r : Result AuthError SessionTokens × World R) : Type 0 where
    matched :
        (tokens : SessionTokens) (admin : Admin) (row : Session)
        → found ≡ ok admin
        → well_formed ≡ true
        → verify_password service.primitives admin.password_hash password ≡ ok true
        → r.0 ≡ ok tokens
        → r.1.accounts.sessions ≡ v.accounts.sessions ++ row ∷ []
        → row.admin_id ≡ admin.id
        → Found found well_formed v r
    unmatched :
        (e : AuthError)
        → r.0 ≡ err e
        → r.1.accounts.sessions ≡ v.accounts.sessions
        → Found found well_formed v r

  login_found-Found :
      (found : Result StoreError Admin) (well_formed : Bool) (bucket : Bytes) (v : World R)
      → Found found well_formed v
          (login_found secrecy fault service found well_formed password bucket now v)
  login_found-Found (ok admin) well_formed bucket v =
      elim (login_verified-Verdict (verify_password service.primitives admin.password_hash password)
        well_formed admin.id bucket v) [
          | accepted tokens row y r rows own ↦
              matched tokens admin row refl (ground arith) (is_true→eq _ (ground arith)) r rows own
          | rejected e r same ↦ unmatched e r same
        ]
  login_found-Found (err not_found) well_formed bucket v =
      elim (login_verified-Verdict (verify_password service.primitives service.dummy_hash password)
        false [] bucket v) [
          | accepted tokens row y r rows own ↦ absurd (ground arith)
          | rejected e r same ↦ unmatched e r same
        ]
  login_found-Found (err invalid) well_formed bucket v = unmatched store_failed refl refl
  login_found-Found (err conflict) well_formed bucket v = unmatched store_failed refl refl
  login_found-Found (err statement_failed) well_formed bucket v = unmatched store_failed refl refl
  login_found-Found (err out_of_limits) well_formed bucket v = unmatched store_failed refl refl

  count_recent_failures-keeps :
      (bucket : Bytes) (since : ℕ) (a : Accounts)
      → ((count_recent_failures fault bucket since a).1.sessions ≡ a.sessions)
        × ((count_recent_failures fault bucket since a).1.admins ≡ a.admins)
  unfolding count_recent_failures
  count_recent_failures-keeps bucket since a = (ground arith, ground arith)

  count_recent_failures-ok :
      (bucket : Bytes) (since n : ℕ) (a : Accounts)
      → (count_recent_failures fault bucket since a).0 ≡ ok n
      → length (select (is_recent_failure bucket (since / second)) a.attempts) ≡ n
  unfolding count_recent_failures
  count_recent_failures-ok bucket since n a h = ground arith

  admin_by_username-sessions :
      (name : Bytes) (a : Accounts) → (admin_by_username fault name a).1.sessions ≡ a.sessions
  unfolding admin_by_username
  admin_by_username-sessions name a = ground arith

  admin_by_username-ok :
      (name : Bytes) (admin : Admin) (a : Accounts)
      → (admin_by_username fault name a).0 ≡ ok admin
      → (row : Admin) × (find_admin name a.admins ≡ some row)
        × (row.id ≡ admin.id)
        × (row.password_hash ≡ admin.password_hash)
  unfolding admin_by_username
  admin_by_username-ok name admin a h = elim (Bool-cases (fault a.statements)) [
    | inl down ↦ absurd (ground arith)
    | inr up ↦ elim (Option-cases (find_admin name a.admins)) [
      | inl e ↦ absurd (ground arith)
      | inr (row, e) ↦ (row, e, ground arith, ground arith)
    ]
  ]

  is_some→eq : (name : Option Bytes) → is_some name ≡ true → name ≡ some (name_or_dummy name)
  is_some→eq none h = absurd (ground arith)
  is_some→eq (some name) h = refl

  -- The name that the attempt counts for.
  abbrev name_used : Bytes
  name_used = name_or_dummy (normalize_username username)

  login_counted-Outcome :
      (counted : Result StoreError ℕ) (v : World R)
      → ((n : ℕ) → counted ≡ ok n → recent_failures name_used ≡ n)
      → v.accounts.sessions ≡ w.accounts.sessions
      → v.accounts.admins ≡ w.accounts.admins
      → Outcome (
          login_counted secrecy fault service counted
            (normalize_username username)
            password
            (login_bucket service name_used client)
            now
            v)
  login_counted-Outcome (err e) v count same admins = denied store_failed refl same
  login_counted-Outcome (ok n) v count same admins =
      elim (Bool-cases (leb service.policy.max_failures n)) [
        | inl many ↦ rw many (denied login_throttled refl same)
        | inr few ↦
            let (found, a) = admin_by_username fault name_used v.accounts in
            let kept = admin_by_username-sessions name_used v.accounts ∙ same in
            rw few
              (elim (login_found-Found found (is_some (normalize_username username))
                (login_bucket service name_used client) (with_accounts secrecy fault v a)) [
                  | matched tokens admin row found_is well right r rows own ↦
                      let (stored, at, same_id, same_hash) =
                        admin_by_username-ok name_used admin v.accounts found_is in
                      admitted tokens name_used stored row r (is_some→eq _ well)
                        (ground (arith, count n refl))
                        (subst (λ k. find_admin name_used k ≡ some stored) admins at)
                        (subst (λ k. verify_password service.primitives k password ≡ ok true)
                          (sym same_hash) right)
                        (rows ∙ ap (λ k. k ++ row ∷ []) kept) (own ∙ sym same_id)
                  | unmatched e r rest ↦ denied e r (rest ∙ kept)
                ])
      ]

  -- A login ends in one of two ways. Either it returns tokens: then the user name is a name after
  -- normalization, fewer attempts for it and from this client have failed within the window than the
  -- policy allows, an account of that name has a hash that the password matches, and one session is
  -- added, that account's. Or it returns an error and adds no session.
  pub login-Outcome : Outcome (login secrecy fault service username password client now w)
  unfolding login
  login-Outcome = elim (Bool-cases (is_valid client)) [
    | inr bad ↦ rw bad (denied invalid_credentials refl refl)
    | inl good ↦
        let bucket = login_bucket service name_used client in
        let since = now - service.policy.window in
        let (counted, a) = count_recent_failures fault bucket since w.accounts in
        let (same, admins) = count_recent_failures-keeps bucket since w.accounts in
        rw good (
          login_counted-Outcome counted (with_accounts secrecy fault w a)
            (λ n e. count_recent_failures-ok bucket since n w.accounts e) same admins)
  ]
