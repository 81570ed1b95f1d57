-- ===== src/Auth/Session/Round.antt =====
-- A session from its creation to its end.
use egress_manager.Base.{
  ℕ, ◌+◌, ◌/◌, ◌≡◌, ◌≤◌, ◌<◌, refl, sym, ap, ◌∙◌, Bool, true, false, ◌&&◌, Option, none, some, [],
  ◌∷◌, if◌then◌else◌, Bytes, bytes_eq_refl, eq→bytes_eq, any, any-append, arith,
}
use egress_manager.Effect.{ok, err}
use egress_manager.Database.{not_found, second}
use egress_manager.Database.Accounts.{
  Session, has_token, is_unrevoked, stored_session, loaded_session, find_active, scan_session,
  revoked_rows, active_session, revoke_session,
}
use egress_manager.Auth.Session.{
  Secrecy, invalid_session, World, SessionTokens, hash_encoded, session_of, create_tokens,
  authenticate, verify_csrf, revoke, read_session, revoked_result,
}
use egress_manager.Auth.Session.Issued.{
  Issued, create_tokens-Issued, find_active-append, find_active-revoked, hash_encoded-encode,
}

module _ {R : Type 0} (secrecy : Secrecy R) (fault : ℕ → Bool) where
  authenticate-found :
      (hash encoded : Bytes) (t : ℕ) (v : World R) (o : Option Session)
      → hash_encoded secrecy fault encoded ≡ some hash
      → fault v.accounts.statements ≡ false
      → find_active hash (t / second) v.accounts.sessions ≡ o
      → (authenticate secrecy fault encoded t v).0 ≡ read_session secrecy fault (scan_session o)
  unfolding authenticate active_session
  authenticate-found hash encoded t v o h up f = rw (h, up, f) refl

  revoke_lem :
      (hash encoded : Bytes) (t : ℕ) (v : World R)
      → hash_encoded secrecy fault encoded ≡ some hash
      → fault v.accounts.statements ≡ false
      → let r = revoke secrecy fault encoded t v in
        let present = any (λ s. has_token hash s && is_unrevoked s) v.accounts.sessions in
        (r.0 ≡ revoked_result secrecy fault (if present then none else some not_found))
        × (r.1.accounts.sessions ≡ revoked_rows hash (t / second) v.accounts.sessions)
  unfolding revoke revoke_session
  revoke_lem hash encoded t v h up = rw (h, up) (refl, refl)

  csrf_lem :
      (row : Session) (hash encoded : Bytes)
      → row.csrf_hash ≡ hash
      → hash_encoded secrecy fault encoded ≡ some hash
      → verify_csrf secrecy fault (loaded_session row) encoded ≡ ok tt
  unfolding verify_csrf
  csrf_lem row hash encoded e h = rw h (ground (arith, eq→bytes_eq hash row.csrf_hash (sym e)))

  -- What becomes of a session: it is admitted with its CSRF token before it expires and not
  -- afterwards, it can be revoked, and then it is not admitted.
  pub record RoundTrip (admin_id : Bytes) (live late : ℕ) (after : World R) (tokens : SessionTokens)
      : Type 0 where
    pub session : Session
    pub admitted : (authenticate secrecy fault tokens.session_token live after).0 ≡ ok session
    pub is_of_admin : session.admin_id ≡ admin_id
    pub csrf_accepted : verify_csrf secrecy fault session tokens.csrf_token ≡ ok tt
    pub expired :
        (authenticate secrecy fault tokens.session_token late after).0 ≡ err invalid_session
    pub revoked : (revoke secrecy fault tokens.session_token live after).0 ≡ ok tt
    pub locked_out :
        (authenticate secrecy fault tokens.session_token live
          (revoke secrecy fault tokens.session_token live after).1).0
        ≡ err invalid_session

  module _ (up : (n : ℕ) → fault n ≡ false) (lifetime : ℕ) (admin_id : Bytes) (now live late : ℕ)
      (w after : World R) (tokens : SessionTokens)
      (before : live / second < (now + lifetime) / second)
      (over : (now + lifetime) / second ≤ late / second) where
    Issued-RoundTrip :
        Issued secrecy fault lifetime admin_id now w after tokens
        → RoundTrip admin_id live late after tokens
    unfolding find_active
    Issued-RoundTrip i =
        let hash = secrecy.sha256 i.token_secret in
        let row = stored_session (
          session_of secrecy fault hash (secrecy.sha256 i.csrf_secret) admin_id now
            (now + lifetime)) in
        let encoded : hash_encoded secrecy fault tokens.session_token ≡ some hash =
          ap (λ k. hash_encoded secrecy fault k.session_token) i.tokens_are
          ∙ hash_encoded-encode secrecy fault i.token_secret i.token_length in
        let found : (t : ℕ)
            → find_active hash t after.accounts.sessions ≡ find_active hash t (row ∷ []) =
          λ t.
            ap (find_active hash t) i.row_added
            ∙ find_active-append hash t row w.accounts.sessions i.is_new in
        let admitted : find_active hash (live / second) (row ∷ []) ≡ some row =
          ground (arith, bytes_eq_refl hash, before) in
        let expired : find_active hash (late / second) (row ∷ []) ≡ none = ground (arith, over) in
        let csrf_encoded : hash_encoded secrecy fault tokens.csrf_token
            ≡ some (secrecy.sha256 i.csrf_secret) =
          ap (λ k. hash_encoded secrecy fault k.csrf_token) i.tokens_are
          ∙ hash_encoded-encode secrecy fault i.csrf_secret i.csrf_length in
        let present : any (λ s. has_token hash s && is_unrevoked s) after.accounts.sessions ≡ true =
          ap (any (λ s. has_token hash s && is_unrevoked s)) i.row_added
          ∙ any-append (λ s. has_token hash s && is_unrevoked s) w.accounts.sessions (row ∷ [])
          ∙ ground (arith, bytes_eq_refl hash) in
        record {
          session = loaded_session row;
          admitted =
              authenticate-found hash tokens.session_token live after (some row) encoded (up _)
                (found (live / second) ∙ admitted)
              ∙ rw (secrecy.length-sha256 i.token_secret, secrecy.length-sha256 i.csrf_secret) refl;
          is_of_admin = refl;
          csrf_accepted =
              csrf_lem row (secrecy.sha256 i.csrf_secret) tokens.csrf_token refl csrf_encoded;
          expired =
              authenticate-found hash tokens.session_token late after none encoded (up _)
                (found (late / second) ∙ expired);
          revoked =
              (revoke_lem hash tokens.session_token live after encoded (up _)).0
              ∙ ap (λ b. revoked_result secrecy fault (if b then none else some not_found)) present;
          locked_out = authenticate-found hash tokens.session_token live _ none encoded (up _) (
              ap (find_active hash (live / second))
                (revoke_lem hash tokens.session_token live after encoded (up _)).1
              ∙ find_active-revoked hash (live / second) (live / second) after.accounts.sessions);
        }

    -- A session that was created, with a database that refuses no statement, is admitted with its
    -- tokens as one of its operator at a second before the one it expires in, is refused from that
    -- second on, can be revoked, and is refused when it was revoked.
    pub create_tokens-RoundTrip :
        create_tokens secrecy fault lifetime admin_id now w ≡ (ok tokens, after)
        → RoundTrip admin_id live late after tokens
    create_tokens-RoundTrip created =
        Issued-RoundTrip
          (create_tokens-Issued secrecy fault lifetime admin_id now w after tokens created)
