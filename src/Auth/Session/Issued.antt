-- ===== src/Auth/Session/Issued.antt =====
-- The rows that `SessionManager.Create` adds, and how rows are found and revoked.
use egress_manager.Base.{
  ℕ, ◌+◌, ◌≡◌, refl, ap, subst, Bool, true, false, ◌&&◌, Option, none, some, List, [], ◌∷◌, ◌++◌,
  if◌then◌else◌, Bytes, any, length, arith, Bool-cases, Option-cases, inl, inr,
}
use egress_manager.Effect.{Result, ok, err}
use egress_manager.Database.{StoreError, conflict, statement_failed}
use egress_manager.Database.Accounts.{
  Session, Accounts, has_token, is_unrevoked, is_active, session_fits, stored_session, find_active,
  revoked_rows, create_session,
}
use egress_manager.Auth.Session.{
  Secrecy, AuthError, no_randomness, store_failed, World, SessionTokens, new_secret, hash_encoded,
  session_of, persist, second_secret, create_tokens,
}

-- A fresh row behind the others is the one that is found by its token.
pub find_active-append :
    (hash : Bytes) (now : ℕ) (s : Session) (sessions : List Session)
    → any (has_token hash) sessions ≡ false
    → find_active hash now (sessions ++ s ∷ []) ≡ find_active hash now (s ∷ [])
unfolding find_active
find_active-append hash now s [] h = refl
find_active-append hash now s (x ∷ sessions) h =
    ground (arith, find_active-append hash now s sessions)

-- After a revocation none is active.
pub find_active-revoked :
    (hash : Bytes) (now at : ℕ) (sessions : List Session)
    → find_active hash now (revoked_rows hash at sessions) ≡ none
unfolding find_active revoked_rows
find_active-revoked hash now at [] = refl
find_active-revoked hash now at (s ∷ sessions) =
    gone (has_token hash s) (is_unrevoked s) refl refl (find_active-revoked hash now at sessions)
  where
    gone :
        (b c : Bool)
        → has_token hash s ≡ b
        → is_unrevoked s ≡ c
        → find_active hash now (revoked_rows hash at sessions) ≡ none
        → let row = if b && c then record s { revoked_at = some at } else s in
          (if is_active hash now row
            then some row
            else find_active hash now (revoked_rows hash at sessions))
          ≡ none
    gone true true e f h = ground (arith, h)
    gone true false e f h = ground (arith, h)
    gone false c e f h = ground (arith, h)

-- What the insertion of a session does.
data Made (s : Session) (a : Accounts) (r : Option StoreError × Accounts) : Type 0 where
  not_made : (e : StoreError) → r.0 ≡ some e → r.1.sessions ≡ a.sessions → Made s a r
  made :
      r.0 ≡ none
      → session_fits (stored_session s) a ≡ true
      → r.1.sessions ≡ a.sessions ++ stored_session s ∷ []
      → Made s a r

create_session-Made :
    (fault : ℕ → Bool) (s : Session) (a : Accounts) → Made s a (create_session fault s a)
unfolding create_session
create_session-Made fault s a = elim (Bool-cases (fault a.statements)) [
  | inl down ↦ rw down (not_made statement_failed refl refl)
  | inr up ↦ rw up (elim (Bool-cases (session_fits (stored_session s) a)) [
    | inl fits ↦ rw fits (made refl fits refl)
    | inr unfit ↦ rw unfit (not_made conflict refl refl)
  ])
]

module _ {R : Type 0} (secrecy : Secrecy R) (fault : ℕ → Bool) where
  pub hash_encoded-encode :
      (secret : Bytes)
      → length secret ≡ 32
      → hash_encoded secrecy fault (secrecy.encode secret) ≡ some (secrecy.sha256 secret)
  unfolding hash_encoded
  hash_encoded-encode secret h = rw (secrecy.decode-encode secret, h) refl

  -- What was stored for two secrets.
  record Persisted (lifetime : ℕ) (admin_id : Bytes) (now : ℕ) (o p : Option (Bytes × Bytes))
      (w after : World R) (tokens : SessionTokens) : Type 0 where
    token : Bytes
    token_hash : Bytes
    csrf : Bytes
    csrf_hash : Bytes
    first : o ≡ some (token, token_hash)
    second_is : p ≡ some (csrf, csrf_hash)
    issued_is :
        tokens ≡ record { session_token = token; csrf_token = csrf; expires_at = now + lifetime }
    fitting :
        session_fits
          (stored_session
            (session_of secrecy fault token_hash csrf_hash admin_id now (now + lifetime)))
          w.accounts
        ≡ true
    row_added :
        after.accounts.sessions
        ≡ w.accounts.sessions
          ++ stored_session
              (session_of secrecy fault token_hash csrf_hash admin_id now (now + lifetime))
            ∷ []

  secret_pair-some :
      (r : R) (token hash : Bytes)
      → (new_secret secrecy fault r).0 ≡ some (token, hash)
      → (secret : Bytes) × (length secret ≡ 32)
        × (token ≡ secrecy.encode secret)
        × (hash ≡ secrecy.sha256 secret)
  secret_pair-some r token hash h = elim (Option-cases (secrecy.draw r).0) [
    | inl e ↦ absurd (ground arith)
    | inr (secret, e) ↦ (secret, secrecy.length-draw r secret e, ground (arith), ground arith)
  ]

  persist-row :
      (lifetime : ℕ) (admin_id : Bytes) (now : ℕ) (o p : Option (Bytes × Bytes)) (w after : World R)
      (tokens : SessionTokens)
      → persist secrecy fault admin_id now lifetime o p w ≡ (ok tokens, after)
      → Persisted lifetime admin_id now o p w after tokens
  persist-row lifetime admin_id now none p w after tokens h =
      absurd (ground (arith, ap (λ x. x.0) h))
  persist-row lifetime admin_id now (some t) none w after tokens h =
      absurd (ground (arith, ap (λ x. x.0) h))
  persist-row lifetime admin_id now (some (token, hash)) (some (csrf, csrf_hash)) w after tokens h =
      let s = session_of secrecy fault hash csrf_hash admin_id now (now + lifetime) in
      elim (create_session-Made fault s w.accounts) [
        | not_made e r same ↦ absurd (ground (arith, r, ap (λ x. x.0) h))
        | made r fits rows ↦ record {
          token = token;
          token_hash = hash;
          csrf = csrf;
          csrf_hash = csrf_hash;
          first = refl;
          second_is = refl;
          issued_is = ground (arith, r, ap (λ x. x.0) h);
          fitting = fits;
          row_added =
              subst (λ v. v.accounts.sessions ≡ w.accounts.sessions ++ stored_session s ∷ [])
                (ap (λ x. x.1) h) rows;
        }
      ]

  -- What `Create` leaves: the tokens of two secrets, and a row for them behind the others.
  pub record Issued (lifetime : ℕ) (admin_id : Bytes) (now : ℕ) (w after : World R)
      (tokens : SessionTokens) : Type 0 where
    pub token_secret : Bytes
    pub csrf_secret : Bytes
    pub token_length : length token_secret ≡ 32
    pub csrf_length : length csrf_secret ≡ 32
    pub tokens_are : tokens ≡ record {
      session_token = secrecy.encode token_secret;
      csrf_token = secrecy.encode csrf_secret;
      expires_at = now + lifetime;
    }
    pub is_new : any (has_token (secrecy.sha256 token_secret)) w.accounts.sessions ≡ false
    pub row_added :
        after.accounts.sessions
        ≡ w.accounts.sessions
          ++ stored_session (
              session_of secrecy fault
                (secrecy.sha256 token_secret)
                (secrecy.sha256 csrf_secret)
                admin_id
                now
                (now + lifetime))
            ∷ []

  pub create_tokens-Issued :
      (lifetime : ℕ) (admin_id : Bytes) (now : ℕ) (w after : World R) (tokens : SessionTokens)
      → create_tokens secrecy fault lifetime admin_id now w ≡ (ok tokens, after)
      → Issued lifetime admin_id now w after tokens
  unfolding create_tokens
  create_tokens-Issued lifetime admin_id now w after tokens h =
      let r1 = (new_secret secrecy fault w.random).1 in
      let first_drawn = (new_secret secrecy fault w.random).0 in
      let q =
        persist-row lifetime admin_id now first_drawn (second_secret secrecy fault first_drawn r1).0
          (record w { random = (second_secret secrecy fault first_drawn r1).1 }) after tokens h in
      let next =
        subst (λ o. (second_secret secrecy fault o r1).0 ≡ some (q.csrf, q.csrf_hash)) q.first
          q.second_is in
      let (token_secret, token_length, token_is, token_hash_is) =
        secret_pair-some w.random q.token q.token_hash q.first in
      let (csrf_secret, csrf_length, csrf_is, csrf_hash_is) =
        secret_pair-some r1 q.csrf q.csrf_hash next in
      record {
        token_secret = token_secret;
        csrf_secret = csrf_secret;
        token_length = token_length;
        csrf_length = csrf_length;
        tokens_are = cc (q.issued_is, token_is, csrf_is);
        is_new =
            subst (λ k. any (has_token k) w.accounts.sessions ≡ false) token_hash_is
              (ground (arith, q.fitting));
        row_added = cc (q.row_added, token_hash_is, csrf_hash_is);
      }

  -- How `Create` ends: with tokens and a row for the operator, or with an error and no row.
  pub data Ending (admin_id : Bytes) (w : World R) (r : Result AuthError SessionTokens × World R)
      : Type 0 where
    issued :
        (tokens : SessionTokens) (row : Session)
        → r.0 ≡ ok tokens
        → r.1.accounts.sessions ≡ w.accounts.sessions ++ row ∷ []
        → row.admin_id ≡ admin_id
        → Ending admin_id w r
    failed :
        (e : AuthError)
        → r.0 ≡ err e
        → r.1.accounts.sessions ≡ w.accounts.sessions
        → Ending admin_id w r

  persist-Ending :
      (lifetime : ℕ) (admin_id : Bytes) (now : ℕ) (o p : Option (Bytes × Bytes)) (w : World R)
      → Ending admin_id w (persist secrecy fault admin_id now lifetime o p w)
  persist-Ending lifetime admin_id now none p w = failed no_randomness refl refl
  persist-Ending lifetime admin_id now (some t) none w = failed no_randomness refl refl
  persist-Ending lifetime admin_id now (some (token, hash)) (some (csrf, csrf_hash)) w =
      let s = session_of secrecy fault hash csrf_hash admin_id now (now + lifetime) in
      elim (create_session-Made fault s w.accounts) [
        | not_made e r same ↦ failed store_failed (rw r refl) same
        | made r fits rows ↦
            issued
              (record { session_token = token; csrf_token = csrf; expires_at = now + lifetime })
              (stored_session s) (rw r refl) rows refl
      ]

  pub create_tokens-Ending :
      (lifetime : ℕ) (admin_id : Bytes) (now : ℕ) (w : World R)
      → Ending admin_id w (create_tokens secrecy fault lifetime admin_id now w)
  unfolding create_tokens
  create_tokens-Ending lifetime admin_id now w =
      elim (persist-Ending lifetime admin_id now (new_secret secrecy fault w.random).0
        (second_secret secrecy fault (new_secret secrecy fault w.random).0
          (new_secret secrecy fault w.random).1).0
        (record w {
          random =
              (second_secret secrecy fault (new_secret secrecy fault w.random).0
                (new_secret secrecy fault w.random).1).1;
        })) [
          | issued tokens row r rows own ↦ issued tokens row r rows own
          | failed e r same ↦ failed e r same
        ]
