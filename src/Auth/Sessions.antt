-- ===== src/Auth/Sessions.antt =====
-- Whom `authenticate` of apps/backend/src/services/auth.service.ts takes a user to be.
use event_media_platform.Prelude.{
  ℕ, ◌≡◌, refl, sym, ap, ◌∙◌, inl, inr, Bool, true, false, not, ◌&&◌, List, [], ◌∷◌, Option, none,
  some, arith, ◌==◌, ==_refl, find, any, Bool-cases, Option-cases,
}
use event_media_platform.Prelude.{find_holds}
use event_media_platform.Prelude.Result.{Result, ok, throws}
use event_media_platform.Auth.Rows.{
  OrgRole, User, Session, Db, get_by_token_hash, get_by_token, get_user, is_live,
}
use event_media_platform.Auth.Guard.{
  Crypto, AuthDto, AuthenticateRequest, is_empty, gallery_token, extract_session_token,
  session_auth, validate, verify_org_role, is_participant, check_role, check_user, authenticate,
}

-- The session has the user, is not over, and its row carries the hash of the request's token.
abbrev pub IsSignedIn : Crypto → ℕ → AuthenticateRequest → Db → User → Session → Type 0
IsSignedIn c now r db u s =
    (s.user_id ≡ u.id)
    × (u.deleted ≡ false)
    × (is_live now s ≡ true)
    × ((token : List ℕ) × (extract_session_token c r ≡ some token)
        × (s.token ≡ c.hash_sha256 token)
        × (any (λ t. t.id == s.id && t.token == c.hash_sha256 token) db.sessions ≡ true))

any-found :
    (p q : Session → Bool) (rows : List Session) (s : Session)
    → find p rows ≡ some s
    → q s ≡ true
    → any q rows ≡ true
any-found p q [] s h e = cc
any-found p q (t ∷ rows) s h e = elim (Bool-cases (p t)) [
  | inl b ↦ ground arith
  | inr b ↦ ground (arith, any-found p q rows s)
]

-- What session_auth finds.
abbrev Found : Crypto → ℕ → AuthenticateRequest → Db → AuthDto → Type 0
Found c now r db auth =
    (u : User)
    → auth.user ≡ some u
    → (s : Session) × (auth.session ≡ some s) × IsSignedIn c now r db u s

module _ (c : Crypto) (now : ℕ) (r : AuthenticateRequest) (db : Db) where
  get_by_token-lem :
      (hash : ℕ) (s : Session) (u : User)
      → get_by_token now hash db ≡ some (s, u)
      → (s.user_id ≡ u.id)
        × (u.deleted ≡ false)
        × (is_live now s ≡ true)
        × (s.token ≡ hash)
        × (any (λ t. t.id == s.id && t.token == hash) db.sessions ≡ true)
  unfolding get_by_token get_user
  get_by_token-lem hash s u h =
      elim (Option-cases (find (λ s. s.token == hash && is_live now s) db.sessions)) [
        | inl e ↦ cc (rw (e, get_by_token) at h)
        | inr (t, e) ↦ elim (Option-cases (get_user t.user_id db)) [
          | inl f ↦ cc (rw (e, get_by_token, f) at h)
          | inr (v, f) ↦
              let same = rw (e, get_by_token, f) at h in
              let live = find_holds (λ s. s.token == hash && is_live now s) db.sessions {x = t} e in
              let known = find_holds (λ u. u.id == t.user_id && not u.deleted) db.users {x = v} f in
              let there =
                any-found (λ s. s.token == hash && is_live now s)
                  (λ x. x.id == t.id && x.token == hash) db.sessions t e
                  (ground (arith, ==_refl t.id)) in
              let row : t ≡ s = ap (λ o. elim o [ none ↦ t | some p ↦ p.0 ]) same in
              let holder : v ≡ u = ap (λ o. elim o [ none ↦ v | some p ↦ p.1 ]) same in
              rw (sym row, sym holder)
                (ground arith, ground arith, ground (arith, live), ground arith, there)
        ]
      ]

  session_auth-Found : Found c now r db (session_auth c now r db)
  unfolding session_auth
  session_auth-Found u h = elim (Option-cases (extract_session_token c r)) [
    | inl e ↦ cc (rw (e, session_auth) at h)
    | inr (token, e) ↦ elim (Option-cases (get_by_token now (c.hash_sha256 token) db)) [
      | inl f ↦ cc (rw (e, session_auth, f) at h)
      | inr (found, f) ↦
          let same : found.1 ≡ u =
            ap (λ o. elim o [ none ↦ u | some x ↦ x ]) (rw (e, session_auth, f) at h) in
          let known = get_by_token-lem (c.hash_sha256 token) found.0 found.1 f in
          rw (e, session_auth)
            (rw f (
              found.0,
              refl,
              (
                known.0 ∙ ap (λ u. u.id) same,
                ap (λ u. u.deleted) (sym same) ∙ known.1,
                known.2,
                (token, refl, known.3, known.4),
              ),
            ))
    ]
  ]

  validate-Found : Found c now r db (validate c now r db)
  unfolding validate
  validate-Found u h = elim (Bool-cases (is_empty (gallery_token r))) [
    | inl t ↦ rw (t, validate) (session_auth-Found u (rw (t, validate) at h))
    | inr t ↦ elim (Option-cases (get_by_token_hash (c.hash_sha256 (gallery_token r)) db)) [
      | inl e ↦ rw (t, validate) (rw e (session_auth-Found u (rw (t, validate, e) at h)))
      | inr (p, e) ↦ cc (rw (t, validate, e) at h)
    ]
  ]

  check_role-same :
      (auth auth' : AuthDto) (u : User) (o : Option OrgRole)
      → check_role r db auth u o ≡ ok auth'
      → auth ≡ auth'
  unfolding check_role
  check_role-same auth auth' u none h = ap (λ x. elim x [ ok a ↦ a | throws e ↦ auth ]) h
  check_role-same auth auth' u (some required) h =
      go (verify_org_role u required r.org_id r.event_id r.options.allow_super_admin db) refl
    where
      go :
          (v : Result (Unit {0}))
          → verify_org_role u required r.org_id r.event_id r.options.allow_super_admin db ≡ v
          → auth ≡ auth'
      go (throws x) e = cc (rw (e, check_role) at h)
      go (ok t) e = ap (λ x. elim x [ ok a ↦ a | throws e ↦ auth ]) (rw (e, check_role) at h)

  check_user-same :
      (auth auth' : AuthDto) (u : Option User) → check_user r db auth u ≡ ok auth' → auth ≡ auth'
  unfolding check_user
  check_user-same auth auth' none h = cc
  check_user-same auth auth' (some u) h =
      elim (Bool-cases (r.options.super_admin && not u.is_super_admin)) [
        | inl e ↦ cc (rw (e, check_user) at h)
        | inr e ↦ check_role-same auth auth' u r.options.org_role (rw (e, check_user) at h)
      ]

  -- Whom a request is let through as holds a session that is not over, whose row carries the hash of
  -- the request's own token, and is not deleted.
  pub authenticated-IsSignedIn :
      (auth : AuthDto) (u : User)
      → authenticate c now r db ≡ ok auth
      → auth.user ≡ some u
      → (s : Session) × (auth.session ≡ some s) × IsSignedIn c now r db u s
  unfolding authenticate
  authenticated-IsSignedIn auth u h e =
      elim (Bool-cases (r.options.participant && is_participant (validate c now r db))) [
        | inl t ↦ go (ap (λ x. elim x [ ok a ↦ a | throws e ↦ auth ]) (rw (t, authenticate) at h))
        | inr t ↦ go (
            check_user-same (validate c now r db) auth (validate c now r db).user
              (rw (t, authenticate) at h))
      ]
    where
      go :
          validate c now r db ≡ auth
          → (s : Session) × (auth.session ≡ some s) × IsSignedIn c now r db u s
      go same =
          let found = validate-Found u (ap (λ a. a.user) same ∙ e) in
          (found.0, ap (λ a. a.session) (sym same) ∙ found.1, found.2)
