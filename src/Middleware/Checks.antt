-- ===== src/Middleware/Checks.antt =====
-- What a request has passed when internal/api/middleware/auth.go lets it through, mode by mode.
use go_mpc_vault.Prelude.{
  ℕ, suc, ◌+◌, ◌≤◌, String, Bool, true, false, none, some, ◌≡◌, refl, ◌⊎◌, Bool-cases, arith,
  Option-cases, inl, inr, leb, if◌then◌else◌,
}
use go_mpc_vault.Errors.{Result, ok, err}
use go_mpc_vault.Exec.{Env, World, pure, raise, guard, attempt, now, next, wall_now, ◌>>=◌}
use go_mpc_vault.Auth.{User}
use go_mpc_vault.Middleware.{
  AuthConfig, AuthResult, Request, needs_token, is_try, is_secure, check_last_authenticated_at,
  check_user_scopes, check_user, admit, check_expiry, validated, authenticate, authorize, enrich,
  skipped, validate, presented, well_formed,
}

-- The user has authenticated recently, at answer `n`.
abbrev recent : Env → User → ℕ → Bool
recent env user n = elim user.last_authenticated_at [
  | none ↦ false
  | some time ↦ leb (env.wall n) (time + env.config.last_authenticated_at_threshold)
]

-- The user has one of the scopes and, in the secure mode, has authenticated recently, as seen from
-- answer `n`.
abbrev pub Checked : Env → AuthConfig → User → ℕ → Type 0
Checked env config user n =
    (check_user_scopes config.scopes user ≡ true)
    × ((is_secure config.mode ≡ false) ⊎ (recent env user n ≡ true))

-- The answer that the user's last authentication is compared with: the one after the expiry of the
-- token was compared, where it has one.
abbrev pub checked_at : AuthResult → ℕ → ℕ
checked_at res n = if leb res.valid_until 0 then n else suc n

module _ (env : Env) (config : AuthConfig) (c : Request) where
  check_user_scoped :
      (user : User) (w : World)
      → (check_user env config user w).0 ≡ ok tt
      → check_user_scopes config.scopes user ≡ true
  unfolding check_user check_last_authenticated_at guard pure wall_now ◌>>=◌
  check_user_scoped user w h = ground arith

  check_user-recent :
      (user : User) (w : World)
      → (check_user env config user w).0 ≡ ok tt
      → (is_secure config.mode ≡ false) ⊎ (recent env user w.asked ≡ true)
  unfolding check_user check_last_authenticated_at guard pure wall_now ◌>>=◌
  check_user-recent user w h = ground arith

  check_user_ok :
      (user : User) (w : World)
      → (check_user env config user w).0 ≡ ok tt
      → Checked env config user w.asked
  check_user_ok user w h = (check_user_scoped user w h, check_user-recent user w h)

  -- What a request gains from a valid token.
  abbrev Gains : AuthResult → ℕ → Request → Type 0
  Gains res n c' = (c' ≡ enrich c res) × (res.user.is_active ≡ true) × Checked env config res.user n

  admit_ok :
      (res : AuthResult) (w : World) (c' : Request)
      → (admit env config c res w).0 ≡ ok c'
      → Gains res w.asked c'
  unfolding admit guard pure ◌>>=◌
  admit_ok res w c' h = (ground arith, ground arith, check_user_ok res.user w (ground arith))

  check_expiry_ok :
      (res : AuthResult) (w : World) (c' : Request)
      → is_try config.mode ≡ false
      → (check_expiry env config c res w).0 ≡ ok c'
      → Gains res (checked_at res w.asked) c'
        × ((res.valid_until ≡ 0) ⊎ (env.clock w.asked ≤ res.valid_until))
  unfolding check_expiry now pure raise ◌>>=◌
  check_expiry_ok res w c' strict h = elim (Bool-cases (leb res.valid_until 0)) [
    | inl e ↦ (rw e (admit_ok res w c' (ground arith)), ground arith)
    | inr e ↦ (rw e (admit_ok res (next w) c' (ground arith)), ground arith)
  ]

  validated_ok :
      (r : Result AuthResult) (w : World) (c' : Request)
      → is_try config.mode ≡ false
      → (validated env config c r w).0 ≡ ok c'
      → (res : AuthResult) × (r ≡ ok res) × ((check_expiry env config c res w).0 ≡ ok c')
  unfolding validated raise
  validated_ok (ok res) w c' strict h = (res, refl, h)
  validated_ok (err e) w c' strict h = absurd (ground arith)

  -- What stands behind a request that a mode with a token needed lets through: the user of an earlier
  -- check, or a well-formed token that the validator knows and that has not expired.
  abbrev pub Authenticated : (String → Bool) → World → Request → Type 0
  Authenticated is_uuid4 w c' =
      ((user : User) × (c.user ≡ some user) × (c' ≡ c) × Checked env config user w.asked)
      ⊎ ((res : AuthResult) × (well_formed is_uuid4 config (presented config c).0 ≡ true)
          × ((validate env config c (presented config c).0 w).0 ≡ ok res)
          × ((res.valid_until ≡ 0)
              ⊎ (env.clock (validate env config c (presented config c).0 w).1.asked
                  ≤ res.valid_until))
          × Gains res (checked_at res (validate env config c (presented config c).0 w).1.asked) c')

  module _ (is_uuid4 : String → Bool) where
    authenticate_ok :
        (w : World) (c' : Request)
        → needs_token config.mode ≡ true
        → (authenticate env is_uuid4 config c w).0 ≡ ok c'
        → (well_formed is_uuid4 config (presented config c).0 ≡ true)
          × ((validated env config c
                (validate env config c (presented config c).0 w).0
                (validate env config c (presented config c).0 w).1).0
              ≡ ok c')
    unfolding authenticate attempt raise pure ◌>>=◌
    authenticate_ok w c' strict h = ground arith

    not_try : needs_token config.mode ≡ true → is_try config.mode ≡ false
    not_try strict = ground arith

    authenticate_sound :
        (w : World) (c' : Request)
        → needs_token config.mode ≡ true
        → (authenticate env is_uuid4 config c w).0 ≡ ok c'
        → Authenticated is_uuid4 w c'
    authenticate_sound w c' strict h =
        let (formed, valid) = authenticate_ok w c' strict h in
        let (res, known, live) =
          validated_ok (validate env config c (presented config c).0 w).0
            (validate env config c (presented config c).0 w).1 c' (not_try strict) valid in
        let (gains, until) =
          check_expiry_ok res (validate env config c (presented config c).0 w).1 c' (not_try strict)
            live in
        inr (res, formed, known, until, gains)

    -- In the modes that need a token, a request that is not skipped is let through only for a user who
    -- has one of the scopes and, in the secure mode, has authenticated recently. Either an earlier
    -- check has put that user there, or the request presents a well-formed token that the validator
    -- knows, that has not expired, and whose user is active; then it carries their credentials.
    pub authorize_sound :
        (w : World) (c' : Request)
        → needs_token config.mode ≡ true
        → skipped config c ≡ false
        → (authorize env is_uuid4 config c w).0 ≡ ok c'
        → Authenticated is_uuid4 w c'
    unfolding authorize pure ◌>>=◌
    authorize_sound w c' strict kept h = elim (Option-cases c.user) [
      | inl e ↦ authenticate_sound w c' strict (ground arith)
      | inr (user, e) ↦ inl (user, e, ground arith, check_user_ok user w (ground arith))
    ]
