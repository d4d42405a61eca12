-- ===== src/Push/Tokens.antt =====
-- SendToUser of internal/push/service.go: which tokens it deletes, and which it leaves.
use go_mpc_vault.Prelude.{
  ℕ, String, Bool, true, false, not, ◌&&◌, ◌||◌, Option, List, [], ◌∷◌, ◌++◌, ◌≡◌, refl, arith, map,
  any, All, rows_where, delete_where, ◌==◌, eq_iff, eq_refl, inl, inr, Bool-cases,
}
use go_mpc_vault.Prelude.Tables.{any-delete_where}
use go_mpc_vault.Errors.{ok}
use go_mpc_vault.Data.UserTables.{PushToken}
use go_mpc_vault.Exec.{Env, World, pure, raise, guard, map_error, select, write, next, ◌>>=◌}
use go_mpc_vault.Auth.{User}
use go_mpc_vault.Push.{
  SendMessageRequest, SendError, Provider, provider_type, invalid_tokens, is_registered, is_one_of,
  delete_tokens, send_by, send_by_all, send_to_user,
}
use go_mpc_vault.Push.Answers.{Finds, send_all-Answers}

rows_where-delete_where_apart :
    {A : Type 0} (q p : A → Bool) (rows : List A)
    → ((x : A) → q x ≡ true → p x ≡ false)
    → rows_where q (delete_where p rows) ≡ rows_where q rows
rows_where-delete_where_apart q p [] apart = refl
rows_where-delete_where_apart q p (x ∷ rows) apart =
    ground (arith, rows_where-delete_where_apart q p rows apart, apart x)

-- The token rows of other users, and the rows with this token.
abbrev pub is_spared : String → String → PushToken → Bool
is_spared uid token t = not (t.user_id == uid) || t.token == token

abbrev pub is_registered_as : String → String → String → PushToken → Bool
is_registered_as provider uid token t = is_registered provider uid t && t.token == token

-- The token rows of other users.
abbrev pub is_of_another : String → PushToken → Bool
is_of_another uid t = not (t.user_id == uid)

others_apart :
    (uid : String) (tokens : List String) (t : PushToken)
    → is_of_another uid t ≡ true
    → is_one_of tokens uid t ≡ false
others_apart uid tokens t s = ground arith

spared_apart :
    (uid token : String) (tokens : List String)
    → any (λ k. token == k) tokens ≡ false
    → (t : PushToken) → is_spared uid token t ≡ true
    → is_one_of tokens uid t ≡ false
spared_apart uid token tokens h t s = ground (arith, eq_iff t.token token)

-- A registered token is among those that are asked for, and is gone if it is among the invalid ones.
caught_gone :
    (provider uid token : String) (tokens : List String) (rows : List PushToken)
    → (any (λ k. token == k) (map (λ t. t.token) (rows_where (is_registered provider uid) rows))
          ≡ true
        → any (λ k. token == k) tokens ≡ true)
    → any (is_registered_as provider uid token) (delete_where (is_one_of tokens uid) rows) ≡ false
caught_gone provider uid token tokens rows h = elim (Bool-cases (any (λ k. token == k) tokens)) [
  | inl e ↦ all_gone rows e
  | inr e ↦
      any-delete_where (is_registered_as provider uid token) (is_one_of tokens uid) rows
        (none_there rows (ground arith))
]
  where
    all_gone :
        (xs : List PushToken)
        → any (λ k. token == k) tokens ≡ true
        → any (is_registered_as provider uid token) (delete_where (is_one_of tokens uid) xs) ≡ false
    all_gone [] e = refl
    all_gone (x ∷ xs) e = ground (arith, all_gone xs e, eq_iff x.token token)

    none_there :
        (xs : List PushToken)
        → any (λ k. token == k) (map (λ t. t.token) (rows_where (is_registered provider uid) xs))
          ≡ false
        → any (is_registered_as provider uid token) xs ≡ false
    none_there [] e = refl
    none_there (x ∷ xs) e = ground (arith, none_there xs, eq_iff x.token token, eq_refl token)

module _ (env : Env) (transport : ℕ → SendMessageRequest → Option SendError) where
  module _ (user : User) (title body : String) where
    -- What one provider's turn does to the tokens of a user.
    record Turn (p : Provider) (w : World) : Type 0 where
      spared :
          (token : String)
          → Finds env transport true token p
          → rows_where
              (is_spared user.id token)
              (send_by env transport user title body p w).1.base.accounts.push_tokens
            ≡ rows_where (is_spared user.id token) w.base.accounts.push_tokens
      others :
          rows_where
            (is_of_another user.id)
            (send_by env transport user title body p w).1.base.accounts.push_tokens
          ≡ rows_where (is_of_another user.id) w.base.accounts.push_tokens
      fewer :
          (q : PushToken → Bool)
          → any q w.base.accounts.push_tokens ≡ false
          → any q (send_by env transport user title body p w).1.base.accounts.push_tokens ≡ false
      caught :
          (token : String)
          → Finds env transport false token p
          → (send_by env transport user title body p w).0 ≡ ok tt
          → any
              (is_registered_as (provider_type p) user.id token)
              (send_by env transport user title body p w).1.base.accounts.push_tokens
            ≡ false

    send_by-Turn : (p : Provider) (w : World) → Turn p w
    unfolding send_by select write map_error delete_tokens ◌>>=◌
    send_by-Turn p w =
        let rows =
          rows_where (is_registered (provider_type p) user.id) w.base.accounts.push_tokens in
        let m = send_all-Answers env transport p (map (λ t. t.token) rows) title body (next w) in
        let tokens = invalid_tokens m.responses in
        let table = w.base.accounts.push_tokens in
        record {
          spared = λ token h. ground (
            arith,
            m.answer,
            m.base,
            rows_where-delete_where_apart (is_spared user.id token) (is_one_of tokens user.id) table
                (spared_apart user.id token tokens (m.spared token h)),
          );
          others = ground (
            arith,
            m.answer,
            m.base,
            rows_where-delete_where_apart (is_of_another user.id) (is_one_of tokens user.id) table
                (others_apart user.id tokens),
          );
          fewer = λ q h.
              ground
                (arith, m.answer, m.base, any-delete_where q (is_one_of tokens user.id) table h);
          caught = λ token h done. ground (
            arith,
            m.answer,
            m.base,
            caught_gone (provider_type p) user.id token tokens table (m.caught token h),
          );
        }

    loop_spares :
        (ps : List Provider) (token : String) (w : World)
        → All (Finds env transport true token) ps
        → rows_where
            (is_spared user.id token)
            (send_by_all env transport user title body ps w).1.base.accounts.push_tokens
          ≡ rows_where (is_spared user.id token) w.base.accounts.push_tokens
    unfolding send_by_all pure ◌>>=◌
    loop_spares [] token w h = refl
    loop_spares (p ∷ ps) token w h =
        let w' = (send_by env transport user title body p w).1 in
        ground (arith, (send_by-Turn p w).spared token h.0, loop_spares ps token w' h.1)

    loop_others :
        (ps : List Provider) (w : World)
        → rows_where
            (is_of_another user.id)
            (send_by_all env transport user title body ps w).1.base.accounts.push_tokens
          ≡ rows_where (is_of_another user.id) w.base.accounts.push_tokens
    unfolding send_by_all pure ◌>>=◌
    loop_others [] w = refl
    loop_others (p ∷ ps) w =
        let w' = (send_by env transport user title body p w).1 in
        ground (arith, (send_by-Turn p w).others, loop_others ps w')

    all_fewer :
        (ps : List Provider) (q : PushToken → Bool) (w : World)
        → any q w.base.accounts.push_tokens ≡ false
        → any q (send_by_all env transport user title body ps w).1.base.accounts.push_tokens ≡ false
    unfolding send_by_all pure ◌>>=◌
    all_fewer [] q w h = h
    all_fewer (p ∷ ps) q w h =
        let w' = (send_by env transport user title body p w).1 in
        ground (arith, (send_by-Turn p w).fewer q h, all_fewer ps q w')

    loop_catches :
        (before : List Provider) (p : Provider) (after : List Provider) (token : String) (w : World)
        → Finds env transport false token p
        → (send_by_all env transport user title body (before ++ p ∷ after) w).0 ≡ ok tt
        → any
            (is_registered_as (provider_type p) user.id token)
            (send_by_all env transport user title body
              (before ++ p ∷ after)
              w).1.base.accounts.push_tokens
          ≡ false
    unfolding send_by_all pure ◌>>=◌
    loop_catches [] p after token w h done =
        let w' = (send_by env transport user title body p w).1 in
        ground (
          arith,
          (send_by-Turn p w).caught token h,
          all_fewer after (is_registered_as (provider_type p) user.id token) w',
        )
    loop_catches (p' ∷ before) p after token w h done =
        let w' = (send_by env transport user title body p' w).1 in
        ground (arith, loop_catches before p after token w' h)

    -- A message to a user, whatever the providers answer and whether or not it is sent to the end, leaves
    -- every token row of another user as it is.
    pub send_to_user_others :
        (ps : List Provider) (w : World)
        → rows_where
            (is_of_another user.id)
            (send_to_user env transport ps user title body w).1.base.accounts.push_tokens
          ≡ rows_where (is_of_another user.id) w.base.accounts.push_tokens
    unfolding send_to_user guard pure raise ◌>>=◌
    send_to_user_others ps w = ground (arith, loop_others ps w)

    -- If all providers find a token valid at all times, a message to a user, whether or not it is sent to
    -- the end, leaves every token row with this token, and every one of another user, as it is.
    pub send_to_user_spares :
        (ps : List Provider) (token : String) (w : World)
        → All (Finds env transport true token) ps
        → rows_where
            (is_spared user.id token)
            (send_to_user env transport ps user title body w).1.base.accounts.push_tokens
          ≡ rows_where (is_spared user.id token) w.base.accounts.push_tokens
    unfolding send_to_user guard pure raise ◌>>=◌
    send_to_user_spares ps token w h = ground (arith, loop_spares ps token w h)

    -- After a message to a user that is sent to the end, the user has no token left that is registered
    -- for one of the providers and that this provider finds invalid.
    pub send_to_user_deletes :
        (before : List Provider) (p : Provider) (after : List Provider) (token : String) (w : World)
        → Finds env transport false token p
        → (send_to_user env transport (before ++ p ∷ after) user title body w).0 ≡ ok tt
        → any
            (is_registered_as (provider_type p) user.id token)
            (send_to_user env transport
              (before ++ p ∷ after)
              user
              title
              body
              w).1.base.accounts.push_tokens
          ≡ false
    unfolding send_to_user guard pure raise ◌>>=◌
    send_to_user_deletes before p after token w h done =
        ground (arith, loop_catches before p after token w h)
