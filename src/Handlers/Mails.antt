-- ===== src/Handlers/Mails.antt =====
-- The mails that internal/api/handlers/auth sends for a password that was forgotten.
use go_mpc_vault.Prelude.{
  String, true, none, some, ◌∷◌, ◌≡◌, ◌⊎◌, arith, inl, inr, Bool-cases, Option-cases, is_some,
}
use go_mpc_vault.Errors.{Result, ok, Result-cases}
use go_mpc_vault.Data.UserTables.{User as UserRow}
use go_mpc_vault.Mpc.{mails}
use go_mpc_vault.Exec.{
  Env, World, pure, lift, map_error, select, now, write, with_transaction, send_mail, next,
  commit_lost, ◌>>=◌,
}
use go_mpc_vault.Auth.{to_username_format}
use go_mpc_vault.Auth.Statements.{user_named}
use go_mpc_vault.Auth.Password.{
  init_password_reset, start_reset_of, start_reset, debounced, issue_reset_token, reuse_or_insert,
}
use go_mpc_vault.Auth.Resets.{init_password_reset_ok, has_reset_token}
use go_mpc_vault.Mailer.{mail, send_password_reset}
use go_mpc_vault.Handlers.Accounts.{Server, mail_reset, post_forgot_password}

module _ (env : Env) where
  issue_reset_token_calls :
      (uid : String) (w : World) → (issue_reset_token env uid w).1.calls ≡ w.calls
  unfolding issue_reset_token reuse_or_insert with_transaction select now write pure ◌>>=◌
  issue_reset_token_calls uid w = ground arith

  debounced_calls : (uid : String) (w : World) → (debounced env uid w).1.calls ≡ w.calls
  unfolding debounced select now pure ◌>>=◌
  debounced_calls uid w = ground arith

  start_reset_calls : (user : UserRow) (w : World) → (start_reset env user w).1.calls ≡ w.calls
  unfolding start_reset pure ◌>>=◌
  start_reset_calls user w = ground (
    arith,
    debounced_calls user.id w,
    issue_reset_token_calls user.id (debounced env user.id w).1,
  )

  init_password_reset_calls :
      (username : String) (w : World) → (init_password_reset env username w).1.calls ≡ w.calls
  unfolding init_password_reset start_reset_of select pure ◌>>=◌
  init_password_reset_calls username w =
      elim (Option-cases (user_named (to_username_format env username) w.base)) [
        | inl e ↦ ground arith
        | inr (user, e) ↦ ground (arith, start_reset_calls user (next w))
      ]

  module _ (s : Server) where
    -- The mail that a user who is stored and active is to get, with a link for the token.
    pub record Mailed (username : String) (w w' : World) : Type 0 where
      pub user : UserRow
      pub token : String
      pub link : String
      pub template : String → Result String
      pub html : String
      pub named : user_named (to_username_format env username) w.base ≡ some user
      pub active : user.is_active ≡ true
      pub local : is_some user.password ≡ true
      pub issued : (init_password_reset env username w).0 ≡ ok (some token)
      pub stored :
          ((commit_lost env (init_password_reset env username w).1 ≡ true) × (w'.base ≡ w.base))
          ⊎ (has_reset_token token user.id w'.base ≡ true)
      pub links : s.reset_link token ≡ ok link
      pub templates : s.mailer.templates "password_reset" ≡ some template
      pub shows : template link ≡ ok html
      pub sent :
          w'.calls
          ≡ mails (mail s.mailer (to_username_format env username) "Password reset" html) ∷ w.calls

    mail_reset_world :
        (username token : String) (w : World)
        → ((mail_reset env s username (some token) w).1.base ≡ w.base)
          × (((mail_reset env s username (some token) w).1.calls ≡ w.calls)
              ⊎ ((link html : String) × (template : String → Result String) × (s.reset_link token
                    ≡ ok link)
                  × (s.mailer.templates "password_reset" ≡ some template)
                  × (template link ≡ ok html)
                  × ((mail_reset env s username (some token) w).1.calls
                      ≡ mails
                          (mail s.mailer (to_username_format env username) "Password reset" html)
                        ∷ w.calls)))
    unfolding mail_reset send_password_reset send_mail map_error lift pure ◌>>=◌
    mail_reset_world username token w = elim (Result-cases (s.reset_link token)) [
      | inr (x, e) ↦ (ground arith, inl (ground arith))
      | inl (link, e) ↦ elim (Option-cases (s.mailer.templates "password_reset")) [
        | inl f ↦ (ground arith, inl (ground arith))
        | inr (template, f) ↦ elim (Result-cases (template link)) [
          | inr (x, g) ↦ (ground arith, inl (ground arith))
          | inl (html, g) ↦ elim (Bool-cases s.mailer.send) [
            | inr off ↦ (ground arith, inl (ground arith))
            | inl on ↦ (ground arith, inr (link, html, template, e, f, g, ground arith))
          ]
        ]
      ]
    ]

    nothing_sent :
        (username : String) (w : World)
        → (init_password_reset env username w).0 ≡ ok none
        → (post_forgot_password env s (ok username) w).1.calls ≡ w.calls
    unfolding post_forgot_password mail_reset lift pure ◌>>=◌
    nothing_sent username w e = ground (arith, init_password_reset_calls username w)

    -- A request by HTTP for a new password sends at most one mail. It goes to the name that was given,
    -- which is that of an active user with a password. It is the template for such mails with the link
    -- for the reset token that the service has issued for them, which is stored as theirs, unless its
    -- commit met an outage.
    pub post_forgot_password_mails :
        (username : String) (w : World)
        → ((post_forgot_password env s (ok username) w).1.calls ≡ w.calls)
          ⊎ Mailed username w (post_forgot_password env s (ok username) w).1
    unfolding post_forgot_password lift ◌>>=◌
    post_forgot_password_mails username w =
        let w' : World = (init_password_reset env username w).1 in
        elim (Result-cases (init_password_reset env username w).0) [
          | inr (x, e) ↦ inl (ground (arith, init_password_reset_calls username w))
          | inl (none, e) ↦ inl (nothing_sent username w e)
          | inl (some token, e) ↦ elim (init_password_reset_ok env username w (some token) e) [
            | inl (absent, same) ↦ absurd (ground arith)
            | inr (user, token', named, active, local, returned, stored) ↦
                let (base, sent) = mail_reset_world username token w' in
                elim sent [
                  | inl none_sent ↦ inl (ground (arith, init_password_reset_calls username w))
                  | inr (link, html, template, links, found, shows, mailed) ↦ inr (record {
                    user = user;
                    token = token;
                    link = link;
                    html = html;
                    named = named;
                    active = active;
                    local = local;
                    template = template;
                    issued = e;
                    links = links;
                    templates = found;
                    shows = shows;
                    stored = ground (arith, base);
                    sent = ground (arith, mailed, init_password_reset_calls username w);
                  })
                ]
          ]
        ]
