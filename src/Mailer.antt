-- ===== src/Mailer.antt =====
-- The mailer (internal/mailer/mailer.go). The templates, as html/template executes them, and the
-- transport are parameters.
use go_mpc_vault.Prelude.{ℕ, String, Bool, Option, [], ◌∷◌, if◌then◌else◌}
use go_mpc_vault.Errors.{Result, message, wrapped}
use go_mpc_vault.Mpc.{Email}
use go_mpc_vault.Exec.{Env, M, pure, lift, require, map_error, send_mail, ◌>>=◌}

-- mailer.Mailer with its configuration; a template is executed with the one link that it shows.
pub record Mailer : Type 0 where
  pub default_sender : String
  pub send : Bool
  pub templates : String → Option (String → Result String)
  pub transport : ℕ → Email → Result (Unit {0})

-- A mail to one address.
abbrev pub mail : Mailer → String → String → String → Email
mail m to subject html = record {
  sender = m.default_sender;
  to = to ∷ [];
  subject = subject;
  html = html;
}

module _ (env : Env) (m : Mailer) where
  -- Mailer.SendPasswordReset
  unfoldable pub send_password_reset : String → String → M (Unit {0})
  send_password_reset to link = do
    template ← lift (require (m.templates "password_reset") (message "email template not found"))
    html ←
        map_error (lift (template link)) (wrapped "failed to execute password reset email template")
    if m.send
        then map_error (send_mail env m.transport (mail m to "Password reset" html))
            (wrapped "failed to send password reset email")
        else pure tt

  -- Mailer.SendAccountConfirmation
  unfoldable pub send_account_confirmation : String → String → M (Unit {0})
  send_account_confirmation to link = do
    template ←
        lift (require (m.templates "account_confirmation") (message "email template not found"))
    html ←
        map_error (lift (template link))
          (wrapped "failed to execute account confirmation email template")
    if m.send
        then map_error (send_mail env m.transport (mail m to "Account confirmation" html))
            (wrapped "failed to send account confirmation email")
        else pure tt
