-- ===== src/Tests/PasskeyRuns.antt =====
-- A registration that is refused, and a login with a passkey, on the sample tables.
use go_mpc_vault.Prelude.{some, none, [], ◌∷◌, refl}
use go_mpc_vault.Errors.{ok}
use go_mpc_vault.Exec.{World, pure, lift, attempt, select, write, ◌>>=◌}
use go_mpc_vault.Passkeys.{
  Credential, WebAuthn, get_user, finish_registration, finish_login, find_credential, store_count,
  update_credential,
}
use go_mpc_vault.Passkeys.Logins.{LoggedIn, finish_login_ok}
use go_mpc_vault.Tests.Samples.{sample_env, sample_world, tables, accounts}

abbrev passkey : Credential
passkey = record {
  id = "c";
  public_key = "k";
  attestation_type = "none";
  aaguid = "a";
  sign_count = 3;
}

abbrev pub accepting : WebAuthn
accepting = record {
  begin_registration = λ u. ok ("options", "session");
  finish_registration = λ u session body. ok passkey;
  begin_login = λ u. ok ("options", "session");
  finish_login = λ u session body. ok passkey;
}

-- Ann has a passkey.
abbrev with_passkey : World
with_passkey = record sample_world {
  base = record tables {
    accounts = record accounts {
      credentials =
          record {
            id = "1";
            user_id = "ann";
            credential_id = "c";
            public_key = "k";
            attestation_type = some "none";
            aaguid = none;
            sign_count = some 0;
            device_name = none;
            created_at = none;
            updated_at = none;
            last_used_at = none;
          }
          ∷ [];
    };
  };
}

finish_login_ok_example :
    LoggedIn sample_env accepting "ann" passkey with_passkey
      (finish_login sample_env accepting "ann" "session" "body" with_passkey).1
unfolding get_user finish_login find_credential store_count update_credential lift attempt write
    select pure ◌>>=◌
finish_login_ok_example =
    finish_login_ok sample_env accepting "ann" "session" "body" with_passkey passkey refl
