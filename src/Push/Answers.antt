-- ===== src/Push/Answers.antt =====
-- What the providers of internal/push/provider answer of one token, and of many.
use go_mpc_vault.Prelude.{
  ℕ, String, Bool, true, false, Option, List, [], ◌∷◌, ◌≡◌, refl, arith, any, ◌==◌, eq_iff,
}
use go_mpc_vault.Errors.{ok}
use go_mpc_vault.Exec.{Env, World, pure, ◌>>=◌}
use go_mpc_vault.Push.{
  ProviderSendResponse, SendMessageRequest, SendError, Provider, mock, fcm, invalid_tokens,
  fcm_send, send, send_multicast,
}

module _ (env : Env) (transport : ℕ → SendMessageRequest → Option SendError) where
  -- Whatever is sent to the token, and whenever, its provider finds the token valid (or not).
  abbrev pub Finds : Bool → String → Provider → Type 0
  Finds b token p =
      (title body : String) (w : World) (r : ProviderSendResponse)
      → (send env transport p token title body w).0 ≡ ok r
      → r.valid ≡ b

  record Sent (p : Provider) (token title body : String) (w : World) : Type 0 where
    response : ProviderSendResponse
    answer : (send env transport p token title body w).0 ≡ ok response
    names : response.token ≡ token
    base : (send env transport p token title body w).1.base ≡ w.base

  send_answers : (p : Provider) (token title body : String) (w : World) → Sent p token title body w
  unfolding send fcm_send pure
  send_answers (mock t) token title body w = record {
    response = _;
    answer = refl;
    names = refl;
    base = refl;
  }
  send_answers (fcm c) token title body w = record {
    response = _;
    answer = refl;
    names = refl;
    base = refl;
  }

  -- What a multicast says of one token.
  pub record Multicast (p : Provider) (tokens : List String) (title body : String) (w : World)
      : Type 0 where
    pub responses : List ProviderSendResponse
    pub answer : (send_multicast env transport p tokens title body w).0 ≡ ok responses
    pub base : (send_multicast env transport p tokens title body w).1.base ≡ w.base
    pub spared :
        (token : String)
        → Finds true token p
        → any (λ k. token == k) (invalid_tokens responses) ≡ false
    pub caught :
        (token : String)
        → Finds false token p
        → any (λ k. token == k) tokens ≡ true
        → any (λ k. token == k) (invalid_tokens responses) ≡ true

  pub send_all-Answers :
      (p : Provider) (tokens : List String) (title body : String) (w : World)
      → Multicast p tokens title body w
  unfolding send_multicast pure ◌>>=◌
  send_all-Answers p [] title body w = record {
    responses = [];
    answer = refl;
    base = refl;
    spared = λ token h. refl;
    caught = λ token h found. absurd (ground arith);
  }
  send_all-Answers p (t ∷ rest) title body w =
      let s = send_answers p t title body w in
      let m = send_all-Answers p rest title body (send env transport p t title body w).1 in
      record {
        responses = s.response ∷ m.responses;
        answer = ground (arith, s.answer, m.answer);
        base = ground (arith, s.answer, m.answer, s.base, m.base);
        spared = λ token h.
            ground (arith, m.spared token h, eq_iff token t, s.names, h title body w s.response);
        caught = λ token h found.
            ground (
              arith,
              m.caught token h,
              eq_iff token t,
              s.names,
              h title body w s.response,
              s.answer,
            );
      }
