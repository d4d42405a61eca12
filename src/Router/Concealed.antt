-- ===== src/Router/Concealed.antt =====
-- That internal/api/router/handlers.go does not let the details of an internal error out.
use go_mpc_vault.Prelude.{
  String, Bool, true, ◌≡◌, ◌≢◌, ◌⊎◌, inl, inr, arith, ◌||◌, is_some, Bool-cases, Option-cases,
}
use go_mpc_vault.Router.{
  Cause, within, Body, problem, validation_problem, find_http, find_validation, find_echo, generic,
  status_text, reply, is_internal,
}

abbrev pub body_title : Body → String
body_title (problem e) = e.title
body_title (validation_problem e) = e.base.title

-- Some error in the chain says with what the client is to be answered.
abbrev pub is_known : Cause → Bool
is_known c = is_some (find_http c) || (is_some (find_validation c) || is_some (find_echo c))

reply-within :
    (c : Cause) (s text text' : String) → reply true text (within s c) ≡ reply true text' c
unfolding reply find_http find_validation find_echo
reply-within c s text text' = elim (Option-cases (find_http c)) [
  | inr (e, h) ↦ ground arith
  | inl h ↦ elim (Option-cases (find_validation c)) [
    | inr (e, v) ↦ ground arith
    | inl v ↦ elim (Option-cases (find_echo c)) [ inr (e, o) ↦ ground arith | inl o ↦ ground arith ]
  ]
]

reply_title :
    (c : Cause) (text : String)
    → ((reply true text c).0 ≢ 500) ⊎ (body_title (reply true text c).1 ≡ status_text)
unfolding reply
reply_title c text = elim (Bool-cases (is_internal (reply true text c).0)) [
  | inr e ↦ inl (ground arith)
  | inl e ↦ inr (ground arith)
]

reply_unknown :
    (c : Cause) (text : String)
    → (is_known c ≡ true) ⊎ (reply true text c ≡ (500, problem (generic 500 status_text)))
unfolding reply
reply_unknown c text = ground arith

-- With the default configuration, neither the text of an error nor what it is wrapped in changes what
-- a client is sent. A reply with the code 500 has the title of that code and no other; and if the
-- chain holds no error that is meant for clients, that is the whole reply.
pub reply_conceals :
    (c : Cause) (s text text' : String)
    → (reply true text (within s c) ≡ reply true text' c)
      × (((reply true text c).0 ≢ 500) ⊎ (body_title (reply true text c).1 ≡ status_text))
      × ((is_known c ≡ true) ⊎ (reply true text c ≡ (500, problem (generic 500 status_text))))
reply_conceals c s text text' =
    (reply-within c s text text', reply_title c text, reply_unknown c text)
