-- ===== src/Webhook/Token.antt =====
-- The token of the service account: where it comes from, and that no configuration is admitted
-- without it.
use turtles_etcd_restore.Base.{String, ◌≡◌, ◌≢◌, ◌↔◌, refl, ◌∙◌, ap, Option, List, [], ◌∷◌}
use turtles_etcd_restore.Go.Bytes.{Bytes, ByteMap, entry}
use turtles_etcd_restore.Go.Outcome.{M, ok, done}
use turtles_etcd_restore.Go.Rules.{
  Ensures, Ensures-lift, Ensures-call, Ensures-on_err, Ensures-bind,
}
use turtles_etcd_restore.Webhook.Objects.{Rke2Config}
use turtles_etcd_restore.Webhook.Client.{WebhookClient}
use turtles_etcd_restore.Webhook.Resources.{
  service_account_token_key, service_account_secret_label, populated, token_of, read_token,
  ensure_service_account_secret_populated,
}
use turtles_etcd_restore.Webhook.Default.{rke2_config, plan_name, default}
use turtles_etcd_restore.Webhook.Defaulted.{Ensures-or_bad_request, any}

-- The only secret of the list, with a token that is not empty.
abbrev pub OnlyToken : List (Option ByteMap) → Bytes → Type 0
OnlyToken secrets token =
    (content : Option ByteMap) × (secrets ≡ content ∷ [])
    × (entry content service_account_token_key ≡ token)
    × (token ≢ [])

populated-ok :
    (name : String) (found : Bytes) {token : Bytes}
    → populated name found ≡ ok token
    → (found ≡ token) × (token ≢ [])
populated-ok name [] h = cc
populated-ok name (b ∷ bs) {token} h =
    let same : b ∷ bs ≡ token = cc in (same, λ e. not_nil (same ∙ e))
  where
    not_nil : b ∷ bs ≡ [] → ⊥
    not_nil e = cc

populated-nonempty : (name : String) (found : Bytes) → found ≢ [] → populated name found ≡ ok found
populated-nonempty name [] h = absurd (h refl)
populated-nonempty name (b ∷ bs) h = refl

-- The list of secrets gives a token exactly where it has one secret, whose token is not empty.
pub token_of_iff :
    (name : String) (secrets : List (Option ByteMap)) (token : Bytes)
    → (token_of name secrets ≡ ok token) ↔ OnlyToken secrets token
unfolding token_of
token_of_iff name secrets token = (only secrets, given)
  where
    only : (l : List (Option ByteMap)) → token_of name l ≡ ok token → OnlyToken l token
    only [] h = cc
    only (content ∷ []) h =
        let (e, some_token) = populated-ok name (entry content service_account_token_key) h in
        (content, refl, e, some_token)
    only (x ∷ y ∷ l) h = cc

    given : OnlyToken secrets token → token_of name secrets ≡ ok token
    given (content, is, e, some_token) =
        rw is (ap (populated name) e ∙ populated-nonempty name token some_token)

-- What `retry.OnError` does, whose test retries every error: what it returns is what a call of the
-- function returned.
abbrev pub Retries : WebhookClient → Type 0
Retries c =
    (m : M c.State Bytes) (s : c.State) (a : Bytes)
    → (c.retry m s).0 ≡ ok a
    → (t : c.State) × ((m t).0 ≡ ok a)

module _ (c : WebhookClient) (connect_info_json : String → String → Bytes → Bytes) where
  -- The server listed the secrets with the label of that name, and the token was the only one.
  abbrev pub TokenListed : String → Bytes → Type 0
  TokenListed name token =
      (s : c.State) × (secrets : List (Option ByteMap)) × ((c.list_secrets
          service_account_secret_label name s).0
        ≡ done secrets)
      × OnlyToken secrets token

  read_token-Listed :
      (name : String) → Ensures (λ _. Unit) (read_token c name) (λ token _. TokenListed name token)
  unfolding read_token
  read_token-Listed name =
      Ensures-bind
        {R = λ secrets _.
          (s : c.State) × ((c.list_secrets service_account_secret_label name s).0 ≡ done secrets)}
        _ _ (Ensures-on_err _ _ (Ensures-call _ (λ s _ secrets e. (s, e))))
        (λ secrets.
          Ensures-lift _
            (λ token e s (t, listed). (t, secrets, listed, (token_of_iff name secrets token).0 e)))

  ensure-Listed :
      Retries c
      → (name : String)
      → Ensures
          (λ _. Unit)
          (ensure_service_account_secret_populated c name)
          (λ token _. TokenListed name token)
  unfolding ensure_service_account_secret_populated
  ensure-Listed retries name = record {
    at = λ s _ token e.
        let (t, e') = retries (read_token c name) s token e in
        (read_token-Listed name).at t tt token e';
  }

  -- Where a retry returns only what a call returned: if `Default` succeeds, then at some moment the
  -- server listed exactly one secret with the label of the configuration's plan secret, and this
  -- secret had a token that is not empty.
  pub default-TokenListed :
      Retries c
      → (config : Rke2Config) (s : c.State) (config' : Rke2Config)
      → (default c connect_info_json (rke2_config config) s).0 ≡ ok config'
      → (token : Bytes) × TokenListed (plan_name config) token
  unfolding default
  default-TokenListed retries config s config' e =
      (Ensures-bind {R = λ _ _. Unit}
          {Q = λ _ _. (token : Bytes) × TokenListed (plan_name config) token} {P = λ _. Unit} _ _
          (any _)
          (λ _.
            Ensures-bind {R = λ token _. TokenListed (plan_name config) token} _ _
              (Ensures-or_bad_request _ _ (ensure-Listed retries (plan_name config)))
              (λ token. record { at = λ t listed x _. (token, listed) }))).at
        s tt config' e
