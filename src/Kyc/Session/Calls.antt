-- ===== src/Kyc/Session/Calls.antt =====
-- The calls of a session: `RelyingPartyRest` and `RelyingPartySession`.
use identity_wallet.Common.{
  ℕ, Option, none, some, List, [], ◌∷◌, ◌++◌, if◌then◌else◌, or_else, nat_eq,
}
use identity_wallet.Schema.Text.{Text, codes, replace}
use identity_wallet.Schema.Value.{Value, Fields, end, get, put, drop_field, truthy}
use identity_wallet.Schema.Documents.{denormalize_documents_schema}
use identity_wallet.Staking.Chain.{Run, pure, ◌>>=◌}
use identity_wallet.Kyc.State.{Token, Session, Template, Application}
use identity_wallet.Kyc.Session.{
  endpoint, KycAttribute, PostedAttribute, http_get, http_post, http_put, no_content, signature,
  kyc_application, existing_application, payment, file, Remote, or_text, decoded, settled,
  open_request, authorized, bearer, is_active,
}

module _ (url_join : Text → Text → Text) {W : Type 0} (remote : Remote W) where
  open remote use {
    public_key, sign, ask_jwt, ask_templates, ask_template, ask_application, ask_applications,
    ask_file, ask_done,
  }

  -- `url` of `getChallenge`: the public key with `0x` in front.
  unfoldable pub get_challenge : Session → Run W Text
  unfolding endpoint replace open_request
  get_challenge s = do
    url ← endpoint url_join s (codes "auth/challenge")
    key ← public_key
    request ←
        open_request s http_get (url_join url (codes "0x" ++ replace (codes "0x") [] key)) none
          no_content
    ask_jwt request

  unfoldable pub post_challenge_reply : Session → Text → Text → Run W Text
  unfolding endpoint open_request bearer
  post_challenge_reply s challenge signed = do
    url ← endpoint url_join s (codes "auth/challenge")
    request ← open_request s http_post url (some (bearer challenge)) (signature signed)
    ask_jwt request

  -- A challenge is asked for, signed and replied to; the token comes with the reply. What is no
  -- JWT decodes to `null`, of which a property is read.
  unfoldable pub renew : (Text → Option Token) → Session → Run W Session
  unfolding get_challenge post_challenge_reply decoded
  renew decode s = do
    challenge ← get_challenge s
    token ← decoded (decode challenge)
    signed ← sign (or_text token.challenge token.nonce)
    reply ← post_challenge_reply s challenge signed
    replied ← decoded (decode reply)
    pure (record s { token = some replied })

  -- The session after `establish`.
  unfoldable pub establish : ℕ → (Text → Option Token) → Session → Run W Session
  unfolding is_active renew
  establish now decode s =
      let renewed = renew decode s in if is_active now s then pure s else renewed

  unfoldable pub list_kyc_templates : Session → Run W (List Template)
  unfolding endpoint open_request
  list_kyc_templates s = do
    url ← endpoint url_join s (codes "/templates")
    request ← open_request s http_get url none no_content
    ask_templates request

  -- `url.replace(':id', id)`
  unfoldable pub endpoint_of_id : Session → Text → Text → Run W Text
  unfolding endpoint replace
  endpoint_of_id s name id = do url ← endpoint url_join s name; pure (replace (codes ":id") id url)

  unfoldable pub get_kyc_template : Session → Text → Run W Template
  unfolding endpoint_of_id open_request
  get_kyc_template s id = do
    url ← endpoint_of_id s (codes "/templates/:id") id
    request ← open_request s http_get url none no_content
    ask_template request

  unfoldable pub list_kyc_applications : Session → Run W (List Application)
  unfolding endpoint authorized
  list_kyc_applications s = do
    url ← endpoint url_join s (codes "/applications")
    request ← authorized s http_get url no_content
    ask_applications request

  unfoldable pub get_kyc_application : Session → Text → Run W Application
  unfolding endpoint_of_id authorized
  get_kyc_application s id = do
    url ← endpoint_of_id s (codes "/applications/:id") id
    request ← authorized s http_get url no_content
    ask_application request

  unfoldable pub update_kyc_application : Session → Application → Run W Application
  unfolding endpoint_of_id authorized
  update_kyc_application s application = do
    url ← endpoint_of_id s (codes "/applications/:id") application.id
    request ← authorized s http_put url (existing_application application)
    ask_application request

  unfoldable pub update_kyc_application_payment : Session → Text → Text → Run W (Unit {0})
  unfolding endpoint_of_id authorized
  update_kyc_application_payment s application_id transaction_hash = do
    url ← endpoint_of_id s (codes "/applications/:id/payments") application_id
    request ← authorized s http_post url (payment transaction_hash)
    ask_done request

  -- A document is posted with its content decoded; `buffer_from_data_url` is `Buffer.from`. The
  -- document that is kept has the id of the file for its content.
  module _ (buffer_from_data_url : Value → Value) where
    unfoldable pub upload_file : Session → Fields → Run W Fields
    unfolding endpoint authorized
    upload_file s doc = do
      let content = get (codes "content") doc
      let doc' =
          if truthy content then put (codes "buffer") (buffer_from_data_url content) doc else doc
      url ← endpoint url_join s (codes "/files")
      request ← authorized s http_post url (file doc')
      id ← ask_file request
      pure (put (codes "content") id (drop_field (codes "buffer") doc'))

    unfoldable pub upload_files : Session → List Fields → Run W (List Fields)
    unfolding upload_file
    upload_files s [] = pure []
    upload_files s (doc ∷ docs) = do
      doc' ← upload_file s doc
      docs' ← upload_files s docs
      pure (doc' ∷ docs')

    unfoldable pub post_attribute : Session → KycAttribute → Run W PostedAttribute
    unfolding upload_files decoded
    post_attribute s a = do
      documents ← decoded a.documents
      uploaded ← upload_files s documents
      schema ← decoded a.schema
      posted ← settled (
          denormalize_documents_schema schema (get (codes "value") (or_else a.fields end)) uploaded)
      pure (record {
        id = a.id;
        schema_id = a.schema_id;
        schema = a.schema;
        required = a.required;
        posted = posted.0;
      })

    unfoldable pub post_attributes : Session → List KycAttribute → Run W (List PostedAttribute)
    unfolding post_attribute
    post_attributes s [] = pure []
    post_attributes s (a ∷ as') = do
      x ← post_attribute s a
      xs ← post_attributes s as'
      pure (x ∷ xs)

    unfoldable pub create_kyc_application : Session → Text → List KycAttribute → Run W Application
    unfolding post_attributes authorized endpoint
    create_kyc_application s template_id attributes = do
      posted ← post_attributes s attributes
      url ← endpoint url_join s (codes "/applications")
      request ← authorized s http_post url (kyc_application template_id posted)
      ask_application request
