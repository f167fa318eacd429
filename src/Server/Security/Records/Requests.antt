-- ===== src/Server/Security/Records/Requests.antt =====
-- Messages and texts leave a ban on record, and so does what follows a handler
-- (crates/rekindle-server/src/rpc.rs).
use rekindle.Base.{
  ℕ, ◌-◌, ◌^◌, min, ◌⊎◌, String, List, Option, none, some, ◌≡◌, refl, ap, ◌∙◌, arith, get,
  Option-cases, inl, inr,
}
use rekindle.Server.Protocol.{CommunityResponse}
use rekindle.Server.Store.{Database, insert_message}
use rekindle.Server.Store.Laws.{IsLawful}
use rekindle.Server.Core.{Env, Server, Handled, timestamp_now}
use rekindle.Server.Effects.Frame.{broadcast_to_members-Same, publish_metadata-Same}
use rekindle.Server.Guards.Rules.{after_authorise, after_membership, after_pass}
use rekindle.Server.Messages.{deliver, read_messages, handle_send_message, handle_get_messages}
use rekindle.Server.Channels.{store_name, store_description, publish_texts, handle_update_community}
use rekindle.Server.Security.Records.{Banned, kept, stored, executed}
use rekindle.Server.Core.{checks, pass, refuse}
use rekindle.Server.Protocol.{error}
use rekindle.Server.Dispatch.{after_ok, after_channel_created, after_role_created}
use rekindle.Server.Security.Silence.{check_message-cases, send-checked, send-unhosted}
use rekindle.Server.Security.Records.Joining.{after_option}

module _ {D : Database} (lawful : IsLawful D) (bcid p : String) (env : Env) (cid sender : String)
    (s : Server D) (h : Banned lawful bcid p s.db) where
  abbrev Kept : Handled D → Type 0
  Kept r = Banned lawful bcid p r.0.db

  no : (r : CommunityResponse) → Kept (s, r)
  no r = h

  deliver-Kept :
      (ch : String) (text : List ℕ) (gen : ℕ) → Kept (deliver env cid sender ch text gen s)
  unfolding deliver
  deliver-Kept ch text gen =
      elim (Option-cases (
        D.execute (insert_message cid ch sender text (min gen (2 ^ 63 - 1)) (timestamp_now env))
          s.db)) [
            | inl e ↦ rw (e, deliver) h
            | inr (db', e) ↦
                rw (e, deliver)
                  (kept lawful bcid p (broadcast_to_members-Same cid sender _ _).1
                    (executed lawful bcid p _ s.db db' refl e h))
          ]

  pub handle_send_message-Kept :
      (ch : String) (text : List ℕ) (gen : ℕ)
      → Kept (handle_send_message env cid sender ch text gen s)
  unfolding checks
  handle_send_message-Kept ch text gen = elim (Option-cases (get cid s.hosted)) [
    | inl e ↦ rw (send-unhosted env cid sender ch text gen s e) h
    | inr (c, e) ↦ elim (check_message-cases env c sender ch gen) [
      | inl (may, k) ↦
          rw (send-checked env cid sender ch text gen s c (pass tt) e k) (deliver-Kept ch text gen)
      | inr (code, message, k) ↦
          rw (send-checked env cid sender ch text gen s c (refuse (error code message)) e k) h
    ]
  ]

  read_messages-Kept :
      (ch : String) (before : Option ℕ) (limit : ℕ) → Kept (read_messages cid ch before limit s)
  unfolding read_messages
  read_messages-Kept ch before limit = after_option Kept _ _ _ h λ rows. h

  pub handle_get_messages-Kept :
      (ch : String) (before : Option ℕ) (limit : ℕ)
      → Kept (handle_get_messages cid sender ch before limit s)
  unfolding handle_get_messages
  handle_get_messages-Kept ch before limit =
      after_option Kept (get cid s.hosted) _ _ (read_messages-Kept ch before limit) λ c.
        after_membership Kept s no c sender _
          λ b. after_pass Kept s no _ (read_messages-Kept ch before limit)

  store_name-Kept :
      (name : Option String) (t : Server D)
      → Banned lawful bcid p t.db
      → Banned lawful bcid p (store_name cid name t).db
  unfolding store_name
  store_name-Kept none t g = g
  store_name-Kept (some name) t g = stored lawful bcid p _ t.db refl g

  store_description-Kept :
      (text : Option String) (t : Server D)
      → Banned lawful bcid p t.db
      → Banned lawful bcid p (store_description cid text t).db
  unfolding store_description
  store_description-Kept none t g = g
  store_description-Kept (some text) t g = stored lawful bcid p _ t.db refl g

  publish_texts-Kept :
      (t : Server D) → Banned lawful bcid p t.db → Banned lawful bcid p (publish_texts env cid t).db
  unfolding publish_texts
  publish_texts-Kept t g =
      after_option (λ (u : Server D). Banned lawful bcid p u.db) (get cid t.hosted) _ _ g
        λ c. kept lawful bcid p (publish_metadata-Same env cid c.name t).1 g

  pub handle_update_community-Kept :
      (name description : Option String)
      → Kept (handle_update_community env cid sender name description s)
  unfolding handle_update_community
  handle_update_community-Kept name description =
      after_authorise Kept s no env cid sender _ _ λ c e b q.
        after_pass Kept s no _
          (publish_texts-Kept _ (store_description-Kept description _ (store_name-Kept name _ h)))

  module _ (f : Server D → Server D) (same : (t : Server D) → (f t).db ≡ t.db) (r : Handled D)
      (g : Kept r) where
    followed : (r' : Handled D) → (r'.0 ≡ r.0) ⊎ (r'.0 ≡ f r.0) → Kept r'
    followed r' (inl e) = kept lawful bcid p (ap (λ t. t.db) e) g
    followed r' (inr e) = kept lawful bcid p (ap (λ t. t.db) e ∙ same r.0) g

    pub ok-Kept : Kept (after_ok f r)
    ok-Kept = followed (after_ok f r) (ground arith)

    pub channel-Kept : Kept (after_channel_created f r)
    channel-Kept = followed (after_channel_created f r) (ground arith)

    pub role-Kept : Kept (after_role_created f r)
    role-Kept = followed (after_role_created f r) (ground arith)
