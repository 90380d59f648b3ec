-- ===== src/Realtime/Isolation.antt =====
-- A socket is sent messages of the organization that its request showed a membership of, and of no
-- other.
use mathlib.Core.Path.{subst}
use z_shield.Prelude.{
  ◌≡◌, refl, sym, ◌⊎◌, inl, inr, Bool, true, Option, none, some, List, [], ◌∷◌, ◌++◌, arith, All,
  Bool-cases, Option-cases, if◌then◌else◌,
}
use z_shield.Text.{Text, text_eq}
use z_shield.Text.Lines.{text_eq_iff}
use z_shield.Table.{exists_where, All-append, All-delete_where, All-implies}
use z_shield.Crypto.{Node}
use z_shield.Rbac.{Role}
use z_shield.Tenant.{Result, ok, err, with_user, settle}
use z_shield.Db.{Db}
use z_shield.Auth.Sessions.{SessionContext, resolve_session, resolve_role, role_in}
use z_shield.Realtime.{
  Client, RealtimeHub, SocketState, shut, writable, failing, Delivery, organization_channel, offer,
  fan_out, ensure_subscribed, add, drop_client, Connection, unauthorized, welcome, on_organization,
  admit, readied, with_cookie, connect,
}

module _ (node : Node) where
  -- The request of a client: its cookie is the token of a session with its second factor shown, on
  -- an organization that its user is a member of, in the database that the request found.
  pub record Shown (c : Connection) (client : Client) : Type 0 where
    pub token : Text
    pub cookie : c.token ≡ some token
    pub context : SessionContext
    pub resolved : (resolve_session node token c.now c.db).0 ≡ some context
    pub mfa : context.session.mfa_satisfied ≡ true
    pub organization : context.session.organization_id ≡ some client.organization_id
    pub user : client.user_id ≡ context.session.user_id
    pub role : Role
    pub member :
        role_in context.session.user_id client.organization_id
          (resolve_session node token c.now c.db).1
        ≡ some role

  -- One of the requests so far is that of the client.
  abbrev pub Vouched : List Connection → Client → Type 0
  Vouched [] client = ⊥
  Vouched (c ∷ past) client = Shown c client ⊎ Vouched past client

  -- What a connection may lead to: the requests, and what was sent, the newest first.
  pub data Reach : List Connection → RealtimeHub → List Delivery → Type 0 where
    started : Reach [] (record { clients = []; subscribed = [] }) []
    connected :
        {past : List Connection} {hub : RealtimeHub} {sent : List Delivery} (c : Connection)
        → Reach past hub sent
        → Reach (c ∷ past) (connect node c hub).1 sent
    published :
        {past : List Connection} {hub : RealtimeHub} {sent : List Delivery}
        (state : Text → SocketState) (channel message : Text)
        → Reach past hub sent
        → Reach past
            (record hub { clients = (fan_out state channel message hub.clients).0 })
            ((fan_out state channel message hub.clients).1 ++ sent)
    dropped :
        {past : List Connection} {hub : RealtimeHub} {sent : List Delivery} (socket : Text)
        → Reach past hub sent
        → Reach past (drop_client socket hub) sent

  add-clients :
      (P : Client → Type 0) (up : Bool) (client : Client) (hub : RealtimeHub)
      → All P hub.clients
      → P client
      → All P (add up client hub).1.clients
  unfolding add ensure_subscribed
  add-clients P up client hub h k =
      let channel = organization_channel client.organization_id in
      elim (Bool-cases (exists_where (text_eq channel) hub.subscribed)) [
        | inl e ↦ rw e (All-append P hub.clients (client ∷ []) h (k, tt))
        | inr e ↦ elim (Bool-cases up) [
          | inl f ↦ rw (e, f) (All-append P hub.clients (client ∷ []) h (k, tt))
          | inr f ↦ rw (e, f) h
        ]
      ]

  resolve_role-some :
      (user_id organization_id : Text) (db : Db) {role : Role}
      → (resolve_role user_id organization_id db).0 ≡ ok (some role)
      → role_in user_id organization_id db ≡ some role
  unfolding resolve_role with_user settle
  resolve_role-some user_id organization_id db h = ground arith

  readied-hub :
      (role : Role) (out : Result (Unit {0}) × RealtimeHub) → (readied node role out).1 ≡ out.1
  readied-hub role (ok u, hub) = refl
  readied-hub role (err e, hub) = refl

  module _ (P : Client → Type 0) (c : Connection) (hub : RealtimeHub)
      (old : All P hub.clients) where
    welcome-clients :
        (context : SessionContext) (organization_id : Text) (r : Result (Option Role))
        → ((role : Role)
            → r ≡ ok (some role)
            → P (record {
              socket = c.socket;
              organization_id = organization_id;
              user_id = context.session.user_id;
            }))
        → All P (welcome node c context organization_id r hub).1.clients
    welcome-clients context organization_id (ok none) k = old
    welcome-clients context organization_id (err e) k = old
    welcome-clients context organization_id (ok (some role)) k =
        let client : Client = record {
          socket = c.socket;
          organization_id = organization_id;
          user_id = context.session.user_id;
        } in
        subst (λ (h : RealtimeHub). All P h.clients) (sym (readied-hub role (add c.up client hub)))
          (add-clients P c.up client hub old (k role refl))

    organization-clients :
        (context : SessionContext) (o : Option Text) (db : Db)
        → ((organization_id : Text) (role : Role)
            → o ≡ some organization_id
            → (resolve_role context.session.user_id organization_id db).0 ≡ ok (some role)
            → P (record {
              socket = c.socket;
              organization_id = organization_id;
              user_id = context.session.user_id;
            }))
        → All P (on_organization node c context o db hub).1.clients
    organization-clients context none db k = old
    organization-clients context (some organization_id) db k =
        welcome-clients context organization_id
          (resolve_role context.session.user_id organization_id db).0
          (λ role e. k organization_id role refl e)

    admit-clients :
        (token : Text) (context : SessionContext)
        → ((client : Client) → Shown c client → P client)
        → c.token ≡ some token
        → (resolve_session node token c.now c.db).0 ≡ some context
        → All P
            (admit node c (some context) (resolve_session node token c.now c.db).1 hub).1.clients
    admit-clients token context k cookie resolved =
        let db = (resolve_session node token c.now c.db).1 in
        let organization = context.session.organization_id in
        let factor : Bool → RealtimeHub = λ b.
          (if b
            then on_organization node c context organization db hub
            else (ok unauthorized, hub)).1 in
        elim (Bool-cases context.session.mfa_satisfied) [
          | inr m ↦ subst (λ b. All P (factor b).clients) (sym m) old
          | inl m ↦
              subst (λ b. All P (factor b).clients) (sym m)
                (organization-clients context organization db (λ organization_id role o e.
                  k
                    (record {
                      socket = c.socket;
                      organization_id = organization_id;
                      user_id = context.session.user_id;
                    })
                    (record {
                      token = token;
                      cookie = cookie;
                      context = context;
                      resolved = resolved;
                      mfa = m;
                      organization = o;
                      user = refl;
                      role = role;
                      member =
                          resolve_role-some context.session.user_id organization_id db {role = role}
                            e;
                    })))
        ]

    connect-clients :
        ((client : Client) → Shown c client → P client) → All P (connect node c hub).1.clients
    unfolding connect
    connect-clients k = elim (Option-cases c.token) [
      | inl e ↦ subst (λ t. All P (with_cookie node c t hub).1.clients) (sym e) old
      | inr (token, e) ↦
          let resolved = resolve_session node token c.now c.db in
          subst (λ t. All P (with_cookie node c t hub).1.clients) (sym e)
            (elim (Option-cases resolved.0) [
              | inl f ↦ subst (λ o. All P (admit node c o resolved.1 hub).1.clients) (sym f) old
              | inr (context, f) ↦
                  subst (λ o. All P (admit node c o resolved.1 hub).1.clients) (sym f)
                    (admit-clients token context k e f)
            ])
    ]

  -- What a message that is fanned out has of its client.
  fan_out-sent :
      (P : Client → Type 0) (state : Text → SocketState) (channel message : Text)
      (clients : List Client)
      → All P clients
      → All P (fan_out state channel message clients).0
        × All
            (λ d. (organization_channel d.client.organization_id ≡ d.channel) × P d.client)
            (fan_out state channel message clients).1
  unfolding fan_out
  fan_out-sent P state channel message [] h = (tt, tt)
  fan_out-sent P state channel message (client ∷ clients) h =
      let (kept, sent) = fan_out-sent P state channel message clients h.1 in
      let rest = fan_out state channel message clients in
      elim (Bool-cases (text_eq (organization_channel client.organization_id) channel)) [
        | inr e ↦ rw e ((h.0, kept), sent)
        | inl e ↦
            let named = (text_eq_iff (organization_channel client.organization_id) channel).0 e in
            rw e (offered (state client.socket) rest.0 rest.1 kept sent named)
      ]
    where
      offered :
          (s : SocketState) (kept : List Client) (sent : List Delivery)
          → All P kept
          → All (λ d. (organization_channel d.client.organization_id ≡ d.channel) × P d.client) sent
          → organization_channel client.organization_id ≡ channel
          → All P (offer s client channel message (kept, sent)).0
            × All
                (λ d. (organization_channel d.client.organization_id ≡ d.channel) × P d.client)
                (offer s client channel message (kept, sent)).1
      offered shut kept sent k d named = ((h.0, k), d)
      offered writable kept sent k d named = ((h.0, k), ((named, h.0), d))
      offered failing kept sent k d named = (k, d)

  -- What was sent to a client, and that it was vouched for.
  abbrev pub Addressed : List Connection → Delivery → Type 0
  Addressed past d =
      (organization_channel d.client.organization_id ≡ d.channel) × Vouched past d.client

  Reach-Vouched :
      (past : List Connection) (hub : RealtimeHub) (sent : List Delivery)
      → Reach past hub sent
      → All (Vouched past) hub.clients × All (Addressed past) sent
  unfolding drop_client
  Reach-Vouched _ _ _ started = (tt, tt)
  Reach-Vouched _ _ _ (connected {past} {hub} {sent} c r) =
      let (clients, before) = Reach-Vouched past hub sent r in
      (
        connect-clients (Vouched (c ∷ past)) c hub
            (All-implies (Vouched past) (Vouched (c ∷ past)) hub.clients clients (λ k v. inr v))
            (λ client shown. inl shown),
        All-implies (Addressed past) (Addressed (c ∷ past)) sent before (λ d a. (a.0, inr a.1)),
      )
  Reach-Vouched _ _ _ (published {past} {hub} {sent} state channel message r) =
      let (clients, before) = Reach-Vouched past hub sent r in
      let (kept, fresh) = fan_out-sent (Vouched past) state channel message hub.clients clients in
      (
        kept,
        All-append (Addressed past) (fan_out state channel message hub.clients).1 sent fresh before,
      )
  Reach-Vouched _ _ _ (dropped {past} {hub} {sent} socket r) =
      let (clients, before) = Reach-Vouched past hub sent r in
      (All-delete_where (Vouched past) (λ c. text_eq c.socket socket) hub.clients clients, before)

  -- Whatever connects, is published and closes, in any order and over any databases: every message
  -- that a socket was sent came in on the channel of the organization of its client, and a request
  -- before it showed a session, with its second factor, of a user on that organization who was a
  -- member of it.
  pub sent-Addressed :
      (past : List Connection) (hub : RealtimeHub) (sent : List Delivery)
      → Reach past hub sent
      → All (Addressed past) sent
  sent-Addressed past hub sent r = (Reach-Vouched past hub sent r).1
