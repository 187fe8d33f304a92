-- ===== src/Proxy/Logins/Checked.antt =====
-- The connections of tickets, over the life of a server (ServeHTTP and ticketGC in
-- cmd/pmoxs3backuproxy/main.go).
use pmoxs3backuproxy.Prelude.{
  ℕ, zero, suc, Option, none, some, List, [], ◌∷◌, ◌≡◌, ◌∙◌, refl, ap, subst, inl, inr, arith,
  Option-cases, All, ◌++◌, Result, ok, err,
}
use pmoxs3backuproxy.Prelude.Int.{ℤ}
use pmoxs3backuproxy.Prelude.Maps.{lookup}
use pmoxs3backuproxy.Prelude.Strings.{Bytes}
use pmoxs3backuproxy.Proxy.Logins.{
  Upstream, TicketEntry, Access, Login, user_of, Phase, looking_up, connecting, entered,
  listing_buckets, storing, ticketing, ended, store_buckets, store_ticket, enter_connection,
  end_listing, log_in_step, authenticate,
}
use pmoxs3backuproxy.Proxy.Logins.Datastores.{Listing, list_datastores}
use pmoxs3backuproxy.Proxy.Logins.Server.{
  Session, Server, Event, begun, stepped, collection, asking, step_login, answer_asking, happen,
  happen_all, nobody,
}
use pmoxs3backuproxy.Proxy.Logins.Tickets.{
  lookup-insert_cases, remove-lookup, expire_tickets-lookup,
}

module _ {Connection : Type 0} (new_client : Bytes → Bytes → Option Connection) where
  -- The connection was made for this user with some password.
  unfoldable pub IsMade : Bytes → Connection → Type 0
  IsMade user client = (password : Bytes) × (new_client user password ≡ some client)

  record Inv (access : Access Connection) : Type 0 where
    connected :
        (user : Bytes) (client : Connection)
        → lookup access.connection_list user ≡ some client
        → IsMade user client
    ticketed :
        (ticket : Bytes) (entry : TicketEntry Connection) (client : Connection)
        → lookup access.auth ticket ≡ some entry
        → entry.client ≡ some client
        → IsMade entry.access_key_id client

  -- The connection that a login has taken was made for its user.
  Ready : Session Connection → Type 0
  Ready (login, ticketing (some client)) = IsMade (user_of login) client
  Ready (login, _) = Unit

  store_ticket-Inv :
      (access : Access Connection) (login : Login) (taken : Option Connection)
      → Inv access
      → Ready (login, ticketing taken)
      → Inv (store_ticket access login taken)
  unfolding store_ticket Ready
  store_ticket-Inv access login taken inv ready = record {
    connected = inv.connected;
    ticketed = λ ticket entry client e held.
        elim (lookup-insert_cases access.auth login.ticket ticket _ entry e) [
          | inl (same, new) ↦
              let mine : taken ≡ some client =
                ap (λ (x : TicketEntry Connection). x.client) new ∙ held in
              subst (λ (x : TicketEntry Connection). IsMade x.access_key_id client) new
                (subst (λ c. Ready (login, ticketing c)) mine ready)
          | inr old ↦ inv.ticketed ticket entry client old held
        ];
  }

  taken-Ready :
      (access : Access Connection) (login : Login) (taken : Option Connection)
      → lookup access.connection_list (user_of login) ≡ taken
      → Inv access
      → Ready (login, ticketing taken)
  unfolding Ready
  taken-Ready access login none found inv = tt
  taken-Ready access login (some client) found inv = inv.connected (user_of login) client found

  module _ (list_buckets : Connection → Result ℕ (List Bytes)) where
    upstream : Upstream Connection
    upstream = record { new_client = new_client; list_buckets = list_buckets }

    enter_connection-Inv :
        (access : Access Connection) (login : Login)
        → Inv access
        → Inv (enter_connection upstream access login).0
    unfolding enter_connection IsMade upstream
    enter_connection-Inv access login inv =
        elim (Option-cases (new_client (user_of login) login.password)) [
          | inl failed ↦ rw (enter_connection, failed) inv
          | inr (client, made) ↦
              rw (enter_connection, made)
                (record {
                  connected = λ user c e.
                      elim (lookup-insert_cases access.connection_list (user_of login) user client c
                        e) [
                          | inl (same, new) ↦
                              subst (λ x. IsMade x c) same
                                (subst (IsMade (user_of login)) new (login.password, made))
                          | inr old ↦ inv.connected user c old
                        ];
                  ticketed = inv.ticketed;
                })
        ]

    end_listing-Inv :
        (access : Access Connection) (login : Login) (result : Result ℕ (List Bytes))
        → Inv access
        → Inv (end_listing upstream access login result).0
    unfolding end_listing store_buckets
    end_listing-Inv access login (ok buckets) inv = record {
      connected = inv.connected;
      ticketed = inv.ticketed;
    }
    end_listing-Inv access login (err e) inv = record {
      connected = λ user client found.
          inv.connected user client
            (remove-lookup access.connection_list (user_of login) user client found).0;
      ticketed = inv.ticketed;
    }

    enter_connection-Ready :
        (access : Access Connection) (login : Login)
        → Ready (login, (enter_connection upstream access login).1)
    unfolding enter_connection Ready upstream
    enter_connection-Ready access login =
        elim (Option-cases (new_client (user_of login) login.password)) [
          | inl failed ↦ rw (enter_connection, failed) tt
          | inr (client, made) ↦ rw (enter_connection, made) tt
        ]

    end_listing-Ready :
        (access : Access Connection) (login : Login) (result : Result ℕ (List Bytes))
        → Ready (login, (end_listing upstream access login result).1)
    unfolding end_listing Ready
    end_listing-Ready access login (ok buckets) = tt
    end_listing-Ready access login (err e) = tt

    log_in_step-Inv :
        (access : Access Connection) (login : Login) (phase : Phase Connection)
        → Inv access
        → Ready (login, phase)
        → Inv (log_in_step upstream login (access, phase)).0
          × Ready (login, (log_in_step upstream login (access, phase)).1)
    unfolding log_in_step upstream Ready
    log_in_step-Inv access login looking_up inv ready =
        elim (Option-cases (lookup access.connection_list (user_of login))) [
          | inl unknown ↦ rw (log_in_step, unknown) (inv, tt)
          | inr (client, known) ↦ rw (log_in_step, known) (inv, tt)
        ]
    log_in_step-Inv access login connecting inv ready =
        (enter_connection-Inv access login inv, enter_connection-Ready access login)
    log_in_step-Inv access login entered inv ready =
        elim (Option-cases (lookup access.connection_list (user_of login))) [
          | inl gone ↦ rw (log_in_step, gone) (inv, tt)
          | inr (client, there) ↦ rw (log_in_step, there) (inv, tt)
        ]
    log_in_step-Inv access login (listing_buckets client) inv ready = (
      end_listing-Inv access login (list_buckets client) inv,
      end_listing-Ready access login (list_buckets client),
    )
    log_in_step-Inv access login storing inv ready =
        (inv, taken-Ready access login (lookup access.connection_list (user_of login)) refl inv)
    log_in_step-Inv access login (ticketing taken) inv ready =
        (store_ticket-Inv access login taken inv ready, tt)
    log_in_step-Inv access login (ended answer) inv ready = (inv, tt)

    step_login-Inv :
        (n : ℕ) (access : Access Connection) (logins : List (Session Connection))
        → Inv access
        → All Ready logins
        → Inv (step_login upstream n access logins).0
          × All Ready (step_login upstream n access logins).1
    unfolding step_login
    step_login-Inv n access [] inv ready = (inv, tt)
    step_login-Inv zero access ((login, phase) ∷ logins) inv (ready, others) =
        let (inv', ready') = log_in_step-Inv access login phase inv ready in
        (inv', (ready', others))
    step_login-Inv (suc n) access (session ∷ logins) inv (ready, others) =
        let (inv', others') = step_login-Inv n access logins inv others in (inv', (ready, others'))

  begun-Ready :
      (logins : List (Session Connection)) (login : Login)
      → All Ready logins
      → All Ready (logins ++ (login, looking_up) ∷ [])
  unfolding Ready
  begun-Ready [] login ready = (tt, tt)
  begun-Ready (session ∷ logins) login (ready, others) = (ready, begun-Ready logins login others)

  module _ (ttl : ℤ) where
    answer_asking-Inv :
        (listing : Listing) (access : Access Connection) (found : Option (TicketEntry Connection))
        → Inv access
        → Inv (answer_asking ttl listing access found)
    unfolding answer_asking list_datastores
    answer_asking-Inv listing access none inv = inv
    answer_asking-Inv listing access (some ticket) inv = record {
      connected = inv.connected;
      ticketed = inv.ticketed;
    }

    ServerInv : Server Connection → Type 0
    ServerInv server = Inv server.access × All Ready server.logins

    happen-Inv :
        (server : Server Connection) (event : Event Connection)
        → ServerInv server
        → ServerInv (happen new_client ttl server event)
    unfolding happen upstream ServerInv
    happen-Inv server (begun login) (inv, ready) = (inv, begun-Ready server.logins login ready)
    happen-Inv server (stepped list_buckets n) (inv, ready) =
        step_login-Inv list_buckets n server.access server.logins inv ready
    happen-Inv server (collection now tickets) (inv, ready) = (
      record {
        connected = inv.connected;
        ticketed = λ ticket entry client e held.
            inv.ticketed ticket entry client
              (expire_tickets-lookup now tickets server.access.auth 0 ticket entry e).0 held;
      },
      ready,
    )
    happen-Inv server (asking listing cookie) (inv, ready) =
        (answer_asking-Inv listing server.access (authenticate server.access cookie) inv, ready)

    happen_all-Inv :
        (server : Server Connection) (events : List (Event Connection))
        → ServerInv server
        → ServerInv (happen_all new_client ttl server events)
    unfolding happen_all
    happen_all-Inv server [] inv = inv
    happen_all-Inv server (event ∷ events) inv =
        happen_all-Inv (happen new_client ttl server event) events (happen-Inv server event inv)

    nobody-Inv : ServerInv nobody
    unfolding lookup ServerInv
    nobody-Inv = (
      record {
        connected = λ user client e. absurd (ground (arith, e));
        ticketed = λ ticket entry client e held. absurd (ground (arith, e));
      },
      tt,
    )

    -- However the steps of concurrent logins, collections of tickets and requests for the datastores
    -- follow each other: a connection that comes with a cookie that authenticates was made for the
    -- user of its ticket, with some password.
    pub happen_all-authenticate :
        (events : List (Event Connection)) (cookie : Bytes) (entry : TicketEntry Connection)
        (client : Connection)
        → authenticate (happen_all new_client ttl nobody events).access cookie ≡ some entry
        → entry.client ≡ some client
        → IsMade entry.access_key_id client
    unfolding authenticate ServerInv
    happen_all-authenticate events cookie entry client e held =
        (happen_all-Inv nobody events nobody-Inv).0.ticketed cookie entry client e held
