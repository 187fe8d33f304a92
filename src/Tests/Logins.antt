-- ===== src/Tests/Logins.antt =====
-- Logins of one user with different passwords, one after the other and at the same time, and a list of
-- datastores while the endpoint fails.
use Prim.Native.String.{String}
use pmoxs3backuproxy.Prelude.{ℕ, Option, none, some, List, [], ◌∷◌, ◌≡◌, refl, Result, ok, err}
use pmoxs3backuproxy.Prelude.Int.{pos}
use pmoxs3backuproxy.Prelude.Maps.{lookup, insert, remove}
use pmoxs3backuproxy.Prelude.Strings.{Bytes, codes, cut, bytes_eq}
use pmoxs3backuproxy.Proxy.Logins.{
  TicketEntry, Login, listing_buckets, user_of, store_ticket, store_buckets, enter_connection,
  end_listing, log_in_step, authenticate,
}
use pmoxs3backuproxy.Proxy.Logins.Checked.{IsMade, happen_all-authenticate}
use pmoxs3backuproxy.Proxy.Logins.Datastores.{Listing}
use pmoxs3backuproxy.Proxy.Logins.Server.{
  Server, Event, begun, stepped, asking, step_login, happen, happen_all, nobody,
}

-- A connection is the password that it was made with.
abbrev new_client : Bytes → Bytes → Option Bytes
new_client user password = some password

abbrev lists : Bytes → Result ℕ (List Bytes)
lists client = ok (codes "store" ∷ [])

abbrev fails : Bytes → Result ℕ (List Bytes)
fails client = err 1

abbrev login : String → String → Login
login password ticket = record {
  username = codes "a@pbs";
  password = codes password;
  endpoint = codes "s3";
  ticket_expire = 10;
  ticket = codes ticket;
  now = 100;
  clock = pos 0;
}

abbrev entry_of : String → Option Bytes → TicketEntry Bytes
entry_of password client = record {
  access_key_id = codes "a";
  secret_access_key = codes password;
  endpoint = codes "s3";
  client = client;
  expire = 110;
}

-- The second login comes after the first.
abbrev in_turn : List (Event Bytes)
in_turn =
    begun (login "right" "x")
    ∷ stepped lists 0
    ∷ stepped lists 0
    ∷ stepped lists 0
    ∷ stepped lists 0
    ∷ stepped lists 0
    ∷ stepped lists 0
    ∷ begun (login "wrong" "y")
    ∷ stepped lists 1
    ∷ stepped lists 1
    ∷ stepped lists 1
    ∷ []

-- Its ticket has the connection that the first password made.
logged_in :
    authenticate (happen_all new_client (pos 10) nobody in_turn).access (codes "y")
    ≡ some (entry_of "wrong" (some (codes "right")))
unfolding authenticate happen_all happen step_login log_in_step enter_connection end_listing
    store_buckets store_ticket user_of cut codes lookup insert bytes_eq
logged_in = refl

happen_all-authenticate_example : IsMade new_client (codes "a") (codes "right")
happen_all-authenticate_example =
    happen_all-authenticate new_client (pos 10) in_turn (codes "y")
      (entry_of "wrong" (some (codes "right"))) (codes "right") logged_in refl

-- The second login finds the connection of the first, whose ListBuckets then fails.
abbrev at_once : List (Event Bytes)
at_once =
    begun (login "right" "x")
    ∷ stepped lists 0
    ∷ stepped lists 0
    ∷ stepped lists 0
    ∷ begun (login "wrong" "y")
    ∷ stepped lists 1
    ∷ stepped fails 0
    ∷ stepped lists 1
    ∷ stepped lists 1
    ∷ []

-- It gets a ticket without a connection.
without_connection :
    authenticate (happen_all new_client (pos 10) nobody at_once).access (codes "y")
    ≡ some (entry_of "wrong" none)
unfolding authenticate happen_all happen step_login log_in_step enter_connection end_listing
    store_ticket user_of cut codes lookup insert remove bytes_eq
without_connection = refl

-- A login that waits for ListBuckets. After it the endpoint fails, and the cached list gets too old.
abbrev waiting : Server Bytes
waiting = record {
  access = record { bucket_lists = []; auth = []; connection_list = [] };
  logins = (login "right" "x", listing_buckets (codes "right")) ∷ [];
}

abbrev failing : Listing
failing = record { begins = pos 100; fetched = err 1; ends = pos 200 }

abbrev afterwards : List (Event Bytes)
afterwards = stepped lists 0 ∷ begun (login "wrong" "y") ∷ asking failing (codes "x") ∷ []
