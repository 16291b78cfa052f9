-- ===== src/Tests/Nonces.antt =====
-- Signed requests that arrive again (kiwi_catalog/a2a/request_signature.py).
use kiwi_catalog.Prelude.{◌≡◌, refl, some, List, [], ◌∷◌, arith}
use kiwi_catalog.Prelude.Table.{find?, insert, delete}
use kiwi_catalog.Result.{Error}
use kiwi_catalog.Action.{done, raised}
use kiwi_catalog.RequestNonces.{
  utc, Nonce, Signed, row_of, store_nonce, consume_request_nonce, accept_request,
}
use kiwi_catalog.RequestNonces.Once.{Arrival, serve_all, accept_request-once}

abbrev signed : Signed
signed = record { key_id = "k"; nonce = "nonce-0001"; issued_at = some (utc 100000) }

abbrev kept_row : Nonce
kept_row = row_of signed (utc 100000) 100010

accepted : accept_request 100010 0 signed [] ≡ done tt (kept_row ∷ [])
unfolding accept_request consume_request_nonce store_nonce find? insert delete
accepted = refl

abbrev between : List Arrival
between =
    record {
      now = 100020;
      calls = 64;
      request = record { key_id = "k"; nonce = "nonce-0002"; issued_at = some (utc 100015) };
    }
    ∷ []

accept_request-once_example :
    accept_request 100200 65 signed (serve_all between (kept_row ∷ []))
    ≡ raised Error.permission_denied (serve_all between (kept_row ∷ []))
accept_request-once_example =
    accept_request-once 100010 0 signed 100000 [] (kept_row ∷ []) refl accepted between 100200 65
      (omega arith, tt)

-- A time of eight hours behind UTC shows a number that the pruning takes for long past: the row goes
-- with the call that stored it, and a replay is accepted.
abbrev signed_west : Signed
signed_west = record {
  key_id = "k";
  nonce = "nonce-0001";
  issued_at = some (record { instant = 100000; shown = 71200 });
}

west_accepted : accept_request 100010 0 signed_west [] ≡ done tt []
unfolding accept_request consume_request_nonce store_nonce find? insert delete
west_accepted = refl

west_accepted_again : accept_request 100011 64 signed_west [] ≡ done tt []
unfolding accept_request consume_request_nonce store_nonce find? insert delete
west_accepted_again = refl
