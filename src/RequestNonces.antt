-- ===== src/RequestNonces.antt =====
-- kiwi_catalog/a2a/request_signature.py: the time window of a signed request, and the consumption of
-- its nonce. That the signature is valid and covers both is taken as given.
pub mod Once
use Prim.Native.String
use Prim.Native.Nat.{◌+◌}
use kiwi_catalog.Prelude.{
  ℕ, ◌%◌, String, Bool, ◌&&◌, ◌||◌, Option, List, ◌==◌, ◌=ₛ◌, ltb, is_some, if◌then◌else◌,
}
use kiwi_catalog.Prelude.Table.{find?, insert, delete}
use kiwi_catalog.Result.{Error}
use kiwi_catalog.Action.{Action, Outcome, ◌>>=◌, ◌>>◌, raise_if, from_option}

-- An ISO text with an offset: the instant that it stands for, and the seconds since the epoch that
-- its digits show, by which the database compares such texts. In UTC the two are the same.
pub record Stamp : Type 0 where
  pub instant : ℕ
  pub shown : ℕ

abbrev pub utc : ℕ → Stamp
utc t = record { instant = t; shown = t }

-- A row of `control_plane_nonces`.
pub record Nonce : Type 0 where
  pub key_id : String
  pub nonce : String
  pub issued_at : Stamp
  pub expires_at : Stamp
  pub created_at : ℕ

-- A request whose signature was verified; `issued_at` is none where its text is malformed.
pub record Signed : Type 0 where
  pub key_id : String
  pub nonce : String
  pub issued_at : Option Stamp

-- `DEFAULT_CLOCK_SKEW_SECONDS`, `MIN_NONCE_LENGTH`, `MAX_NONCE_LENGTH`, `_PRUNE_EVERY`
abbrev pub window_seconds : ℕ
window_seconds = 300

abbrev min_nonce_length : ℕ
min_nonce_length = 8

abbrev max_nonce_length : ℕ
max_nonce_length = 128

abbrev prune_every : ℕ
prune_every = 64

abbrev pub later : Stamp → ℕ → Stamp
later t seconds = record { instant = t.instant + seconds; shown = t.shown + seconds }

abbrev pub is_nonce : String → String → Nonce → Bool
is_nonce key_id nonce r = r.key_id =ₛ key_id && r.nonce =ₛ nonce

abbrev pub outlived : ℕ → Nonce → Bool
outlived now r = ltb r.expires_at.shown now

abbrev pub row_of : Signed → Stamp → ℕ → Nonce
row_of r issued now = record {
  key_id = r.key_id;
  nonce = r.nonce;
  issued_at = issued;
  expires_at = later issued window_seconds;
  created_at = now;
}

-- `on conflict(key_id, nonce) do nothing` and the row count, then the pruning on each 64th call;
-- `calls` is the process-wide `_prune_counter` before the call.
unfoldable pub store_nonce : ℕ → ℕ → Nonce → Action (List Nonce) Unit
store_nonce now calls row rows =
    if is_some (find? (is_nonce row.key_id row.nonce) rows)
    then Outcome.raised Error.permission_denied rows
    else Outcome.done tt (
        if calls % prune_every == 0
        then delete (outlived now) (insert row rows)
        else insert row rows)

unfoldable pub consume_request_nonce : ℕ → ℕ → Signed → Action (List Nonce) Unit
consume_request_nonce now calls r = do
  raise_if
      (ltb (String.count r.nonce) min_nonce_length || ltb max_nonce_length (String.count r.nonce))
      Error.validation
  issued ← from_option Error.validation r.issued_at
  store_nonce now calls (row_of r issued now)

-- `abs((current - issued).total_seconds()) > clock_skew_seconds`
abbrev pub outside_window : ℕ → Stamp → Bool
outside_window now issued =
    ltb (issued.instant + window_seconds) now || ltb (now + window_seconds) issued.instant

-- The end of `verify_runtime_request`: the window, and then the nonce.
unfoldable pub accept_request : ℕ → ℕ → Signed → Action (List Nonce) Unit
accept_request now calls r = do
  issued ← from_option Error.validation r.issued_at
  raise_if (outside_window now issued) Error.permission_denied
  consume_request_nonce now calls r
