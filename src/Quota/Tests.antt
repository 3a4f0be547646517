-- ===== src/Quota/Tests.antt =====
-- The quota store (internal/apikey/quota.go) on concrete tables.
use codex_sub_proxy.Prelude.{
  ℕ, ◌≡◌, ◌≢◌, ◌⊎◌, refl, Option, none, some, [], ◌∷◌, select, arith, ok, err,
}
use codex_sub_proxy.Prelude.Int.{ℤ, pos}
use codex_sub_proxy.Prelude.Table.{find, insert, modify}
use codex_sub_proxy.Quota.Types.{
  Amounts, Status, pending, finalizing, closed, released, is_finalizing, Reservation, Db, Error,
  out_of_fuel,
}
use codex_sub_proxy.Quota.Policy.{Policy, validate_quota_usage, usage_in_range}
use codex_sub_proxy.Quota.Rows.{no_amounts, mark, new_bucket}
use codex_sub_proxy.Quota.Admit.{FreshIds, prepare, admit, new_reservation}
use codex_sub_proxy.Quota.Settle.{reservation?, release, reconcile, default_usage}
use codex_sub_proxy.Quota.Recover.{is_orphan, recover_pending}
use codex_sub_proxy.Quota.Balance.{Balanced}
use codex_sub_proxy.Quota.Admitted.{Admission}
use codex_sub_proxy.Quota.Admissions.{admit_within_limits, admit-Balanced}
use codex_sub_proxy.Quota.Outcomes.{Ended, release_frees, reconcile_settles, recorded, success}
use codex_sub_proxy.Quota.Recovered.{recover_pending_ends}
use codex_sub_proxy.Quota.Final.{ended_is_final}
use codex_sub_proxy.Quota.Lockout.{rolling_lockout}

-- Two concurrent requests, three in a minute, ten in an hour with a thousand tokens.
abbrev pub raw : Policy ℤ
raw = record {
  max_concurrent_requests = pos 2;
  rolling_request_count = pos 3;
  rolling_request_window = pos 60000000000;
  period_request_limit = pos 10;
  period_token_limit = pos 1000;
  period_image_limit = pos 0;
  period_cost_microunit_limit = pos 0;
  period_duration = pos 3600000000000;
  token_reservation_default = pos 100;
  token_reservation_ceiling = pos 400;
  image_reservation_default = pos 0;
  image_reservation_ceiling = pos 0;
  cost_microunit_reservation_default = pos 0;
  cost_microunit_reservation_ceiling = pos 0;
}

abbrev pub policy : Policy ℕ
policy = record {
  max_concurrent_requests = 2;
  rolling_request_count = 3;
  rolling_request_window = 60000000000;
  period_request_limit = 10;
  period_token_limit = 1000;
  period_image_limit = 0;
  period_cost_microunit_limit = 0;
  period_duration = 3600000000000;
  token_reservation_default = 100;
  token_reservation_ceiling = 400;
  image_reservation_default = 0;
  image_reservation_ceiling = 0;
  cost_microunit_reservation_default = 0;
  cost_microunit_reservation_ceiling = 0;
}

abbrev raw_request : Amounts ℤ
raw_request = record { requests = pos 1; tokens = pos 100; images = pos 0; cost_microunits = pos 0 }

abbrev pub request : Amounts ℕ
request = record { requests = 1; tokens = 100; images = 0; cost_microunits = 0 }

abbrev pub ids : FreshIds
ids = record { reservation = 11; request = 12; bucket = 13; rolling = 14 }

abbrev pub no_rows : Db
no_rows = record { states = []; buckets = []; rolling = []; reservations = [] }

abbrev pub at : ℕ
at = 7200000000005

abbrev pub row : Reservation
row = new_reservation 9 7 ids at request (some (7200000000000, new_bucket 13 7 7200000000000 at))

abbrev one_row : Db
one_row = (admit 9 raw raw_request 7 ids at no_rows).1

no_rows-Balanced : Balanced no_rows
unfolding find
no_rows-Balanced = record {
  active = λ k. refl;
  reserved = λ d id b h. cc;
  has_bucket = tt;
  unique = tt;
  unique_rows = tt;
  named = refl;
}

admit_within_limits_example : Admission policy request 7 at no_rows row one_row
unfolding prepare admit find
admit_within_limits_example =
    admit_within_limits 9 7 ids at raw raw_request policy request no_rows row one_row
      no_rows-Balanced (omega arith) refl refl

admit-Balanced_example : Balanced one_row
admit-Balanced_example =
    admit-Balanced 9 7 ids at raw raw_request no_rows no_rows-Balanced (omega arith)

one_row-Balanced : Balanced one_row
one_row-Balanced = admit-Balanced 9 7 ids at raw raw_request no_rows no_rows-Balanced (omega arith)

one_row-found : reservation? 11 one_row ≡ some row
unfolding admit find insert
one_row-found = refl

release_frees_example :
    (db' : Db) × (release 11 (b'b' ∷ b'y' ∷ b'e' ∷ []) 7200000000009 one_row ≡ (ok tt, db'))
    × Ended one_row row
        (mark pending released no_amounts 7200000000009 (b'b' ∷ b'y' ∷ b'e' ∷ []))
        no_amounts
        db'
release_frees_example =
    release_frees one_row row (b'b' ∷ b'y' ∷ b'e' ∷ []) 7200000000009 one_row-Balanced (omega arith)
      one_row-found refl

abbrev pub raw_usage : Amounts ℤ
raw_usage = record { requests = pos 1; tokens = pos 80; images = pos 0; cost_microunits = pos 0 }

abbrev pub usage : Amounts ℕ
usage = record { requests = 1; tokens = 80; images = 0; cost_microunits = 0 }

abbrev Settles : Db → Reservation → Amounts ℤ → Amounts ℕ → ℕ → Type 0
Settles db r u charged now =
    ((e : Error) × (usage_in_range charged ≡ err e) × (reconcile r.id u now db ≡ (err e, db)))
    ⊎ ((db' : Db) × (reconcile r.id u now db ≡ (ok tt, db'))
        × Ended (recorded charged r db) (success charged r) (mark finalizing closed charged now [])
            charged db')
    ⊎ ((e : Error) × (reconcile r.id u now db ≡ (err e, recorded charged r db))
        × (reservation? r.id (recorded charged r db) ≡ some (success charged r))
        × Balanced (recorded charged r db))

reconcile_settles_example :
    Settles one_row row raw_usage (default_usage request usage) 7200000000009
unfolding validate_quota_usage
reconcile_settles_example =
    reconcile_settles one_row row raw_usage usage 7200000000009 one_row-Balanced (omega arith)
      one_row-found refl refl

-- Another process finds the reservation after a crash of its owner.
recover_pending_ends_example :
    ((e : Error) × (e ≢ out_of_fuel) × (recover_pending 8 7200000000009 one_row ≡ (err e, one_row)))
    ⊎ ((db' : Db) × (recover_pending 8 7200000000009 one_row ≡ (ok tt, db'))
        × Balanced db'
        × (select (λ r. is_finalizing r.status) db'.reservations ≡ [])
        × (select (is_orphan 8) db'.reservations ≡ []))
recover_pending_ends_example = recover_pending_ends 8 7200000000009 one_row one_row-Balanced

abbrev status_of : Option Reservation → Option Status
status_of none = none
status_of (some r) = some r.status

recovered_status :
    status_of (reservation? 11 (recover_pending 8 7200000000009 one_row).1) ≡ some released
unfolding admit find insert modify recover_pending
recovered_status = refl

-- The tables with the row closed.
abbrev closed_row : Reservation
closed_row = record row { status = closed; actual = usage }

abbrev closed_rows : Db
closed_rows = record no_rows { reservations = closed_row ∷ [] }

ended_is_final_example :
    (release 11 [] 7200000000009 closed_rows ≡ (ok tt, closed_rows))
    × (reconcile 11 raw_usage 7200000000009 closed_rows ≡ (ok tt, closed_rows))
unfolding find validate_quota_usage
ended_is_final_example =
    ended_is_final closed_rows closed_row 11 7200000000009 [] raw_usage usage (omega arith) refl
      refl refl

abbrev pub success_rows : Db
success_rows = record no_rows {
  reservations = record row { status = finalizing; actual = usage } ∷ [];
}

-- A key that has admitted 300 requests, under a limit that was lowered to 3.
abbrev crowded : Db
crowded = record no_rows {
  states = record { key_id = 7; active_requests = 0; rolling_count = 300; updated_at = 0 } ∷ [];
}

rolling_lockout_example :
    (e : Error) × (admit 9 raw raw_request 7 ids at crowded ≡ (err e, crowded))
unfolding prepare find
rolling_lockout_example =
    rolling_lockout 9 7 ids at raw raw_request policy request crowded tt refl (omega arith)
      (omega arith)
