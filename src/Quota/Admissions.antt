-- ===== src/Quota/Admissions.antt =====
-- QuotaStore.Admit as its callers see it (internal/apikey/quota.go).
use codex_sub_proxy.Prelude.{
  ℕ, ◌≡◌, ◌≢◌, inl, inr, Option, none, some, arith, Result, ok, err, Result-cases,
}
use codex_sub_proxy.Prelude.Int.{ℤ}
use codex_sub_proxy.Quota.Types.{Amounts, Reservation, Db, Error}
use codex_sub_proxy.Quota.Policy.{Policy}
use codex_sub_proxy.Quota.Admit.{FreshIds, admit_locked, prepare, admit_checked, admit, after}
use codex_sub_proxy.Quota.Balance.{Balanced}
use codex_sub_proxy.Quota.Cleanup.{entered}
use codex_sub_proxy.Quota.Admitted.{Admission, admit_locked-Admission}

module _ (owner : ℕ) (key_id : ℕ) (ids : FreshIds) (now : ℕ) (db : Db) (v : Balanced db)
    (named : ids.bucket ≢ 0) where
  -- How the transaction ends: it is rolled back, or it has admitted the request.
  data Ends (p : Policy ℕ) (r : Amounts ℕ) : Result Error (Option Reservation) × Db → Type 0 where
    refused : (e : Error) → Ends p r (err e, db)
    granted :
        (row : Reservation) (db' : Db)
        → Admission p r key_id now db row db'
        → Ends p r (ok (some row), db')

  admit_checked-Ends :
      (p : Policy ℕ) (r : Amounts ℕ)
      → Ends p r (after db (admit_checked owner (some (p, r)) key_id ids now db))
  unfolding admit_checked
  admit_checked-Ends p r =
      elim (Result-cases (admit_locked owner p r key_id ids now (entered key_id now db))) [
        | inr (e, bad) ↦ rw bad (refused e)
        | inl ((row, db'), good) ↦ rw good (
            granted row db'
              (admit_locked-Admission owner p r key_id ids now db row db' v named good))
      ]

  ends_granted :
      (p : Policy ℕ) (r : Amounts ℕ) (x : Result Error (Option Reservation) × Db)
      (row : Reservation) (db' : Db)
      → Ends p r x
      → x ≡ (ok (some row), db')
      → Admission p r key_id now db row db'
  ends_granted p r _ row db' (refused e) h = cc
  ends_granted p r _ row db' (granted row0 db0 a) h =
      let same_row : row ≡ row0 = ground arith in
      let same_db : db' ≡ db0 = ground arith in rw (same_row, same_db) a

  ends_Balanced :
      (p : Policy ℕ) (r : Amounts ℕ) (x : Result Error (Option Reservation) × Db)
      → Ends p r x
      → Balanced x.1
  ends_Balanced p r _ (refused e) = v
  ends_Balanced p r _ (granted row db' a) = a.balanced

-- An admission that succeeds on balanced tables passes no limit of the checked policy that is on: the
-- key's concurrent requests and its rolling count are within theirs, and in every dimension what the
-- bucket of the key and the current period holds and has used is within that of the period, where one
-- is on. The key counts one more request, the new row is stored as pending for the key and that
-- bucket under an id that was free, and the books stay balanced.
pub admit_within_limits :
    (owner key_id : ℕ) (ids : FreshIds) (now : ℕ) (policy : Policy ℤ) (req : Amounts ℤ)
    (p : Policy ℕ) (r : Amounts ℕ) (db : Db) (row : Reservation) (db' : Db)
    → Balanced db
    → ids.bucket ≢ 0
    → prepare policy req key_id now ≡ ok (some (p, r))
    → admit owner policy req key_id ids now db ≡ (ok (some row), db')
    → Admission p r key_id now db row db'
unfolding admit
admit_within_limits owner key_id ids now policy req p r db row db' v named prepared h =
    ends_granted owner key_id ids now db v named p r
      (after db (admit_checked owner (some (p, r)) key_id ids now db)) row db'
      (admit_checked-Ends owner key_id ids now db v named p r) (rw (prepared, admit) at h)

-- Whatever the outcome of an admission, balanced tables stay balanced.
pub admit-Balanced :
    (owner key_id : ℕ) (ids : FreshIds) (now : ℕ) (policy : Policy ℤ) (req : Amounts ℤ) (db : Db)
    → Balanced db
    → ids.bucket ≢ 0
    → Balanced (admit owner policy req key_id ids now db).1
unfolding admit
admit-Balanced owner key_id ids now policy req db v named =
    elim (Result-cases (prepare policy req key_id now)) [
      | inr (e, bad) ↦ rw (bad, admit) v
      | inl (none, off) ↦ rw (off, admit) v
      | inl (some (p, r), on) ↦
          rw (on, admit)
            (ends_Balanced owner key_id ids now db v named p r _
              (admit_checked-Ends owner key_id ids now db v named p r))
    ]
