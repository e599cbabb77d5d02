-- ===== src/Reports/Calls/States.antt =====
-- The state that a list of calls is filtered by, and the state that its calls are shown with.
use zaman.Base.{◌≡◌, refl, Bool, true, false, ◌&&◌, ◌||◌, not, if◌then◌else◌}
use zaman.Text.{Bytes, codes, equal, contains}
use zaman.Text.Decimal.{geb}
use zaman.Db.CallState.{CallState}
use zaman.Reports.Calls.{admits, call_state_name}

-- Is a call shown as `state`.
abbrev pub shown : Bytes → CallState → Bool
shown state r = equal (call_state_name r) state

-- What the names of the states come to, for a call by its four conditions.
names :
    (opened answered refused canceled : Bool)
    → let name =
        if opened && answered
        then codes "answered"
        else if opened
        then codes "ringing"
        else if not answered && refused
        then codes "failed"
        else codes "ended" in
      ((opened && not answered) ≡ equal name (codes "ringing"))
      × ((opened && answered) ≡ equal name (codes "answered"))
      × ((not opened && not answered && refused) ≡ equal name (codes "failed"))
      × (not opened ≡ (equal name (codes "ended") || equal name (codes "failed")))
      × ((not opened && canceled)
          ≡ ((equal name (codes "ended") || equal name (codes "failed")) && canceled))
unfolding equal
names true true refused canceled = (refl, refl, refl, refl, refl)
names true false refused canceled = (refl, refl, refl, refl, refl)
names false true refused canceled = (refl, refl, refl, refl, refl)
names false false true canceled = (refl, refl, refl, refl, refl)
names false false false canceled = (refl, refl, refl, refl, refl)

-- Asked for its ringing, answered or failed calls, by either name of a state, the list has the calls
-- that are shown with that state and no others. Ended ones are those that are shown as ended or as
-- failed, and canceled ones are among these.
pub admits-shown :
    (r : CallState)
    → (admits (codes "ringing") r ≡ shown (codes "ringing") r)
      × (admits (codes "open") r ≡ shown (codes "ringing") r)
      × (admits (codes "answered") r ≡ shown (codes "answered") r)
      × (admits (codes "active") r ≡ shown (codes "answered") r)
      × (admits (codes "failed") r ≡ shown (codes "failed") r)
      × (admits (codes "ended") r ≡ (shown (codes "ended") r || shown (codes "failed") r))
      × (admits (codes "canceled") r ≡ (
          (shown (codes "ended") r || shown (codes "failed") r)
          && contains r.last_method (codes "CANCEL")))
unfolding admits call_state_name
admits-shown r =
    let (ringing, answered, failed, ended, canceled) =
      names r.is_open r.answered (geb r.last_status 400)
        (contains r.last_method (codes "CANCEL")) in
    (ringing, ringing, answered, answered, failed, ended, canceled)
