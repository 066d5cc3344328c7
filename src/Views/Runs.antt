-- ===== src/Views/Runs.antt =====
-- Whole sessions.
use gaia_email_libs_and_more.Common.{◌≡◌, refl, Option, none, some, List, [], ◌∷◌}
use gaia_email_libs_and_more.Views.Session.{Session, Happening, happen, IsSound, IsUpToDate}
use gaia_email_libs_and_more.Views.Kept.{happen-IsUpToDate}

unfoldable pub happen_all : List Happening → Session → Option Session
happen_all [] s = some s
happen_all (h ∷ hs) s = elim (happen h s) [ none ↦ none | some t ↦ happen_all hs t ]

-- Each happening is sound when it happens.
abbrev pub IsSoundRun : List Happening → Session → Type 0
IsSoundRun [] s = Unit
IsSoundRun (h ∷ hs) s = IsSound h s × elim (happen h s) [ none ↦ Unit | some t ↦ IsSoundRun hs t ]

-- From a session that is up to date a run of sound happenings never fails, and it ends in one that is:
-- of every id that the proxy takes for valid the page has the data that is stored, and of every id whose
-- overlays it takes for valid the overlays.
pub happen_all-IsUpToDate :
    (hs : List Happening) (s : Session)
    → IsUpToDate s
    → IsSoundRun hs s
    → (t : Session) × (happen_all hs s ≡ some t) × IsUpToDate t
unfolding happen_all
happen_all-IsUpToDate [] s u k = (s, refl, u)
happen_all-IsUpToDate (h ∷ hs) s u k =
    let (t, e, u') = happen-IsUpToDate h s u k.0 in
    let (t', e', u'') = happen_all-IsUpToDate hs t u' (rw e at k.1) in
    (t', rw (happen_all, e) e', u'')
