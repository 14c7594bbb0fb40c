-- ===== src/Power/Tracking.antt =====
-- The events of the supply task keep a view of the power up to date.
use ampered.Prelude.{
  ◌≡◌, refl, arith, true, false, List, [], ◌∷◌, ◌++◌, Option, none, some, is_some,
}
use ampered.Core.Types.{PowerSnapshot, Event}
use ampered.Power.Supply.{Supply, diff, poll, polls}

-- What a list of power events makes of a view of the power.
abbrev pub follow : List Event → PowerSnapshot → PowerSnapshot
follow [] view = view
follow (Event.ac_changed ac ∷ es) view = follow es (record view { ac = ac })
follow (Event.battery percent ∷ es) view = follow es (record view { battery = some percent })
follow (_ ∷ es) view = follow es view

follow-append :
    (es fs : List Event) (view : PowerSnapshot)
    → follow (es ++ fs) view ≡ follow fs (follow es view)
follow-append [] fs view = refl
follow-append (Event.ac_changed ac ∷ es) fs view = follow-append es fs (record view { ac = ac })
follow-append (Event.battery percent ∷ es) fs view =
    follow-append es fs (record view { battery = some percent })
follow-append (_ ∷ es) fs view = follow-append es fs view

-- A view has the source's AC, and its charge as far as the source has one.
abbrev pub Tracks : PowerSnapshot → PowerSnapshot → Type 0
Tracks view source =
    (view.ac ≡ source.ac) × (is_some source.battery ≡ true → view.battery ≡ source.battery)

diff-Tracks :
    (view previous current : PowerSnapshot)
    → Tracks view previous
    → Tracks (follow (diff previous current) view) current
unfolding diff
diff-Tracks view previous current t = ground arith

-- The last snapshot among the answers, and before any the one at the start.
abbrev pub last_read : List (Option PowerSnapshot) → PowerSnapshot → PowerSnapshot
last_read [] first = first
last_read (none ∷ answers) first = last_read answers first
last_read (some snapshot ∷ answers) first = last_read answers snapshot

-- Whatever the source answers, and also where it fails in between, a view that follows the events
-- of the task from a view of the snapshot before them keeps up with the last snapshot that the source
-- gave.
pub polls-Tracks :
    (answers : List (Option PowerSnapshot)) (s : Supply) (view : PowerSnapshot)
    → Tracks view s.previous
    → Tracks (follow (polls answers s).1 view) (last_read answers s.previous)
unfolding polls poll
polls-Tracks [] s view t = t
polls-Tracks (none ∷ answers) s view t = polls-Tracks answers (record s { readable = false }) view t
polls-Tracks (some snapshot ∷ answers) s view t =
    let s' : Supply = record s { previous = snapshot; latest = snapshot; readable = true } in
    rw (follow-append (diff s.previous snapshot) (polls answers s').1 view) (
      polls-Tracks answers s' (follow (diff s.previous snapshot) view)
        (diff-Tracks view s.previous snapshot t))

-- Nothing changed, nothing sent.
pub diff_self : (s : PowerSnapshot) → diff s s ≡ []
unfolding diff
diff_self s = ground arith
