-- ===== src/Logind/Idle.antt =====
-- The idle fallback of logind (src/logind.rs): `fallback_event` and the loop of `idle_hint_poll`.
use ampered.Prelude.{
  ℕ, ◌≡◌, Bool, true, false, not, ◌&&◌, List, [], ◌∷◌, ◌++◌, Option, none, some, if◌then◌else◌, leb,
  ltb, ◌-◌, ◌*◌, arith, inl, inr, ◌⊎◌, refl, ap, sym, ◌∙◌,
}
use ampered.Config.Durations.{Duration}
use ampered.Core.Types.{Event, Stage}

-- What the poller needs from the daemon.
pub record IdleFallback : Type 0 where
  pub enabled : Bool
  pub compositor : Bool
  pub sleep_after : Option Duration

unfoldable pub engaged : IdleFallback → Bool
engaged f = f.enabled && not f.compositor

when_idle : Bool → Option Event × Bool
when_idle fired = if fired then (none, true) else (some (Event.idle Stage.sleep), true)

when_not : Bool → Bool → Option Event × Bool
when_not hint fired = if fired && not hint then (some Event.activity, false) else (none, fired)

-- `fallback_event`, with the new value of `fired`.
unfoldable pub fallback_event : Bool → Duration → Option Duration → Bool → Option Event × Bool
unfolding when_idle when_not
fallback_event hint idle_for none fired = when_not hint fired
fallback_event hint idle_for (some after) fired =
    if hint && leb after idle_for then when_idle fired else when_not hint fired

-- What the bus answers: the hint and since when, in microseconds since the epoch, and the time of the
-- clock, in nanoseconds since the epoch.
pub record Reading : Type 0 where
  pub hint : Bool
  pub since : ℕ
  pub now : ℕ

-- How long the session has been idle; a time in the future counts as now.
unfoldable pub idle_time : Reading → Duration
idle_time r = if r.hint && ltb 0 r.since then r.now - r.since * 1000 else 0

-- A round of the poll: the control, and what the bus answers, unless it fails.
pub record Sample : Type 0 where
  pub control : IdleFallback
  pub reading : Option Reading

abbrev pub to_list : Option Event → List Event
to_list none = []
to_list (some event) = event ∷ []

read_round : Option Reading → Option Duration → Bool → List Event × Bool
read_round none sleep_after fired = ([], fired)
read_round (some r) sleep_after fired =
    let (event, fired') = fallback_event r.hint (idle_time r) sleep_after fired in
    (to_list event, fired')

unfoldable pub round : Sample → Bool → List Event × Bool
unfolding read_round
round sample fired =
    if not (engaged sample.control)
    then ([], false)
    else read_round sample.reading sample.control.sleep_after fired

unfoldable pub idle_hint_poll : List Sample → Bool → List Event
idle_hint_poll [] fired = []
idle_hint_poll (sample ∷ samples) fired =
    let (events, fired') = round sample fired in events ++ idle_hint_poll samples fired'

-- `Idle(Sleep)` and `Activity` by turns, `Activity` first if the stage was delivered before.
abbrev pub Alternates : Bool → List Event → Type 0
Alternates delivered [] = Unit {0}
Alternates false (Event.idle Stage.sleep ∷ events) = Alternates true events
Alternates true (Event.activity ∷ events) = Alternates false events
Alternates _ _ = ⊥

abbrev pub AllEngaged : List Sample → Type 0
AllEngaged [] = Unit {0}
AllEngaged (sample ∷ samples) = (engaged sample.control ≡ true) × AllEngaged samples

read_round-cases :
    (reading : Option Reading) (sleep_after : Option Duration) (fired : Bool)
    → (read_round reading sleep_after fired ≡ ([], fired))
      ⊎ (((fired ≡ false)
            × (read_round reading sleep_after fired ≡ (Event.idle Stage.sleep ∷ [], true)))
          ⊎ ((fired ≡ true)
              × (read_round reading sleep_after fired ≡ (Event.activity ∷ [], false))))
unfolding read_round fallback_event
read_round-cases reading sleep_after fired = ground arith

-- What a reading says for itself: idle for as long as the sleep stage asks, not idle, or neither: idle
-- for less, no stage to wait for, or no answer.
pub data Verdict : Type 0 where
  idle_enough awake undecided : Verdict

abbrev verdict_after : Bool → Verdict
verdict_after true = Verdict.idle_enough
verdict_after false = Verdict.undecided

abbrev verdict_idle : Option Duration → Duration → Verdict
verdict_idle none idle_for = Verdict.undecided
verdict_idle (some after) idle_for = verdict_after (leb after idle_for)

abbrev verdict_of : Bool → Option Duration → Duration → Verdict
verdict_of false sleep_after idle_for = Verdict.awake
verdict_of true sleep_after idle_for = verdict_idle sleep_after idle_for

abbrev pub verdict : Option Reading → Option Duration → Verdict
verdict none sleep_after = Verdict.undecided
verdict (some r) sleep_after = verdict_of r.hint sleep_after (idle_time r)

abbrev pub decided : Verdict → Bool → Bool
decided Verdict.idle_enough before = true
decided Verdict.awake before = false
decided Verdict.undecided before = before

-- Whether the last reading that says either says idle.
abbrev pub last_decided : List Sample → Bool → Bool
last_decided [] before = before
last_decided (sample ∷ samples) before =
    last_decided samples (decided (verdict sample.reading sample.control.sleep_after) before)

-- Whether the last that was reported is the sleep stage.
abbrev pub reported : List Event → Bool → Bool
reported [] before = before
reported (Event.idle stage ∷ events) before = reported events true
reported (Event.activity ∷ events) before = reported events false
reported (_ ∷ events) before = reported events before

read_round-decided :
    (reading : Option Reading) (sleep_after : Option Duration) (fired : Bool)
    → (read_round reading sleep_after fired).1 ≡ decided (verdict reading sleep_after) fired
unfolding read_round fallback_event idle_time
read_round-decided reading sleep_after fired = ground arith

-- As long as the fallback is engaged, whatever the bus answers or fails to: it reports the sleep stage and
-- activity by turns, and after any number of rounds the last report is that of the last reading that
-- decides, which is the sleep stage if the session was idle for as long as the stage asks, and activity
-- if it was not idle. So there is one report for a stretch of idleness and one for its end.
pub idle_hint_poll-Alternates :
    (samples : List Sample) (fired : Bool)
    → AllEngaged samples
    → Alternates fired (idle_hint_poll samples fired)
      × (reported (idle_hint_poll samples fired) fired ≡ last_decided samples fired)
unfolding idle_hint_poll round
idle_hint_poll-Alternates [] fired h = (tt, refl)
idle_hint_poll-Alternates (sample ∷ samples) fired h =
    let kept = read_round-decided sample.reading sample.control.sleep_after fired in
    let said = verdict sample.reading sample.control.sleep_after in
    elim (read_round-cases sample.reading sample.control.sleep_after fired) [
      | inl same ↦
          let (turns, last) = idle_hint_poll-Alternates samples fired h.1 in
          let now = sym (ap (λ t. t.1) same) ∙ kept in
          rw (h.0, same) (turns, last ∙ ap (last_decided samples) now)
      | inr (inl (f, e)) ↦
          let (turns, last) = idle_hint_poll-Alternates samples true h.1 in
          let now = sym (ap (λ t. t.1) e) ∙ (kept ∙ ap (decided said) f) in
          rw (h.0, e) (rw f (turns, last ∙ ap (last_decided samples) now))
      | inr (inr (f, e)) ↦
          let (turns, last) = idle_hint_poll-Alternates samples false h.1 in
          let now = sym (ap (λ t. t.1) e) ∙ (kept ∙ ap (decided said) f) in
          rw (h.0, e) (rw f (turns, last ∙ ap (last_decided samples) now))
    ]
