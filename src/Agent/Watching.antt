-- ===== src/Agent/Watching.antt =====
-- What the agent watches in the compositor (src/idle.rs).
use mathlib.Core.List.{append-nil}
use ampered.Prelude.{
  ℕ, ◌≡◌, refl, arith, Bool, true, false, ◌&&◌, List, [], ◌∷◌, ◌++◌, Option, none, some,
  if◌then◌else◌, All, subst, ap, ◌∙◌, sym, Bool-cases, inl, inr,
}
use ampered.Core.Types.{Event, Stage, Stages, get_stage}
use ampered.Agent.Watcher.{
  Watcher, Notification, Interface, connected, set_screen, remove_output, set_stages,
  notifications_for, notification_for, first_stage, ready, on_global, on_idled, on_stage_resumed,
  switch_all, on_failed, is_primary, same_stage,
}

-- The notifications are those of some stages, as soon as there are a seat and a notifier, and the first of
-- them is the primary one.
pub record IsCurrent (asked : Stages) (w : Watcher) : Type 0 where
  pub wants : w.wanted ≡ asked
  pub watches : w.notifications ≡ (if w.seat && w.notifier then notifications_for asked else [])
  pub first : w.primary ≡ first_stage w.notifications

-- What the compositor or the daemon makes happen to a connection, and the stages that were last asked for
-- before it and after it.
pub data Step : Stages → Watcher → Stages → Watcher → Type 0 where
  global : (s : Stages) (name : ℕ) (i : Interface) (w : Watcher) → Step s w s (on_global name i w)
  removed : (s : Stages) (name : ℕ) (w : Watcher) → Step s w s (remove_output name w)
  idled : (s : Stages) (stage : Stage) (w : Watcher) → Step s w s (on_idled stage w)
  resumed : (s : Stages) (stage : Stage) (w : Watcher) → Step s w s (on_stage_resumed stage w)
  failed : (s : Stages) (name : ℕ) (w : Watcher) → Step s w s (on_failed name w)
  stages : (before s : Stages) (w : Watcher) → Step before w s (set_stages s w)
  screen : (s : Stages) (on : Bool) (w : Watcher) → Step s w s (set_screen on w)
  sent : (s : Stages) (w : Watcher) → Step s w s (record w { outgoing = [] })

-- A connection with the stages that were last asked for: those from before it, until there is a request.
pub data Reach : Stages → Watcher → Type 0 where
  begins : (s : Stages) → Reach s (connected s)
  then_step : {s s' : Stages} {w w' : Watcher} → Reach s w → Step s w s' w' → Reach s' w'

either-IsCurrent :
    (s : Stages) (test : Bool) (a b : Watcher)
    → (test ≡ true → IsCurrent s a)
    → (test ≡ false → IsCurrent s b)
    → IsCurrent s (if test then a else b)
either-IsCurrent s true a b ha hb = ha refl
either-IsCurrent s false a b ha hb = hb refl

-- What leaves the notifications, their globals and the primary stage alone.
kept-IsCurrent :
    (s : Stages) (w w' : Watcher)
    → IsCurrent s w
    → (w'.seat ≡ w.seat) × ((w'.notifier ≡ w.notifier) × (w'.wanted ≡ w.wanted))
    → (w'.notifications ≡ w.notifications) × (w'.primary ≡ w.primary)
    → IsCurrent s w'
kept-IsCurrent s w w' c (seat, (notifier, wanted)) (notifications, primary) = record {
  wants = wanted ∙ c.wants;
  watches = rw (seat, notifier) (notifications ∙ c.watches);
  first = primary ∙ (c.first ∙ ap first_stage (sym notifications));
}

set_stages-IsCurrent : (s : Stages) (w : Watcher) → IsCurrent s (set_stages s w)
unfolding set_stages
set_stages-IsCurrent s w = elim (Bool-cases (w.seat && w.notifier)) [
  | inl both ↦ rw both (record { wants = refl; watches = rw both refl; first = refl })
  | inr apart ↦ rw apart (record { wants = refl; watches = rw apart refl; first = refl })
]

-- A connection that has just found a seat or a notifier, and did not have it before.
ready-IsCurrent :
    (s : Stages) (w : Watcher)
    → w.wanted ≡ s
    → ((w.seat && w.notifier) ≡ false → IsCurrent s w)
    → IsCurrent s (ready w)
ready-IsCurrent s w same h = elim (Bool-cases (w.seat && w.notifier)) [
  | inl both ↦
      rw both
        (subst (λ t. IsCurrent t (set_stages w.wanted w)) same (set_stages-IsCurrent w.wanted w))
  | inr apart ↦ rw apart (h apart)
]

global-IsCurrent :
    (s : Stages) (name : ℕ) (i : Interface) (w : Watcher)
    → IsCurrent s w
    → IsCurrent s (on_global name i w)
unfolding on_global
global-IsCurrent s name Interface.seat w c =
    either-IsCurrent s w.seat w (ready (record w { seat = true })) (λ already. c)
      (λ fresh.
        ready-IsCurrent s (record w { seat = true }) c.wants
          (λ apart.
            let before = c.watches in
            record { wants = c.wants; watches = ground arith; first = c.first }))
global-IsCurrent s name Interface.idle_notifier w c =
    let found : Watcher = record w {
      notifier = true;
      announced = true;
      outgoing = w.outgoing ++ Event.idle_backend_changed true ∷ [];
    } in
    ready-IsCurrent s found c.wants (λ apart.
      let before = c.watches in record { wants = c.wants; watches = ground arith; first = c.first })
global-IsCurrent s name Interface.power_manager w c =
    kept-IsCurrent s w (record w { power_manager = true }) c (refl, (refl, refl)) (refl, refl)
global-IsCurrent s name Interface.output w c =
    kept-IsCurrent s w
      (record w { outputs = w.outputs ++ record { name = name; power = none } ∷ [] }) c
      (refl, (refl, refl)) (refl, refl)
global-IsCurrent s name Interface.other w c = c

Step-IsCurrent : {s s' : Stages} {w w' : Watcher} → Step s w s' w' → IsCurrent s w → IsCurrent s' w'
unfolding on_global remove_output on_idled on_stage_resumed on_failed set_screen
Step-IsCurrent (Step.global s name i w) c = global-IsCurrent s name i w c
Step-IsCurrent (Step.removed s name w) c =
    kept-IsCurrent s w (remove_output name w) c (refl, (refl, refl)) (refl, refl)
Step-IsCurrent (Step.idled s stage w) c =
    kept-IsCurrent s w (on_idled stage w) c (refl, (refl, refl)) (refl, refl)
Step-IsCurrent (Step.resumed s stage w) c =
    let spoken : Watcher = record w { outgoing = w.outgoing ++ Event.activity ∷ [] } in
    either-IsCurrent s (is_primary w.primary stage) spoken w
      (λ speaks. kept-IsCurrent s w spoken c (refl, (refl, refl)) (refl, refl)) (λ silent. c)
Step-IsCurrent (Step.failed s name w) c =
    kept-IsCurrent s w (on_failed name w) c (refl, (refl, refl)) (refl, refl)
Step-IsCurrent (Step.stages before s w) c = set_stages-IsCurrent s w
Step-IsCurrent (Step.screen s on w) c =
    let switched : Watcher = record w { outputs = switch_all on w.outputs } in
    either-IsCurrent s w.power_manager switched w
      (λ present. kept-IsCurrent s w switched c (refl, (refl, refl)) (refl, refl)) (λ absent. c)
Step-IsCurrent (Step.sent s w) c =
    kept-IsCurrent s w (record w { outgoing = [] }) c (refl, (refl, refl)) (refl, refl)

-- Whatever the compositor announces, and in whatever order with the requests of the daemon, the agent
-- watches exactly the stages that were last asked for, from the moment that there are a seat and a
-- notifier, and no stage before.
pub Reach-IsCurrent : {s : Stages} {w : Watcher} → Reach s w → IsCurrent s w
unfolding connected
Reach-IsCurrent (Reach.begins s) = record { wants = refl; watches = refl; first = refl }
Reach-IsCurrent (Reach.then_step r step) = Step-IsCurrent step (Reach-IsCurrent r)

abbrev pub resume_all : List Notification → Watcher → Watcher
resume_all [] w = w
resume_all (n ∷ rest) w = resume_all rest (on_stage_resumed n.stage w)

abbrev pub one_activity : List Notification → List Event
one_activity [] = []
one_activity (n ∷ rest) = Event.activity ∷ []

same_stage_refl : (stage : Stage) → same_stage stage stage ≡ true
unfolding same_stage
same_stage_refl Stage.dim = refl
same_stage_refl Stage.screen_off = refl
same_stage_refl Stage.sleep = refl

stage_resumed-silent :
    (stage : Stage) (w : Watcher)
    → is_primary w.primary stage ≡ false
    → on_stage_resumed stage w ≡ w
unfolding on_stage_resumed
stage_resumed-silent stage w h =
    ap (λ t. if t then record w { outgoing = w.outgoing ++ Event.activity ∷ [] } else w) h

stage_resumed-speaks :
    (stage : Stage) (w : Watcher)
    → w.primary ≡ some stage
    → on_stage_resumed stage w ≡ record w { outgoing = w.outgoing ++ Event.activity ∷ [] }
unfolding on_stage_resumed is_primary
stage_resumed-speaks stage w h =
    let primary : is_primary w.primary stage ≡ true =
      ap (λ p. is_primary p stage) h ∙ same_stage_refl stage in
    ap (λ t. if t then record w { outgoing = w.outgoing ++ Event.activity ∷ [] } else w) primary

resume_all-silent :
    (ns : List Notification) (w : Watcher)
    → All (λ n. is_primary w.primary n.stage ≡ false) ns
    → resume_all ns w ≡ w
unfolding on_stage_resumed
resume_all-silent [] w h = refl
resume_all-silent (n ∷ rest) w h =
    ap (resume_all rest) (stage_resumed-silent n.stage w h.0) ∙ resume_all-silent rest w h.1

-- No later notification is for the stage of the first.
abbrev Apart : List Notification → Type 0
Apart [] = Unit {0}
Apart (n ∷ rest) = All (λ m. same_stage n.stage m.stage ≡ false) rest

stages-Apart :
    (dim screen_off sleep : Option ℕ)
    → Apart (
        notification_for Stage.dim dim
        ++ (notification_for Stage.screen_off screen_off ++ notification_for Stage.sleep sleep))
unfolding notification_for same_stage
stages-Apart none none none = tt
stages-Apart none none (some c) = tt
stages-Apart none (some b) none = tt
stages-Apart none (some b) (some c) = (refl, tt)
stages-Apart (some a) none none = tt
stages-Apart (some a) none (some c) = (refl, tt)
stages-Apart (some a) (some b) none = (refl, tt)
stages-Apart (some a) (some b) (some c) = (refl, (refl, tt))

watched-Apart : (test : Bool) (s : Stages) → Apart (if test then notifications_for s else [])
unfolding notifications_for
watched-Apart true s =
    stages-Apart (get_stage s Stage.dim) (get_stage s Stage.screen_off) (get_stage s Stage.sleep)
watched-Apart false s = tt

resume_all-once :
    (ns : List Notification) (w : Watcher)
    → Apart ns
    → w.primary ≡ first_stage ns
    → (resume_all ns w).outgoing ≡ w.outgoing ++ one_activity ns
unfolding on_stage_resumed is_primary
resume_all-once [] w a h = sym (append-nil w.outgoing)
resume_all-once (n ∷ rest) w a h =
    let said : Watcher = record w { outgoing = w.outgoing ++ Event.activity ∷ [] } in
    ap (λ w'. (resume_all rest w').outgoing) (stage_resumed-speaks n.stage w h)
    ∙ ap (λ w'. w'.outgoing)
        (resume_all-silent rest said
          (subst (λ p. All (λ m. is_primary p m.stage ≡ false) rest) (sym h) a))

-- When the user is back, all the stages that the agent watches resume; the daemon hears of it exactly
-- once if any stage is watched, and not at all otherwise.
pub resume_all-IsOnce :
    {s : Stages} {w : Watcher}
    → Reach s w
    → (resume_all w.notifications w).outgoing ≡ w.outgoing ++ one_activity w.notifications
resume_all-IsOnce {s} {w} r =
    let c = Reach-IsCurrent r in
    resume_all-once w.notifications w
      (subst Apart (sym c.watches) (watched-Apart (w.seat && w.notifier) s)) c.first
