-- ===== src/Agent/Settling.antt =====
-- A request to the screen that is repeated (src/display.rs).
use mathlib.Core.List.{append-nil}
use ampered.Prelude.{
  ◌++◌, sym, ◌≡◌, ◌⊎◌, refl, arith, Bool, true, false, List, [], ◌∷◌, All, Option, none, some,
  String, str_eq, if◌then◌else◌, Bool-cases, inl, inr, ap, ◌∙◌,
}
use ampered.Agent.Screen.{
  Request, request, Screen, IdleHandle, Backend, Switched, set, switch, is_last, run_helper,
  stand_in, latch, is_available, backend_available,
}

-- A command that was run failed.
abbrev pub HasFailed : (String → Bool) → List String → Type 0
HasFailed run [] = ⊥
HasFailed run (helper ∷ rest) = (run helper ≡ false) ⊎ HasFailed run rest

-- Whether the screen was remembered as asked before, and whether it could be switched. Afterwards it is
-- remembered as asked, and the same request does nothing: it was so before, or it could be switched and
-- every command that was run worked. Or it is not remembered as asked, and the same request does the
-- same again as long as the world answers the same: it was not so before, and it could not be switched
-- or a command failed.
pub Settles : Bool → Bool → (String → Bool) → Bool → Switched → Type 0
Settles known can run on (s, (idle, ran)) =
    ((((known ≡ true) × (ran ≡ [])) ⊎ ((can ≡ true) × All (λ helper. run helper ≡ true) ran))
      × ((s.last ≡ some on) × (set run on s idle ≡ (s, (idle, [])))))
    ⊎ (((known ≡ false) × ((can ≡ false) ⊎ HasFailed run ran))
        × ((is_last on s.last ≡ false) × (set run on s idle ≡ (s, (idle, ran)))))

is_last-some : (on : Bool) → is_last on (some on) ≡ true
unfolding is_last
is_last-some true = refl
is_last-some false = refl

set-latched :
    (run : String → Bool) (on : Bool) (s : Screen) (idle : IdleHandle)
    → is_last on s.last ≡ true
    → set run on s idle ≡ (s, (idle, []))
unfolding set
set-latched run on s idle h =
    ap (λ t. if t then (s, (idle, [])) else switch run on s.backend s idle) h

set-switches :
    (run : String → Bool) (on : Bool) (s : Screen) (idle : IdleHandle)
    → is_last on s.last ≡ false
    → set run on s idle ≡ switch run on s.backend s idle
unfolding set
set-switches run on s idle h =
    ap (λ t. if t then (s, (idle, [])) else switch run on s.backend s idle) h

is_last-is : (on : Bool) (last : Option Bool) → is_last on last ≡ true → last ≡ some on
unfolding is_last
is_last-is on none h = ground arith
is_last-is true (some true) h = refl
is_last-is true (some false) h = ground arith
is_last-is false (some true) h = ground arith
is_last-is false (some false) h = refl

latched-Settles :
    (known can : Bool) (run : String → Bool) (on : Bool) (s : Screen) (idle : IdleHandle)
    (ran : List String)
    → s.last ≡ some on
    → ((known ≡ true) × (ran ≡ [])) ⊎ ((can ≡ true) × All (λ helper. run helper ≡ true) ran)
    → Settles known can run on (s, (idle, ran))
unfolding Settles
latched-Settles known can run on s idle ran h cause =
    inl (cause, (h, set-latched run on s idle (ap (is_last on) h ∙ is_last-some on)))

module _ (can : Bool) where
  either-Settles :
      (run : String → Bool) (on test : Bool) (a b : Switched)
      → (test ≡ true → Settles false can run on a)
      → (test ≡ false → Settles false can run on b)
      → Settles false can run on (if test then a else b)
  either-Settles run on true a b ha hb = ha refl
  either-Settles run on false a b ha hb = hb refl

  -- A helper that was run, if it is what the backend runs for this request.
  helper-Settles :
      (run : String → Bool) (on : Bool) (helper : String) (s : Screen) (idle : IdleHandle)
      → can ≡ true
      → ((s' : Screen)
          → s'.backend ≡ s.backend
          → switch run on s'.backend s' idle ≡ run_helper run on helper s' idle)
      → Settles false can run on (run_helper run on helper s idle)
  unfolding Settles run_helper is_last
  helper-Settles run on helper s idle able runs = elim (Bool-cases (run helper)) [
    | inl worked ↦
        latched-Settles false can run on (run_helper run on helper s idle).0 idle (helper ∷ [])
          (rw worked refl) (inr (able, (worked, tt)))
    | inr failed ↦ inr (
      (refl, inr (inl failed)),
      (
        rw failed refl,
        set-switches run on (run_helper run on helper s idle).0 idle (rw failed refl)
            ∙ runs (run_helper run on helper s idle).0 refl,
      ),
    )
  ]

  stand_in-Settles :
      (run : String → Bool) (on : Bool) (fallback : Option (String × String)) (s : Screen)
      (idle : IdleHandle)
      → can ≡ backend_available (Backend.wlr fallback) false
      → s.backend ≡ Backend.wlr fallback
      → idle.output_power ≡ false
      → is_last on s.last ≡ false
      → Settles false can run on (stand_in run on fallback s idle)
  unfolding Settles stand_in switch backend_available
  stand_in-Settles run on (some (off, on_command)) s idle able h gone last =
      helper-Settles run on (if on then on_command else off) s idle able
        (λ s' same. ap (λ b. switch run on b s' idle) (same ∙ h) ∙ rw gone refl)
  stand_in-Settles run on none s idle able h gone last = inr (
    (refl, inl able),
    (
      last,
      set-switches run on (record s { warned = true }) idle last
          ∙ ap (λ b. switch run on b (record s { warned = true }) idle) h
          ∙ rw gone refl,
    ),
  )

  switch-Settles :
      (run : String → Bool) (on : Bool) (b : Backend) (s : Screen) (idle : IdleHandle)
      → can ≡ backend_available b idle.output_power
      → s.backend ≡ b
      → is_last on s.last ≡ false
      → Settles false can run on (switch run on b s idle)
  unfolding switch backend_available
  switch-Settles run on (Backend.wlr fallback) s idle able h last =
      either-Settles run on idle.output_power _ _
        (λ there. latched-Settles false can run on _ _ [] refl (inr (rw there at able, tt)))
        (λ gone. stand_in-Settles run on fallback s idle (rw gone at able) h gone last)
  switch-Settles run on (Backend.command off on_command) s idle able h last =
      let helper = if on then on_command else off in
      either-Settles run on (str_eq helper "") _ _
        (λ blank. latched-Settles false can run on (latch on s) idle [] refl (inr (able, tt)))
        (λ named.
          helper-Settles run on helper s idle able
            (λ s' same. ap (λ b. switch run on b s' idle) (same ∙ h) ∙ rw named refl))
  switch-Settles run on Backend.nothing s idle able h last =
      latched-Settles false can run on (latch on s) idle [] refl (inr (able, tt))

-- The command of a pair, unless it is empty.
abbrev pub command_for : Bool → String → String → List String
command_for on off on_command =
    let helper = if on then on_command else off in if str_eq helper "" then [] else helper ∷ []

-- What has to be run and what has to be asked of the watcher, by the backend and by whether the compositor
-- has the protocol.
abbrev pub commands_for : Bool → Backend → Bool → List String
commands_for on (Backend.wlr none) there = []
commands_for on (Backend.wlr (some (off, on_command))) there =
    if there then [] else (if on then on_command else off) ∷ []
commands_for on (Backend.command off on_command) there = command_for on off on_command
commands_for on Backend.nothing there = []

abbrev pub requests_for : Bool → Backend → Bool → List Request
requests_for on (Backend.wlr fallback) there = if there then Request.screen on ∷ [] else []
requests_for on _ there = []

-- Just that is run and asked, and nothing if the screen was remembered as asked.
abbrev pub Does : Bool → Bool → Screen → IdleHandle → Switched → Type 0
Does known on s idle (s', (idle', ran)) =
    (ran ≡ (if known then [] else commands_for on s.backend idle.output_power))
    × (idle'.requests ≡ (
        if known
        then idle.requests
        else idle.requests ++ requests_for on s.backend idle.output_power))

either-Does :
    (on test : Bool) (s : Screen) (idle : IdleHandle) (a b : Switched)
    → (test ≡ true → Does false on s idle a)
    → (test ≡ false → Does false on s idle b)
    → Does false on s idle (if test then a else b)
either-Does on true s idle a b ha hb = ha refl
either-Does on false s idle a b ha hb = hb refl

switch-Does :
    (run : String → Bool) (on : Bool) (b : Backend) (s : Screen) (idle : IdleHandle)
    → s.backend ≡ b
    → Does false on s idle (switch run on b s idle)
unfolding switch stand_in run_helper request
switch-Does run on (Backend.wlr none) s idle h =
    either-Does on idle.output_power s idle _ _ (λ there. rw h (rw there (refl, refl)))
      (λ gone. rw h (rw gone (refl, sym (append-nil idle.requests))))
switch-Does run on (Backend.wlr (some (off, on_command))) s idle h =
    either-Does on idle.output_power s idle _ _ (λ there. rw h (rw there (refl, refl)))
      (λ gone. rw h (rw gone (refl, sym (append-nil idle.requests))))
switch-Does run on (Backend.command off on_command) s idle h =
    either-Does on (str_eq (if on then on_command else off) "") s idle _ _
      (λ blank. rw h (rw blank (refl, sym (append-nil idle.requests))))
      (λ named. rw h (rw named (refl, sym (append-nil idle.requests))))
switch-Does run on Backend.nothing s idle h = rw h (refl, sym (append-nil idle.requests))

-- After a request to turn the screen off or on, with any backend: unless the screen was remembered as asked,
-- just the command of the backend is run, or just the request to the watcher is sent. The screen is then
-- remembered as asked exactly if it was before, or it could be switched and every command that was run
-- worked; the same request then does nothing. Otherwise the same request does the same again.
pub set-Settles :
    (run : String → Bool) (on : Bool) (s : Screen) (idle : IdleHandle)
    → Does (is_last on s.last) on s idle (set run on s idle)
      × Settles (is_last on s.last) (is_available idle s) run on (set run on s idle)
unfolding set is_available
set-Settles run on s idle = elim (Bool-cases (is_last on s.last)) [
  | inl known ↦ rw known (
    (refl, refl),
    latched-Settles true (is_available idle s) run on s idle [] (is_last-is on s.last known)
        (inl (refl, refl)),
  )
  | inr unknown ↦ rw unknown (
    switch-Does run on s.backend s idle refl,
    switch-Settles (is_available idle s) run on s.backend s idle refl refl unknown,
  )
]
