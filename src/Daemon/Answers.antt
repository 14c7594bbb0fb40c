-- ===== src/Daemon/Answers.antt =====
-- Every request of a client is answered by the round that handles it (src/main.rs, src/ipc.rs).
use ampered.Prelude.{
  ap, sym, subst, ◌∙◌, ℕ, ◌+◌, ◌≡◌, ◌⊎◌, inl, inr, refl, arith, Bool, true, false, List, [], ◌∷◌,
  ◌++◌, Option, none, some, String, ◌==◌, count, count-append, Bool-cases, ==_iff,
}
use ampered.Config.Sections.{Config, SleepMethod, Mode, get_mode}
use ampered.Core.Types.{Engine, Event, Command}
use ampered.Core.Handle.{handle}
use ampered.Core.Modes.{set_config}
use ampered.Core.Replies.{
  answered, answered-append, handle-answered, handle-answered_none, is_request,
}
use ampered.Core.Code.{dispatch_code}
use ampered.Ipc
use ampered.Ipc.{RequestId, Response}
use ampered.Ipc.Server.{Server, waits, reply, broadcast}
use ampered.Logind.Actor.{LogindHandle, suspend}
use ampered.Daemon.State.{Daemon, World, Outside, Loaded, notify}
use ampered.Daemon.Reload.{reload, reload_with, accept, refuse, answer}
use ampered.Daemon.Execute.{
  execute, apply_mode, tell, effect, suspend_by, delivered, told, schedule_wake, set_alarm,
  answer_client, enriched,
}
use ampered.Daemon.Loop.{drain, round, before_handle}
use ampered.Daemon.Rule.{yielded, Keeps, WhenIdle, drain-WhenIdle, WhenIdle-map}
use ampered.Daemon.Frames.{accept-IsKept, opened, opened-frame}
use ampered.Daemon.Delivered.{sent_to, reply-mine, reply-other}

-- How many answers to a request are in the queue.
abbrev owed : RequestId → List Command → ℕ
owed id queue = count (λ i. i == id) (answered queue)

owed-append : (id : RequestId) (cs ds : List Command) → owed id (cs ++ ds) ≡ owed id cs + owed id ds
owed-append id cs ds =
    ap (count (λ i. i == id)) (answered-append cs ds)
    ∙ count-append (λ i. i == id) (answered cs) (answered ds)

set_config-unanswered : (e : Engine) (c : Config) → answered (set_config e c).1 ≡ []
unfolding set_config dispatch_code
set_config-unanswered e c = ground arith

-- The answer to a request is in the queue, or `goal` answers have been sent to it and it waits no
-- longer (or still, if it was not asked).
abbrev Owes : RequestId → Bool → ℕ → List Command → Server → Type 0
Owes id still goal queue s =
    ((owed id queue ≡ 1)
      × (waits id s.pending ≡ true)
      × (still ≡ false)
      × (sent_to id s + 1 ≡ goal))
    ⊎ ((owed id queue ≡ 0) × (waits id s.pending ≡ still) × (sent_to id s ≡ goal))

module _ (id : RequestId) (still : Bool) (goal : ℕ) where
  -- Only how much is owed counts.
  Owes-same :
      (queue queue' : List Command) (s : Server)
      → owed id queue' ≡ owed id queue
      → Owes id still goal queue s
      → Owes id still goal queue' s
  Owes-same queue queue' s h (inl x) = inl (h ∙ x.0, x.1, x.2, x.3)
  Owes-same queue queue' s h (inr x) = inr (h ∙ x.0, x.1, x.2)

  Owes-unanswered :
      (rest more : List Command) (s : Server)
      → answered more ≡ []
      → Owes id still goal rest s
      → Owes id still goal (rest ++ more) s
  Owes-unanswered rest more s h x =
      let total = owed-append id rest more in
      let nothing = ap (count (λ i. i == id)) h in Owes-same rest (rest ++ more) s (omega arith) x

  Owes-nothing :
      (s : Server) → Owes id still goal [] s → (waits id s.pending ≡ still) × (sent_to id s ≡ goal)
  Owes-nothing s (inl x) = absurd (let none_left = x.0 in omega arith)
  Owes-nothing s (inr x) = (x.1, x.2)

  -- The one answer that is owed has gone out.
  Owes-mine :
      (response : Response) (rest : List Command) (s : Server)
      → Owes id still goal (Command.reply id response ∷ rest) s
      → Owes id still goal rest (reply id response s)
  Owes-mine response rest s (inl (h, w, f, g)) =
      let r = reply-mine id response s w in inr (ground arith, r.0 ∙ sym f, r.1 ∙ g)
  Owes-mine response rest s (inr (h, w, g)) = absurd (ground arith)

  Owes-other :
      (to : RequestId) (response : Response) (rest : List Command) (s : Server)
      → (id == to) ≡ false
      → Owes id still goal (Command.reply to response ∷ rest) s
      → Owes id still goal rest (reply to response s)
  Owes-other to response rest s other (inl (h, w, f, g)) =
      let r = reply-other to id response s other in
      inl (ground arith, r.0 ∙ w, f, ap (λ n. n + 1) r.1 ∙ g)
  Owes-other to response rest s other (inr (h, w, g)) =
      let r = reply-other to id response s other in inr (ground arith, r.0 ∙ w, r.1 ∙ g)

  Owes-reply :
      (to : RequestId) (response : Response) (rest : List Command) (s : Server)
      → Owes id still goal (Command.reply to response ∷ rest) s
      → Owes id still goal rest (reply to response s)
  Owes-reply to response rest s x = elim (Bool-cases (id == to)) [
    | inl mine ↦
        let same : id ≡ to = (==_iff id to).0 mine in
        subst (λ i. Owes id still goal rest (reply i response s)) same
          (Owes-mine response rest s
            (subst (λ i. Owes id still goal (Command.reply i response ∷ rest) s) (sym same) x))
    | inr other ↦ Owes-other to response rest s other x
  ]

  module _ {R : Type 0} (o : Outside R) where
    abbrev Due : List Command → Daemon R → Engine → Type 0
    Due queue d e = Owes id still goal queue d.server

    told-Due :
        (event : Event) (rest : List Command) (d : Daemon R) (e : Engine)
        → is_request event ≡ false
        → Due rest d e
        → Due (rest ++ (handle o.humantime event e).1) d e
    told-Due event rest d e h x =
        Owes-unanswered rest (handle o.humantime event e).1 d.server
          (handle-answered_none o.humantime e event h) x

    delivered-Due :
        (sent : Bool) (rest : List Command) (d : Daemon R) (e : Engine)
        → Due rest d e
        → let s = delivered o sent d e in Due (rest ++ yielded s.2) s.0 s.1
    unfolding delivered told
    delivered-Due true rest d e x = Owes-unanswered rest [] d.server refl x
    delivered-Due false rest d e x = told-Due Event.sleep_failed rest d e refl x

    suspend_by-Due :
        (logind : Option LogindHandle) (method : SleepMethod) (force : Bool) (rest : List Command)
        (d : Daemon R) (e : Engine)
        → Due rest d e
        → let s = suspend_by o logind method force d e in Due (rest ++ yielded s.2) s.0 s.1
    unfolding suspend_by
    suspend_by-Due none method force rest d e x = delivered-Due false rest d e x
    suspend_by-Due (some logind) method force rest d e x =
        let (logind', sent) = suspend method force d.config.sleep.respect_inhibitors logind in
        delivered-Due sent rest (record d { logind = some logind' }) e x

    accept-answered :
        (to : Option RequestId) (c : Config) (w : World R) (d : Daemon R) (e : Engine)
        → answered (accept to c w d e).2 ≡ answered (Command.reload to ∷ [])
    unfolding accept answer
    accept-answered none c w d e =
        answered-append (set_config e c).1 [] ∙ rw (set_config-unanswered e c) refl
    accept-answered (some i) c w d e =
        answered-append (set_config e c).1 (Command.reply i Response.ok ∷ [])
        ∙ rw (set_config-unanswered e c) refl

    apply_mode-Due :
        (name : String) (mode : Option Mode) (rest : List Command) (d : Daemon R) (e : Engine)
        → Due rest d e
        → Due (rest ++ []) (apply_mode o name mode d) e
    unfolding apply_mode
    apply_mode-Due name none rest d e x = Owes-unanswered rest [] d.server refl x
    apply_mode-Due name (some mode) rest d e x = Owes-unanswered rest [] d.server refl x

    tell-Due :
        (w : World R) (event : Ipc.StateEvent) (rest : List Command) (d : Daemon R) (e : Engine)
        → Due rest d e
        → Due (rest ++ []) (tell o w event d e) e
    unfolding tell broadcast sent_to
    tell-Due w (Ipc.StateEvent.mode name) rest d e x = Owes-unanswered rest [] d.server refl x
    tell-Due w (Ipc.StateEvent.long_sleep phase wake) rest d e x =
        Owes-unanswered rest [] d.server refl x
    tell-Due w event rest d e x = Owes-unanswered rest [] d.server refl x

    reload-Due :
        (to : Option RequestId) (file : Loaded) (w : World R) (rest : List Command) (d : Daemon R)
        (e : Engine)
        → Due (Command.reload to ∷ rest) d e
        → let s = reload_with file to w d e in Due (rest ++ s.2) s.0 s.1
    unfolding reload_with refuse
    reload-Due none (Loaded.rejected error) w rest d e x = Owes-unanswered rest [] d.server refl x
    reload-Due (some to) (Loaded.rejected error) w rest d e x =
        Owes-unanswered rest [] (reply to (Response.error error) d.server) refl
          (Owes-reply to (Response.error error) rest d.server x)
    reload-Due to (Loaded.loaded c) w rest d e x =
        let s = accept to c w d e in
        let before = owed-append id (Command.reload to ∷ []) rest in
        let after = owed-append id rest s.2 in
        let same = ap (count (λ i. i == id)) (accept-answered to c w d e) in
        subst (λ server. Owes id still goal (rest ++ s.2) server)
          (sym (accept-IsKept to c w d e).server)
          (Owes-same (Command.reload to ∷ rest) (rest ++ s.2) d.server (omega arith) x)

    execute-Due : Keeps o Due
    unfolding execute effect schedule_wake told reload answer_client
    execute-Due w (Command.suspend method force) rest d e x =
        suspend_by-Due d.logind method force rest d e x
    execute-Due w (Command.schedule_wake after) rest d e x =
        told-Due (Event.wake_scheduled (set_alarm o d.rtc (w.now + after)).1) rest d e refl x
    execute-Due w (Command.reload to) rest d e x =
        reload-Due to w.file w rest (record d { notifier = notify "RELOADING=1" d.notifier }) e x
    execute-Due w (Command.apply_mode name) rest d e x =
        apply_mode-Due name (get_mode d.config.modes name) rest d e x
    execute-Due w (Command.reply to response) rest d e x =
        let enriched' = enriched o d response in
        Owes-unanswered rest [] (reply to enriched' d.server) refl
          (Owes-reply to enriched' rest d.server x)
    execute-Due w (Command.broadcast event) rest d e x = tell-Due w event rest d e x
    execute-Due w c rest d e x = Owes-unanswered rest [] d.server refl x

-- The request got one answer, and no other request is affected.
abbrev pub IsAnswered : RequestId → Server → Server → Type 0
IsAnswered id before after =
    (waits id after.pending ≡ false)
    × (sent_to id after ≡ sent_to id before + 1)
    × ((other : RequestId)
        → (other == id) ≡ false
        → (waits other after.pending ≡ waits other before.pending)
          × (sent_to other after ≡ sent_to other before))

module _ {R : Type 0} (o : Outside R) where
  -- What holds of every request while the one of `id` is carried out.
  abbrev AllDue : RequestId → Server → List Command → Daemon R → Engine → Type 0
  AllDue id before queue d e =
      Owes id false (sent_to id before + 1) queue d.server
      × ((other : RequestId)
          → (other == id) ≡ false
          → Owes other (waits other before.pending) (sent_to other before) queue d.server)

  AllDue-start :
      (id : RequestId) (queue : List Command) (d : Daemon R) (e : Engine)
      → answered queue ≡ id ∷ []
      → waits id d.server.pending ≡ true
      → AllDue id d.server queue d e
  AllDue-start id queue d e a h =
      let mine = ap (count (λ i. i == id)) a in
      (
        inl (ground arith, h, refl, refl),
        λ other differs.
            let theirs = ap (count (λ i. i == other)) a in inr (ground arith, refl, refl),
      )

  AllDue-end :
      (id : RequestId) (before : Server) (d : Daemon R) (e : Engine)
      → AllDue id before [] d e
      → IsAnswered id before d.server
  AllDue-end id before d e (mine, theirs) =
      let done = Owes-nothing id false (sent_to id before + 1) d.server mine in
      (
        done.0,
        done.1,
        λ other differs.
            Owes-nothing other (waits other before.pending) (sent_to other before) d.server
              (theirs other differs),
      )

  -- A round that handles a client's request and ends idle answers that request exactly once, and the
  -- client no longer waits; no other client gets an answer, or stops waiting.
  pub round-IsAnswered :
      (fuel : ℕ) (worlds : ℕ → World R) (now : ℕ) (id : RequestId) (request : Ipc.Request)
      (d : Daemon R) (e : Engine)
      → waits id d.server.pending ≡ true
      → WhenIdle o
          (λ d' e'. IsAnswered id d.server d'.server)
          (round o fuel worlds now (Event.ipc id request) d e)
  unfolding round before_handle
  round-IsAnswered fuel worlds now id request d e h =
      let event = Event.ipc id request in
      let (e', commands) = handle o.humantime event e in
      let start = opened o now event d e in
      WhenIdle-map o (AllDue id d.server []) (λ d' e'. IsAnswered id d.server d'.server)
        (AllDue-end id d.server) (drain o fuel worlds 0 commands start e')
        (drain-WhenIdle o (AllDue id d.server)
          (λ w c rest d₁ e₁ (mine, theirs). (
            execute-Due id false (sent_to id d.server + 1) o w c rest d₁ e₁ mine,
            λ other differs.
                execute-Due other (waits other d.server.pending) (sent_to other d.server) o w c rest
                  d₁ e₁ (theirs other differs),
          ))
          fuel worlds 0 commands start e'
          (subst (λ server. AllDue id server commands start e') (opened-frame o now event d e).1
            (AllDue-start id commands start e' (handle-answered o.humantime e id request) (
              subst (λ server. waits id server.pending ≡ true)
                (sym (opened-frame o now event d e).1) h))))
