-- ===== src/Daemon/Rule.antt =====
-- The rule for the queue of commands (`Daemon::run` of src/main.rs): what every command keeps holds
-- when the queue is empty.
use ampered.Prelude.{ap, ℕ, zero, suc, ◌+◌, ◌≡◌, List, [], ◌∷◌, ◌++◌}
use ampered.Core.Types.{Engine, Command}
use ampered.Daemon.State.{Daemon, World, Outside}
use ampered.Daemon.Execute.{Outcome, execute, Step}
use ampered.Daemon.Loop.{Drained, drain, continued}

abbrev pub yielded : Outcome → List Command
yielded (Outcome.continue_ more) = more
yielded Outcome.shutdown = []

module _ {R : Type 0} (o : Outside R) where
  pub drain-step :
      (worlds : ℕ → World R) (n k : ℕ) (c : Command) (rest : List Command) (d : Daemon R)
      (e : Engine) (s : Step o)
      → execute o (worlds k) c d e ≡ s
      → drain o (suc n) worlds k (c ∷ rest) d e
        ≡ continued o s.0 s.1 rest s.2 (λ queue. drain o n worlds (k + 1) queue s.0 s.1)
  unfolding drain
  drain-step worlds n k c rest d e s same =
      ap (λ s'. continued o s'.0 s'.1 rest s'.2 (λ queue. drain o n worlds (k + 1) queue s'.0 s'.1))
        same

  -- A property of the queue, the daemon and the engine that every command keeps, whatever the world
  -- answers.
  abbrev pub Keeps : (List Command → Daemon R → Engine → Type 0) → Type 0
  Keeps P =
      (w : World R) (c : Command) (rest : List Command) (d : Daemon R) (e : Engine)
      → P (c ∷ rest) d e
      → P (rest ++ yielded (execute o w c d e).2) (execute o w c d e).0 (execute o w c d e).1

  -- What holds of a daemon that is idle again.
  abbrev pub WhenIdle : (Daemon R → Engine → Type 0) → Drained R → Type 0
  WhenIdle Q (Drained.idle d e) = Q d e
  WhenIdle Q _ = Unit {0}

  continued-WhenIdle :
      (Q : Daemon R → Engine → Type 0) (rest : List Command) (go : List Command → Drained R)
      (d : Daemon R) (e : Engine) (out : Outcome)
      → WhenIdle Q (go (rest ++ yielded out))
      → WhenIdle Q (continued o d e rest out go)
  unfolding continued
  continued-WhenIdle Q rest go d e Outcome.shutdown h = tt
  continued-WhenIdle Q rest go d e (Outcome.continue_ more) h = h

  pub drain-WhenIdle :
      (P : List Command → Daemon R → Engine → Type 0)
      → Keeps P
      → (fuel : ℕ) (worlds : ℕ → World R) (k : ℕ) (queue : List Command) (d : Daemon R) (e : Engine)
      → P queue d e
      → WhenIdle (P []) (drain o fuel worlds k queue d e)
  unfolding drain
  drain-WhenIdle P keeps fuel worlds k [] d e h = h
  drain-WhenIdle P keeps zero worlds k (c ∷ rest) d e h = tt
  drain-WhenIdle P keeps (suc fuel) worlds k (c ∷ rest) d e h =
      let s = execute o (worlds k) c d e in
      continued-WhenIdle (P []) rest (λ queue. drain o fuel worlds (k + 1) queue s.0 s.1) s.0 s.1
        s.2
        (drain-WhenIdle P keeps fuel worlds (k + 1) (rest ++ yielded s.2) s.0 s.1
          (keeps (worlds k) c rest d e h))

  pub WhenIdle-map :
      (P Q : Daemon R → Engine → Type 0)
      → ((d : Daemon R) (e : Engine) → P d e → Q d e)
      → (s : Drained R) → WhenIdle P s
      → WhenIdle Q s
  WhenIdle-map P Q f (Drained.idle d e) h = f d e h
  WhenIdle-map P Q f (Drained.stopped d e) h = tt
  WhenIdle-map P Q f Drained.out_of_fuel h = tt
