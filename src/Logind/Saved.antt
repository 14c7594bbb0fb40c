-- ===== src/Logind/Saved.antt =====
-- What the daemon keeps across a sleep or a restart (src/logind.rs): the saved state, and the manual
-- mode in its file.
use text.Mathlib.Text.{starts_with}
use Prim.Native.String.{◌++◌ as append}
use ampered.Prelude.{
  ◌≡◌, refl, Bool, true, false, not, Option, none, some, String, if◌then◌else◌, is_blank, trim,
  trim-newline, ◌∙◌, ap,
}
use ampered.Core.Types.{State, Phase, state_text}
use ampered.Core.Events.{in_cycle}

pub record SavedState : Type 0 where
  pub state : String
  pub mode : String
  pub reason : String
  pub scheduled_wake : Option String
  pub saved_at : Option String

unfoldable pub in_long_sleep : SavedState → Bool
in_long_sleep s = starts_with s.state "LongSleep"

-- The file of the manual mode: its text, if it is there.
abbrev pub ModeFile : Type 0
ModeFile = Option String

named : String → Option String
named name = if not (is_blank name) then some name else none

unfoldable pub load_manual_mode : ModeFile → Option String
unfolding named trim
load_manual_mode none = none
load_manual_mode (some text) = named (trim text)

-- `writable` is false where the file can be neither written nor removed.
unfoldable pub save_manual_mode : Bool → Option String → ModeFile → ModeFile
save_manual_mode false name file = file
save_manual_mode true (some name) file = some (append name "\n")
save_manual_mode true none file = none

-- A mode that was saved is loaded again, if its name is not blank and has no white space at its
-- ends; and none is loaded once the file was removed.
pub load-save_manual_mode :
    (name : String) (file : ModeFile)
    → trim name ≡ name
    → is_blank name ≡ false
    → (load_manual_mode (save_manual_mode true (some name) file) ≡ some name)
      × (load_manual_mode (save_manual_mode true none file) ≡ none)
unfolding load_manual_mode save_manual_mode
load-save_manual_mode name file t b = (ap named (trim-newline name ∙ t) ∙ rw (b, named) refl, refl)

-- The state that is saved of an engine says that it was in the cycle exactly if it was.
pub in_long_sleep-state_text :
    (state : State) (s : SavedState) → s.state ≡ state_text state → in_long_sleep s ≡ in_cycle state
unfolding in_long_sleep in_cycle state_text
in_long_sleep-state_text State.active s e = rw e refl
in_long_sleep-state_text State.dimmed s e = rw e refl
in_long_sleep-state_text State.screen_off s e = rw e refl
in_long_sleep-state_text State.suspending s e = rw e refl
in_long_sleep-state_text State.sleeping s e = rw e refl
in_long_sleep-state_text (State.long_sleep Phase.grace) s e = rw e refl
in_long_sleep-state_text (State.long_sleep Phase.armed) s e = rw e refl
in_long_sleep-state_text (State.long_sleep Phase.sleeping) s e = rw e refl
in_long_sleep-state_text (State.long_sleep Phase.checking) s e = rw e refl
