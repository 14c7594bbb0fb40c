-- ===== src/Logind/Effective.antt =====
-- What the check of logind's settings says, by an independent reading of the files
-- (src/logind_conf.rs).
use ampered.Prelude.{
  Bool, true, false, List, [], ◌∷◌, ◌++◌, Option, none, some, String, str_eq, if◌then◌else◌, ◌≡◌,
  refl, arith, eq_iff, ◌↔◌, sym,
}
use ampered.Logind.Settings.{
  Keys, get, remove, insert, assign, assign_all, assign_files, effective_keys, LoginSettings,
  or_default, from_keys, action, lid_actions, report, check, is_empty,
}

-- All assignments, one after another.
abbrev pub flat : List (List (String × String)) → List (String × String)
flat [] = []
flat (file ∷ files) = file ++ flat files

-- The last assignment to a key, the empty ones included.
abbrev pub or_last : Option String → Option String → Option String
or_last (some v) first = some v
or_last none first = first

abbrev pub last_assigned : String → List (String × String) → Option String
last_assigned key [] = none
last_assigned key ((k, v) ∷ rest) =
    or_last (last_assigned key rest) (if str_eq k key then some v else none)

-- Its value, if it has one that is not empty.
abbrev pub filled : Option String → Option String → Option String
filled none default = default
filled (some v) default = if str_eq v "" then none else some v

get-remove : (keys : Keys) (key : String) → get (remove key keys) key ≡ none
unfolding get remove
get-remove [] key = refl
get-remove ((k, v) ∷ rest) key = ground (arith, get-remove rest key)

get-remove_other :
    (keys : Keys) (key other : String)
    → str_eq key other ≡ false
    → get (remove key keys) other ≡ get keys other
unfolding get remove
get-remove_other [] key other h = refl
get-remove_other ((k, v) ∷ rest) key other h =
    ground
      (arith, get-remove_other rest key other h, eq_iff k key, eq_iff k other, eq_iff key other)

get-assign :
    (keys : Keys) (key value other : String)
    → get (assign key value keys) other
      ≡ filled (if str_eq key other then some value else none) (get keys other)
unfolding assign insert get
get-assign keys key value other =
    ground (arith, get-remove keys key, get-remove_other keys key other, eq_iff key other)

get-assign_all :
    (pairs : List (String × String)) (keys : Keys) (key : String)
    → get (assign_all pairs keys) key ≡ filled (last_assigned key pairs) (get keys key)
unfolding assign_all
get-assign_all [] keys key = refl
get-assign_all ((k, v) ∷ rest) keys key =
    ground (arith, get-assign_all rest (assign k v keys) key, get-assign keys k v key)

filled-or_last :
    (later earlier default : Option String)
    → filled (or_last later earlier) default ≡ filled later (filled earlier default)
filled-or_last none earlier default = refl
filled-or_last (some v) earlier default = refl

or_last_assoc : (a b c : Option String) → or_last (or_last a b) c ≡ or_last a (or_last b c)
or_last_assoc none b c = refl
or_last_assoc (some v) b c = refl

last_assigned-append :
    (key : String) (xs ys : List (String × String))
    → last_assigned key (xs ++ ys) ≡ or_last (last_assigned key ys) (last_assigned key xs)
last_assigned-append key [] ys = or_last_none (last_assigned key ys)
  where
    or_last_none : (a : Option String) → a ≡ or_last a none
    or_last_none none = refl
    or_last_none (some v) = refl
last_assigned-append key ((k, v) ∷ xs) ys = rw (last_assigned-append key xs ys) (
    or_last_assoc (last_assigned key ys) (last_assigned key xs)
      (if str_eq k key then some v else none))

get-assign_files :
    (files : List (List (String × String))) (keys : Keys) (key : String)
    → get (assign_files files keys) key ≡ filled (last_assigned key (flat files)) (get keys key)
unfolding assign_files
get-assign_files [] keys key = refl
get-assign_files (file ∷ files) keys key =
    rw
      (
        get-assign_files files (assign_all file keys) key,
        get-assign_all file keys key,
        last_assigned-append key file (flat files),
      )
      (sym
        (filled-or_last (last_assigned key (flat files)) (last_assigned key file) (get keys key)))

-- A setting by an independent reading of the files: the last assignment to the key in any of them
-- counts, and if it is empty, or if there is none, the default.
abbrev pub setting : List (List (String × String)) → String → String → String
setting files key default = or_default (filled (last_assigned key (flat files)) none) default

-- Nothing that logind does by itself is in the way of the daemon: it leaves idleness alone, and the
-- lid as well where the server cycle is enabled.
pub record StaysOut (server : Bool) (files : List (List (String × String))) : Type 0 where
  pub idle : setting files "IdleAction" "ignore" ≡ "ignore"
  pub lid : server ≡ true → setting files "HandleLidSwitch" "suspend" ≡ "ignore"
  pub external :
      server ≡ true
      → setting files "HandleLidSwitchExternalPower" (setting files "HandleLidSwitch" "suspend")
        ≡ "ignore"
  pub docked : server ≡ true → setting files "HandleLidSwitchDocked" "ignore" ≡ "ignore"

effective :
    (files : List (List (String × String))) (key : String)
    → get (effective_keys files) key ≡ filled (last_assigned key (flat files)) none
unfolding effective_keys get
effective files key = get-assign_files files [] key

abbrev IsIgnored : String → Type 0
IsIgnored value = value ≡ "ignore"

report_iff :
    (server : Bool) (s : LoginSettings)
    → (report server s ≡ []) ↔ (
        IsIgnored s.idle_action
        × (server ≡ true
            → IsIgnored s.lid_switch
              × IsIgnored s.lid_switch_external_power
              × IsIgnored s.lid_switch_docked))
unfolding report lid_actions action is_empty
report_iff server s = (
  λ h. ground (
    arith,
    eq_iff s.idle_action "ignore",
    eq_iff s.lid_switch "ignore",
    eq_iff s.lid_switch_external_power "ignore",
    eq_iff s.lid_switch_docked "ignore",
  ),
  λ h. ground (
    arith,
    eq_iff s.idle_action "ignore",
    eq_iff s.lid_switch "ignore",
    eq_iff s.lid_switch_external_power "ignore",
    eq_iff s.lid_switch_docked "ignore",
  ),
)

settings_of :
    (files : List (List (String × String)))
    → from_keys (effective_keys files) ≡ record {
      lid_switch = setting files "HandleLidSwitch" "suspend";
      lid_switch_external_power =
          setting files "HandleLidSwitchExternalPower" (setting files "HandleLidSwitch" "suspend");
      lid_switch_docked = setting files "HandleLidSwitchDocked" "ignore";
      idle_action = setting files "IdleAction" "ignore";
    }
unfolding from_keys
settings_of files =
    rw
      (
        effective files "HandleLidSwitch",
        effective files "HandleLidSwitchExternalPower",
        effective files "HandleLidSwitchDocked",
        effective files "IdleAction",
      )
      refl

-- The check reports nothing exactly when logind does nothing by itself on idleness, and with the
-- server cycle enabled nothing on the lid: each setting as the last assignment in any of the files
-- leaves it, an empty one meaning the default.
pub check_iff :
    (server : Bool) (files : List (List (String × String)))
    → (check server files ≡ []) ↔ StaysOut server files
unfolding check
check_iff server files = rw (settings_of files) (
  λ h.
      let c = (report_iff server _).0 h in
      record {
        idle = c.0;
        lid = λ s. (c.1 s).0;
        external = λ s. (c.1 s).1;
        docked = λ s. (c.1 s).2;
      },
  λ v. (report_iff server _).1 (v.idle, λ s. (v.lid s, v.external s, v.docked s)),
)
