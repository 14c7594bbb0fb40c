-- ===== src/Logind/Settings.antt =====
-- `effective_keys`, `LoginSettings` and `check` of src/logind_conf.rs. A file is given by the pairs of its
-- `[Login]` section, in the order of its lines.
use ampered.Prelude.{
  Bool, true, false, not, List, [], ◌∷◌, ◌++◌, Option, none, some, String, str_eq, if◌then◌else◌,
  concat,
}

-- The `BTreeMap` of the keys, as its entries.
abbrev pub Keys : Type 0
Keys = List (String × String)

unfoldable pub get : Keys → String → Option String
get [] key = none
get ((k, v) ∷ rest) key = if str_eq k key then some v else get rest key

unfoldable pub remove : String → Keys → Keys
remove key [] = []
remove key ((k, v) ∷ rest) =
    let others = remove key rest in if str_eq k key then others else (k, v) ∷ others

unfoldable pub insert : String → String → Keys → Keys
insert key value keys = (key, value) ∷ remove key keys

-- One assignment: an empty value resets the key.
unfoldable pub assign : String → String → Keys → Keys
assign key value keys = if str_eq value "" then remove key keys else insert key value keys

unfoldable pub assign_all : List (String × String) → Keys → Keys
assign_all [] keys = keys
assign_all ((key, value) ∷ rest) keys = assign_all rest (assign key value keys)

unfoldable pub assign_files : List (List (String × String)) → Keys → Keys
assign_files [] keys = keys
assign_files (file ∷ files) keys = assign_files files (assign_all file keys)

-- `effective_keys`: later files override earlier ones, key by key.
unfoldable pub effective_keys : List (List (String × String)) → Keys
unfolding assign_files
effective_keys files = assign_files files []

pub record LoginSettings : Type 0 where
  pub lid_switch : String
  pub lid_switch_external_power : String
  pub lid_switch_docked : String
  pub idle_action : String

abbrev pub or_default : Option String → String → String
or_default none default = default
or_default (some value) default = value

-- `LoginSettings::from_keys`.
unfoldable pub from_keys : Keys → LoginSettings
from_keys keys =
    let lid_switch = or_default (get keys "HandleLidSwitch") "suspend" in
    record {
      lid_switch = lid_switch;
      lid_switch_external_power = or_default (get keys "HandleLidSwitchExternalPower") lid_switch;
      lid_switch_docked = or_default (get keys "HandleLidSwitchDocked") "ignore";
      idle_action = or_default (get keys "IdleAction") "ignore";
    }

unfoldable pub action : String → String → List String
action key value =
    if not (str_eq value "ignore") then concat (key ∷ ("=" ∷ (value ∷ []))) ∷ [] else []

unfoldable pub lid_actions : LoginSettings → List String
unfolding action
lid_actions s =
    action "HandleLidSwitch" s.lid_switch
    ++ (action "HandleLidSwitchExternalPower" s.lid_switch_external_power
        ++ action "HandleLidSwitchDocked" s.lid_switch_docked)

unfoldable pub is_empty : List String → Bool
is_empty [] = true
is_empty (s ∷ ss) = false

-- What `check` says of settings.
unfoldable pub report : Bool → LoginSettings → List String
unfolding is_empty
report server settings =
    (if server
      then (if not (is_empty (lid_actions settings)) then "lid-switch" ∷ [] else [])
      else [])
    ++ (if not (str_eq settings.idle_action "ignore") then "idle-action" ∷ [] else [])

-- `check`: what `status.degraded` gets.
unfoldable pub check : Bool → List (List (String × String)) → List String
check server files = report server (from_keys (effective_keys files))
