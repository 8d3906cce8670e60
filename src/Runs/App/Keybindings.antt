-- ===== src/Runs/App/Keybindings.antt =====
-- crates/runs/src/app/keybindings.rs: what a key does.
use Prim.Native.Char.{Char, code}
use ensurer_v.Prelude.{ℕ, String, Bool, List, [], ◌∷◌, ◌++◌, nat_eq, if◌then◌else◌}

-- The values of crossterm's `KeyCode` and `KeyModifiers` that the crate names, and the others.
pub data KeyCode : Type 0 where
  char : Char → KeyCode
  enter esc backspace up down other : KeyCode

pub data KeyModifiers : Type 0 where
  none shift control mixed : KeyModifiers

pub record KeyEvent : Type 0 where
  pub code : KeyCode
  pub modifiers : KeyModifiers

pub data Action : Type 0 where
  focus_prev focus_next move_down move_up goto_top goto_bottom : Action
  half_page_down half_page_up enter back : Action
  retry save cancel yank visual_toggle refresh : Action
  search search_next search_prev command_mode filter_overlay help dashboard : Action
  quit unknown : Action

abbrev pub is_char : Char → ℕ → Bool
is_char c k = nat_eq (code c) k

-- The keys with no modifier.
abbrev plain_key : Char → Action
plain_key c =
    if is_char c b'h'
    then focus_prev
    else if is_char c b'l'
    then focus_next
    else if is_char c b'j'
    then move_down
    else if is_char c b'k'
    then move_up
    else if is_char c b'g'
    then goto_top
    else if is_char c b'G'
    then goto_bottom
    else if is_char c b'R'
    then retry
    else if is_char c b'S'
    then save
    else if is_char c b'X'
    then cancel
    else if is_char c b'y'
    then yank
    else if is_char c b'v'
    then visual_toggle
    else if is_char c b'r'
    then refresh
    else if is_char c b'/'
    then search
    else if is_char c b'n'
    then search_next
    else if is_char c b'N'
    then search_prev
    else if is_char c b':'
    then command_mode
    else if is_char c b'f'
    then filter_overlay
    else if is_char c b'?'
    then help
    else if is_char c b'D'
    then dashboard
    else if is_char c b'q'
    then quit
    else unknown

-- The keys with the modifier SHIFT.
abbrev shift_key : Char → Action
shift_key c =
    if is_char c b'R'
    then retry
    else if is_char c b'S'
    then save
    else if is_char c b'X'
    then cancel
    else if is_char c b'N'
    then search_prev
    else if is_char c b'?'
    then help
    else if is_char c b'D'
    then dashboard
    else unknown

-- The keys with the modifier CONTROL.
abbrev control_key : Char → Action
control_key c =
    if is_char c b'd'
    then half_page_down
    else if is_char c b'u'
    then half_page_up
    else if is_char c b'r'
    then refresh
    else if is_char c b'c'
    then quit
    else unknown

abbrev dispatch_pair : KeyModifiers → KeyCode → Action
dispatch_pair none (char c) = plain_key c
dispatch_pair none enter = Action.enter
dispatch_pair none esc = back
dispatch_pair shift (char c) = shift_key c
dispatch_pair control (char c) = control_key c
dispatch_pair _ _ = unknown

unfoldable pub dispatch : KeyEvent → Action
dispatch key = dispatch_pair key.modifiers key.code

-- The keys and their meanings that the help overlay shows.
pub record HelpSection : Type 0 where
  pub title : String
  pub entries : List (String × String)

abbrev pub help_sections : List HelpSection
help_sections =
    record {
      title = "Navigation";
      entries =
          ("h / l", "Focus prev / next pane")
          ∷ ("j / k", "Move down / up")
          ∷ ("g / G", "Top / bottom of list")
          ∷ ("Ctrl-d / u", "Half-page down / up")
          ∷ ("Enter", "Drill into selection")
          ∷ ("Esc", "Back / close overlay")
          ∷ [];
    }
    ∷ record {
      title = "Actions";
      entries =
          ("R", "Retry selected calculation")
          ∷ ("S", "Save result to disk")
          ∷ ("X", "Cancel selected run or calculation")
          ∷ ("y", "Yank selected ID to clipboard")
          ∷ ("v", "Visual mode (multi-select runs)")
          ∷ ("r", "Refresh run list")
          ∷ [];
    }
    ∷ record {
      title = "Search & Filter";
      entries =
          ("/", "Enter search") ∷ ("n / N", "Next / prev match") ∷ ("f", "Filter overlay") ∷ [];
    }
    ∷ record {
      title = "General";
      entries =
          (":", "Command mode")
          ∷ (":import <path>", "Import JSON runs from directory")
          ∷ (":submit <jira> <kind...>", "Submit a new run")
          ∷ ("<count>j/k", "Move N rows (e.g. 5j)")
          ∷ ("D", "Dashboard / history overview")
          ∷ ("?", "This help screen")
          ∷ ("q", "Quit")
          ∷ [];
    }
    ∷ []

abbrev pub entries_of : List HelpSection → List (String × String)
entries_of [] = []
entries_of (s ∷ rest) = s.entries ++ entries_of rest

abbrev pub help_entries : List (String × String)
help_entries = entries_of help_sections
