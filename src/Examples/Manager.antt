-- ===== src/Examples/Manager.antt =====
-- A manager that learns that ConnMan is online.
use connman_ui.Common.{ℕ, zero, suc, ◌≡◌, refl, true, none, some, List, [], ◌∷◌}
use connman_ui.Examples.Messages.{messages, string, variant, Values, end, more}
use connman_ui.Examples.Timeouts.{timeouts, find, add}
use connman_ui.Manager.State.{World, Answers}
use connman_ui.Manager.Property.{property_changed_signal_cb, manager_change}
use connman_ui.Manager.Life.{connman_manager_init, connman_manager_finalize}
use connman_ui.Manager.Run.{Event, init, property_changed, step, run}
use connman_ui.Manager.Endings.{run_finalize_detaches, run_one_timeout}

abbrev answers : Answers
answers = record {
  memory = true;
  message = true;
  sent = true;
  call = some 4;
  notified = true;
  watch = 7;
  second_watch = 8;
  realloc = λ n. true;
  stray = none;
  stray_flag = true;
}

abbrev start : World timeouts messages
start = record { connman = true; manager = none; loop = []; effects = [] }

no_timeout : (id : ℕ) → find [] id ≡ none
unfolding find
no_timeout zero = refl
no_timeout (suc i) = refl

abbrev online : List (Event Values)
online =
    init answers (some 3) 0
    ∷ property_changed answers
        (some (more (string "State") (more (variant (more (string "online") end)) end)))
    ∷ []

run_finalize_detaches_example :
    find (connman_manager_finalize timeouts messages (run timeouts messages online start)).loop 1
    ≡ none
run_finalize_detaches_example =
    run_finalize_detaches timeouts messages online start 1 refl no_timeout

attached : find (run timeouts messages online start).loop 1 ≡ some (manager_change 0)
unfolding run step connman_manager_init property_changed_signal_cb find add
attached = refl

run_one_timeout_example : ◌≡◌ {A = ℕ} 1 1
run_one_timeout_example =
    run_one_timeout timeouts messages online start 1 1 (manager_change 0) (manager_change 0) refl
      no_timeout attached attached refl
