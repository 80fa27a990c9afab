-- ===== src/Examples/Agent.antt =====
-- A request for a passphrase, its answer, and an overlap of two requests.
use connman_ui.Common.{
  ◌+◌, ◌≤◌, ◌≡◌, refl, String, Bool, true, false, ◌||◌, none, some, List, [], ◌∷◌, if◌then◌else◌,
  arith,
}
use connman_ui.Dbus.Walk.{while_valid, positions}
use connman_ui.Dbus.Read.{foreach_dict_entry}
use connman_ui.Dbus.Append.Nesting.{nesting}
use connman_ui.Examples.Messages.{messages, Values, string, object_path, end, more, field, dict}
use connman_ui.Agent.State.{Agent, ref_message, call_input, error}
use connman_ui.Agent.Input.{
  no_input, has_field, with_fields, parse_input_request, foreach-parse_input_request,
}
use connman_ui.Agent.Methods.{agent_report_error_method, agent_request_input_method}
use connman_ui.Agent.Replies.{
  fresh_agent, passphrase_calls, identity_calls, login_calls, connman_agent_reply_passphrase,
  connman_agent_reply_identity, connman_agent_reply_login, connman_agent_reply_retry,
  connman_agent_init, connman_agent_set_input_cb,
}
use connman_ui.Agent.Run.{
  Event, init, set_input_cb, request_input, report_error, reply_retry, reply_passphrase, step, run,
  AllInTurn, refs, unrefs, sends, held,
}
use connman_ui.Agent.Refs.{run-refs, run-answers, overlap_leaks}
use connman_ui.Agent.Requests.{request_input_lem}
use connman_ui.Agent.Answers.{
  Reports, replies_report, passphrase_calls_nested, identity_login_unclosed,
}

-- ("/service", {"Passphrase": ...})
abbrev asked : Values
asked =
    more (object_path "/service") (more (dict (more (field "Passphrase" (string "psk")) end)) end)

abbrev life : List (Event Values)
life =
    init true true
    ∷ set_input_cb (some 4)
    ∷ request_input 11 (some asked)
    ∷ reply_passphrase true true none (some "secret") false none
    ∷ []

life_in_turn : AllInTurn messages life none
unfolding step connman_agent_init connman_agent_set_input_cb
life_in_turn = (tt, (tt, (refl, (tt, tt))))

run-refs_example :
    refs 11 (run messages life none).1
    ≡ unrefs 11 (run messages life none).1 + held 11 (run messages life none).0
run-refs_example = run-refs 11 messages life life_in_turn

run-answers_example :
    sends 11 (run messages life none).1 + held 11 (run messages life none).0
    ≤ refs 11 (run messages life none).1
run-answers_example = run-answers 11 messages life life_in_turn

life_taken : refs 11 (run messages life none).1 ≡ 1
unfolding run step refs connman_agent_init connman_agent_set_input_cb agent_request_input_method
    while_valid foreach_dict_entry parse_input_request connman_agent_reply_passphrase
life_taken = refl

abbrev waiting : Agent
waiting = record fresh_agent { pending_reply = some 11; error_cb = some 3; input_cb = some 4 }

-- ("/service", "connect-failed")
abbrev complaint : Values
complaint = more (object_path "/service") (more (string "connect-failed") end)

abbrev next_waiting : Agent
next_waiting = record waiting { pending_reply = some 12 }

abbrev complained : Event Values
complained = report_error 12 (some complaint)

overlap_leaks_example :
    (unrefs 11 (run messages (complained ∷ reply_retry true ∷ []) (some waiting)).1 ≡ 0)
    × (sends 11 (run messages (complained ∷ reply_retry true ∷ []) (some waiting)).1 ≡ 0)
    × (held 11 (run messages (complained ∷ reply_retry true ∷ []) (some waiting)).0 ≡ 0)
unfolding run step agent_report_error_method connman_agent_reply_retry refs
overlap_leaks_example =
    overlap_leaks messages waiting next_waiting 11 12 complained (reply_retry true ∷ []) refl refl
      refl (omega arith) refl

foreach-parse_input_request_example :
    (foreach_dict_entry messages
      (parse_input_request messages)
      (more (dict (more (field "WPS" (string "")) end)) end)
      no_input).1
    ≡ with_fields messages (positions messages (more (field "WPS" (string "")) end)) no_input
foreach-parse_input_request_example =
    foreach-parse_input_request messages (more (dict (more (field "WPS" (string "")) end)) end) refl
      (omega arith)

abbrev named : String → Bool
named name =
    has_field messages name (positions messages (more (field "Passphrase" (string "psk")) end))

request_input_lem_example : agent_request_input_method messages (some waiting) 12 (some asked) ≡ (
    if named "Username" || (named "Passphrase" || (named "Identity" || named "Name"))
    then (
      (
        some (record waiting { pending_reply = some 12 }),
        ref_message 12
            ∷ call_input 4 "/service" (record {
              hidden = named "Name";
              identity = named "Identity";
              passphrase = named "Passphrase";
              wpspin = named "WPS";
              login = named "Username";
              previous_passphrase = none;
              previous_wpspin = none;
            })
            ∷ [],
      ),
      none,
    )
    else ((some waiting, []), some (error "net.connman.Error.Canceled" "")))
request_input_lem_example =
    request_input_lem messages waiting 4 12 asked refl refl refl (omega arith)

replies_report_example :
    Reports 11
      (some waiting)
      (connman_agent_reply_passphrase true true none (some "secret") false none (some waiting))
    × Reports 11
        (some waiting)
        (connman_agent_reply_identity true true none (some "secret") (some waiting))
    × Reports 11
        (some waiting)
        (connman_agent_reply_login true true none (some "secret") (some waiting))
replies_report_example = replies_report 11 (some waiting) true true none (some "secret") false none

passphrase_calls_nested_example : nesting (passphrase_calls none none true none) 0 ≡ some 0
passphrase_calls_nested_example = passphrase_calls_nested none none true none

identity_login_unclosed_example :
    (nesting (identity_calls "user" "secret") 0 ≡ none)
    × (nesting (login_calls (some "user") none) 0 ≡ none)
identity_login_unclosed_example = identity_login_unclosed "user" "secret" (some "user") none
