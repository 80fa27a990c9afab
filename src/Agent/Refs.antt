-- ===== src/Agent/Refs.antt =====
-- Every request that the agent takes over is released once, and answered at most once.
use connman_ui.Common.{◌+◌, ◌≤◌, ◌≡◌, ◌≢◌, refl, Option, none, some, List, [], ◌∷◌, ◌++◌, arith}
use connman_ui.Dbus.Libdbus.{Libdbus}
use connman_ui.Agent.State.{Message, Agent, Effect, Reply, Outcome}
use connman_ui.Agent.State
use connman_ui.Agent.Methods.{
  agent_release_method, agent_cancel_method, agent_report_error_method,
  agent_request_browser_method, agent_request_input_method,
}
use connman_ui.Agent.Replies.{
  connman_agent_init, connman_agent_finalize, connman_agent_set_error_cb,
  connman_agent_set_browser_cb, connman_agent_set_input_cb, connman_agent_set_cancel_cb,
  connman_agent_reply_retry, connman_agent_reply_canceled, connman_agent_reply_launch_browser,
  connman_agent_reply_identity, connman_agent_reply_passphrase, connman_agent_reply_login,
}
use connman_ui.Agent.Run.{
  Event, release, cancel, finalize, init, step, run, InTurn, AllInTurn, refs, unrefs, sends, held,
}

module _ (m : Message) where
  pub refs-append : (xs ys : List Effect) → refs m (xs ++ ys) ≡ refs m xs + refs m ys
  unfolding refs
  refs-append [] ys = omega arith
  refs-append (State.ref_message n ∷ xs) ys = ground (arith, refs-append xs ys)
  refs-append (_ ∷ xs) ys = refs-append xs ys

  pub unrefs-append : (xs ys : List Effect) → unrefs m (xs ++ ys) ≡ unrefs m xs + unrefs m ys
  unfolding unrefs
  unrefs-append [] ys = omega arith
  unrefs-append (State.unref_message n ∷ xs) ys = ground (arith, unrefs-append xs ys)
  unrefs-append (_ ∷ xs) ys = unrefs-append xs ys

  pub sends-append : (xs ys : List Effect) → sends m (xs ++ ys) ≡ sends m xs + sends m ys
  unfolding sends
  sends-append [] ys = omega arith
  sends-append (State.send n r ∷ xs) ys = ground (arith, sends-append xs ys)
  sends-append (_ ∷ xs) ys = sends-append xs ys

  -- A function that gives `o` from `a` keeps the books of the message.
  abbrev Balanced : Option Agent → Outcome → Type 0
  Balanced a o = refs m o.1 + held m a ≡ unrefs m o.1 + held m o.0

  module _ (lib : Libdbus) where
    step-Balanced :
        (e : Event lib.Iter) (a : Option Agent) → InTurn lib e a → Balanced a (step lib e a)
    unfolding step refs unrefs agent_release_method agent_cancel_method connman_agent_finalize
        connman_agent_init agent_report_error_method agent_request_browser_method
        agent_request_input_method connman_agent_reply_retry connman_agent_reply_canceled
        connman_agent_reply_launch_browser connman_agent_reply_identity
        connman_agent_reply_passphrase connman_agent_reply_login connman_agent_set_error_cb
        connman_agent_set_browser_cb connman_agent_set_input_cb connman_agent_set_cancel_cb
    step-Balanced release a t = ground arith
    step-Balanced cancel a t = ground arith
    step-Balanced finalize a t = ground arith
    step-Balanced (init c y) a t = ground arith
    step-Balanced _ a t = ground arith

    run-Balanced :
        (es : List (Event lib.Iter)) (a : Option Agent)
        → AllInTurn lib es a
        → Balanced a (run lib es a)
    unfolding run
    run-Balanced [] a t = unfold refs unrefs in refl
    run-Balanced (e ∷ es) a t = omega (
      arith,
      step-Balanced e a t.0,
      run-Balanced es (step lib e a).0 t.1,
      refs-append (step lib e a).1 (run lib es (step lib e a).0).1,
      unrefs-append (step lib e a).1 (run lib es (step lib e a).0).1,
    )

    -- From the start, through any calls of ConnMan and of the user interface in which a request comes
    -- only when none is pending: the references taken on a message are those released and the one that the
    -- agent still holds if the message is its pending request.
    pub run-refs :
        (es : List (Event lib.Iter))
        → AllInTurn lib es none
        → refs m (run lib es none).1 ≡ unrefs m (run lib es none).1 + held m (run lib es none).0
    run-refs es t = omega (arith, run-Balanced es none t)

    step-sends :
        (e : Event lib.Iter) (a : Option Agent)
        → sends m (step lib e a).1 ≤ unrefs m (step lib e a).1
    unfolding step sends unrefs agent_release_method agent_cancel_method connman_agent_finalize
        connman_agent_init agent_report_error_method agent_request_browser_method
        agent_request_input_method connman_agent_reply_retry connman_agent_reply_canceled
        connman_agent_reply_launch_browser connman_agent_reply_identity
        connman_agent_reply_passphrase connman_agent_reply_login connman_agent_set_error_cb
        connman_agent_set_browser_cb connman_agent_set_input_cb connman_agent_set_cancel_cb
    step-sends release a = ground arith
    step-sends _ a = ground arith

    run-sends :
        (es : List (Event lib.Iter)) (a : Option Agent)
        → sends m (run lib es a).1 ≤ unrefs m (run lib es a).1
    unfolding run
    run-sends [] a = unfold sends unrefs in omega arith
    run-sends (e ∷ es) a = omega (
      arith,
      step-sends e a,
      run-sends es (step lib e a).0,
      sends-append (step lib e a).1 (run lib es (step lib e a).0).1,
      unrefs-append (step lib e a).1 (run lib es (step lib e a).0).1,
    )

    -- From the start, through any calls in which a request comes only when none is pending: a request is
    -- answered at most as often as it was taken over, and while it is pending it has been answered
    -- once less at least.
    pub run-answers :
        (es : List (Event lib.Iter))
        → AllInTurn lib es none
        → sends m (run lib es none).1 + held m (run lib es none).0 ≤ refs m (run lib es none).1
    run-answers es t = omega (arith, run-refs es t, run-sends es none)

    -- What is released of a message and still held was held or is taken, also where requests overlap.
    step-at_most :
        (e : Event lib.Iter) (a : Option Agent)
        → unrefs m (step lib e a).1 + held m (step lib e a).0 ≤ refs m (step lib e a).1 + held m a
    unfolding step refs unrefs agent_release_method agent_cancel_method connman_agent_finalize
        connman_agent_init agent_report_error_method agent_request_browser_method
        agent_request_input_method connman_agent_reply_retry connman_agent_reply_canceled
        connman_agent_reply_launch_browser connman_agent_reply_identity
        connman_agent_reply_passphrase connman_agent_reply_login connman_agent_set_error_cb
        connman_agent_set_browser_cb connman_agent_set_input_cb connman_agent_set_cancel_cb
    step-at_most release a = ground arith
    step-at_most cancel a = ground arith
    step-at_most finalize a = ground arith
    step-at_most (init c y) a = ground arith
    step-at_most _ a = ground arith

    run-at_most :
        (es : List (Event lib.Iter)) (a : Option Agent)
        → unrefs m (run lib es a).1 + held m (run lib es a).0 ≤ refs m (run lib es a).1 + held m a
    unfolding run
    run-at_most [] a = unfold refs unrefs in omega arith
    run-at_most (e ∷ es) a = omega (
      arith,
      step-at_most e a,
      run-at_most es (step lib e a).0,
      refs-append (step lib e a).1 (run lib es (step lib e a).0).1,
      unrefs-append (step lib e a).1 (run lib es (step lib e a).0).1,
    )

-- A call after which another request is pending has released nothing of the one that was.
replaced :
    (lib : Libdbus) (a a' : Agent) (pending msg : Message) (e : Event lib.Iter)
    → a.pending_reply ≡ some pending
    → (step lib e (some a)).0 ≡ some a'
    → a'.pending_reply ≡ some msg
    → msg ≢ pending
    → (unrefs pending (step lib e (some a)).1 ≡ 0) × (held pending (step lib e (some a)).0 ≡ 0)
unfolding step unrefs agent_release_method agent_cancel_method connman_agent_finalize
    connman_agent_init agent_report_error_method agent_request_browser_method
    agent_request_input_method connman_agent_reply_retry connman_agent_reply_canceled
    connman_agent_reply_launch_browser connman_agent_reply_identity connman_agent_reply_passphrase
    connman_agent_reply_login connman_agent_set_error_cb connman_agent_set_browser_cb
    connman_agent_set_input_cb connman_agent_set_cancel_cb
replaced lib a a' pending msg release p e q d = ground arith
replaced lib a a' pending msg cancel p e q d = ground arith
replaced lib a a' pending msg finalize p e q d = ground arith
replaced lib a a' pending msg (init c y) p e q d = ground arith
replaced lib a a' pending msg _ p e q d = ground arith

-- If a call of ConnMan or of the user interface while a request is pending leaves another request pending, the first
-- one is lost: whatever calls follow, unless ConnMan hands the same message over again, it is never answered, no reference
-- on it is ever released, and the agent never holds it again.
pub overlap_leaks :
    (lib : Libdbus) (a a' : Agent) (pending msg : Message) (e : Event lib.Iter)
    (es : List (Event lib.Iter))
    → a.pending_reply ≡ some pending
    → (step lib e (some a)).0 ≡ some a'
    → a'.pending_reply ≡ some msg
    → msg ≢ pending
    → refs pending (run lib es (some a')).1 ≡ 0
    → (unrefs pending (run lib (e ∷ es) (some a)).1 ≡ 0)
      × (sends pending (run lib (e ∷ es) (some a)).1 ≡ 0)
      × (held pending (run lib (e ∷ es) (some a)).0 ≡ 0)
overlap_leaks lib a a' pending msg e es p s q d again =
    let (kept, gone) = replaced lib a a' pending msg e p s q d in
    let next = (step lib e (some a)).0 in
    let later = run-at_most pending lib es next in
    let both = unrefs-append pending (step lib e (some a)).1 (run lib es next).1 in
    let never : refs pending (run lib es next).1 ≡ 0 = rw s again in
    let released : unrefs pending (run lib (e ∷ es) (some a)).1 ≡ 0 = unfold run in omega arith in
    let sent = run-sends pending lib (e ∷ es) (some a) in
    (released, omega arith, unfold run in omega arith)
