-- ===== src/Tests/Messages.antt =====
-- libemail-engine/mail-mt.c at an interleaving: the message 7 is pushed for the main loop, and the
-- worker that is through with message 8 pushes its reply while the callback is in its loops.
use e_mail_factory.Base.{
  ℕ, ◌+◌, ◌≡◌, refl, nat_beq, ltb_ℤ, ℤ, pos, negsuc, if◌then◌else◌, List, [], ◌∷◌, some, arith,
  nat_eq,
}
use e_mail_factory.MailMsg.{
  MsgTable, Call, new, ref, unref, cancel, LoopState, Event, push_main, push_reply, schedule, start,
  turn, waiting,
}
use e_mail_factory.MailMsg.Loop.{
  step, run, schedule_idle, start_idle, turn_idle, turn_main, turn_reply, mail_msg_compare,
  mail_msg_idle_cb,
}
use e_mail_factory.MailMsg.Wakeups.{run-empties}
use e_mail_factory.MailMsg.Conservation.{held, pushes, AddsOnce, run-holds}
use e_mail_factory.MailMsg.Draining.{mail_msg_idle_cb-drains}

abbrev priority : ℕ → ℤ
priority msg = if nat_beq msg 7 then pos 1 else pos 0

-- A message goes before the first of lower priority.
abbrev push_sorted : ℕ → List ℕ → List ℕ
push_sorted msg [] = msg ∷ []
push_sorted msg (m ∷ q) =
    if ltb_ℤ (mail_msg_compare (priority msg) (priority m)) (pos 0)
    then msg ∷ m ∷ q
    else m ∷ push_sorted msg q

push_sorted-AddsOnce : AddsOnce push_sorted
push_sorted-AddsOnce x msg [] = omega arith
push_sorted-AddsOnce x msg (m ∷ q) = ground (arith, push_sorted-AddsOnce x msg q)

abbrev idle_loop : LoopState
idle_loop = record {
  main_loop_queue = [];
  msg_reply_queue = [];
  idle_source_id = 0;
  pushing = 0;
  phase = waiting;
  finished = [];
}

abbrev events : List Event
events =
    push_main 7
    ∷ schedule 30
    ∷ start
    ∷ turn
    ∷ push_reply 8
    ∷ turn
    ∷ turn
    ∷ schedule 31
    ∷ turn
    ∷ start
    ∷ turn
    ∷ turn
    ∷ []

abbrev finished_loop : LoopState
finished_loop = record idle_loop { finished = 7 ∷ 8 ∷ [] }

run-empties_example : (finished_loop.main_loop_queue ≡ []) × (finished_loop.msg_reply_queue ≡ [])
unfolding run step schedule_idle start_idle turn_idle turn_main turn_reply
run-empties_example =
    run-empties push_sorted events idle_loop finished_loop
      (
        tt,
        ((omega arith), (tt, (tt, (tt, (tt, (tt, ((omega arith), (tt, (tt, (tt, (tt, tt))))))))))),
      )
      refl refl refl refl

run-holds_example : held 8 finished_loop ≡ pushes 8 events + held 8 idle_loop
unfolding run step schedule_idle start_idle turn_idle turn_main turn_reply
run-holds_example = run-holds push_sorted push_sorted-AddsOnce 8 events idle_loop finished_loop refl

abbrev busy_loop : LoopState
busy_loop = record idle_loop {
  main_loop_queue = 7 ∷ 9 ∷ [];
  msg_reply_queue = 8 ∷ [];
  idle_source_id = 30;
}

mail_msg_idle_cb-drains_example :
    mail_msg_idle_cb 6 busy_loop ≡ some (record idle_loop { finished = 7 ∷ 9 ∷ 8 ∷ [] })
mail_msg_idle_cb-drains_example = mail_msg_idle_cb-drains 6 busy_loop (omega arith)

-- The last sequence number of a guint.
abbrev no_messages : MsgTable
no_messages = record { mail_msg_seq = 4294967295; active = []; heap = []; freed = [] }

abbrev call_list : List Call
call_list = new 100 ∷ new 200 ∷ ref 100 ∷ unref 200 ∷ cancel 4294967295 ∷ new 200 ∷ unref 100 ∷ []

-- A higher priority goes first.
mail_msg_compare_test :
    (mail_msg_compare (pos 1) (pos 0) ≡ negsuc 0)
    × (mail_msg_compare (negsuc 0) (pos 0) ≡ pos 1)
    × (mail_msg_compare (pos 2) (pos 2) ≡ pos 0)
unfolding mail_msg_compare
mail_msg_compare_test = (refl, refl, refl)
