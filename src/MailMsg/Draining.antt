-- ===== src/MailMsg/Draining.antt =====
-- libemail-engine/mail-mt.c: one run of mail_msg_idle_cb.
use mathlib.Core.List.{append-nil, append_assoc}
use e_mail_factory.Base.{
  ℕ, zero, suc, ◌+◌, ◌≡◌, ◌<◌, refl, length, List, [], ◌∷◌, ◌++◌, some, arith,
}
use e_mail_factory.MailMsg.{LoopState, waiting, in_main_loop, in_replies}
use e_mail_factory.MailMsg.Loop.{
  start_idle, turn_main, turn_reply, turn_idle, finish_idle, mail_msg_idle_cb,
}

-- The state after the callback: the messages of both queues are finished, those of the main loop
-- first.
abbrev pub drained : LoopState → LoopState
drained s = record s {
  main_loop_queue = [];
  msg_reply_queue = [];
  idle_source_id = 0;
  phase = waiting;
  finished = s.finished ++ (s.main_loop_queue ++ s.msg_reply_queue);
}

finish_idle-replies :
    (fuel idle pushing : ℕ) (done replies : List ℕ)
    → length replies + 1 < fuel
    → finish_idle fuel (record {
      main_loop_queue = [];
      msg_reply_queue = replies;
      idle_source_id = idle;
      pushing = pushing;
      phase = in_replies;
      finished = done;
    })
      ≡ some (record {
        main_loop_queue = [];
        msg_reply_queue = [];
        idle_source_id = idle;
        pushing = pushing;
        phase = waiting;
        finished = done ++ replies;
      })
unfolding finish_idle turn_idle turn_reply
finish_idle-replies zero idle pushing done replies enough = absurd (omega arith)
finish_idle-replies (suc zero) idle pushing done replies enough = absurd (omega arith)
finish_idle-replies (suc (suc fuel)) idle pushing done [] enough = rw (append-nil done) refl
finish_idle-replies (suc (suc fuel)) idle pushing done (msg ∷ replies) enough =
    rw (← append_assoc done (msg ∷ []) replies)
      (finish_idle-replies (suc fuel) idle pushing (done ++ msg ∷ []) replies (omega arith))

finish_idle-main :
    (fuel idle pushing : ℕ) (done main replies : List ℕ)
    → length main + length replies + 2 < fuel
    → finish_idle fuel (record {
      main_loop_queue = main;
      msg_reply_queue = replies;
      idle_source_id = idle;
      pushing = pushing;
      phase = in_main_loop;
      finished = done;
    })
      ≡ some (record {
        main_loop_queue = [];
        msg_reply_queue = [];
        idle_source_id = idle;
        pushing = pushing;
        phase = waiting;
        finished = done ++ (main ++ replies);
      })
unfolding finish_idle turn_idle turn_main
finish_idle-main zero idle pushing done main replies enough = absurd (omega arith)
finish_idle-main (suc fuel) idle pushing done [] replies enough =
    finish_idle-replies fuel idle pushing done replies (omega arith)
finish_idle-main (suc fuel) idle pushing done (msg ∷ main) replies enough =
    rw (← append_assoc done (msg ∷ []) (main ++ replies))
      (finish_idle-main fuel idle pushing (done ++ msg ∷ []) main replies (omega arith))

-- When no thread queues a message while it runs, the callback returns: it finishes all messages of the
-- main loop's queue in their order, then all replies in theirs, and leaves both queues empty; three turns more than messages are enough.
pub mail_msg_idle_cb-drains :
    (fuel : ℕ) (s : LoopState)
    → length s.main_loop_queue + length s.msg_reply_queue + 2 < fuel
    → mail_msg_idle_cb fuel s ≡ some (drained s)
unfolding start_idle
mail_msg_idle_cb-drains fuel s enough =
    finish_idle-main fuel 0 s.pushing s.finished s.main_loop_queue s.msg_reply_queue enough
