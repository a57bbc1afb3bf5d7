-- ===== src/MailMsg/Loop.antt =====
-- libemail-engine/mail-mt.c: mail_msg_main_loop_push, the end of mail_msg_proxy, and
-- mail_msg_idle_cb, in steps that other threads may come between.
use e_mail_factory.Base.{
  ℕ, zero, suc, ◌-◌, ℤ, int_beq, ltb_ℤ, pos, negsuc, nat_beq, ltb, if◌then◌else◌, Bool, true, false,
  ◌&&◌, List, [], ◌∷◌, ◌++◌, Option, none, some,
}
use e_mail_factory.MailMsg.{
  Phase, waiting, in_main_loop, in_replies, LoopState, Event, push_main, push_reply, schedule,
  start, turn,
}

-- mail_msg_compare, on the priorities
unfoldable pub mail_msg_compare : ℤ → ℤ → ℤ
mail_msg_compare priority1 priority2 =
    if int_beq priority1 priority2
    then pos 0
    else if ltb_ℤ priority1 priority2
    then pos 1
    else negsuc 0

-- The locked section after a push.
unfoldable pub schedule_idle : ℕ → LoopState → LoopState
schedule_idle id s = record s {
  idle_source_id = if nat_beq s.idle_source_id 0 then id else s.idle_source_id;
  pushing = s.pushing - 1;
}

-- mail_msg_idle_cb up to its first loop
unfoldable pub start_idle : LoopState → LoopState
start_idle s = record s { idle_source_id = 0; phase = in_main_loop }

-- The first loop: pop and handle a message, or leave the loop.
unfoldable pub turn_main : List ℕ → LoopState → LoopState
turn_main [] s = record s { phase = in_replies }
turn_main (msg ∷ rest) s = record s { main_loop_queue = rest; finished = s.finished ++ msg ∷ [] }

-- The second loop.
unfoldable pub turn_reply : List ℕ → LoopState → LoopState
turn_reply [] s = record s { phase = waiting }
turn_reply (msg ∷ rest) s = record s { msg_reply_queue = rest; finished = s.finished ++ msg ∷ [] }

unfoldable pub turn_idle : Phase → LoopState → Option LoopState
turn_idle waiting s = none
turn_idle in_main_loop s = some (turn_main s.main_loop_queue s)
turn_idle in_replies s = some (turn_reply s.msg_reply_queue s)

abbrev pub is_waiting : Phase → Bool
is_waiting waiting = true
is_waiting in_main_loop = false
is_waiting in_replies = false

abbrev pub allowed : Bool → LoopState → Option LoopState
allowed true s = some s
allowed false s = none

-- What an action does, and `none` where it cannot happen. `push_sorted` is
-- g_async_queue_push_sorted with mail_msg_compare.
unfoldable pub step : (ℕ → List ℕ → List ℕ) → Event → LoopState → Option LoopState
step push_sorted (push_main msg) s =
    some (record s { main_loop_queue = push_sorted msg s.main_loop_queue; pushing = suc s.pushing })
step push_sorted (push_reply msg) s =
    some (record s { msg_reply_queue = s.msg_reply_queue ++ msg ∷ []; pushing = suc s.pushing })
step push_sorted (schedule id) s = allowed (ltb 0 s.pushing) (schedule_idle id s)
step push_sorted start s = allowed (ltb 0 s.idle_source_id && is_waiting s.phase) (start_idle s)
step push_sorted turn s = turn_idle s.phase s

-- An interleaving, from the first action on.
unfoldable pub run : (ℕ → List ℕ → List ℕ) → List Event → LoopState → Option LoopState
run push_sorted [] s = some s
run push_sorted (e ∷ es) s = elim (step push_sorted e s) [
  | none ↦ none
  | some t ↦ run push_sorted es t
]

-- mail_msg_idle_cb without other threads, on fuel: from its first turn until it returns.
unfoldable pub finish_idle : ℕ → LoopState → Option LoopState
finish_idle zero s = none
finish_idle (suc fuel) s = elim (turn_idle s.phase s) [
  | none ↦ some s
  | some t ↦ finish_idle fuel t
]

abbrev pub mail_msg_idle_cb : ℕ → LoopState → Option LoopState
mail_msg_idle_cb fuel s = finish_idle fuel (start_idle s)
