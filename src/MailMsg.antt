-- ===== src/MailMsg.antt =====
-- libemail-engine/mail-mt.c: messages that worker threads hand to the main loop.
pub mod Loop
pub mod Wakeups
pub mod Conservation
pub mod Draining
pub mod Active
pub mod Liveness
use e_mail_factory.Base.{ℕ, Bool, List}

-- Where mail_msg_idle_cb is: not running, or in its first or its second loop.
pub data Phase : Type 0 where
  waiting : Phase
  in_main_loop : Phase
  in_replies : Phase

-- The two queues and idle_source_id, which is 0 while the callback is not scheduled. `pushing` counts
-- the threads that have pushed a message and have not yet come to G_LOCK (idle_source_id);
-- `finished` are the messages that the callback is through with.
pub record LoopState : Type 0 where
  pub main_loop_queue : List ℕ
  pub msg_reply_queue : List ℕ
  pub idle_source_id : ℕ
  pub pushing : ℕ
  pub phase : Phase
  pub finished : List ℕ

-- One atomic action: a push, the locked section that follows it with the id that g_idle_add_full
-- gives, the start of the callback, or one turn of its loops.
pub data Event : Type 0 where
  push_main : ℕ → Event
  push_reply : ℕ → Event
  schedule : ℕ → Event
  start : Event
  turn : Event

-- struct _MailMsg, as far as mail-mt.c keeps it itself; `is_cancelled` is the state of its
-- cancellable.
pub record Msg : Type 0 where
  pub seq : ℕ
  pub ref_count : ℕ
  pub is_cancelled : Bool

-- mail_msg_seq, mail_msg_active_table, and the messages by address; those in `freed` are given to
-- mail_msg_free.
pub record MsgTable : Type 0 where
  pub mail_msg_seq : ℕ
  pub active : List (ℕ × ℕ)
  pub heap : List (ℕ × Msg)
  pub freed : List ℕ

-- The calls on messages; a new one comes with its address.
pub data Call : Type 0 where
  new : ℕ → Call
  ref : ℕ → Call
  unref : ℕ → Call
  cancel : ℕ → Call
