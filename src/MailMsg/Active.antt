-- ===== src/MailMsg/Active.antt =====
-- libemail-engine/mail-mt.c: the table of active messages, and the references to them.
use e_mail_factory.Base.{
  ℕ, ◌+◌, ◌-◌, ◌%◌, ◌^◌, nat_beq, ltb, if◌then◌else◌, Bool, true, false, List, [], ◌∷◌, ◌++◌,
  Option, none, some, lookup, insert, remove, nat_eq,
}
use e_mail_factory.MailMsg.{Msg, MsgTable, Call, new, ref, unref, cancel}

-- mail_msg_new; `mail_msg_seq` is a guint.
unfoldable pub mail_msg_new : ℕ → MsgTable → MsgTable
mail_msg_new a t = record t {
  mail_msg_seq = (t.mail_msg_seq + 1) % 2 ^ 32;
  active = insert t.mail_msg_seq a t.active;
  heap = insert a (record { seq = t.mail_msg_seq; ref_count = 1; is_cancelled = false }) t.heap;
}

abbrev pub put_msg : ℕ → Msg → MsgTable → MsgTable
put_msg a msg t = record t { heap = insert a msg t.heap }

-- Calls are made one at a time here: mail_msg_unref gives a reference back before it locks the table to
-- take the entry out, and a call of another thread in between is left out.

-- What is left of a message when its last reference goes.
abbrev pub drop_msg : ℕ → Msg → MsgTable → MsgTable
drop_msg a msg t = record t {
  active = remove msg.seq t.active;
  heap = insert a (record msg { ref_count = 0 }) t.heap;
  freed = t.freed ++ a ∷ [];
}

-- mail_msg_ref, for the message found at the address
unfoldable pub ref_msg : ℕ → Msg → MsgTable → MsgTable
ref_msg a msg t =
    if ltb 0 msg.ref_count then put_msg a (record msg { ref_count = msg.ref_count + 1 }) t else t

-- mail_msg_unref, likewise
unfoldable pub unref_msg : ℕ → Msg → MsgTable → MsgTable
unref_msg a msg t =
    if ltb 0 msg.ref_count
    then if nat_beq msg.ref_count 1
      then drop_msg a msg t
      else put_msg a (record msg { ref_count = msg.ref_count - 1 }) t
    else t

-- g_cancellable_cancel, unless the message is cancelled already
unfoldable pub cancel_msg : ℕ → Msg → MsgTable → MsgTable
cancel_msg a msg t =
    if msg.is_cancelled then t else put_msg a (record msg { is_cancelled = true }) t

-- The message at an address, given to a function; without one the call is not modelled further.
unfoldable pub at_address : (ℕ → Msg → MsgTable → MsgTable) → ℕ → MsgTable → MsgTable
at_address f a t = elim (lookup a t.heap) [ none ↦ t | some msg ↦ f a msg t ]

-- mail_msg_ref and mail_msg_unref
abbrev pub mail_msg_ref : ℕ → MsgTable → MsgTable
mail_msg_ref a t = at_address ref_msg a t

abbrev pub mail_msg_unref : ℕ → MsgTable → MsgTable
mail_msg_unref a t = at_address unref_msg a t

-- mail_msg_cancel, for the sequence number of a message
unfoldable pub mail_msg_cancel : ℕ → MsgTable → MsgTable
mail_msg_cancel seq t = elim (lookup seq t.active) [ none ↦ t | some a ↦ at_address cancel_msg a t ]

abbrev pub is_nonempty : List (ℕ × ℕ) → Bool
is_nonempty [] = false
is_nonempty (_ ∷ _) = true

-- mail_msg_active
abbrev pub mail_msg_active : MsgTable → Bool
mail_msg_active t = is_nonempty t.active

-- The allocator gives an address that no live message has; a call with any other is left out.
abbrev pub refs_of : Option Msg → ℕ
refs_of none = 0
refs_of (some msg) = msg.ref_count

unfoldable pub call : Call → MsgTable → MsgTable
call (new a) t = if nat_beq (refs_of (lookup a t.heap)) 0 then mail_msg_new a t else t
call (ref a) t = mail_msg_ref a t
call (unref a) t = mail_msg_unref a t
call (cancel seq) t = mail_msg_cancel seq t

unfoldable pub calls : List Call → MsgTable → MsgTable
calls [] t = t
calls (c ∷ cs) t = calls cs (call c t)
