-- ===== src/MailMsg/Liveness.antt =====
-- libemail-engine/mail-mt.c: the entries of mail_msg_active_table and the references to their
-- messages.
use e_mail_factory.Base.{ℕ, ◌≡◌, ◌<◌, some, lookup, nat_eq}
use e_mail_factory.MailMsg.{Msg, MsgTable}

-- An entry is a message that has references and the entry's sequence number.
abbrev pub IsLive : MsgTable → Type 0
IsLive t =
    (seq a : ℕ)
    → lookup seq t.active ≡ some a
    → (msg : Msg) × (lookup a t.heap ≡ some msg) × (0 < msg.ref_count) × (msg.seq ≡ seq)
