-- ===== src/SendQueue/Queue.antt =====
-- libemail-engine/mail-ops.c: send_queue_exec, for a message whose `status` callback is set.
use e_mail_factory.Base.{
  ℕ, suc, ◌+◌, ◌-◌, ◌*◌, ◌/◌, codes, ltb, nat_beq, length, if◌then◌else◌, Bool, true, false, ◌&&◌,
  List, [], ◌∷◌, ◌++◌, Option, none, some,
}
use e_mail_factory.SendQueue.{
  SendError, cancelled, invalid, failed, Answers, Outcome, Status, sending, failed_to_send,
  canceled, complete, Progress, Result,
}
use e_mail_factory.SendQueue.Messages.{message_of, mail_send_message}

-- The messages to send: those with an info that is not deleted.
unfoldable pub undeleted : List (ℕ × Option Bool) → List ℕ
undeleted [] = []
undeleted ((uid, none) ∷ uids) = undeleted uids
undeleted ((uid, some true) ∷ uids) = undeleted uids
undeleted ((uid, some false) ∷ uids) = uid ∷ undeleted uids

-- m->base.error after a failure: the messages are merged.
abbrev pub merge_error : Option SendError → SendError → SendError
merge_error none e = e
merge_error (some old) e = failed (message_of old ++ codes "\n\n" ++ message_of e)

-- g_propagate_error, which leaves an error that is already set.
abbrev pub propagate : Option SendError → SendError → SendError
propagate none e = e
propagate (some old) e = old

abbrev pub is_cancelled : Option SendError → Bool
is_cancelled none = false
is_cancelled (some (cancelled t)) = true
is_cancelled (some (invalid t)) = false
is_cancelled (some (failed t)) = false

abbrev pub marked_if : Bool → ℕ → List ℕ → List ℕ
marked_if true uid marked = marked ++ uid ∷ []
marked_if false uid marked = marked

-- One round of the loop up to the test of local_error.
abbrev pub report_sending : ℕ → ℕ → Outcome → Progress → Progress
report_sending total uid outcome p = record p {
  marked = marked_if outcome.marked uid p.marked;
  reports = p.reports ++ sending ((100 * p.i) / total) (suc p.i) total ∷ [];
}

-- The loop of send_queue_exec, for what Camel answers about each message.
unfoldable pub send_loop : (ℕ → Answers) → ℕ → List ℕ → Progress → Progress
send_loop answers total [] p = p
send_loop answers total (uid ∷ uids) p =
    let outcome = mail_send_message (answers uid) in
    let q = report_sending total uid outcome p in
    elim outcome.error [
      | none ↦ send_loop answers total uids (record q { i = suc p.i })
      | some e ↦
          if is_cancelled (some e)
          then record q { error = some (propagate p.error e) }
          else send_loop answers total uids
              (record q { i = suc p.i; j = suc p.j; error = some (merge_error p.error e) })
    ]

-- What is reported last: the count of messages that were not sent, of all.
unfoldable pub final_status : ℕ → ℕ → Option SendError → Status
final_status j total error =
    if ltb 0 j then failed_to_send j total else if is_cancelled error then canceled else complete

abbrev pub not_sent : ℕ → Progress → ℕ
not_sent total p = p.j + (total - p.i)

abbrev pub no_error : Option SendError → Bool
no_error none = true
no_error (some e) = false

abbrev pub fresh : Progress
fresh = record { i = 0; j = 0; error = none; marked = []; reports = [] }

abbrev pub finish_queue : ℕ → Progress → Result
finish_queue total p = record {
  error = p.error;
  marked = p.marked;
  reports = p.reports ++ final_status (not_sent total p) total p.error ∷ [];
  expunged = nat_beq (not_sent total p) 0 && no_error p.error;
}

-- The messages of the queue come with the answers about their infos.
unfoldable pub send_queue_exec : (ℕ → Answers) → List (ℕ × Option Bool) → Result
send_queue_exec answers uids = elim (undeleted uids) [
  | [] ↦ record { error = none; marked = []; reports = []; expunged = false }
  | uid ∷ rest ↦
      finish_queue (suc (length rest)) (send_loop answers (suc (length rest)) (uid ∷ rest) fresh)
]
