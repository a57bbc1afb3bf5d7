-- ===== src/Tests/Sending.antt =====
-- libemail-engine/mail-ops.c at a queue of three messages: the second is refused, the third accepted
-- while keeping its copy is cancelled, and a fourth is deleted.
use e_mail_factory.Base.{
  ℕ, ◌≡◌, refl, codes, nat_beq, if◌then◌else◌, true, false, List, [], ◌∷◌, ◌++◌, none, some,
}
use e_mail_factory.SendQueue.{cancelled, failed, Answers, Status, failed_to_send}
use e_mail_factory.SendQueue.Messages.{
  mail_send_message, transport_failure, then_copy, apply_filters, keep_copy, after_append,
}
use e_mail_factory.SendQueue.Queue.{undeleted, send_queue_exec}
use e_mail_factory.SendQueue.Outcomes.{
  mail_send_message_marks, mail_send_message_cancelled_copy, mail_send_message_lost_copy,
}
use e_mail_factory.SendQueue.Reports.{send_queue_exec-reports}

abbrev fine : Answers
fine = record {
  get_message = none;
  has_recipients = true;
  has_service = true;
  connect = none;
  send_to = none;
  has_driver = true;
  filter_message = none;
  keeps_copy = true;
  fcc = none;
  fcc_is_local_sent = true;
  fcc_description = codes "Sent";
  append = none;
  append_sent = none;
}

abbrev refused : Answers
refused = record fine { send_to = some (failed (codes "no such user")) }

abbrev interrupted : Answers
interrupted = record fine { append = some (cancelled (codes "cancelled")) }

abbrev unkept : Answers
unkept = record fine { append = some (failed (codes "disk full")) }

abbrev answers : ℕ → Answers
answers uid = if nat_beq uid 2 then refused else if nat_beq uid 3 then interrupted else fine

mail_send_message_marks_example : (mail_send_message unkept).marked ≡ true
mail_send_message_marks_example = mail_send_message_marks unkept

mail_send_message_cancelled_copy_example :
    ((mail_send_message interrupted).error ≡ none)
    × ((mail_send_message interrupted).marked ≡ false)
mail_send_message_cancelled_copy_example =
    mail_send_message_cancelled_copy interrupted refl refl refl

mail_send_message_lost_copy_example : mail_send_message unkept ≡ mail_send_message fine
mail_send_message_lost_copy_example =
    mail_send_message_lost_copy unkept (failed (codes "disk full")) refl refl refl refl refl

send_queue_exec-reports_example :
    let result =
      send_queue_exec answers
        ((1, some false) ∷ (2, some false) ∷ (3, some false) ∷ (4, some true) ∷ []) in
    ((earlier : List Status) × (result.reports ≡ earlier ++ failed_to_send 1 3 ∷ []))
    × (result.expunged ≡ false)
unfolding undeleted mail_send_message transport_failure then_copy apply_filters keep_copy
    after_append
send_queue_exec-reports_example =
    send_queue_exec-reports answers
      ((1, some false) ∷ (2, some false) ∷ (3, some false) ∷ (4, some true) ∷ []) 1 (2 ∷ 3 ∷ [])
      refl
