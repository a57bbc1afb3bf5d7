-- ===== src/SendQueue/Messages.antt =====
-- libemail-engine/mail-ops.c: mail_send_message. Posting to newsgroups, whose failures are ignored,
-- and the headers of drafts and sources, whose failures are only logged, leave no trace here.
use e_mail_factory.Base.{
  Text, codes, if◌then◌else◌, Bool, true, false, ◌&&◌, [], ◌∷◌, ◌++◌, Option, none, some,
}
use e_mail_factory.SendQueue.{SendError, cancelled, invalid, failed, Answers, Outcome}

abbrev pub message_of : SendError → Text
message_of (cancelled t) = t
message_of (invalid t) = t
message_of (failed t) = t

-- if (err->len > 0) g_string_append (err, "\n\n"); and then the text
abbrev pub append_report : Text → Text → Text
append_report [] text = text
append_report (a ∷ err) text = (a ∷ err) ++ codes "\n\n" ++ text

-- What a failed outgoing filter adds to `err`.
abbrev pub filter_report : SendError → Text
filter_report (invalid t) =
    codes
      "Failed to apply outgoing filters. One reason can be that folder location set in one or more filters is invalid. Please check your filters in Edit->Message Filters.\nOriginal error was: "
    ++ t
filter_report e = codes "Failed to apply outgoing filters: " ++ message_of e

abbrev pub fcc_report : Text → SendError → Text
fcc_report description e =
    codes "Failed to append to "
    ++ description
    ++ codes ": "
    ++ message_of e
    ++ codes "\nAppending to local 'Sent' folder instead."

-- How a step that may jump to `exit` ends.
pub data Step : Type 0 where
  exit : Option SendError → Step
  go_on : Text → Step

-- The copy goes to the local Sent folder instead.
unfoldable pub append_to_sent : Answers → Text → Step
append_to_sent a err = elim a.append_sent [
  | none ↦ go_on err
  | some e ↦ elim e [
    | cancelled t ↦ exit none
    | invalid t ↦ go_on (append_report err (codes "Failed to append to local 'Sent' folder: " ++ t))
    | failed t ↦ go_on (append_report err (codes "Failed to append to local 'Sent' folder: " ++ t))
  ]
]

-- After an error other than a cancellation: folder != local_sent_folder, and folder != NULL.
unfoldable pub retry_in_sent : Answers → Bool → SendError → Text → Step
retry_in_sent a found e err =
    if found && a.fcc_is_local_sent
    then go_on err
    else append_to_sent a
        (if found then append_report err (fcc_report a.fcc_description e) else err)

unfoldable pub after_append : Answers → Bool → Option SendError → Text → Step
after_append a found none err = go_on err
after_append a found (some (cancelled t)) err = exit none
after_append a found (some (invalid t)) err = retry_in_sent a found (invalid t) err
after_append a found (some (failed t)) err = retry_in_sent a found (failed t) err

-- The block that keeps a copy. Its own `local_error` hides that of the function, so what leads from
-- here to `exit` is not propagated.
unfoldable pub keep_copy : Answers → Text → Step
keep_copy a err =
    if a.keeps_copy
    then elim a.fcc [
      | none ↦ after_append a true a.append err
      | some e ↦ after_append a false (some e) err
    ]
    else go_on err

-- The outgoing filters.
unfoldable pub apply_filters : Answers → Step
apply_filters a =
    if a.has_driver
    then elim a.filter_message [
      | none ↦ go_on []
      | some e ↦ elim e [
        | cancelled t ↦ exit (some (cancelled t))
        | invalid t ↦ go_on (filter_report (invalid t))
        | failed t ↦ go_on (filter_report (failed t))
      ]
    ]
    else go_on []

abbrev pub stopped : Option SendError → Outcome
stopped e = record { error = e; marked = false }

-- From the marking of the message in the queue to `exit`.
abbrev pub finish : Step → Outcome
finish (exit e) = stopped e
finish (go_on []) = record { error = none; marked = true }
finish (go_on (a ∷ err)) = record { error = some (failed (a ∷ err)); marked = true }

unfoldable pub then_copy : Answers → Step → Outcome
then_copy a (exit e) = stopped e
then_copy a (go_on err) = finish (keep_copy a err)

-- Where a call fails, its error.
abbrev pub failure : Option SendError → Option (Option SendError)
failure none = none
failure (some e) = some (some e)

-- The first failure of connecting and sending, for a message that has recipients, with the error that
-- it sets, if it sets one.
unfoldable pub transport_failure : Answers → Option (Option SendError)
transport_failure a =
    if a.has_recipients
    then if a.has_service
      then elim a.connect [ some e ↦ some (some e) | none ↦ failure a.send_to ]
      else some none
    else none

abbrev pub after_transport : Answers → Option (Option SendError) → Outcome
after_transport a (some e) = stopped e
after_transport a none = then_copy a (apply_filters a)

abbrev pub after_message : Answers → Option SendError → Outcome
after_message a (some e) = stopped (some e)
after_message a none = after_transport a (transport_failure a)

-- mail_send_message
unfoldable pub mail_send_message : Answers → Outcome
mail_send_message a = after_message a a.get_message
