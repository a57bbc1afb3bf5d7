-- ===== src/SendQueue/Outcomes.antt =====
-- libemail-engine/mail-ops.c: how mail_send_message ends.
use e_mail_factory.Base.{
  ◌≡◌, refl, ap, sym, ◌∙◌, Text, Bool, true, false, not, ◌&&◌, ◌||◌, [], ◌∷◌, Option, none, some,
  arith, Bool-cases, Option-cases, inl, inr,
}
use e_mail_factory.SendQueue.{SendError, cancelled, invalid, failed, Answers, Outcome}
use e_mail_factory.SendQueue.Messages.{
  Step, exit, go_on, append_to_sent, retry_in_sent, after_append, keep_copy, apply_filters, stopped,
  finish, then_copy, transport_failure, after_transport, after_message, mail_send_message,
}
use e_mail_factory.SendQueue.Queue.{is_cancelled, no_error}

abbrev goes_on : Option (Option SendError) → Bool
goes_on none = true
goes_on (some e) = false

-- The transport has accepted the message, or there is nobody to send it to.
abbrev pub is_accepted : Answers → Bool
is_accepted a =
    no_error a.get_message
    && (not a.has_recipients || (a.has_service && no_error a.connect && no_error a.send_to))

abbrev pub filters_cancelled : Answers → Bool
filters_cancelled a = a.has_driver && is_cancelled a.filter_message

-- The last attempt to keep a copy was cancelled.
abbrev pub second_cancelled : Answers → Bool → Option SendError → Bool
second_cancelled a found none = false
second_cancelled a found (some (cancelled t)) = true
second_cancelled a found (some (invalid t)) =
    not (found && a.fcc_is_local_sent) && is_cancelled a.append_sent
second_cancelled a found (some (failed t)) =
    not (found && a.fcc_is_local_sent) && is_cancelled a.append_sent

abbrev pub first_cancelled : Answers → Option SendError → Bool
first_cancelled a none = second_cancelled a true a.append
first_cancelled a (some e) = second_cancelled a false (some e)

abbrev pub copy_cancelled : Answers → Bool
copy_cancelled a = a.keeps_copy && first_cancelled a a.fcc

abbrev pub has_exit : Step → Bool
has_exit (exit e) = true
has_exit (go_on err) = false

append_to_sent-exit :
    (a : Answers) (err : Text) → has_exit (append_to_sent a err) ≡ is_cancelled a.append_sent
unfolding append_to_sent
append_to_sent-exit a err = ground arith

retry_in_sent-exit :
    (a : Answers) (found : Bool) (e : SendError) (err : Text)
    → has_exit (retry_in_sent a found e err)
      ≡ (not (found && a.fcc_is_local_sent) && is_cancelled a.append_sent)
unfolding retry_in_sent
retry_in_sent-exit a found e err = elim (Bool-cases (found && a.fcc_is_local_sent)) [
  | inl h ↦ rw h refl
  | inr h ↦ rw h (append_to_sent-exit a _)
]

after_append-exit :
    (a : Answers) (found : Bool) (e : Option SendError) (err : Text)
    → has_exit (after_append a found e err) ≡ second_cancelled a found e
unfolding after_append
after_append-exit a found none err = refl
after_append-exit a found (some (cancelled t)) err = refl
after_append-exit a found (some (invalid t)) err = retry_in_sent-exit a found (invalid t) err
after_append-exit a found (some (failed t)) err = retry_in_sent-exit a found (failed t) err

keep_copy-exit : (a : Answers) (err : Text) → has_exit (keep_copy a err) ≡ copy_cancelled a
unfolding keep_copy
keep_copy-exit a err = elim (Bool-cases a.keeps_copy) [
  | inl h ↦ elim (Option-cases a.fcc) [
    | inl e ↦ ground (arith, h, e, after_append-exit a true a.append err)
    | inr (f, e) ↦ ground (arith, h, e, after_append-exit a false (some f) err)
  ]
  | inr h ↦ ground (arith, h)
]

-- A jump to `exit` from the copy carries no error.
abbrev IsSilent : Step → Type 0
IsSilent (exit e) = e ≡ none
IsSilent (go_on err) = Unit

append_to_sent-IsSilent : (a : Answers) (err : Text) → IsSilent (append_to_sent a err)
unfolding append_to_sent
append_to_sent-IsSilent a err = go a.append_sent
  where
    go : (o : Option SendError) → IsSilent (append_to_sent (record a { append_sent = o }) err)
    go none = tt
    go (some (cancelled t)) = refl
    go (some (invalid t)) = tt
    go (some (failed t)) = tt

retry_in_sent-IsSilent :
    (a : Answers) (found : Bool) (e : SendError) (err : Text)
    → IsSilent (retry_in_sent a found e err)
unfolding retry_in_sent
retry_in_sent-IsSilent a found e err = elim (Bool-cases (found && a.fcc_is_local_sent)) [
  | inl h ↦ rw h tt
  | inr h ↦ rw h (append_to_sent-IsSilent a _)
]

after_append-IsSilent :
    (a : Answers) (found : Bool) (e : Option SendError) (err : Text)
    → IsSilent (after_append a found e err)
unfolding after_append
after_append-IsSilent a found none err = tt
after_append-IsSilent a found (some (cancelled t)) err = refl
after_append-IsSilent a found (some (invalid t)) err =
    retry_in_sent-IsSilent a found (invalid t) err
after_append-IsSilent a found (some (failed t)) err = retry_in_sent-IsSilent a found (failed t) err

keep_copy-IsSilent : (a : Answers) (err : Text) → IsSilent (keep_copy a err)
unfolding keep_copy
keep_copy-IsSilent a err = elim (Bool-cases a.keeps_copy) [
  | inl h ↦ elim (Option-cases a.fcc) [
    | inl e ↦ rw (h, keep_copy) (rw (e, keep_copy) (after_append-IsSilent a true a.append err))
    | inr (f, e) ↦
        rw (h, keep_copy) (rw (e, keep_copy) (after_append-IsSilent a false (some f) err))
  ]
  | inr h ↦ rw (h, keep_copy) tt
]

finish-silent : (s : Step) → IsSilent s → has_exit s ≡ true → finish s ≡ stopped none
finish-silent (exit e) silent h = ap stopped silent
finish-silent (go_on err) silent h = cc

finish-marked : (s : Step) → (finish s).marked ≡ not (has_exit s)
finish-marked (exit e) = refl
finish-marked (go_on []) = refl
finish-marked (go_on (b ∷ err)) = refl

then_copy-marked :
    (a : Answers) (s : Step) → (then_copy a s).marked ≡ (not (has_exit s) && not (copy_cancelled a))
unfolding then_copy
then_copy-marked a (exit e) = refl
then_copy-marked a (go_on err) = finish-marked (keep_copy a err) ∙ ap not (keep_copy-exit a err)

apply_filters-exit : (a : Answers) → has_exit (apply_filters a) ≡ filters_cancelled a
unfolding apply_filters
apply_filters-exit a = ground arith

goes_on-transport_failure :
    (a : Answers)
    → goes_on (transport_failure a)
      ≡ (not a.has_recipients || (a.has_service && no_error a.connect && no_error a.send_to))
unfolding transport_failure
goes_on-transport_failure a = ground arith

after_transport-marked :
    (a : Answers) (e : Option (Option SendError))
    → (after_transport a e).marked
      ≡ (goes_on e && not (filters_cancelled a) && not (copy_cancelled a))
after_transport-marked a (some e) = refl
after_transport-marked a none =
    then_copy-marked a (apply_filters a) ∙ rw (apply_filters-exit a) refl

after_message-marked :
    (a : Answers) (e : Option SendError)
    → (after_message a e).marked ≡ (
        no_error e
        && goes_on (transport_failure a)
        && not (filters_cancelled a)
        && not (copy_cancelled a))
after_message-marked a (some e) = refl
after_message-marked a none = after_transport-marked a (transport_failure a)

-- A message is marked as deleted in the queue exactly if it could be read, there is a transport and it
-- accepted the message or it has no recipients, and neither the outgoing filters nor keeping a copy was cancelled.
pub mail_send_message_marks :
    (a : Answers)
    → (mail_send_message a).marked
      ≡ (is_accepted a && not (filters_cancelled a) && not (copy_cancelled a))
unfolding mail_send_message
mail_send_message_marks a =
    ground (arith, after_message-marked a a.get_message, goes_on-transport_failure a)

then_copy-silent :
    (a : Answers) (s : Step)
    → has_exit s ≡ false
    → copy_cancelled a ≡ true
    → then_copy a s ≡ stopped none
unfolding then_copy
then_copy-silent a (exit e) h gone = cc
then_copy-silent a (go_on err) h gone =
    finish-silent (keep_copy a err) (keep_copy-IsSilent a err) (keep_copy-exit a err ∙ gone)

after_transport-silent :
    (a : Answers) (e : Option (Option SendError))
    → goes_on e ≡ true
    → filters_cancelled a ≡ false
    → copy_cancelled a ≡ true
    → after_transport a e ≡ stopped none
after_transport-silent a (some e) h kept gone = cc
after_transport-silent a none h kept gone =
    then_copy-silent a (apply_filters a) (apply_filters-exit a ∙ kept) gone

after_message-silent :
    (a : Answers) (e : Option SendError)
    → no_error e ≡ true
    → goes_on (transport_failure a) ≡ true
    → filters_cancelled a ≡ false
    → copy_cancelled a ≡ true
    → after_message a e ≡ stopped none
after_message-silent a (some e) h accepted kept gone = cc
after_message-silent a none h accepted kept gone =
    after_transport-silent a (transport_failure a) accepted kept gone

-- Where keeping a copy is cancelled after the transport accepted the message, no error comes back,
-- as after a success, yet the message is not marked: it is still in the queue to be sent.
pub mail_send_message_cancelled_copy :
    (a : Answers)
    → is_accepted a ≡ true
    → filters_cancelled a ≡ false
    → copy_cancelled a ≡ true
    → (mail_send_message a).error ≡ none × ((mail_send_message a).marked ≡ false)
unfolding mail_send_message
mail_send_message_cancelled_copy a accepted kept gone =
    let read : no_error a.get_message ≡ true = ground (arith, accepted) in
    let sent : goes_on (transport_failure a) ≡ true =
      ground (arith, accepted, goes_on-transport_failure a) in
    let outcome = after_message-silent a a.get_message read sent kept gone in
    (ap (λ (o : Outcome). o.error) outcome, ap (λ (o : Outcome). o.marked) outcome)

after_append-kept :
    (a : Answers) (e : SendError) (err : Text)
    → a.fcc_is_local_sent ≡ true
    → is_cancelled (some e) ≡ false
    → after_append a true (some e) err ≡ go_on err
unfolding after_append retry_in_sent
after_append-kept a (cancelled t) err local other = cc
after_append-kept a (invalid t) err local other = rw local refl
after_append-kept a (failed t) err local other = rw local refl

keep_copy-kept :
    (a : Answers) (e : SendError) (err : Text)
    → a.keeps_copy ≡ true
    → a.fcc ≡ none
    → a.fcc_is_local_sent ≡ true
    → a.append ≡ some e
    → is_cancelled (some e) ≡ false
    → keep_copy a err ≡ go_on err
unfolding keep_copy
keep_copy-kept a e err keeps found local append other =
    rw (keeps, keep_copy)
      (rw (found, keep_copy) (simp append (after_append-kept a e err local other)))

keep_copy-fine :
    (a : Answers) (err : Text)
    → a.fcc ≡ none
    → keep_copy (record a { append = none }) err ≡ go_on err
unfolding keep_copy after_append
keep_copy-fine a err found = elim (Bool-cases a.keeps_copy) [
  | inl h ↦ rw (h, keep_copy) (rw (found, keep_copy) refl)
  | inr h ↦ rw (h, keep_copy) refl
]

module _ (a : Answers) (e : SendError) (keeps : a.keeps_copy ≡ true) (found : a.fcc ≡ none)
    (local : a.fcc_is_local_sent ≡ true) (append : a.append ≡ some e)
    (other : is_cancelled (some e) ≡ false) where
  then_copy-lost : (s : Step) → then_copy a s ≡ then_copy (record a { append = none }) s
  unfolding then_copy
  then_copy-lost (exit f) = refl
  then_copy-lost (go_on err) =
      ap finish
        (keep_copy-kept a e err keeps found local append other ∙ sym (keep_copy-fine a err found))

  after_transport-lost :
      (f : Option (Option SendError))
      → after_transport a f ≡ after_transport (record a { append = none }) f
  unfolding apply_filters
  after_transport-lost (some f) = refl
  after_transport-lost none = then_copy-lost (apply_filters a)

  after_message-lost :
      (f : Option SendError) → after_message a f ≡ after_message (record a { append = none }) f
  unfolding transport_failure
  after_message-lost (some f) = refl
  after_message-lost none = after_transport-lost (transport_failure a)

  -- Where the copy should go to the local Sent folder itself and appending to it fails, the outcome is
  -- that of a message whose copy was kept: no error is reported and the message is marked.
  pub mail_send_message_lost_copy :
      mail_send_message a ≡ mail_send_message (record a { append = none })
  unfolding mail_send_message
  mail_send_message_lost_copy = after_message-lost a.get_message
