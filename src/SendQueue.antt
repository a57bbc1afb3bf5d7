-- ===== src/SendQueue.antt =====
-- libemail-engine/mail-ops.c: sending the messages of the Outbox.
pub mod Messages
pub mod Queue
pub mod Outcomes
pub mod Reports
use e_mail_factory.Base.{ℕ, Text, Bool, List, Option}

-- A GError, as far as the code tells errors apart: G_IO_ERROR_CANCELLED, the two codes that stand for
-- an invalid folder location, and all others, with their messages.
pub data SendError : Type 0 where
  cancelled : Text → SendError
  invalid : Text → SendError
  failed : Text → SendError

-- What Camel and the session answer while one message is sent; `none` is success. `fcc` is the error
-- of looking up the folder for the copy, `append` that of appending to it, `append_sent` that of
-- appending to the local Sent folder. `has_service` tells whether there is a
-- transport: without one camel_service_connect_sync fails and sets no error.
pub record Answers : Type 0 where
  pub get_message : Option SendError
  pub has_recipients : Bool
  pub has_service : Bool
  pub connect : Option SendError
  pub send_to : Option SendError
  pub has_driver : Bool
  pub filter_message : Option SendError
  pub keeps_copy : Bool
  pub fcc : Option SendError
  pub fcc_is_local_sent : Bool
  pub fcc_description : Text
  pub append : Option SendError
  pub append_sent : Option SendError

-- What mail_send_message leaves: the error that it sets, and whether the message in the queue got
-- the flags CAMEL_MESSAGE_DELETED and CAMEL_MESSAGE_SEEN.
pub record Outcome : Type 0 where
  pub error : Option SendError
  pub marked : Bool

-- The calls of report_status in send_queue_exec.
pub data Status : Type 0 where
  sending : ℕ → ℕ → ℕ → Status
  failed_to_send : ℕ → ℕ → Status
  canceled : Status
  complete : Status

-- The variables of the loop of send_queue_exec, and what was done: `i`, `j`, m->base.error, the
-- messages that were marked, and the reports.
pub record Progress : Type 0 where
  pub i : ℕ
  pub j : ℕ
  pub error : Option SendError
  pub marked : List ℕ
  pub reports : List Status

-- What send_queue_exec leaves.
pub record Result : Type 0 where
  pub error : Option SendError
  pub marked : List ℕ
  pub reports : List Status
  pub expunged : Bool
