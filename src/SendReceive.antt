-- ===== src/SendReceive.antt =====
-- src/mail-send-recv.c: the sending and receiving that is under way, one entry for each account. A
-- struct _send_info is found by its address, so a pointer that outlives it is one without an entry
-- in `heap`. `jobs` are the operations that were started for an entry and will report to
-- receive_done: what the threads of mail-mt.c and MailFolderCache still hold a pointer for.
pub mod Starting
pub mod Finishing
pub mod Soundness
pub mod Effects
pub mod Reports
pub mod Requests
pub mod Building
pub mod Launching
pub mod Histories
pub mod Losses
pub mod LostSends
use e_mail_factory.Base.{ℕ, Text, Bool, List, Option}

-- send_info_t
pub data SendInfoType : Type 0 where
  send_receive : SendInfoType
  send_send : SendInfoType
  send_update : SendInfoType
  send_invalid : SendInfoType

-- send_state_t; SEND_CANCELLED is never assigned.
pub data SendState : Type 0 where
  send_active : SendState
  send_complete : SendState

-- struct _send_info: `has_session` tells that its session is not NULL, `has_timeout` that a timeout
-- is running. Its data pointer is always to send_data, and its cancellable is its own.
pub record SendInfo : Type 0 where
  pub type : SendInfoType
  pub has_session : Bool
  pub service : ℕ
  pub keep_on_server : Bool
  pub state : SendState
  pub again : ℕ
  pub has_timeout : Bool

-- struct _send_data: `infos` and `active` hold addresses.
pub record SendData : Type 0 where
  pub infos : List ℕ
  pub active : List (Text × ℕ)

-- What an entry waits for: mail_fetch_mail, mail_send_queue, the folders of a store that
-- mail_folder_cache_note_store lists, or the message that refreshes them.
pub data Job : Type 0 where
  fetching : Job
  sending : Job
  listing : Job
  refreshing : Job

-- The static variable send_data, NULL or not, with all that hangs on it.
pub record SendReceive : Type 0 where
  pub send_data : Option SendData
  pub heap : List (ℕ × SendInfo)
  pub jobs : List (ℕ × Job)

-- What Camel and the registry answer during one call. Services and sources are addresses; the tests
-- on services answer false at NULL. `alloc` is the address that g_malloc0 gives.
pub record Registry : Type 0 where
  pub is_service : ℕ → Bool
  pub is_null_store : ℕ → Bool
  pub is_transport : ℕ → Bool
  pub is_local_delivery : ℕ → Bool
  pub has_provider : ℕ → Bool
  pub service_uid : ℕ → Text
  pub provides_store : ℕ → Bool
  pub is_storage : ℕ → Bool
  pub provides_transport : ℕ → Bool
  pub keeps_on_server : ℕ → Bool
  pub ref_service : Text → ℕ
  pub accounts : List ℕ
  pub is_enabled : ℕ → Bool
  pub source_uid : ℕ → Text
  pub default_identity : Option ℕ
  pub has_submission : ℕ → Bool
  pub transport_uid : ℕ → Text
  pub ref_source : Text → Option ℕ
  pub is_online : Bool
  pub has_outbox : Bool
  pub outbox_messages : ℕ
  pub outbox_deleted : ℕ
  pub local_uid : Text
  pub vfolder_uid : Text
  pub alloc : List (ℕ × SendInfo) → ℕ
