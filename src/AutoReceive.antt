-- ===== src/AutoReceive.antt =====
-- src/mail-send-recv.c: the accounts that are received from by themselves. Accounts and sources of
-- the main loop are numbers; a timer stands under the id that g_timeout_add_seconds gave, with the
-- account that its callback is for and its seconds.
pub mod Accounts
pub mod Timers
pub mod Commits
pub mod Polling
use e_mail_factory.Base.{ℕ, Bool, List}

-- struct _auto_data; a timeout_id of 0 means that there is no timer.
pub record AutoData : Type 0 where
  pub period : ℕ
  pub timeout_id : ℕ

-- What the session announces about accounts.
pub data AccountSignal : Type 0 where
  account_added : ℕ → AccountSignal
  account_removed : ℕ → AccountSignal
  account_changed : ℕ → AccountSignal

-- The data that the accounts carry as "mail-autoreceive", the timers of the main loop, and the
-- signals.
pub record AutoReceive : Type 0 where
  pub autos : List (ℕ × AutoData)
  pub timers : List (ℕ × (ℕ × ℕ))
  pub emitted : List AccountSignal

-- The settings of the accounts during one call, whether there is a data_session, and the id that
-- g_timeout_add_seconds gives.
pub record Settings : Type 0 where
  pub is_enabled : ℕ → Bool
  pub refreshes : ℕ → Bool
  pub interval_minutes : ℕ → ℕ
  pub has_data_session : Bool
  pub new_id : List (ℕ × (ℕ × ℕ)) → ℕ
