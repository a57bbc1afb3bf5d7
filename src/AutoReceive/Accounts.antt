-- ===== src/AutoReceive/Accounts.antt =====
-- src/mail-send-recv.c: the timers of accounts as these are added, changed and removed.
use e_mail_factory.Base.{
  ℕ, ◌*◌, ◌%◌, ◌^◌, nat_eq, nat_beq, ltb, if◌then◌else◌, Bool, not, ◌&&◌, ◌||◌, List, [], ◌∷◌, ◌++◌,
  none, some, lookup, insert, remove,
}
use e_mail_factory.AutoReceive.{
  AutoData, AccountSignal, account_added, account_removed, account_changed, AutoReceive, Settings,
}

-- The seconds for an interval in minutes: a guint times 60, stored in a gint, and at least 60.
unfoldable pub period_of : ℕ → ℕ
period_of minutes =
    let seconds = (minutes * 60) % 2 ^ 32 in
    if ltb seconds (2 ^ 31) && ltb 60 seconds then seconds else 60

-- g_source_remove for the timer of an account, and `info->timeout_id = 0`
unfoldable pub stop_timer : ℕ → AutoData → AutoReceive → AutoReceive
stop_timer account info st = record st {
  timers = remove info.timeout_id st.timers;
  autos = insert account (record info { timeout_id = 0 }) st.autos;
}

-- `info->period = period`
unfoldable pub set_period : ℕ → ℕ → AutoReceive → AutoReceive
set_period account period st = elim (lookup account st.autos) [
  | none ↦ st
  | some info ↦ record st { autos = insert account (record info { period = period }) st.autos }
]

-- `info->timeout_id = g_timeout_add_seconds (info->period, auto_timeout, info)`
unfoldable pub start_timer : ℕ → ℕ → AutoData → AutoReceive → AutoReceive
start_timer id account info st = record st {
  timers = (id, (account, info.period)) ∷ st.timers;
  autos = insert account (record info { timeout_id = id }) st.autos;
}

-- g_malloc0
abbrev pub new_data : AutoData
new_data = record { period = 0; timeout_id = 0 }

module _ (env : Settings) where
  abbrev pub polls : ℕ → Bool
  polls account = env.is_enabled account && env.refreshes account

  -- The first test of auto_account_commit.
  abbrev pub is_stale : ℕ → AutoData → Bool
  is_stale account info =
      not (nat_beq info.timeout_id 0)
      && (not (polls account)
          || not (nat_beq (period_of (env.interval_minutes account)) info.period))

  unfoldable pub stop_stale : ℕ → AutoData → AutoReceive → AutoReceive
  stop_stale account info st = if is_stale account info then stop_timer account info st else st

  -- The last test of auto_account_commit.
  unfoldable pub start_missing : ℕ → AutoReceive → AutoReceive
  start_missing account st = elim (lookup account st.autos) [
    | none ↦ st
    | some info ↦
        if polls account && nat_beq info.timeout_id 0
        then start_timer (env.new_id st.timers) account info st
        else st
  ]

  -- auto_account_commit, for the data that it is given
  unfoldable pub auto_account_commit : ℕ → AutoData → AutoReceive → AutoReceive
  auto_account_commit account info st =
      start_missing account
        (set_period account (period_of (env.interval_minutes account)) (stop_stale account info st))

  -- auto_account_finalized, for the data of an account
  unfoldable pub auto_account_finalized : ℕ → AutoReceive → AutoReceive
  auto_account_finalized account st = elim (lookup account st.autos) [
    | none ↦ st
    | some info ↦ record st {
      timers = if nat_beq info.timeout_id 0 then st.timers else remove info.timeout_id st.timers;
      autos = remove account st.autos;
    }
  ]

  -- g_malloc0 and g_object_set_data_full, which finalizes the data that was there
  unfoldable pub set_new_data : ℕ → AutoReceive → AutoReceive
  set_new_data account st =
      let old = auto_account_finalized account st in
      record old { autos = (account, new_data) ∷ old.autos }

  unfoldable pub emit : AccountSignal → AutoReceive → AutoReceive
  emit signal st =
      if env.has_data_session then record st { emitted = st.emitted ++ signal ∷ [] } else st

  -- auto_account_added
  unfoldable pub auto_account_added : ℕ → AutoReceive → AutoReceive
  auto_account_added account st =
      if env.is_enabled account
      then emit (account_added account)
          (auto_account_commit account new_data (set_new_data account st))
      else st

  -- auto_account_changed after its guard
  unfoldable pub commit_changed : ℕ → AutoReceive → AutoReceive
  commit_changed account st = elim (lookup account st.autos) [
    | none ↦ auto_account_commit account new_data (set_new_data account st)
    | some info ↦ auto_account_commit account info st
  ]

  -- auto_account_changed
  unfoldable pub auto_account_changed : ℕ → AutoReceive → AutoReceive
  auto_account_changed account st =
      if env.is_enabled account
      then emit (account_changed account) (commit_changed account st)
      else st

  -- auto_account_removed
  unfoldable pub auto_account_removed : ℕ → AutoReceive → AutoReceive
  auto_account_removed account st = elim (lookup account st.autos) [
    | none ↦ st
    | some info ↦
        emit (account_removed account)
          (if nat_beq info.timeout_id 0 then st else stop_timer account info st)
  ]

-- What happens to accounts: the signals of the registry, and the end of an account's object.
pub data AccountEvent : Type 0 where
  added : ℕ → AccountEvent
  changed : ℕ → AccountEvent
  removed : ℕ → AccountEvent
  finalized : ℕ → AccountEvent

unfoldable pub account_step : Settings → AccountEvent → AutoReceive → AutoReceive
account_step env (added account) st = auto_account_added env account st
account_step env (changed account) st = auto_account_changed env account st
account_step env (removed account) st = auto_account_removed env account st
account_step env (finalized account) st = auto_account_finalized env account st

unfoldable pub account_run : List (Settings × AccountEvent) → AutoReceive → AutoReceive
account_run [] st = st
account_run ((env, event) ∷ events) st = account_run events (account_step env event st)

-- auto_online: the accounts that are received from at once. `can_update_all` is never initialised.
unfoldable pub auto_online : Settings → Bool → List ℕ → List (ℕ × AutoData) → List ℕ
auto_online env can_update_all [] autos = []
auto_online env can_update_all (account ∷ accounts) autos =
    let rest = auto_online env can_update_all accounts autos in
    if env.is_enabled account
    then elim (lookup account autos) [
      | none ↦ rest
      | some info ↦
          if not (nat_beq info.timeout_id 0) || can_update_all then account ∷ rest else rest
    ]
    else rest

-- mail_autoreceive_init adds the accounts that there are, in order.
unfoldable pub add_accounts : Settings → List ℕ → AutoReceive → AutoReceive
add_accounts env [] st = st
add_accounts env (account ∷ accounts) st =
    add_accounts env accounts (auto_account_added env account st)
