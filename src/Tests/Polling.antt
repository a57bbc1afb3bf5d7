-- ===== src/Tests/Polling.antt =====
-- src/mail-send-recv.c: accounts that are received from every five minutes.
use e_mail_factory.Base.{
  ℕ, suc, ◌+◌, ◌*◌, ◌^◌, ◌≤◌, ◌<◌, ◌≡◌, ◌≢◌, ◌⊎◌, refl, nat_eq, Bool, true, false, List, [], ◌∷◌,
  some, arith, lookup, insert, remove, IsAbsent, lookup-IsAbsent,
}
use e_mail_factory.AutoReceive.{AutoReceive, Settings}
use e_mail_factory.AutoReceive.Accounts.{
  period_of, stop_timer, set_period, start_timer, stop_stale, start_missing, auto_account_commit,
  auto_account_finalized, set_new_data, emit, auto_account_added, auto_account_removed, added,
  changed, auto_account_changed, commit_changed, removed, AccountEvent, account_step, account_run,
}
use e_mail_factory.AutoReceive.Timers.{IsFresh, AreTimed}
use e_mail_factory.AutoReceive.Polling.{account_run-AreTimed, account_step-polls}

abbrev above : List (ℕ × (ℕ × ℕ)) → ℕ
above [] = 1
above ((id, timer) ∷ timers) = suc (id + above timers)

IsAbsent-above :
    (bound : ℕ) (timers : List (ℕ × (ℕ × ℕ))) → above timers ≤ bound → IsAbsent bound timers
IsAbsent-above bound [] le = tt
IsAbsent-above bound ((id, timer) ∷ timers) le =
    ((λ e. omega (arith, e, le)), IsAbsent-above bound timers (omega arith))

above-pos : (timers : List (ℕ × (ℕ × ℕ))) → 1 ≤ above timers
above-pos [] = omega arith
above-pos ((id, timer) ∷ timers) = omega arith

abbrev env : Settings
env = record {
  is_enabled = λ a. true;
  refreshes = λ a. true;
  interval_minutes = λ a. 5;
  has_data_session = true;
  new_id = above;
}

env-IsFresh : IsFresh env
env-IsFresh = record {
  positive = λ timers e. omega (arith, above-pos timers, e);
  unused = λ timers.
      lookup-IsAbsent (above timers) timers (IsAbsent-above (above timers) timers (omega arith));
}

abbrev nothing : AutoReceive
nothing = record { autos = []; timers = []; emitted = [] }

nothing-AreTimed : AreTimed nothing.autos nothing.timers
unfolding lookup
nothing-AreTimed = record {
  runs = λ account info e busy. cc;
  owned = λ id account seconds e. absurd (cc);
}

abbrev events : List (Settings × AccountEvent)
events = (env, added 7) ∷ (env, changed 7) ∷ (env, removed 7) ∷ (env, added 8) ∷ []

account_run-AreTimed_example :
    AreTimed (account_run events nothing).autos (account_run events nothing).timers
account_run-AreTimed_example =
    account_run-AreTimed events nothing
      (env-IsFresh, (env-IsFresh, (env-IsFresh, (env-IsFresh, tt)))) nothing-AreTimed

account_step-polls_example :
    ((◌≡◌ {A = Bool} true true)
      × (id : ℕ) × (seconds : ℕ) × (lookup id (account_step env (added 7) nothing).timers
          ≡ some (7, seconds))
      × (60 ≤ seconds)
      × (seconds < 2 ^ 31)
      × ((seconds ≡ 5 * 60) ⊎ (◌≡◌ {A = ℕ} 5 0) ⊎ (2 ^ 31 ≤ 5 * 60)))
    ⊎ ((◌≡◌ {A = Bool} true false)
        × ((id seconds : ℕ)
            → lookup id (account_step env (added 7) nothing).timers ≢ some (7, seconds)))
account_step-polls_example = account_step-polls true env 7 nothing env-IsFresh refl nothing-AreTimed

-- The removed account has no timer, the added one has.
account_run_test : (account_run events nothing).timers ≡ (1, (8, 300)) ∷ []
unfolding account_run account_step auto_account_added auto_account_removed auto_account_commit
    set_new_data auto_account_finalized stop_stale stop_timer set_period start_missing start_timer
    period_of emit lookup insert remove auto_account_changed commit_changed
account_run_test = refl
