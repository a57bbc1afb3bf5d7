-- ===== src/AutoReceive/Polling.antt =====
-- src/mail-send-recv.c: how often an account is received from.
use e_mail_factory.Base.{
  ℕ, ◌*◌, ◌^◌, ◌≤◌, ◌<◌, ◌≡◌, ◌≢◌, sym, ap, ◌∙◌, inl, inr, nat_eq, nat_beq_iff, if◌then◌else◌, Bool,
  true, false, Bool-cases, List, [], ◌∷◌, some, arith, All, ◌⊎◌, lookup,
}
use e_mail_factory.AutoReceive.{
  AccountSignal, account_added, account_changed, AutoReceive, Settings,
}
use e_mail_factory.AutoReceive.Accounts.{
  period_of, emit, auto_account_added, auto_account_changed, AccountEvent, added, changed, removed,
  finalized, account_step, account_run,
}
use e_mail_factory.AutoReceive.Timers.{IsFresh, AreTimed, Timed, auto_account_finalized-Timed}
use e_mail_factory.AutoReceive.Commits.{
  period_of_bounds, IsCommitted, emit-Timed, emit-autos, added-Timed, commit_changed-Timed,
  removed-Timed,
}

account_step-Timed :
    (env : Settings) (event : AccountEvent) (st : AutoReceive)
    → IsFresh env
    → Timed st
    → Timed (account_step env event st)
unfolding account_step auto_account_added auto_account_changed
account_step-Timed env (added account) st f h = elim (Bool-cases (env.is_enabled account)) [
  | inl e ↦ rw e (emit-Timed env f account _ _ (added-Timed env f account st h).0)
  | inr e ↦ rw e h
]
account_step-Timed env (changed account) st f h = elim (Bool-cases (env.is_enabled account)) [
  | inl e ↦ rw e (emit-Timed env f account _ _ (commit_changed-Timed env f account st h).0)
  | inr e ↦ rw e h
]
account_step-Timed env (removed account) st f h = removed-Timed env f account st h
account_step-Timed env (finalized account) st f h = auto_account_finalized-Timed env account st h

abbrev pub AreFresh : List (Settings × AccountEvent) → Type 0
AreFresh events = All (λ (p : Settings × AccountEvent). IsFresh p.0) events

-- After any history of accounts that are added, changed, removed and freed, each timer is the one
-- that its account knows, and the timer that an account knows runs for it with its period; so no
-- account has two timers and none outlives its account; if it was so at the start and
-- g_timeout_add_seconds gives ids above 0 that no other timer has.
pub account_run-AreTimed :
    (events : List (Settings × AccountEvent)) (st : AutoReceive)
    → AreFresh events
    → AreTimed st.autos st.timers
    → AreTimed (account_run events st).autos (account_run events st).timers
unfolding account_run
account_run-AreTimed [] st f h = h
account_run-AreTimed ((env, event) ∷ events) st f h =
    account_run-AreTimed events (account_step env event st) f.1
      (account_step-Timed env event st f.0 h)

-- The event of an account that commits its settings.
abbrev pub commits : Bool → ℕ → AccountEvent
commits is_new account = if is_new then added account else changed account

emit-IsCommitted :
    (env : Settings) (f : IsFresh env) (account : ℕ) (signal : AccountSignal) (st t : AutoReceive)
    → env.is_enabled account ≡ true
    → IsCommitted env account t
    → IsCommitted env account (if env.is_enabled account then emit env signal t else st)
emit-IsCommitted env f account signal st t e h =
    let chosen : (if env.is_enabled account then emit env signal t else st) ≡ emit env signal t =
      ap (λ (b : Bool). if b then emit env signal t else st) e in
    let autos : (if env.is_enabled account then emit env signal t else st).autos ≡ t.autos =
      ap (λ (u : AutoReceive). u.autos) chosen ∙ (emit-autos env f account signal t).0 in
    (h.0, ap (lookup account) autos ∙ h.1, h.2, h.3)

account_step-IsCommitted :
    (is_new : Bool) (env : Settings) (account : ℕ) (st : AutoReceive)
    → IsFresh env
    → env.is_enabled account ≡ true
    → Timed st
    → IsCommitted env account (account_step env (commits is_new account) st)
unfolding account_step auto_account_added auto_account_changed
account_step-IsCommitted true env account st f e h =
    emit-IsCommitted env f account (account_added account) st _ e (added-Timed env f account st h).1
account_step-IsCommitted false env account st f e h =
    emit-IsCommitted env f account (account_changed account) st _ e
      (commit_changed-Timed env f account st h).1

-- When an enabled account was added or changed, then either it is refreshed and a timer runs for it,
-- of at least 60 and less than 2 ^ 31 seconds, which are those of its interval unless that is 0 or
-- has 2 ^ 31 seconds or more; or it is not refreshed and no timer runs for it. The timers are in
-- order before, as account_run-AreTimed states, and g_timeout_add_seconds keeps to its documentation.
pub account_step-polls :
    (is_new : Bool) (env : Settings) (account : ℕ) (st : AutoReceive)
    → IsFresh env
    → env.is_enabled account ≡ true
    → AreTimed st.autos st.timers
    → ((env.refreshes account ≡ true)
        × (id : ℕ) × (seconds : ℕ) × (lookup id
              (account_step env (commits is_new account) st).timers
            ≡ some (account, seconds))
        × (60 ≤ seconds)
        × (seconds < 2 ^ 31)
        × ((seconds ≡ env.interval_minutes account * 60)
            ⊎ (env.interval_minutes account ≡ 0)
            ⊎ (2 ^ 31 ≤ env.interval_minutes account * 60)))
      ⊎ ((env.refreshes account ≡ false)
          × ((id seconds : ℕ)
              → lookup id (account_step env (commits is_new account) st).timers
                ≢ some (account, seconds)))
account_step-polls is_new env account st f e h =
    let t = account_step env (commits is_new account) st in
    let timed : Timed t = account_step-Timed env (commits is_new account) st f h in
    let (info, at, same, has) = account_step-IsCommitted is_new env account st f e h in
    let (low, high, exact) = period_of_bounds (env.interval_minutes account) in
    elim (Bool-cases (env.refreshes account)) [
      | inl refreshed ↦
          let busy : info.timeout_id ≢ 0 =
            λ stopped. ground (arith, has, e, refreshed, stopped, nat_beq_iff info.timeout_id 0) in
          inl (
            refreshed,
            info.timeout_id,
            period_of (env.interval_minutes account),
            timed.runs account info at busy ∙ ap (λ (p : ℕ). some (account, p)) same,
            low,
            high,
            exact,
          )
      | inr off ↦ inr (
        off,
        λ id seconds running.
            let (nonzero, i, found, own) = timed.owned id account seconds running in
            let this : some info ≡ some i = sym at ∙ found in
            ground (arith, this, has, e, off, own, nonzero, nat_beq_iff info.timeout_id 0),
      )
    ]
