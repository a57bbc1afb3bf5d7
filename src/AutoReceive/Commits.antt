-- ===== src/AutoReceive/Commits.antt =====
-- src/mail-send-recv.c: auto_account_commit, and what its callers make of it.
use e_mail_factory.Base.{
  ℕ, ◌*◌, ◌^◌, ◌≤◌, ◌<◌, ◌≡◌, ◌≢◌, refl, sym, ◌∙◌, inl, inr, nat_eq, nat_beq, nat_beq_iff, ltb,
  true, not, ◌&&◌, Bool-cases, Option-cases, none, some, arith, ◌⊎◌, lookup, lookup-insert_self,
  lookup-remove,
}
use e_mail_factory.AutoReceive.{AutoData, AccountSignal, AutoReceive, Settings}
use e_mail_factory.AutoReceive.Accounts.{
  period_of, stop_timer, set_period, start_timer, polls, is_stale, stop_stale, start_missing,
  auto_account_commit, auto_account_finalized, set_new_data, emit, new_data, commit_changed,
  auto_account_removed,
}
use e_mail_factory.AutoReceive.Timers.{
  IsFresh, Timed, stop_timer-Timed, set_period-Timed, start_timer-Timed,
  auto_account_finalized-Timed,
}

pub period_of_bounds :
    (minutes : ℕ)
    → (60 ≤ period_of minutes)
      × (period_of minutes < 2 ^ 31)
      × ((period_of minutes ≡ minutes * 60) ⊎ (minutes ≡ 0) ⊎ (2 ^ 31 ≤ minutes * 60))
unfolding period_of
period_of_bounds minutes = (
  ground arith,
  ground arith,
  elim (Bool-cases (nat_beq minutes 0)) [
    | inl none_set ↦ inr (inl ((nat_beq_iff minutes 0).0 none_set))
    | inr positive ↦ elim (Bool-cases (ltb (minutes * 60) (2 ^ 31))) [
      | inl small ↦ inl (ground (arith, small, positive, nat_beq_iff minutes 0))
      | inr large ↦ inr (inr (ground (arith, large)))
    ]
  ],
)

absent-finalized :
    (env : Settings) (account : ℕ) (st : AutoReceive)
    → lookup account (auto_account_finalized env account st).autos ≡ none
unfolding auto_account_finalized
absent-finalized env account st = elim (Option-cases (lookup account st.autos)) [
  | inl e ↦ rw (e, auto_account_finalized) e
  | inr (info, e) ↦
      rw (e, auto_account_finalized)
        (ground (arith, lookup-remove account account st.autos, nat_beq_iff account account))
]

set_new_data-Timed :
    (env : Settings) (account : ℕ) (st : AutoReceive)
    → Timed st
    → Timed (set_new_data env account st)
      × (lookup account (set_new_data env account st).autos ≡ some (new_data))
unfolding set_new_data lookup
set_new_data-Timed env account st h =
    let k = auto_account_finalized-Timed env account st h in
    (
      record {
        runs = λ b i e busy. ground (arith, e, nat_beq_iff account b, k.runs b i);
        owned = λ id b seconds e.
            let (nonzero, i, found, own) = k.owned id b seconds e in
            (
              nonzero,
              i,
              ground (arith, nat_beq_iff account b, found, absent-finalized env account st),
              own,
            );
      },
      ground (arith, nat_beq_iff account account),
    )

-- Where a commit leaves an account: its period, and whether it has a timer.
abbrev pub IsCommitted : Settings → ℕ → AutoReceive → Type 0
IsCommitted env account st =
    (info : AutoData) × (lookup account st.autos ≡ some info)
    × (info.period ≡ period_of (env.interval_minutes account))
    × (nat_beq info.timeout_id 0 ≡ not (polls env account))

module _ (env : Settings) (fresh : IsFresh env) (account : ℕ) where
  abbrev period : ℕ
  period = period_of (env.interval_minutes account)

  stop_stale-Timed :
      (info : AutoData) (st : AutoReceive)
      → lookup account st.autos ≡ some info
      → Timed st
      → Timed (stop_stale env account info st)
        × (i : AutoData) × (lookup account (stop_stale env account info st).autos ≡ some i)
        × (i.timeout_id ≢ 0 → (polls env account ≡ true) × (period ≡ i.period))
  unfolding stop_stale stop_timer
  stop_stale-Timed info st at h = elim (Bool-cases (is_stale env account info)) [
    | inl e ↦ rw e (
      stop_timer-Timed account info st at h,
      record info { timeout_id = 0 },
      lookup-insert_self account (record info { timeout_id = 0 }) st.autos,
      (λ busy. absurd (busy refl)),
    )
    | inr e ↦ rw e (
      h,
      info,
      at,
      (λ busy. (ground (arith, e), ground (arith, e, nat_beq_iff period info.period))),
    )
  ]

  start_missing-Timed :
      (info : AutoData) (st : AutoReceive)
      → lookup account st.autos ≡ some info
      → info.period ≡ period
      → (info.timeout_id ≢ 0 → polls env account ≡ true)
      → Timed st
      → Timed (start_missing env account st)
        × IsCommitted env account (start_missing env account st)
  unfolding start_missing start_timer
  start_missing-Timed info st at same running h =
      elim (Bool-cases (polls env account && nat_beq info.timeout_id 0)) [
        | inl e ↦
            rw (at, start_missing)
              (rw e (
                start_timer-Timed (env.new_id st.timers) account info st at (ground (arith, e))
                    (fresh.positive st.timers) (fresh.unused st.timers) h,
                (
                  record info { timeout_id = env.new_id st.timers },
                  lookup-insert_self account (record info { timeout_id = env.new_id st.timers })
                      st.autos,
                  same,
                  ground (arith, e, fresh.positive st.timers, nat_beq_iff (env.new_id st.timers) 0),
                ),
              ))
        | inr e ↦
            rw (at, start_missing)
              (rw e
                (h, (info, at, same, ground (arith, e, running, nat_beq_iff info.timeout_id 0))))
      ]

  auto_account_commit-Timed :
      (info : AutoData) (st : AutoReceive)
      → lookup account st.autos ≡ some info
      → Timed st
      → Timed (auto_account_commit env account info st)
        × IsCommitted env account (auto_account_commit env account info st)
  unfolding auto_account_commit set_period
  auto_account_commit-Timed info st at h =
      let stopped = stop_stale env account info st in
      let (timed, i, found, keeps) = stop_stale-Timed info st at h in
      let timed' =
        set_period-Timed account period stopped
          (λ j at' busy.
            let same : some i ≡ some j = sym found ∙ at' in ground (arith, same, keeps, busy))
          timed in
      start_missing-Timed (record i { period = period }) (set_period account period stopped)
        (rw (found, set_period)
          (lookup-insert_self account (record i { period = period }) stopped.autos))
        refl (λ busy. (keeps busy).0) timed'

  pub emit-Timed :
      (signal : AccountSignal) (st : AutoReceive) → Timed st → Timed (emit env signal st)
  unfolding emit
  emit-Timed signal st h = elim (Bool-cases env.has_data_session) [
    | inl e ↦ rw e h
    | inr e ↦ rw e h
  ]

  pub emit-autos :
      (signal : AccountSignal) (st : AutoReceive)
      → ((emit env signal st).autos ≡ st.autos) × ((emit env signal st).timers ≡ st.timers)
  unfolding emit
  emit-autos signal st = ground arith

  pub added-Timed :
      (st : AutoReceive)
      → Timed st
      → Timed (auto_account_commit env account new_data (set_new_data env account st))
        × IsCommitted env account
            (auto_account_commit env account new_data (set_new_data env account st))
  added-Timed st h =
      let (fresh_data, at) = set_new_data-Timed env account st h in
      auto_account_commit-Timed new_data (set_new_data env account st) at fresh_data

  pub commit_changed-Timed :
      (st : AutoReceive)
      → Timed st
      → Timed (commit_changed env account st)
        × IsCommitted env account (commit_changed env account st)
  unfolding commit_changed
  commit_changed-Timed st h = elim (Option-cases (lookup account st.autos)) [
    | inl e ↦ rw (e, commit_changed) (added-Timed st h)
    | inr (info, e) ↦ rw (e, commit_changed) (auto_account_commit-Timed info st e h)
  ]

  pub removed-Timed : (st : AutoReceive) → Timed st → Timed (auto_account_removed env account st)
  unfolding auto_account_removed
  removed-Timed st h = elim (Option-cases (lookup account st.autos)) [
    | inl e ↦ rw (e, auto_account_removed) h
    | inr (info, e) ↦
        rw (e, auto_account_removed)
          (emit-Timed _ _ (elim (Bool-cases (nat_beq info.timeout_id 0)) [
            | inl f ↦ rw f h
            | inr f ↦ rw f (stop_timer-Timed account info st e h)
          ]))
  ]
