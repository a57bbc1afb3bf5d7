-- ===== src/AutoReceive/Timers.antt =====
-- src/mail-send-recv.c: each timer belongs to one account, which knows it, and each account has at
-- most one.
use e_mail_factory.Base.{
  ℕ, ◌≡◌, ◌≢◌, ◌⊎◌, inl, inr, nat_eq, nat_beq, nat_beq_iff, true, false, Bool-cases, Option-cases,
  List, none, some, arith, lookup, lookup-insert, lookup-remove,
}
use e_mail_factory.AutoReceive.{AutoData, AutoReceive, Settings}
use e_mail_factory.AutoReceive.Accounts.{
  stop_timer, set_period, start_timer, auto_account_finalized,
}

-- What g_timeout_add_seconds documents: an id above 0, of no other source.
pub record IsFresh (env : Settings) : Type 0 where
  pub positive : (timers : List (ℕ × (ℕ × ℕ))) → env.new_id timers ≢ 0
  pub unused : (timers : List (ℕ × (ℕ × ℕ))) → lookup (env.new_id timers) timers ≡ none

-- An account's timer runs for it, with its period.
abbrev Runs : List (ℕ × AutoData) → List (ℕ × (ℕ × ℕ)) → Type 0
Runs autos timers =
    (account : ℕ) (info : AutoData)
    → lookup account autos ≡ some info
    → info.timeout_id ≢ 0
    → lookup info.timeout_id timers ≡ some (account, info.period)

-- A timer is the one of its account.
abbrev Owned : List (ℕ × AutoData) → List (ℕ × (ℕ × ℕ)) → Type 0
Owned autos timers =
    (id account seconds : ℕ)
    → lookup id timers ≡ some (account, seconds)
    → (id ≢ 0) × (info : AutoData) × (lookup account autos ≡ some info) × (info.timeout_id ≡ id)

pub record AreTimed (autos : List (ℕ × AutoData)) (timers : List (ℕ × (ℕ × ℕ))) : Type 0 where
  pub runs : Runs autos timers
  pub owned : Owned autos timers

pub stop_timer-Timed :
    (account : ℕ) (info : AutoData) (st : AutoReceive)
    → lookup account st.autos ≡ some info
    → AreTimed st.autos st.timers
    → AreTimed (stop_timer account info st).autos (stop_timer account info st).timers
unfolding stop_timer
stop_timer-Timed account info st at h = record {
  runs = λ b i e busy. ground (
    arith,
    lookup-insert account b (record info { timeout_id = 0 }) st.autos,
    lookup-remove info.timeout_id i.timeout_id st.timers,
    nat_beq_iff account b,
    nat_beq_iff info.timeout_id i.timeout_id,
    e,
    at,
    h.runs b i,
    h.runs account info at,
  );
  owned = λ id b seconds e.
      let left : (nat_beq info.timeout_id id ≡ false) × (lookup id st.timers ≡ some (b, seconds)) =
        ground (arith, lookup-remove info.timeout_id id st.timers, e) in
      let (nonzero, i, found, own) = h.owned id b seconds left.1 in
      (
        nonzero,
        i,
        ground (
          arith,
          lookup-insert account b (record info { timeout_id = 0 }) st.autos,
          nat_beq_iff account b,
          nat_beq_iff info.timeout_id id,
          left.0,
          found,
          at,
          own,
        ),
        own,
      );
}

abbrev pub Timed : AutoReceive → Type 0
Timed st = AreTimed st.autos st.timers

-- A period that is set where no timer runs, or that the timer has already.
pub set_period-Timed :
    (account period : ℕ) (st : AutoReceive)
    → ((info : AutoData)
        → lookup account st.autos ≡ some info
        → info.timeout_id ≢ 0
        → period ≡ info.period)
    → Timed st
    → Timed (set_period account period st)
unfolding set_period
set_period-Timed account period st agrees h = elim (Option-cases (lookup account st.autos)) [
  | inl e ↦ rw (e, set_period) h
  | inr (info, at) ↦
      rw (at, set_period)
        (record {
          runs = λ b i e busy. ground (
            arith,
            lookup-insert account b (record info { period = period }) st.autos,
            nat_beq_iff account b,
            e,
            at,
            h.runs b i,
            h.runs account info at,
            agrees info at,
          );
          owned = λ id b seconds e.
              let (nonzero, i, found, own) = h.owned id b seconds e in
              elim (Bool-cases (nat_beq account b)) [
                | inl same ↦ (
                  nonzero,
                  record info { period = period },
                  ground (
                    arith,
                    lookup-insert account b (record info { period = period }) st.autos,
                    same,
                  ),
                  ground (arith, nat_beq_iff account b, same, found, at, own),
                )
                | inr other ↦ (
                  nonzero,
                  i,
                  ground (
                    arith,
                    lookup-insert account b (record info { period = period }) st.autos,
                    other,
                    found,
                  ),
                  own,
                )
              ];
        })
]

pub start_timer-Timed :
    (id account : ℕ) (info : AutoData) (st : AutoReceive)
    → lookup account st.autos ≡ some info
    → info.timeout_id ≡ 0
    → id ≢ 0
    → lookup id st.timers ≡ none
    → Timed st
    → Timed (start_timer id account info st)
unfolding start_timer lookup
start_timer-Timed id account info st at stopped positive unused h = record {
  runs = λ b i e busy. ground (
    arith,
    lookup-insert account b (record info { timeout_id = id }) st.autos,
    nat_beq_iff account b,
    nat_beq_iff id i.timeout_id,
    e,
    h.runs b i,
    unused,
  );
  owned = λ other b seconds e. elim (Bool-cases (nat_beq id other)) [
    | inl same ↦
        let this : some (account, info.period) ≡ some (b, seconds) = rw same at e in
        (
          ground (arith, nat_beq_iff id other, same, positive),
          record info { timeout_id = id },
          ground (
            arith,
            lookup-insert account b (record info { timeout_id = id }) st.autos,
            nat_beq_iff account b,
            this,
          ),
          (nat_beq_iff id other).0 same,
        )
    | inr apart ↦
        let this : lookup other st.timers ≡ some (b, seconds) = rw apart at e in
        let (nonzero, i, found, own) = h.owned other b seconds this in
        (
          nonzero,
          i,
          ground (
            arith,
            lookup-insert account b (record info { timeout_id = id }) st.autos,
            nat_beq_iff account b,
            found,
            at,
            own,
            stopped,
            nonzero,
          ),
          own,
        )
  ];
}

-- The data of an account goes with its timer.
pub auto_account_finalized-Timed :
    (env : Settings) (account : ℕ) (st : AutoReceive)
    → Timed st
    → Timed (auto_account_finalized env account st)
unfolding auto_account_finalized
auto_account_finalized-Timed env account st h = elim (Option-cases (lookup account st.autos)) [
  | inl e ↦ rw (e, auto_account_finalized) h
  | inr (info, at) ↦
      rw (at, auto_account_finalized)
        (record {
          runs = λ b i e busy. ground (
            arith,
            lookup-remove account b st.autos,
            lookup-remove info.timeout_id i.timeout_id st.timers,
            nat_beq_iff account b,
            nat_beq_iff info.timeout_id 0,
            nat_beq_iff info.timeout_id i.timeout_id,
            e,
            at,
            h.runs b i,
            h.runs account info at,
          );
          owned = λ id b seconds e.
              let left : ((nat_beq info.timeout_id 0 ≡ true) ⊎ (nat_beq info.timeout_id id ≡ false))
                  × (lookup id st.timers ≡ some (b, seconds)) =
                elim (Bool-cases (nat_beq info.timeout_id 0)) [
                  | inl zero_id ↦ (inl zero_id, ground (arith, e, zero_id))
                  | inr other_id ↦ (
                    inr (ground (arith, lookup-remove info.timeout_id id st.timers, e, other_id)),
                    ground (arith, lookup-remove info.timeout_id id st.timers, e, other_id),
                  )
                ] in
              let (nonzero, i, found, own) = h.owned id b seconds left.1 in
              (
                nonzero,
                i,
                ground (
                  arith,
                  lookup-remove account b st.autos,
                  nat_beq_iff account b,
                  nat_beq_iff info.timeout_id 0,
                  nat_beq_iff info.timeout_id id,
                  left.0,
                  found,
                  at,
                  own,
                  nonzero,
                ),
                own,
              );
        })
]
