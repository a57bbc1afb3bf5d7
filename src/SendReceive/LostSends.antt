-- ===== src/SendReceive/LostSends.antt =====
-- src/mail-send-recv.c: what becomes of a mail_send while a send is under way.
use e_mail_factory.Base.{
  ℕ, ◌+◌, ◌≡◌, ◌≢◌, ◌⊎◌, refl, ap, ◌∙◌, inl, inr, Text, text_eq, nat_eq, nat_beq, nat_beq_iff,
  if◌then◌else◌, Bool, true, false, not, ◌&&◌, Bool-cases, List, Option, none, some, arith, lookup,
  insert, lookup-insert_self, g_list_remove,
}
use e_mail_factory.SendReceive.{
  SendInfo, send_send, send_active, SendData, sending, SendReceive, Registry,
}
use e_mail_factory.SendReceive.Starting.{
  send_uri_key, active_in, active_of, send_again, send_by, mail_send, default_transport_uid,
}
use e_mail_factory.SendReceive.Finishing.{
  is_send, is_active, free_send_info, send_once_more, done_info, receive_done, finish, Event,
  asked_send, finished, step, run,
}
use e_mail_factory.SendReceive.Effects.{IsFaithful, HasData-active, Sound, ended_idle}
use e_mail_factory.SendReceive.Histories.{AreFaithful, step-Sound}
use e_mail_factory.SendReceive.Losses.{setup_send_data-HasData_same, run-IsLost, nothing_sends}

-- A send is under way for the entry at an address.
pub record IsSending (a : ℕ) (info : SendInfo) (s : SendReceive) : Type 0 where
  pub active : lookup send_uri_key (active_of s) ≡ some a
  pub entry : lookup a s.heap ≡ some info
  pub sends : info.type ≡ send_send
  pub goes_on : info.state ≡ send_active
  pub under_way : lookup a s.jobs ≡ some sending

-- A mail_send meanwhile only counts.
asked_send-counts :
    (env : Registry) (uid : Text) (a : ℕ) (info : SendInfo) (s : SendReceive)
    → IsSending a info s
    → default_transport_uid env ≡ some uid
    → step env asked_send s
      ≡ record s { heap = insert a (record info { again = info.again + 1 }) s.heap }
unfolding step mail_send send_by send_again
asked_send-counts env uid a info s h configured =
    let same = setup_send_data-HasData_same s (HasData-active s send_uri_key a h.active) in
    rw (configured, mail_send) (rw same (rw (h.active, send_by) (rw (h.entry, send_again) refl)))

-- The report of a send for which there was such a call.
finished-again :
    (env : Registry) (a : ℕ) (info : SendInfo) (s : SendReceive)
    → lookup a s.heap ≡ some info
    → info.type ≡ send_send
    → info.state ≡ send_active
    → nat_beq info.again 0 ≡ false
    → lookup a s.jobs ≡ some sending
    → step env (finished a) s
      ≡ send_once_more env a info (record s { jobs = g_list_remove a s.jobs })
unfolding step finish receive_done done_info
finished-again env a info s entry sends active again under_way =
    let test : (is_send info.type && is_active info.state && not (nat_beq info.again 0)) ≡ true =
      ground (arith, sends, active, again) in
    rw (under_way, step)
      (rw (entry, receive_done)
        (ap
          (λ (b : Bool).
            if b
            then send_once_more env a info (record s { jobs = g_list_remove a s.jobs })
            else free_send_info env a info (record s { jobs = g_list_remove a s.jobs }))
          test))

-- The outcome of both, as a state.
abbrev pub sent_again : Registry → ℕ → SendInfo → SendReceive → SendReceive
sent_again env a info s =
    send_once_more env a (record info { again = info.again + 1 })
      (record s {
        heap = insert a (record info { again = info.again + 1 }) s.heap;
        jobs = g_list_remove a s.jobs;
      })

asked_send-finished :
    (env later : Registry) (uid : Text) (a : ℕ) (info : SendInfo) (s : SendReceive)
    → IsSending a info s
    → default_transport_uid env ≡ some uid
    → step later (finished a) (step env asked_send s) ≡ sent_again later a info s
asked_send-finished env later uid a info s h configured =
    let info' = record info { again = info.again + 1 } in
    let t = record s { heap = insert a info' s.heap } in
    ap (step later (finished a)) (asked_send-counts env uid a info s h configured)
    ∙ finished-again later a info' t (lookup-insert_self a info' s.heap) h.sends h.goes_on
        (ground arith) h.under_way

module _ (uid_of : ℕ → Text) where
  -- The send goes on again exactly where the transport is one and the session is there.
  sent_again-jobs :
      (env : Registry) (a : ℕ) (info : SendInfo) (s : SendReceive)
      → Sound uid_of s
      → lookup a (sent_again env a info s).jobs
        ≡ (if env.is_transport info.service && info.has_session then some sending else none)
  unfolding send_once_more lookup
  sent_again-jobs env a info s h = ground (arith, nat_beq_iff a a, ended_idle uid_of a s h)

  sent_again-active :
      (env : Registry) (a : ℕ) (info : SendInfo) (s : SendReceive)
      → (sent_again env a info s).send_data ≡ s.send_data
  unfolding send_once_more
  sent_again-active env a info s = ground arith

  -- A mail_send, with a transport account, while a send that is not cancelled is under way: when that
  -- send reports, its entry sends once more if it has a session and its service is a transport.
  -- Otherwise, as for the entry that mail_send_receive makes, which has no session, nothing is sent
  -- from then on: whatever requests and reports follow, no operation that sends is ever under way
  -- again. The state is any that keeps what run-answers states of a history, with Camel as there.
  pub mail_send-lost :
      (env later : Registry) (uid : Text) (a : ℕ) (info : SendInfo) (s : SendReceive)
      (events : List (Registry × Event))
      → IsFaithful uid_of env
      → IsFaithful uid_of later
      → AreFaithful uid_of events
      → Sound uid_of s
      → IsSending a info s
      → default_transport_uid env ≡ some uid
      → ((later.is_transport info.service && info.has_session ≡ true)
          × (lookup a (step later (finished a) (step env asked_send s)).jobs ≡ some sending))
        ⊎ ((later.is_transport info.service && info.has_session ≡ false)
            × ((b : ℕ)
                → lookup b (run events (step later (finished a) (step env asked_send s))).jobs
                  ≢ some sending))
  mail_send-lost env later uid a info s events f g faithful h sending_now configured =
      let t = step later (finished a) (step env asked_send s) in
      let both = asked_send-finished env later uid a info s sending_now configured in
      let jobs : lookup a t.jobs
          ≡ (if later.is_transport info.service && info.has_session then some sending else none) =
        ap (λ (u : SendReceive). lookup a u.jobs) both ∙ sent_again-jobs later a info s h in
      let active : lookup send_uri_key (active_of t) ≡ some a =
        ap (λ (u : SendReceive). lookup send_uri_key (active_of u)) both
        ∙ ap (λ (o : Option SendData). lookup send_uri_key (active_in o))
            (sent_again-active later a info s)
        ∙ sending_now.active in
      let sound =
        step-Sound uid_of later (finished a) (step env asked_send s) g
          (step-Sound uid_of env asked_send s f h) in
      let chosen = λ (b : Bool). if b then some sending else none in
      elim (Bool-cases (later.is_transport info.service && info.has_session)) [
        | inl e ↦ inl (e, jobs ∙ ap chosen e)
        | inr e ↦
            let (sound', lost) =
              run-IsLost uid_of events a t faithful sound (active, jobs ∙ ap chosen e) in
            inr (e, λ b. nothing_sends uid_of a (run events t) b sound' lost)
      ]
