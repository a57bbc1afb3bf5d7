-- ===== src/SendReceive/Requests.antt =====
-- src/mail-send-recv.c: a request for one account keeps the entries sound.
use e_mail_factory.Base.{
  ℕ, ◌≡◌, ◌≢◌, refl, sym, ap, ◌∙◌, inl, inr, Text, text_eq, nat_eq, nat_beq, nat_beq_iff, true,
  false, not, ◌&&◌, Bool-cases, Option-cases, [], none, some, arith, lookup, insert,
}
use e_mail_factory.SendReceive.{
  SendInfo, SendInfoType, send_receive, send_send, send_update, send_invalid, SendReceive, Registry,
}
use e_mail_factory.SendReceive.Starting.{
  send_uri_key, active_of, setup_send_data, add_info, start_job, get_receive_type, is_receivable,
  receive_info, receive_service, mail_receive_service, send_info, is_invalid, send_by, mail_send,
  default_transport_uid,
}
use e_mail_factory.SendReceive.Finishing.{is_send, key_of}
use e_mail_factory.SendReceive.Effects.{
  IsFaithful, HasData, Sound, setup_send_data-Sound, choose-Sound, add_info-Sound, start_job-Sound,
  send_again-Sound,
}

pub setup_send_data-HasData : (s : SendReceive) → HasData (setup_send_data s)
unfolding setup_send_data
setup_send_data-HasData s = elim (Option-cases s.send_data) [
  | inl e ↦ (record { infos = []; active = [] }, ground arith)
  | inr (d, e) ↦ (d, ground arith)
]

pub receivable_kind : (t : SendInfoType) → is_receivable t ≡ true → is_send t ≡ false
receivable_kind send_receive e = refl
receivable_kind send_send e = cc
receivable_kind send_update e = refl
receivable_kind send_invalid e = cc

module _ (env : Registry) where
  pub add_info-lookup :
      (k : Text) (info : SendInfo) (s : SendReceive)
      → HasData s
      → lookup (env.alloc s.heap) (add_info env k info s).heap ≡ some info
  unfolding add_info lookup
  add_info-lookup k info s (d, e) =
      rw (e, add_info) (ground (arith, nat_beq_iff (env.alloc s.heap) (env.alloc s.heap)))

  pub add_info-jobs :
      (k : Text) (info : SendInfo) (s : SendReceive) → (add_info env k info s).jobs ≡ s.jobs
  unfolding add_info
  add_info-jobs k info s = elim (Option-cases s.send_data) [
    | inl e ↦ rw (e, add_info) refl
    | inr (d, e) ↦ rw (e, add_info) refl
  ]

  pub add_info-HasData :
      (k : Text) (info : SendInfo) (s : SendReceive) → HasData s → HasData (add_info env k info s)
  unfolding add_info
  add_info-HasData k info s (d, e) =
      (record d { active = insert k (env.alloc s.heap) d.active }, rw (e, add_info) refl)

  -- The other entries stay.
  pub add_info-known :
      (k : Text) (info : SendInfo) (s : SendReceive) (b : ℕ)
      → HasData s
      → lookup b s.heap ≢ none
      → lookup b (add_info env k info s).heap ≢ none
  unfolding add_info lookup
  add_info-known k info s b (d, e) known =
      rw (e, add_info)
        (elim (Bool-cases (nat_beq (env.alloc s.heap) b)) [
          | inl f ↦ rw f (λ h. cc)
          | inr f ↦ rw f known
        ])

module _ (uid_of : ℕ → Text) where
  pub idle_unknown :
      (s : SendReceive) (a : ℕ) → Sound uid_of s → lookup a s.heap ≡ none → lookup a s.jobs ≡ none
  idle_unknown s a h e = elim (Option-cases (lookup a s.jobs)) [
    | inl idle ↦ idle
    | inr (job, busy) ↦
        let (info, found, fits) = h.answered a job busy in
        let clash : none ≡ some info = sym e ∙ found in absurd (cc)
  ]

  module _ (env : Registry) (faithful : IsFaithful uid_of env) where
    new_job-Sound :
        (k : Text) (info : SendInfo) (s : SendReceive)
        → HasData s
        → Sound uid_of s
        → lookup k (active_of s) ≡ none
        → key_of uid_of info ≡ k
        → Sound uid_of (start_job (env.alloc s.heap) info (add_info env k info s))
    new_job-Sound k info s has h free key =
        start_job-Sound uid_of env (env.alloc s.heap) info (add_info env k info s)
          (add_info-Sound uid_of env k info s has h free (faithful.fresh s.heap) key)
          (add_info-lookup env k info s has)
          (ap (lookup (env.alloc s.heap)) (add_info-jobs env k info s)
            ∙ idle_unknown s (env.alloc s.heap) h (faithful.fresh s.heap))

    pub receive_info-key :
        (t : SendInfoType) (service : ℕ)
        → is_receivable t ≡ true
        → key_of uid_of (receive_info env t service) ≡ env.service_uid service
    receive_info-key t service e = ground (arith, receivable_kind t e, faithful.same_uid service)

    receive_service-Sound :
        (service : ℕ) (s : SendReceive)
        → HasData s
        → Sound uid_of s
        → Sound uid_of (receive_service env service s)
    unfolding receive_service
    receive_service-Sound service s has h =
        elim (Option-cases (lookup (env.service_uid service) (active_of s))) [
          | inr (a, e) ↦ rw (e, receive_service) h
          | inl e ↦
              rw (e, receive_service)
                (choose-Sound uid_of (is_receivable (get_receive_type env service)) _ s
                  (λ f.
                    new_job-Sound (env.service_uid service)
                      (receive_info env (get_receive_type env service) service) s has h e
                      (receive_info-key (get_receive_type env service) service f))
                  h)
        ]

    pub mail_receive_service-Sound :
        (service : ℕ) (s : SendReceive)
        → Sound uid_of s
        → Sound uid_of (mail_receive_service env service s)
    unfolding mail_receive_service
    mail_receive_service-Sound service s h =
        choose-Sound uid_of (env.is_service service) _ s
          (λ _.
            receive_service-Sound service (setup_send_data s) (setup_send_data-HasData s)
              (setup_send_data-Sound uid_of s h))
          h

    send_by-Sound :
        (uid : Text) (s : SendReceive)
        → HasData s
        → Sound uid_of s
        → Sound uid_of (send_by env uid s)
    unfolding send_by
    send_by-Sound uid s has h = elim (Option-cases (lookup send_uri_key (active_of s))) [
      | inr (a, e) ↦ rw (e, send_by) (send_again-Sound uid_of a s h)
      | inl e ↦
          rw (e, send_by)
            (choose-Sound uid_of
              (env.is_transport (env.ref_service uid)
                && not (is_invalid (get_receive_type env (env.ref_service uid))))
              _ s (λ _. new_job-Sound send_uri_key (send_info (env.ref_service uid)) s has h e refl)
              h)
    ]

    pub mail_send-Sound : (s : SendReceive) → Sound uid_of s → Sound uid_of (mail_send env s)
    unfolding mail_send
    mail_send-Sound s h = elim (Option-cases (default_transport_uid env)) [
      | inl e ↦ rw (e, mail_send) h
      | inr (uid, e) ↦
          rw (e, mail_send)
            (send_by-Sound uid (setup_send_data s) (setup_send_data-HasData s)
              (setup_send_data-Sound uid_of s h))
    ]
