-- ===== src/SendReceive/Losses.antt =====
-- src/mail-send-recv.c: an entry for sending that nothing will report for stays as it is.
use e_mail_factory.Base.{
  ℕ, ◌≡◌, ◌≢◌, refl, sym, ap, ◌∙◌, inl, inr, Text, text_eq, nat_eq, nat_beq, nat_beq_iff,
  text_beq_iff, if◌then◌else◌, Bool, true, false, not, ◌&&◌, Option-cases, List, [], ◌∷◌, Option,
  none, some, arith, lookup, insert, remove, lookup-insert, lookup-remove, g_list_remove,
  lookup-g_list_remove,
}
use e_mail_factory.SendReceive.{
  SendInfo, SendData, Job, fetching, sending, listing, refreshing, SendReceive, Registry,
}
use e_mail_factory.SendReceive.Starting.{
  send_uri_key, active_in, active_of, setup_send_data, add_info, start_job, job_of, send_again,
  get_receive_type, is_receivable, receive_info, receive_service, mail_receive_service, send_by,
  mail_send, default_transport_uid, mail_send_receive,
}
use e_mail_factory.SendReceive.Finishing.{
  is_send, is_active, key_of, free_send_info, send_once_more, done_info, receive_done, finish,
  got_folderinfo, remove_info, Event, asked_service, asked_send, asked_all, listed, finished, step,
  run,
}
use e_mail_factory.SendReceive.Effects.{
  IsFaithful, HasData, HasData-active, Sound, ended-Sound, active_in-free_send_data,
}
use e_mail_factory.SendReceive.Histories.{AreFaithful, step-Sound}

-- What stands under the key of sending is an entry that nothing will report for.
abbrev pub IsLost : ℕ → SendReceive → Type 0
IsLost a s = (lookup send_uri_key (active_of s) ≡ some a) × (lookup a s.jobs ≡ none)

pub setup_send_data-HasData_same : (s : SendReceive) → HasData s → setup_send_data s ≡ s
unfolding setup_send_data
setup_send_data-HasData_same s (d, e) =
    ap
      (λ (o : Option SendData). elim o [
        | none ↦ record s { send_data = some (record { infos = []; active = [] }) }
        | some d ↦ s
      ])
      e

module _ (uid_of : ℕ → Text) where
  -- No request and no report of another entry changes that an entry is lost.
  module _ (env : Registry) (faithful : IsFaithful uid_of env) (a : ℕ) where
    add_info-IsLost :
        (k : Text) (info : SendInfo) (s : SendReceive)
        → Sound uid_of s
        → IsLost a s
        → lookup k (active_of s) ≡ none
        → IsLost a (start_job (env.alloc s.heap) info (add_info env k info s))
    unfolding start_job add_info lookup
    add_info-IsLost k info s h lost free =
        let (d, e) = HasData-active s send_uri_key a lost.0 in
        let same : active_of s ≡ d.active = ap active_in e in
        let (other, at, key) = h.keyed send_uri_key a lost.0 in
        let listed : lookup send_uri_key d.active ≡ some a =
          sym (ap (lookup send_uri_key) same) ∙ lost.0 in
        let free' : lookup k d.active ≡ none = sym (ap (lookup k) same) ∙ free in
        let stays : lookup send_uri_key (insert k (env.alloc s.heap) d.active) ≡ some a = ground (
          arith,
          lookup-insert k send_uri_key (env.alloc s.heap) d.active,
          text_beq_iff k send_uri_key,
          listed,
          free',
        ) in
        let apart : nat_beq (env.alloc s.heap) a ≡ false =
          ground (arith, nat_beq_iff (env.alloc s.heap) a, faithful.fresh s.heap, at) in
        elim (Option-cases (job_of info.type)) [
          | inl f ↦ rw (f, start_job) (rw (e, add_info) (stays, lost.1))
          | inr (job, f) ↦ rw (f, start_job) (rw (e, add_info) (stays, rw apart lost.1))
        ]

    choose-IsLost :
        (b : Bool) (s t : SendReceive) → IsLost a s → IsLost a t → IsLost a (if b then s else t)
    choose-IsLost true s t h k = h
    choose-IsLost false s t h k = k

    mail_receive_service-IsLost :
        (service : ℕ) (s : SendReceive)
        → Sound uid_of s
        → IsLost a s
        → IsLost a (mail_receive_service env service s)
    unfolding mail_receive_service receive_service
    mail_receive_service-IsLost service s h lost =
        let same = setup_send_data-HasData_same s (HasData-active s send_uri_key a lost.0) in
        choose-IsLost (env.is_service service) _ s
          (rw same (elim (Option-cases (lookup (env.service_uid service) (active_of s))) [
            | inr (b, e) ↦ rw (e, receive_service) lost
            | inl e ↦
                rw (e, receive_service)
                  (choose-IsLost (is_receivable (get_receive_type env service)) _ s
                    (add_info-IsLost (env.service_uid service)
                      (receive_info env (get_receive_type env service) service) s h lost e)
                    lost)
          ]))
          lost

    mail_send-IsLost : (s : SendReceive) → IsLost a s → IsLost a (mail_send env s)
    unfolding mail_send send_by send_again
    mail_send-IsLost s lost = elim (Option-cases (default_transport_uid env)) [
      | inl e ↦ rw (e, mail_send) lost
      | inr (uid, e) ↦
          let same = setup_send_data-HasData_same s (HasData-active s send_uri_key a lost.0) in
          rw (e, mail_send)
            (rw same (
              rw (lost.0, send_by)
                (elim (Option-cases (lookup a s.heap)) [
                  | inl f ↦ rw (f, send_again) lost
                  | inr (info, f) ↦ rw (f, send_again) lost
                ])))
    ]

    free_send_info-IsLost :
        (b : ℕ) (info : SendInfo) (s : SendReceive)
        → Sound uid_of s
        → IsLost a s
        → b ≢ a
        → lookup b s.heap ≡ some info
        → IsLost a (free_send_info env b info s)
    unfolding free_send_info
    free_send_info-IsLost b info s h lost ne at =
        let (d, e) = HasData-active s send_uri_key a lost.0 in
        let same : active_of s ≡ d.active = ap active_in e in
        let own : lookup (key_of uid_of info) (active_of s) ≡ some b = h.listed b info at in
        let key : key_of env.service_uid info ≡ key_of uid_of info =
          ground (arith, faithful.same_uid info.service) in
        let left : lookup send_uri_key (remove (key_of uid_of info) d.active) ≡ some a = ground (
          arith,
          lookup-remove (key_of uid_of info) send_uri_key d.active,
          text_beq_iff (key_of uid_of info) send_uri_key,
          sym (ap (lookup send_uri_key) same) ∙ lost.0,
          sym (ap (lookup (key_of uid_of info)) same) ∙ own,
        ) in
        rw (e, free_send_info)
          (rw key (
            ap (lookup send_uri_key) (
                  active_in-free_send_data uid_of (record {
                    infos = remove_info b d.infos;
                    active = remove (key_of uid_of info) d.active;
                  }))
                ∙ left,
            lost.1,
          ))

    send_once_more-IsLost :
        (b : ℕ) (info : SendInfo) (s : SendReceive)
        → IsLost a s
        → b ≢ a
        → IsLost a (send_once_more env b info s)
    unfolding send_once_more lookup
    send_once_more-IsLost b info s lost ne =
        choose-IsLost (env.is_transport info.service) _ s
          (choose-IsLost info.has_session _
            (record s { heap = insert b (record info { again = 0 }) s.heap })
            (lost.0, ground (arith, nat_beq_iff b a, ne, lost.1)) lost)
          lost

    receive_done-IsLost :
        (b : ℕ) (s : SendReceive)
        → Sound uid_of s
        → IsLost a s
        → b ≢ a
        → IsLost a (receive_done env b s)
    unfolding receive_done done_info
    receive_done-IsLost b s h lost ne = elim (Option-cases (lookup b s.heap)) [
      | inl e ↦ rw (e, receive_done) lost
      | inr (info, e) ↦
          rw (e, receive_done)
            (choose-IsLost (is_send info.type && is_active info.state && not (nat_beq info.again 0))
              _ _ (send_once_more-IsLost b info s lost ne)
              (free_send_info-IsLost b info s h lost ne e))
    ]

    ended-IsLost :
        (b : ℕ) (s : SendReceive)
        → Sound uid_of s
        → IsLost a s
        → IsLost a (record s { jobs = g_list_remove b s.jobs })
    ended-IsLost b s h lost =
        (lost.0, ground (arith, lookup-g_list_remove b a s.jobs h.distinct, lost.1))

    finish-IsLost :
        (b : ℕ) (s : SendReceive) → Sound uid_of s → IsLost a s → b ≢ a → IsLost a (finish env b s)
    unfolding finish
    finish-IsLost b s h lost ne =
        receive_done-IsLost b (record s { jobs = g_list_remove b s.jobs })
          (ended-Sound uid_of b s h) (ended-IsLost b s h lost) ne

    got_folderinfo-IsLost :
        (b : ℕ) (has_folders : Bool) (s : SendReceive)
        → Sound uid_of s
        → IsLost a s
        → b ≢ a
        → IsLost a (got_folderinfo env b has_folders s)
    unfolding got_folderinfo lookup
    got_folderinfo-IsLost b true s h lost ne =
        (lost.0, ground (arith, nat_beq_iff b a, ne, (ended-IsLost b s h lost).1))
    got_folderinfo-IsLost b false s h lost ne = finish-IsLost b s h lost ne

    job_ne : (b : ℕ) (job : Job) (s : SendReceive) → IsLost a s → lookup b s.jobs ≡ some job → b ≢ a
    job_ne b job s lost e same =
        let clash : none ≡ some job = sym (ap (λ (x : ℕ). lookup x s.jobs) same ∙ lost.1) ∙ e in cc

    step-IsLost :
        (event : Event) (s : SendReceive)
        → Sound uid_of s
        → IsLost a s
        → IsLost a (step env event s)
    unfolding step mail_send_receive
    step-IsLost (asked_service service) s h lost = mail_receive_service-IsLost service s h lost
    step-IsLost asked_send s h lost = mail_send-IsLost s lost
    step-IsLost (asked_all allow_send) s h lost =
        let (d, e) = HasData-active s send_uri_key a lost.0 in rw (e, mail_send_receive) lost
    step-IsLost (listed b has_folders) s h lost = elim (Option-cases (lookup b s.jobs)) [
      | inl e ↦ rw (e, step) lost
      | inr (fetching, e) ↦ rw (e, step) lost
      | inr (sending, e) ↦ rw (e, step) lost
      | inr (refreshing, e) ↦ rw (e, step) lost
      | inr (listing, e) ↦
          rw (e, step) (got_folderinfo-IsLost b has_folders s h lost (job_ne b listing s lost e))
    ]
    step-IsLost (finished b) s h lost = elim (Option-cases (lookup b s.jobs)) [
      | inl e ↦ rw (e, step) lost
      | inr (listing, e) ↦ rw (e, step) lost
      | inr (fetching, e) ↦ rw (e, step) (finish-IsLost b s h lost (job_ne b fetching s lost e))
      | inr (sending, e) ↦ rw (e, step) (finish-IsLost b s h lost (job_ne b sending s lost e))
      | inr (refreshing, e) ↦ rw (e, step) (finish-IsLost b s h lost (job_ne b refreshing s lost e))
    ]

  pub run-IsLost :
      (events : List (Registry × Event)) (a : ℕ) (s : SendReceive)
      → AreFaithful uid_of events
      → Sound uid_of s
      → IsLost a s
      → Sound uid_of (run events s) × IsLost a (run events s)
  unfolding run
  run-IsLost [] a s f h lost = (h, lost)
  run-IsLost ((env, event) ∷ events) a s f h lost =
      run-IsLost events a (step env event s) f.1 (step-Sound uid_of env event s f.0 h)
        (step-IsLost env f.0 a event s h lost)

  send_key : (info : SendInfo) → is_send info.type ≡ true → key_of uid_of info ≡ send_uri_key
  send_key info e = rw e refl

  -- Where an entry is lost, nothing sends.
  pub nothing_sends :
      (a : ℕ) (s : SendReceive) (b : ℕ)
      → Sound uid_of s
      → IsLost a s
      → lookup b s.jobs ≢ some sending
  nothing_sends a s b h lost busy =
      let (info, at, fits) = h.answered b sending busy in
      let own : lookup send_uri_key (active_of s) ≡ some b =
        ap (λ (k : Text). lookup k (active_of s)) (sym (send_key info (sym fits)))
        ∙ h.listed b info at in
      let same : some b ≡ some a = sym own ∙ lost.0 in
      let idle : lookup b s.jobs ≡ none = ground (arith, same, lost.1) in
      let clash : some sending ≡ none = sym busy ∙ idle in cc
