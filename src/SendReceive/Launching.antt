-- ===== src/SendReceive/Launching.antt =====
-- src/mail-send-recv.c: mail_send_receive, which makes the entries of all accounts and starts an
-- operation for each, keeps the entries sound.
use e_mail_factory.Base.{
  ℕ, ◌≡◌, ◌≢◌, refl, sym, ap, ◌∙◌, inl, inr, subst, Text, text_eq, nat_eq, nat_beq_iff,
  if◌then◌else◌, Bool, Bool-cases, Option-cases, List, [], ◌∷◌, Option, none, some, arith, All,
  lookup,
}
use e_mail_factory.SendReceive.{SendInfo, SendData, Job, SendReceive, Registry}
use e_mail_factory.SendReceive.Starting.{
  active_in, infos_of, setup_send_data, start_job, job_of, build_accounts, build_send, may_send,
  set_infos, or_null, build_infra, start_all, mail_send_receive, ref_default_transport,
}
use e_mail_factory.SendReceive.Finishing.{key_of}
use e_mail_factory.SendReceive.Soundness.{IsSound}
use e_mail_factory.SendReceive.Effects.{
  IsFaithful, HasData, Sound, setup_send_data-Sound, choose-Sound, start_job-Sound,
}
use e_mail_factory.SendReceive.Requests.{setup_send_data-HasData}
use e_mail_factory.SendReceive.Building.{
  AreApart, IsBuilt, choose-IsBuilt, build_accounts-IsBuilt, build_send-IsBuilt,
}

module _ (uid_of : ℕ → Text) where
  set_infos-Sound :
      (s : SendReceive) (list : List ℕ) → Sound uid_of s → Sound uid_of (set_infos (s, list))
  unfolding set_infos
  set_infos-Sound s list h = elim (Option-cases s.send_data) [
    | inl e ↦ rw (e, set_infos) h
    | inr (d, e) ↦
        rw (e, set_infos)
          (subst (λ (x : List (Text × ℕ)). IsSound uid_of s.heap x s.jobs) (ap active_in e) h)
  ]

  set_infos-parts :
      (s : SendReceive) (list : List ℕ)
      → HasData s
      → (infos_of (set_infos (s, list)) ≡ list)
        × ((set_infos (s, list)).jobs ≡ s.jobs)
        × ((set_infos (s, list)).heap ≡ s.heap)
  unfolding set_infos
  set_infos-parts s list (d, e) = rw (e, set_infos) (refl, refl, refl)

  start_job-heap : (a : ℕ) (info : SendInfo) (s : SendReceive) → (start_job a info s).heap ≡ s.heap
  unfolding start_job
  start_job-heap a info s = elim (Option-cases (job_of info.type)) [
    | inl e ↦ rw (e, start_job) refl
    | inr (job, e) ↦ rw (e, start_job) refl
  ]

  start_job-other :
      (a : ℕ) (info : SendInfo) (s : SendReceive) (b : ℕ)
      → b ≢ a
      → lookup b (start_job a info s).jobs ≡ lookup b s.jobs
  unfolding start_job lookup
  start_job-other a info s b ne = elim (Option-cases (job_of info.type)) [
    | inl e ↦ rw (e, start_job) refl
    | inr (job, e) ↦ rw (e, start_job) (ground (arith, nat_beq_iff a b))
  ]

  idle-start_job :
      (a : ℕ) (info : SendInfo) (s : SendReceive) (scan : List ℕ)
      → All (λ (b : ℕ). b ≢ a) scan
      → All (λ (b : ℕ). lookup b s.jobs ≡ none) scan
      → All (λ (b : ℕ). lookup b (start_job a info s).jobs ≡ none) scan
  idle-start_job a info s [] apart idle = tt
  idle-start_job a info s (b ∷ scan) apart idle =
      (start_job-other a info s b apart.0 ∙ idle.0, idle-start_job a info s scan apart.1 idle.1)

  start_all-Sound :
      (env : Registry) (scan : List ℕ) (s : SendReceive)
      → Sound uid_of s
      → AreApart scan
      → All (λ (b : ℕ). lookup b s.jobs ≡ none) scan
      → Sound uid_of (start_all env scan s)
  unfolding start_all
  start_all-Sound env [] s h apart idle = h
  start_all-Sound env (a ∷ scan) s h apart idle = elim (Option-cases (lookup a s.heap)) [
    | inl e ↦ rw (e, start_all) (start_all-Sound env scan s h apart.1 idle.1)
    | inr (info, e) ↦ elim (Bool-cases (env.is_service info.service)) [
      | inr f ↦ rw (e, start_all) (rw f (start_all-Sound env scan s h apart.1 idle.1))
      | inl f ↦
          rw (e, start_all)
            (rw f (
              start_all-Sound env scan (start_job a info s)
                (start_job-Sound uid_of env a info s h e idle.0) apart.1
                (idle-start_job a info s scan apart.0 idle.1)))
    ]
  ]

  idle_each :
      (jobs : List (ℕ × Job)) (list : List ℕ)
      → jobs ≡ []
      → All (λ (b : ℕ). lookup b jobs ≡ none) list
  unfolding lookup
  idle_each jobs [] e = tt
  idle_each jobs (b ∷ list) e = (ap (lookup b) e, idle_each jobs list e)

  -- Without a record of send_data there are no entries, so there are no operations.
  no_jobs : (s : SendReceive) → Sound uid_of s → s.send_data ≡ none → s.jobs ≡ []
  unfolding lookup
  no_jobs s h e = empty s.jobs (λ a job busy.
      let (info, at, fits) = h.answered a job busy in
      let listed : none ≡ some a =
        sym (ap (λ (o : Option SendData). lookup (key_of uid_of info) (active_in o)) e)
        ∙ h.listed a info at in
      cc)
    where
      empty :
          (jobs : List (ℕ × Job)) → ((a : ℕ) (job : Job) → lookup a jobs ≡ some job → ⊥) → jobs ≡ []
      empty [] f = refl
      empty ((a, job) ∷ jobs) f = absurd (f a job (ground (arith, nat_beq_iff a a)))

  module _ (env : Registry) (faithful : IsFaithful uid_of env) where
    build_infra-IsBuilt :
        (allow_send : Bool) (s : SendReceive)
        → Sound uid_of s
        → s.jobs ≡ []
        → (setup_send_data s).jobs ≡ s.jobs
        → (list : List ℕ) × (t : SendReceive) × IsBuilt uid_of t list
          × (build_infra env allow_send s ≡ set_infos (t, list))
    unfolding build_infra
    build_infra-IsBuilt allow_send s h idle same =
        let start : IsBuilt uid_of (setup_send_data s) [] = record {
          sound = setup_send_data-Sound uid_of s h;
          idle = same ∙ idle;
          has_data = setup_send_data-HasData s;
          known = tt;
          apart = tt;
        } in
        let p = build_accounts env allow_send env.accounts (setup_send_data s, []) in
        let accounts =
          build_accounts-IsBuilt uid_of env faithful allow_send env.accounts (setup_send_data s, [])
            start in
        let transport = ref_default_transport env in
        let q =
          if may_send env allow_send transport then build_send env (or_null transport) p else p in
        (
          q.1,
          q.0,
          choose-IsBuilt uid_of env faithful (may_send env allow_send transport) _ p
              (λ _. build_send-IsBuilt uid_of env faithful (or_null transport) p.0 p.1 accounts)
              accounts,
          refl,
        )

    pub mail_send_receive-Sound :
        (allow_send : Bool) (s : SendReceive)
        → Sound uid_of s
        → Sound uid_of (mail_send_receive env allow_send s)
    unfolding mail_send_receive setup_send_data
    mail_send_receive-Sound allow_send s h = elim (Option-cases s.send_data) [
      | inr (d, e) ↦ rw (e, mail_send_receive) h
      | inl e ↦
          let idle = no_jobs s h e in
          let same : (setup_send_data s).jobs ≡ s.jobs = rw (e, setup_send_data) refl in
          let (list, t, built, made) = build_infra-IsBuilt allow_send s h idle same in
          let (infos, jobs, heap) = set_infos-parts t list built.has_data in
          let ready : Sound uid_of (start_all env list (set_infos (t, list))) =
            start_all-Sound env list (set_infos (t, list)) (set_infos-Sound t list built.sound)
              built.apart (idle_each (set_infos (t, list)).jobs list (jobs ∙ built.idle)) in
          let all_of = λ (u : SendReceive). start_all env (infos_of u) u in
          let same_start : start_all env list (set_infos (t, list))
              ≡ all_of (build_infra env allow_send s) =
            ap (λ (xs : List ℕ). start_all env xs (set_infos (t, list))) (sym infos)
            ∙ ap all_of (sym made) in
          rw (e, mail_send_receive)
            (choose-Sound uid_of env.is_online _ s (λ _. subst (Sound uid_of) same_start ready) h)
    ]
