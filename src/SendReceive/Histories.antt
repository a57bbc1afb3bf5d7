-- ===== src/SendReceive/Histories.antt =====
-- src/mail-send-recv.c: no history of requests and reports leaves an operation without its entry.
use e_mail_factory.Base.{
  ℕ, ◌≡◌, inl, inr, Text, text_eq, nat_eq, Option-cases, List, [], ◌∷◌, some, All, lookup,
  AreDistinct,
}
use e_mail_factory.SendReceive.{
  SendInfo, Job, fetching, sending, listing, refreshing, SendReceive, Registry,
}
use e_mail_factory.SendReceive.Starting.{active_of}
use e_mail_factory.SendReceive.Finishing.{
  is_send, key_of, Event, asked_service, asked_send, asked_all, listed, finished, step, run,
  at_rest,
}
use e_mail_factory.SendReceive.Soundness.{is_sending}
use e_mail_factory.SendReceive.Effects.{IsFaithful, Sound}
use e_mail_factory.SendReceive.Reports.{finish-Sound, got_folderinfo-Sound}
use e_mail_factory.SendReceive.Requests.{mail_receive_service-Sound, mail_send-Sound}
use e_mail_factory.SendReceive.Launching.{mail_send_receive-Sound}

pub at_rest-Sound : (uid_of : ℕ → Text) → Sound uid_of at_rest
unfolding lookup
at_rest-Sound uid_of = record {
  listed = λ a info e. cc;
  keyed = λ k a e. absurd (cc);
  answered = λ a job e. absurd (cc);
  distinct = tt;
}

module _ (uid_of : ℕ → Text) where
  pub step-Sound :
      (env : Registry) (event : Event) (s : SendReceive)
      → IsFaithful uid_of env
      → Sound uid_of s
      → Sound uid_of (step env event s)
  unfolding step
  step-Sound env (asked_service service) s f h = mail_receive_service-Sound uid_of env f service s h
  step-Sound env asked_send s f h = mail_send-Sound uid_of env f s h
  step-Sound env (asked_all allow_send) s f h = mail_send_receive-Sound uid_of env f allow_send s h
  step-Sound env (listed a has_folders) s f h = elim (Option-cases (lookup a s.jobs)) [
    | inl e ↦ rw (e, step) h
    | inr (fetching, e) ↦ rw (e, step) h
    | inr (sending, e) ↦ rw (e, step) h
    | inr (refreshing, e) ↦ rw (e, step) h
    | inr (listing, e) ↦
        rw (e, step) (got_folderinfo-Sound uid_of env f.same_uid a has_folders s h e)
  ]
  step-Sound env (finished a) s f h = elim (Option-cases (lookup a s.jobs)) [
    | inl e ↦ rw (e, step) h
    | inr (listing, e) ↦ rw (e, step) h
    | inr (fetching, e) ↦ rw (e, step) (finish-Sound uid_of env f.same_uid a s h)
    | inr (sending, e) ↦ rw (e, step) (finish-Sound uid_of env f.same_uid a s h)
    | inr (refreshing, e) ↦ rw (e, step) (finish-Sound uid_of env f.same_uid a s h)
  ]

  abbrev pub AreFaithful : List (Registry × Event) → Type 0
  AreFaithful events = All (λ (p : Registry × Event). IsFaithful uid_of p.0) events

  pub run-Sound :
      (events : List (Registry × Event)) (s : SendReceive)
      → AreFaithful events
      → Sound uid_of s
      → Sound uid_of (run events s)
  unfolding run
  run-Sound [] s f h = h
  run-Sound ((env, event) ∷ events) s f h =
      run-Sound events (step env event s) f.1 (step-Sound env event s f.0 h)

  -- No report reads freed memory: after any history of requests and reports that begins at rest,
  -- each operation that is under way belongs to an entry that is not freed, that stands in the
  -- table of active entries under the key that receive_done takes it out by, and that sends exactly
  -- if the operation does; and no entry has two operations. This asks of Camel that the uid of a
  -- service does not change, that a service is found under its own uid and what is no service has
  -- no type, and of g_malloc0 that the memory is not in use.
  pub run-answers :
      (events : List (Registry × Event)) (a : ℕ) (job : Job)
      → AreFaithful events
      → lookup a (run events at_rest).jobs ≡ some job
      → (info : SendInfo) × (lookup a (run events at_rest).heap ≡ some info)
        × (lookup (key_of uid_of info) (active_of (run events at_rest)) ≡ some a)
        × (is_sending job ≡ is_send info.type)
        × AreDistinct (run events at_rest).jobs
  run-answers events a job f e =
      let h = run-Sound events at_rest f (at_rest-Sound uid_of) in
      let (info, at, fits) = h.answered a job e in (info, at, h.listed a info at, fits, h.distinct)
