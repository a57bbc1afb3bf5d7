-- ===== src/SendReceive/Effects.antt =====
-- src/mail-send-recv.c: each change of the entries keeps them sound.
use e_mail_factory.Base.{
  ℕ, ◌+◌, ◌≡◌, refl, sym, ap, ◌∙◌, inl, inr, subst, Text, text_eq, nat_eq, nat_beq_iff,
  if◌then◌else◌, Bool, true, false, Option-cases, List, [], none, some, arith, lookup, insert,
  g_list_remove, IsAbsent-lookup, lookup-g_list_remove, AreDistinct-g_list_remove,
}
use e_mail_factory.SendReceive.{
  SendInfo, SendInfoType, send_receive, send_send, send_update, send_invalid, SendData, Job,
  SendReceive, Registry,
}
use e_mail_factory.SendReceive.Starting.{
  active_in, active_of, setup_send_data, add_info, start_job, job_of, send_again, add_timeout,
  get_receive_type,
}
use e_mail_factory.SendReceive.Finishing.{is_send, key_of, free_send_data}
use e_mail_factory.SendReceive.Soundness.{
  is_sending, IsSound, replace-IsListed, replace-IsKeyed, replace-IsAnswered, add-IsListed,
  add-IsKeyed, add-IsAnswered, start-IsAnswered, end-IsAnswered,
}

-- What the code relies on, of Camel and the allocator: the uid of a service does not change, a
-- service is found under its own uid, what is no service has no type, and new memory is not in use.
pub record IsFaithful (uid_of : ℕ → Text) (env : Registry) : Type 0 where
  pub same_uid : (a : ℕ) → env.service_uid a ≡ uid_of a
  pub named :
      (uid : Text)
      → env.is_service (env.ref_service uid) ≡ true
      → uid_of (env.ref_service uid) ≡ uid
  pub untyped : (a : ℕ) → env.is_service a ≡ false → get_receive_type env a ≡ send_invalid
  pub fresh : (xs : List (ℕ × SendInfo)) → lookup (env.alloc xs) xs ≡ none

-- A record of send_data is there.
abbrev pub HasData : SendReceive → Type 0
HasData s = (d : SendData) × (s.send_data ≡ some d)

pub active_of-HasData :
    (s : SendReceive) (d : SendData) → s.send_data ≡ some d → active_of s ≡ d.active
active_of-HasData s d e = ap active_in e

-- Whatever is active is in a record of send_data.
pub HasData-active :
    (s : SendReceive) (k : Text) (a : ℕ) → lookup k (active_of s) ≡ some a → HasData s
unfolding lookup
HasData-active s k a e = elim (Option-cases s.send_data) [
  | inl n ↦
      let empty : active_of s ≡ [] = ap active_in n in
      let absent : none ≡ some a = sym (ap (lookup k) empty) ∙ e in absurd (cc)
  | inr found ↦ found
]

pub job_of_fits : (t : SendInfoType) (job : Job) → job_of t ≡ some job → is_sending job ≡ is_send t
job_of_fits send_receive job e = ground arith
job_of_fits send_send job e = ground arith
job_of_fits send_update job e = ground arith
job_of_fits send_invalid job e = cc

abbrev pub Sound : (ℕ → Text) → SendReceive → Type 0
Sound uid_of s = IsSound uid_of s.heap (active_of s) s.jobs

-- An operation that leaves the entries as they are.
pub setup_send_data-active : (s : SendReceive) → active_of (setup_send_data s) ≡ active_of s
unfolding setup_send_data
setup_send_data-active s = elim (Option-cases s.send_data) [
  | inl e ↦ ground arith
  | inr found ↦ ground arith
]

module _ (uid_of : ℕ → Text) where
  pub setup_send_data-Sound : (s : SendReceive) → Sound uid_of s → Sound uid_of (setup_send_data s)
  unfolding setup_send_data
  setup_send_data-Sound s h = elim (Option-cases s.send_data) [
    | inl e ↦
        let empty : active_of s ≡ [] = ap active_in e in
        rw (e, setup_send_data)
          (subst (λ (x : List (Text × ℕ)). IsSound uid_of s.heap x s.jobs) empty h)
    | inr found ↦ rw (found.1, setup_send_data) h
  ]

  -- An entry is changed in place.
  pub replace-Sound :
      (s : SendReceive) (a : ℕ) (old new : SendInfo)
      → Sound uid_of s
      → lookup a s.heap ≡ some old
      → new.type ≡ old.type
      → new.service ≡ old.service
      → IsSound uid_of (insert a new s.heap) (active_of s) s.jobs
  replace-Sound s a old new h at type service =
      let key : key_of uid_of new ≡ key_of uid_of old = rw type (rw service refl) in
      record {
        listed = replace-IsListed uid_of s.heap (active_of s) a old new h.listed at key;
        keyed = replace-IsKeyed uid_of s.heap (active_of s) a old new h.keyed at key;
        answered = replace-IsAnswered uid_of s.heap s.jobs a old new h.answered at type;
        distinct = h.distinct;
      }

  module _ (env : Registry) where
    pub add_info-Sound :
        (k : Text) (info : SendInfo) (s : SendReceive)
        → HasData s
        → Sound uid_of s
        → lookup k (active_of s) ≡ none
        → lookup (env.alloc s.heap) s.heap ≡ none
        → key_of uid_of info ≡ k
        → Sound uid_of (add_info env k info s)
    unfolding add_info
    add_info-Sound k info s (d, e) h free fresh key =
        let same = active_of-HasData s d e in
        let h' = subst (λ (x : List (Text × ℕ)). IsSound uid_of s.heap x s.jobs) same h in
        let free' = sym (ap (lookup k) same) ∙ free in
        rw (e, add_info)
          (record {
            listed =
                add-IsListed uid_of s.heap d.active k (env.alloc s.heap) info h'.listed free' key;
            keyed = add-IsKeyed uid_of s.heap d.active k (env.alloc s.heap) info h'.keyed fresh key;
            answered =
                add-IsAnswered uid_of s.heap s.jobs (env.alloc s.heap) info h'.answered fresh;
            distinct = h'.distinct;
          })

    pub start_job-Sound :
        (a : ℕ) (info : SendInfo) (s : SendReceive)
        → Sound uid_of s
        → lookup a s.heap ≡ some info
        → lookup a s.jobs ≡ none
        → Sound uid_of (start_job a info s)
    unfolding start_job
    start_job-Sound a info s h at idle = elim (Option-cases (job_of info.type)) [
      | inl e ↦ rw (e, start_job) h
      | inr (job, e) ↦
          rw (e, start_job)
            (record {
              listed = h.listed;
              keyed = h.keyed;
              answered =
                  start-IsAnswered uid_of s.heap s.jobs a info job h.answered at
                    (job_of_fits info.type job e);
              distinct = (IsAbsent-lookup a s.jobs idle, h.distinct);
            })
    ]

  pub send_again-Sound : (a : ℕ) (s : SendReceive) → Sound uid_of s → Sound uid_of (send_again a s)
  unfolding send_again
  send_again-Sound a s h = elim (Option-cases (lookup a s.heap)) [
    | inl e ↦ rw (e, send_again) h
    | inr (info, e) ↦
        rw (e, send_again)
          (replace-Sound s a info (record info { again = info.again + 1 }) h e refl refl)
  ]

  pub add_timeout-Sound :
      (a : ℕ) (s : SendReceive) → Sound uid_of s → Sound uid_of (add_timeout a s)
  unfolding add_timeout
  add_timeout-Sound a s h = elim (Option-cases (lookup a s.heap)) [
    | inl e ↦ rw (e, add_timeout) h
    | inr (info, e) ↦
        rw (e, add_timeout)
          (replace-Sound s a info (record info { has_timeout = true }) h e refl refl)
  ]

  pub ended-Sound :
      (a : ℕ) (s : SendReceive)
      → Sound uid_of s
      → Sound uid_of (record s { jobs = g_list_remove a s.jobs })
  ended-Sound a s h = record {
    listed = h.listed;
    keyed = h.keyed;
    answered = end-IsAnswered uid_of s.heap s.jobs a h.answered h.distinct;
    distinct = AreDistinct-g_list_remove a s.jobs h.distinct;
  }

  pub active_in-free_send_data : (d : SendData) → active_in (free_send_data d) ≡ d.active
  active_in-free_send_data d = ground arith

  pub choose-Sound :
      (b : Bool) (s t : SendReceive)
      → (b ≡ true → Sound uid_of s)
      → Sound uid_of t
      → Sound uid_of (if b then s else t)
  choose-Sound true s t h k = h refl
  choose-Sound false s t h k = k

  pub ended_idle :
      (a : ℕ) (s : SendReceive) → Sound uid_of s → lookup a (g_list_remove a s.jobs) ≡ none
  ended_idle a s h = ground (arith, lookup-g_list_remove a a s.jobs h.distinct, nat_beq_iff a a)
