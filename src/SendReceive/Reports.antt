-- ===== src/SendReceive/Reports.antt =====
-- src/mail-send-recv.c: receive_done keeps the entries sound.
use e_mail_factory.Base.{
  ℕ, ◌≡◌, refl, sym, inl, inr, subst, Text, text_eq, nat_eq, nat_beq, Bool, true, false, not, ◌&&◌,
  Option-cases, List, none, some, arith, lookup, insert, remove, lookup-insert_self, g_list_remove,
  IsAbsent-lookup,
}
use e_mail_factory.SendReceive.{SendInfo, sending, listing, refreshing, SendReceive, Registry}
use e_mail_factory.SendReceive.Finishing.{
  is_send, is_active, key_of, free_send_info, send_once_more, done_info, receive_done, finish,
  got_folderinfo, remove_info,
}
use e_mail_factory.SendReceive.Soundness.{
  IsSound, free-IsListed, free-IsKeyed, free-IsAnswered, start-IsAnswered,
}
use e_mail_factory.SendReceive.Effects.{
  HasData-active, active_of-HasData, Sound, replace-Sound, choose-Sound, ended-Sound, ended_idle,
  active_in-free_send_data,
}

module _ (uid_of : ℕ → Text) where
  module _ (env : Registry) (same_uid : (a : ℕ) → env.service_uid a ≡ uid_of a) where
    key_of-same : (info : SendInfo) → key_of env.service_uid info ≡ key_of uid_of info
    key_of-same info = ground (arith, same_uid info.service)

    free_send_info-Sound :
        (a : ℕ) (info : SendInfo) (s : SendReceive)
        → Sound uid_of s
        → lookup a s.heap ≡ some info
        → lookup a s.jobs ≡ none
        → Sound uid_of (free_send_info env a info s)
    unfolding free_send_info
    free_send_info-Sound a info s h at idle =
        let (d, e) = HasData-active s (key_of uid_of info) a (h.listed a info at) in
        let h' =
          subst (λ (x : List (Text × ℕ)). IsSound uid_of s.heap x s.jobs) (active_of-HasData s d e)
            h in
        rw (e, free_send_info)
          (rw (key_of-same info) (
            subst (λ (x : List (Text × ℕ)). IsSound uid_of (remove a s.heap) x s.jobs)
              (sym (
                active_in-free_send_data uid_of (record {
                  infos = remove_info a d.infos;
                  active = remove (key_of uid_of info) d.active;
                })))
              (record {
                listed = free-IsListed uid_of s.heap d.active a info h'.listed at;
                keyed = free-IsKeyed uid_of s.heap d.active a info h'.keyed at;
                answered = free-IsAnswered uid_of s.heap s.jobs a h'.answered idle;
                distinct = h'.distinct;
              })))

    send_once_more-Sound :
        (a : ℕ) (info : SendInfo) (s : SendReceive)
        → Sound uid_of s
        → lookup a s.heap ≡ some info
        → lookup a s.jobs ≡ none
        → is_send info.type ≡ true
        → Sound uid_of (send_once_more env a info s)
    unfolding send_once_more
    send_once_more-Sound a info s h at idle send =
        let info' = record info { again = 0 } in
        let h' = replace-Sound uid_of s a info info' h at refl refl in
        choose-Sound uid_of (env.is_transport info.service) _ s
          (λ _.
            choose-Sound uid_of info.has_session _ (record s { heap = insert a info' s.heap })
              (λ _. record {
                listed = h'.listed;
                keyed = h'.keyed;
                answered =
                    start-IsAnswered uid_of (insert a info' s.heap) s.jobs a info' sending
                      h'.answered (lookup-insert_self a info' s.heap) (sym send);
                distinct = (IsAbsent-lookup a s.jobs idle, h'.distinct);
              })
              h')
          h

    first_true : (b c d : Bool) → (b && c && d) ≡ true → b ≡ true
    first_true true c d e = refl
    first_true false c d e = e

    done_info-Sound :
        (a : ℕ) (info : SendInfo) (s : SendReceive)
        → Sound uid_of s
        → lookup a s.heap ≡ some info
        → lookup a s.jobs ≡ none
        → Sound uid_of (done_info env a info s)
    unfolding done_info
    done_info-Sound a info s h at idle =
        choose-Sound uid_of
          (is_send info.type && is_active info.state && not (nat_beq info.again 0)) _ _
          (λ e.
            send_once_more-Sound a info s h at idle (
              first_true (is_send info.type) (is_active info.state) (not (nat_beq info.again 0)) e))
          (free_send_info-Sound a info s h at idle)

    receive_done-Sound :
        (a : ℕ) (s : SendReceive)
        → Sound uid_of s
        → lookup a s.jobs ≡ none
        → Sound uid_of (receive_done env a s)
    unfolding receive_done
    receive_done-Sound a s h idle = elim (Option-cases (lookup a s.heap)) [
      | inl e ↦ rw (e, receive_done) h
      | inr (info, e) ↦ rw (e, receive_done) (done_info-Sound a info s h e idle)
    ]

    pub finish-Sound : (a : ℕ) (s : SendReceive) → Sound uid_of s → Sound uid_of (finish env a s)
    unfolding finish
    finish-Sound a s h =
        receive_done-Sound a (record s { jobs = g_list_remove a s.jobs }) (ended-Sound uid_of a s h)
          (ended_idle uid_of a s h)

    pub got_folderinfo-Sound :
        (a : ℕ) (has_folders : Bool) (s : SendReceive)
        → Sound uid_of s
        → lookup a s.jobs ≡ some listing
        → Sound uid_of (got_folderinfo env a has_folders s)
    unfolding got_folderinfo
    got_folderinfo-Sound a true s h e =
        let h' = ended-Sound uid_of a s h in
        let (info, at, fits) = h.answered a listing e in
        record {
          listed = h.listed;
          keyed = h.keyed;
          answered =
              start-IsAnswered uid_of s.heap (g_list_remove a s.jobs) a info refreshing h'.answered
                at fits;
          distinct =
              (IsAbsent-lookup a (g_list_remove a s.jobs) (ended_idle uid_of a s h), h'.distinct);
        }
    got_folderinfo-Sound a false s h e = finish-Sound a s h
