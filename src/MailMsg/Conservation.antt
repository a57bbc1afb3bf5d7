-- ===== src/MailMsg/Conservation.antt =====
-- libemail-engine/mail-mt.c: the messages in the queues and the finished ones, counted over
-- interleavings.
use e_mail_factory.Base.{
  ℕ, suc, ◌+◌, ◌≡◌, refl, ap, nat_beq, if◌then◌else◌, List, [], ◌∷◌, ◌++◌, none, some, Option-cases,
  from_some, inl, inr, arith,
}
use e_mail_factory.MailMsg.{
  Phase, waiting, in_main_loop, in_replies, LoopState, Event, push_main, push_reply, schedule,
  start, turn,
}
use e_mail_factory.MailMsg.Loop.{
  schedule_idle, start_idle, turn_main, turn_reply, turn_idle, step, run,
}
use e_mail_factory.MailMsg.Wakeups.{from_allowed}

-- How often a message occurs.
abbrev pub occurrences : ℕ → List ℕ → ℕ
occurrences x [] = 0
occurrences x (y ∷ ys) = if nat_beq y x then suc (occurrences x ys) else occurrences x ys

occurrences-append :
    (x : ℕ) (ys zs : List ℕ) → occurrences x (ys ++ zs) ≡ occurrences x ys + occurrences x zs
occurrences-append x [] zs = omega arith
occurrences-append x (y ∷ ys) zs = ground (arith, occurrences-append x ys zs)

-- How often a message is in a queue or finished.
abbrev pub held : ℕ → LoopState → ℕ
held x s =
    occurrences x s.main_loop_queue + occurrences x s.msg_reply_queue + occurrences x s.finished

abbrev pub pushes : ℕ → List Event → ℕ
pushes x [] = 0
pushes x (push_main msg ∷ es) = occurrences x (msg ∷ []) + pushes x es
pushes x (push_reply msg ∷ es) = occurrences x (msg ∷ []) + pushes x es
pushes x (schedule id ∷ es) = pushes x es
pushes x (start ∷ es) = pushes x es
pushes x (turn ∷ es) = pushes x es

pushes-cons :
    (x : ℕ) (e : Event) (es : List Event) → pushes x (e ∷ es) ≡ pushes x (e ∷ []) + pushes x es
pushes-cons x (push_main msg) es = omega arith
pushes-cons x (push_reply msg) es = omega arith
pushes-cons x (schedule id) es = omega arith
pushes-cons x start es = omega arith
pushes-cons x turn es = omega arith

held-turn_main :
    (x : ℕ) (q : List ℕ) (s : LoopState) → s.main_loop_queue ≡ q → held x (turn_main q s) ≡ held x s
unfolding turn_main
held-turn_main x [] s e = refl
held-turn_main x (msg ∷ rest) s e =
    ground (arith, ap (occurrences x) e, occurrences-append x s.finished (msg ∷ []))

held-turn_reply :
    (x : ℕ) (q : List ℕ) (s : LoopState)
    → s.msg_reply_queue ≡ q
    → held x (turn_reply q s) ≡ held x s
unfolding turn_reply
held-turn_reply x [] s e = refl
held-turn_reply x (msg ∷ rest) s e =
    ground (arith, ap (occurrences x) e, occurrences-append x s.finished (msg ∷ []))

held-turn_idle :
    (x : ℕ) (p : Phase) (s t : LoopState) → turn_idle p s ≡ some t → held x t ≡ held x s
unfolding turn_idle
held-turn_idle x waiting s t h = cc
held-turn_idle x in_main_loop s t h =
    from_some (λ u. held x u ≡ held x s) (turn_main s.main_loop_queue s) t
      (held-turn_main x s.main_loop_queue s refl) h
held-turn_idle x in_replies s t h =
    from_some (λ u. held x u ≡ held x s) (turn_reply s.msg_reply_queue s) t
      (held-turn_reply x s.msg_reply_queue s refl) h

-- A sorted push adds the message once and keeps what is there.
abbrev pub AddsOnce : (ℕ → List ℕ → List ℕ) → Type 0
AddsOnce push_sorted =
    (x msg : ℕ) (q : List ℕ)
    → occurrences x (push_sorted msg q) ≡ occurrences x (msg ∷ []) + occurrences x q

module _ (push_sorted : ℕ → List ℕ → List ℕ) (adds : AddsOnce push_sorted) where
  held-step :
      (x : ℕ) (e : Event) (s t : LoopState)
      → step push_sorted e s ≡ some t
      → held x t ≡ pushes x (e ∷ []) + held x s
  unfolding step schedule_idle start_idle
  held-step x (push_main msg) s t h =
      from_some (λ u. held x u ≡ pushes x (push_main msg ∷ []) + held x s) _ t
        (omega (arith, adds x msg s.main_loop_queue)) h
  held-step x (push_reply msg) s t h =
      from_some (λ u. held x u ≡ pushes x (push_reply msg ∷ []) + held x s) _ t
        (omega (arith, occurrences-append x s.msg_reply_queue (msg ∷ []))) h
  held-step x (schedule id) s t h =
      from_allowed (λ u. held x u ≡ 0 + held x s) _ (schedule_idle id s) t (λ _. omega arith) h
  held-step x start s t h =
      from_allowed (λ u. held x u ≡ 0 + held x s) _ (start_idle s) t (λ _. omega arith) h
  held-step x turn s t h = omega (arith, held-turn_idle x s.phase s t h)

  -- However the actions interleave, each message is in the queues and among the finished ones as often
  -- as it was at the start and was pushed since: none is lost and none is handled twice.
  pub run-holds :
      (x : ℕ) (es : List Event) (s t : LoopState)
      → run push_sorted es s ≡ some t
      → held x t ≡ pushes x es + held x s
  unfolding run
  run-holds x [] s t h = from_some (λ u. held x u ≡ 0 + held x s) s t (omega arith) h
  run-holds x (e ∷ es) s t h = elim (Option-cases (step push_sorted e s)) [
    | inl stuck ↦ absurd (let no : none ≡ some t = rw (stuck, run) at h in cc)
    | inr (u, moved) ↦
        let rest = run-holds x es u t (rw (moved, run) at h) in
        omega (arith, rest, held-step x e s u moved, pushes-cons x e es)
  ]
