-- ===== src/MailMsg/Wakeups.antt =====
-- libemail-engine/mail-mt.c: the queues and the scheduling of mail_msg_idle_cb, over
-- interleavings.
use e_mail_factory.Base.{
  ℕ, ◌≡◌, ◌<◌, refl, ltb, if◌then◌else◌, Bool, true, false, ◌&&◌, ◌||◌, List, [], ◌∷◌, none, some,
  Option-cases, from_some, All, inl, inr, arith,
}
use e_mail_factory.MailMsg.{
  Phase, waiting, in_main_loop, in_replies, LoopState, Event, push_main, push_reply, schedule,
  start, turn,
}
use e_mail_factory.MailMsg.Loop.{
  schedule_idle, start_idle, turn_main, turn_reply, turn_idle, is_waiting, allowed, step, run,
}

abbrev pub is_empty : List ℕ → Bool
is_empty [] = true
is_empty (_ ∷ _) = false

no_messages : (q : List ℕ) → is_empty q ≡ true → q ≡ []
no_messages [] h = refl
no_messages (x ∷ q) h = cc

abbrev pub is_main : Phase → Bool
is_main waiting = false
is_main in_main_loop = true
is_main in_replies = false

-- The callback is scheduled or will be.
abbrev pub is_coming : LoopState → Bool
is_coming s = ltb 0 s.idle_source_id || ltb 0 s.pushing

-- A queue that holds messages has the callback coming, or still before the end of its loop.
abbrev pub is_awake : LoopState → Bool
is_awake s =
    (is_empty s.main_loop_queue || is_coming s || is_main s.phase)
    && (is_empty s.msg_reply_queue || is_coming s || (if is_waiting s.phase then false else true))

abbrev pub IsSource : Event → Type 0
IsSource (schedule id) = 0 < id
IsSource _ = Unit

pub from_allowed {ℓ} :
    (P : LoopState → Type ℓ) (b : Bool) (s t : LoopState)
    → (b ≡ true → P s)
    → allowed b s ≡ some t
    → P t
from_allowed P true s t p h = from_some P s t (p refl) h
from_allowed P false s t p h = absurd (cc)

is_awake-schedule_idle :
    (id : ℕ) (s : LoopState) → 0 < id → is_awake s ≡ true → is_awake (schedule_idle id s) ≡ true
unfolding schedule_idle
is_awake-schedule_idle id s live awake = ground (arith, live, awake)

is_awake-start_idle : (s : LoopState) → is_awake (start_idle s) ≡ true
unfolding start_idle
is_awake-start_idle s = ground arith

is_awake-turn_main :
    (q : List ℕ) (s : LoopState)
    → s.main_loop_queue ≡ q
    → is_awake s ≡ true
    → s.phase ≡ in_main_loop
    → is_awake (turn_main q s) ≡ true
unfolding turn_main
is_awake-turn_main [] s e awake here = ground (arith, e, here, awake)
is_awake-turn_main (msg ∷ rest) s e awake here = ground (arith, e, here, awake)

is_awake-turn_reply :
    (q : List ℕ) (s : LoopState)
    → s.msg_reply_queue ≡ q
    → is_awake s ≡ true
    → s.phase ≡ in_replies
    → is_awake (turn_reply q s) ≡ true
unfolding turn_reply
is_awake-turn_reply [] s e awake here = ground (arith, e, here, awake)
is_awake-turn_reply (msg ∷ rest) s e awake here = ground (arith, e, here, awake)

is_awake-turn_idle :
    (p : Phase) (s t : LoopState)
    → s.phase ≡ p
    → is_awake s ≡ true
    → turn_idle p s ≡ some t
    → is_awake t ≡ true
unfolding turn_idle
is_awake-turn_idle waiting s t here awake h = cc
is_awake-turn_idle in_main_loop s t here awake h =
    from_some (λ x. is_awake x ≡ true) (turn_main s.main_loop_queue s) t
      (is_awake-turn_main s.main_loop_queue s refl awake here) h
is_awake-turn_idle in_replies s t here awake h =
    from_some (λ x. is_awake x ≡ true) (turn_reply s.msg_reply_queue s) t
      (is_awake-turn_reply s.msg_reply_queue s refl awake here) h

module _ (push_sorted : ℕ → List ℕ → List ℕ) where
  is_awake-step :
      (e : Event) (s t : LoopState)
      → IsSource e
      → is_awake s ≡ true
      → step push_sorted e s ≡ some t
      → is_awake t ≡ true
  unfolding step
  is_awake-step (push_main msg) s t live awake h =
      from_some (λ x. is_awake x ≡ true) _ t (ground arith) h
  is_awake-step (push_reply msg) s t live awake h =
      from_some (λ x. is_awake x ≡ true) _ t (ground arith) h
  is_awake-step (schedule id) s t live awake h =
      from_allowed (λ x. is_awake x ≡ true) _ (schedule_idle id s) t
        (λ busy. is_awake-schedule_idle id s live awake) h
  is_awake-step start s t live awake h =
      from_allowed (λ x. is_awake x ≡ true) _ (start_idle s) t (λ free. is_awake-start_idle s) h
  is_awake-step turn s t live awake h = is_awake-turn_idle s.phase s t refl awake h

  is_awake-run :
      (es : List Event) (s t : LoopState)
      → All IsSource es
      → is_awake s ≡ true
      → run push_sorted es s ≡ some t
      → is_awake t ≡ true
  unfolding run
  is_awake-run [] s t live awake h = from_some (λ x. is_awake x ≡ true) s t awake h
  is_awake-run (e ∷ es) s t live awake h = elim (Option-cases (step push_sorted e s)) [
    | inl stuck ↦ absurd (let no : none ≡ some t = rw (stuck, run) at h in cc)
    | inr (u, moved) ↦
        is_awake-run es u t live.1 (is_awake-step e s u live.0 awake moved) (rw (moved, run) at h)
  ]

  -- No message is forgotten: however pushes, schedulings and the callback interleave, once the
  -- callback is not running, not scheduled, and no thread is about to schedule it, both queues are
  -- empty; source ids are above 0, as g_idle_add_full documents.
  pub run-empties :
      (es : List Event) (s t : LoopState)
      → All IsSource es
      → is_awake s ≡ true
      → run push_sorted es s ≡ some t
      → t.phase ≡ waiting
      → is_coming t ≡ false
      → (t.main_loop_queue ≡ []) × (t.msg_reply_queue ≡ [])
  run-empties es s t live awake h idle gone =
      let awake_then = is_awake-run es s t live awake h in
      (
        no_messages t.main_loop_queue (ground (arith, awake_then, idle, gone)),
        no_messages t.msg_reply_queue (ground (arith, awake_then, idle, gone)),
      )
