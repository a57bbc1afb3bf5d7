-- ===== src/SendQueue/Reports.antt =====
-- libemail-engine/mail-ops.c: what send_queue_exec reports at its end.
use e_mail_factory.Base.{
  ℕ, suc, ◌+◌, ◌-◌, ◌<◌, ◌≡◌, refl, ap, ltb, nat_beq, length, if◌then◌else◌, Bool, true, false,
  ◌&&◌, List, [], ◌∷◌, ◌++◌, Option, none, some, Option-cases, Bool-cases, inl, inr, arith,
}
use e_mail_factory.SendQueue.{SendError, Answers, Status, failed_to_send, complete, Progress}
use e_mail_factory.SendQueue.Messages.{mail_send_message}
use e_mail_factory.SendQueue.Queue.{
  undeleted, merge_error, is_cancelled, no_error, report_sending, send_loop, final_status, not_sent,
  fresh, send_queue_exec,
}

-- The messages that were sent without an error, up to the first that was cancelled.
abbrev pub successes : (ℕ → Answers) → List ℕ → ℕ
successes answers [] = 0
successes answers (uid ∷ uids) = elim (mail_send_message (answers uid)).error [
  | none ↦ suc (successes answers uids)
  | some e ↦ if is_cancelled (some e) then 0 else successes answers uids
]

record Accounts (answers : ℕ → Answers) (total : ℕ) (uids : List ℕ) (p q : Progress) : Type 0 where
  counted : not_sent total q + successes answers uids ≡ p.j + length uids
  interrupted : is_cancelled q.error ≡ true → 0 < not_sent total q
  clean : not_sent total q ≡ 0 → no_error q.error ≡ true

merge_error-whole :
    (old : Option SendError) (e : SendError)
    → is_cancelled (some e) ≡ false
    → is_cancelled (some (merge_error old e)) ≡ false
merge_error-whole none e h = h
merge_error-whole (some old) e h = refl

send_loop-Accounts :
    (answers : ℕ → Answers) (total : ℕ) (uids : List ℕ) (p : Progress)
    → p.i + length uids ≡ total
    → is_cancelled p.error ≡ false
    → (p.j ≡ 0 → no_error p.error ≡ true)
    → Accounts answers total uids p (send_loop answers total uids p)
unfolding send_loop
send_loop-Accounts answers total [] p left whole clean = record {
  counted = omega arith;
  interrupted = λ h. ground (arith, h);
  clean = λ h. clean (omega arith);
}
send_loop-Accounts answers total (uid ∷ uids) p left whole clean =
    elim (Option-cases (mail_send_message (answers uid)).error) [
      | inl e ↦
          let q = report_sending total uid (mail_send_message (answers uid)) p in
          let ih =
            send_loop-Accounts answers total uids (record q { i = suc p.i }) (omega arith) whole
              clean in
          rw (e, send_loop)
            (record {
              counted = rw (e, successes) (omega (arith, ih.counted));
              interrupted = ih.interrupted;
              clean = ih.clean;
            })
      | inr (e, h) ↦ elim (Bool-cases (is_cancelled (some e))) [
        | inl gone ↦
            rw (h, send_loop)
              (rw (gone, send_loop)
                (record {
                  counted = rw (h, successes) (rw (gone, successes) (omega arith));
                  interrupted = λ _. omega arith;
                  clean = λ zero. absurd (omega arith);
                }))
        | inr there ↦
            let q = report_sending total uid (mail_send_message (answers uid)) p in
            let ih =
              send_loop-Accounts answers total uids
                (record q { i = suc p.i; j = suc p.j; error = some (merge_error p.error e) })
                (omega arith) (merge_error-whole p.error e there) (λ zero. absurd (omega arith)) in
            rw (h, send_loop)
              (rw (there, send_loop)
                (record {
                  counted = rw (h, successes) (rw (there, successes) (omega (arith, ih.counted)));
                  interrupted = ih.interrupted;
                  clean = ih.clean;
                }))
      ]
    ]

final_status-count :
    (j total sent : ℕ) (error : Option SendError)
    → j + sent ≡ total
    → (is_cancelled error ≡ true → 0 < j)
    → final_status j total error
      ≡ (if ltb 0 (total - sent) then failed_to_send (total - sent) total else complete)
unfolding final_status
final_status-count j total sent error sum interrupted = elim (Bool-cases (is_cancelled error)) [
  | inl h ↦ ground (arith, h, interrupted h)
  | inr h ↦ ground (arith, h)
]

expunged-count :
    (j total sent : ℕ) (error : Option SendError)
    → j + sent ≡ total
    → (j ≡ 0 → no_error error ≡ true)
    → (nat_beq j 0 && no_error error) ≡ nat_beq (total - sent) 0
expunged-count j total sent error sum clean = ground (arith, clean)

-- The last report of a queue with something to send: how many of its messages were not sent, of all,
-- or that it is complete where none is left; a message was sent if no error was met and none before
-- it was cancelled. That sending was cancelled is never reported as such, and the queue is expunged
-- exactly if all was sent.
pub send_queue_exec-reports :
    (answers : ℕ → Answers) (uids : List (ℕ × Option Bool)) (uid : ℕ) (rest : List ℕ)
    → undeleted uids ≡ uid ∷ rest
    → let total = suc (length rest) in
      let left = total - successes answers (uid ∷ rest) in
      let result = send_queue_exec answers uids in
      ((earlier : List Status) × (result.reports
          ≡ earlier ++ (if ltb 0 left then failed_to_send left total else complete) ∷ []))
      × (result.expunged ≡ nat_beq left 0)
unfolding send_queue_exec
send_queue_exec-reports answers uids uid rest there =
    let total = suc (length rest) in
    let p = send_loop answers total (uid ∷ rest) fresh in
    let sent = successes answers (uid ∷ rest) in
    let r = send_loop-Accounts answers total (uid ∷ rest) fresh (omega arith) refl (λ _. refl) in
    rw (there, send_queue_exec)
      (
        (
          p.reports,
          ap (λ (x : Status). p.reports ++ x ∷ [])
              (final_status-count (not_sent total p) total sent p.error (omega (arith, r.counted))
                r.interrupted),
        ),
        expunged-count (not_sent total p) total sent p.error (omega (arith, r.counted)) r.clean,
      )
