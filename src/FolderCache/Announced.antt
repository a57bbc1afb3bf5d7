-- ===== src/FolderCache/Announced.antt =====
-- libemail-engine/mail-folder-cache.c: folder_changed_cb run twice on the same messages, with the date
-- that it keeps in between.
use e_mail_factory.Base.{
  ℕ, ◌%◌, ◌^◌, ◌<◌, ◌≡◌, ◌⊎◌, refl, sym, ap, ◌∙◌, inl, inr, Text, ℤ, pos, negsuc, true, false, List,
  [], ◌∷◌, Option, none, some, length, All, arith, ltb, if◌then◌else◌, Bool-cases, lookup, insert,
  lookup-insert_self, nat_eq, int_beq,
}
use e_mail_factory.FolderCache.{Camel, MessageInfo, FolderInfo, FolderUpdate, Cache}
use e_mail_factory.FolderCache.Updates.{flush_updates, push_update, update_1folder, count_unread}
use e_mail_factory.FolderCache.Callbacks.{
  NewMail, scan_added, no_mail, or_zero, gint_of, counts_new_mail, scan_changes, report_changes,
  folder_changed_cb,
}
use e_mail_factory.FolderCache.Cases.{report_changes_cases}
use e_mail_factory.FolderCache.NewMail.{
  IsNotAfter, IsBrandNew, IsOld, Selects, nothing, missing, passed, taken, IsDateOf,
  scan_added-reports,
}

-- The date is in the range of gint: before January 2038.
abbrev pub IsBefore2038 : Option MessageInfo → Type 0
IsBefore2038 none = Unit
IsBefore2038 (some info) = info.date_received < 2 ^ 31

not_both :
    (latest later : ℤ) (info : MessageInfo)
    → IsNotAfter latest later
    → IsBrandNew later info
    → IsOld latest info
    → ⊥
not_both latest later info le new (inl seen) =
    absurd (let no : true ≡ false = sym seen ∙ new.0 in cc)
not_both latest later info le new (inr (inl junk)) =
    absurd (let no : true ≡ false = sym junk ∙ new.1 in cc)
not_both latest later info le new (inr (inr (inl deleted))) =
    absurd (let no : true ≡ false = sym deleted ∙ new.2 in cc)
not_both latest later info le new (inr (inr (inr early))) = omega (arith, le, new.3, early)

-- Nothing is brand new beyond a later date that no brand new message exceeds.
Selects-later :
    (latest later : ℤ) (infos : List (Option MessageInfo)) (new again : List MessageInfo)
    → IsNotAfter latest later
    → Selects latest infos new
    → All (λ (x : MessageInfo). IsNotAfter (pos x.date_received) later) new
    → Selects later infos again
    → again ≡ []
Selects-later latest later [] [] [] le nothing bound nothing = refl
Selects-later latest later [] [] (_ ∷ again) le _ bound others = elim others [ ]
Selects-later latest later [] (_ ∷ new) again le chosen bound _ = elim chosen [ ]
Selects-later latest later (none ∷ infos) new again le (missing chosen) bound (missing others) =
    Selects-later latest later infos new again le chosen bound others
Selects-later latest later (some info ∷ infos) new again le (passed _ old chosen) bound
      (passed _ _ others) =
    Selects-later latest later infos new again le chosen bound others
Selects-later latest later (some info ∷ infos) (_ ∷ new) again le (taken _ _ chosen) bound
      (passed _ _ others) =
    Selects-later latest later infos new again le chosen bound.1 others
Selects-later latest later (some info ∷ infos) new (_ ∷ again) le (passed _ old chosen) bound
      (taken _ fresh others) =
    absurd (not_both latest later info le fresh old)
Selects-later latest later (some info ∷ infos) (_ ∷ new) (_ ∷ again) le (taken _ _ chosen) bound
      (taken _ fresh others) =
    absurd (omega (arith, fresh.3, bound.0))

Selects-before :
    (latest : ℤ) (infos : List (Option MessageInfo)) (new : List MessageInfo)
    → Selects latest infos new
    → All IsBefore2038 infos
    → All (λ (x : MessageInfo). x.date_received < 2 ^ 31) new
Selects-before latest [] [] nothing before = tt
Selects-before latest [] (_ ∷ new) chosen before = elim chosen [ ]
Selects-before latest (none ∷ infos) new (missing chosen) before =
    Selects-before latest infos new chosen before.1
Selects-before latest (some info ∷ infos) new (passed _ _ chosen) before =
    Selects-before latest infos new chosen before.1
Selects-before latest (some info ∷ infos) (_ ∷ new) (taken _ _ chosen) before =
    (before.0, Selects-before latest infos new chosen before.1)

gint_of_fits : (n : ℕ) → n < 2 ^ 31 → gint_of (pos n) ≡ pos n
gint_of_fits n fits = ground (arith, fits)

gint_of-gint_of : (x : ℤ) → gint_of (gint_of x) ≡ gint_of x
gint_of-gint_of (pos n) = elim (Bool-cases (ltb (n % 2 ^ 32) (2 ^ 31))) [
  | inl e ↦ rw e (ground (arith, e))
  | inr e ↦ rw e (ground (arith, e))
]
gint_of-gint_of (negsuc n) = elim (Bool-cases (ltb (n % 2 ^ 32) (2 ^ 31))) [
  | inl e ↦ rw e (ground (arith, e))
  | inr e ↦ rw e (ground (arith, e))
]

gint_of-IsDateOf :
    (latest : ℤ) (new : List MessageInfo)
    → IsDateOf latest new
    → All (λ (x : MessageInfo). x.date_received < 2 ^ 31) new
    → gint_of latest ≡ latest
gint_of-IsDateOf latest [] dated bound = elim dated [ ]
gint_of-IsDateOf latest (x ∷ new) (inl e) bound =
    ap gint_of e ∙ gint_of_fits x.date_received bound.0 ∙ sym e
gint_of-IsDateOf latest (x ∷ new) (inr dated) bound = gint_of-IsDateOf latest new dated bound.1

abbrev KeepsDates : Cache → Cache → Type 0
KeepsDates c c' = c'.last_newmail_per_folder ≡ c.last_newmail_per_folder

push_update-KeepsDates :
    (env : Camel) (up : FolderUpdate) (c : Cache) → KeepsDates c (push_update env up c)
unfolding push_update flush_updates
push_update-KeepsDates env up c = ground arith

update_1folder-KeepsDates :
    (env : Camel) (s : ℕ) (mfi : FolderInfo) (new : ℕ) (uid sender subject : Option Text)
    (info : Option ℤ) (c : Cache)
    → KeepsDates c (update_1folder env s mfi new uid sender subject info c)
unfolding update_1folder
update_1folder-KeepsDates env s mfi new uid sender subject info c =
    elim (Bool-cases (int_beq (count_unread env c mfi.folder info) (negsuc 0))) [
      | inl e ↦ rw e refl
      | inr e ↦ rw e (push_update-KeepsDates env _ c)
    ]

report_changes-KeepsDates :
    (env : Camel) (f : ℕ) (mail : NewMail) (c : Cache) → KeepsDates c (report_changes env f mail c)
report_changes-KeepsDates env f mail c =
    report_changes_cases (KeepsDates c) env f mail c refl λ si mfi.
      update_1folder-KeepsDates env si.store mfi mail.count mail.uid mail.sender mail.subject none c

-- The date that a scan leaves survives being kept as a gint, and nothing is brand new beyond it.
scan_added_again :
    (floor : ℤ) (infos : List (Option MessageInfo))
    → gint_of floor ≡ floor
    → All IsBefore2038 infos
    → let latest = (scan_added floor infos (no_mail floor)).latest in
      (scan_added (gint_of latest) infos (no_mail (gint_of latest))).count ≡ 0
scan_added_again floor infos whole before =
    let latest = (scan_added floor infos (no_mail floor)).latest in
    let (new, chosen, count, uid, sender, subject, from_floor, newest, dated) =
      scan_added-reports floor infos in
    let kept : gint_of latest ≡ latest = elim dated [
      | inl e ↦ ap gint_of e ∙ whole ∙ sym e
      | inr h ↦ gint_of-IsDateOf latest new h (Selects-before floor infos new chosen before)
    ] in
    let second = scan_added-reports latest infos in
    let none_left =
      Selects-later floor latest infos new second.0 from_floor chosen newest second.1 in
    rw kept (second.2 ∙ ap length none_left)

-- What folder_changed_cb does to the date of the folder.
folder_changed_cb-dates :
    (env : Camel) (f : ℕ) (added : List (Option MessageInfo)) (c : Cache)
    → let mail = scan_changes env f added c in
      let dates = (folder_changed_cb env f added c).last_newmail_per_folder in
      ((mail.count ≡ 0) × (dates ≡ c.last_newmail_per_folder)) ⊎ (lookup f dates ≡ some mail.latest)
unfolding folder_changed_cb
folder_changed_cb-dates env f added c =
    let mail = scan_changes env f added c in
    elim (Bool-cases (ltb 0 mail.count)) [
      | inl e ↦
          let kept : Cache = record c {
            last_newmail_per_folder = insert f mail.latest c.last_newmail_per_folder;
          } in
          inr (
            rw e (
              ap (lookup f) (report_changes-KeepsDates env f mail kept)
              ∙ lookup-insert_self f mail.latest c.last_newmail_per_folder))
      | inr e ↦ inl (ground (arith, e), rw e (report_changes-KeepsDates env f mail c))
    ]

-- A message is announced once: when folder_changed_cb gets the same messages again, it counts none of
-- them, given that all their dates are before 2038, so that a gint can keep them.
pub folder_changed_cb_again :
    (env : Camel) (f : ℕ) (added : List (Option MessageInfo)) (c : Cache)
    → All IsBefore2038 added
    → (scan_changes env f added (folder_changed_cb env f added c)).count ≡ 0
unfolding scan_changes
folder_changed_cb_again env f added c before =
    let first = gint_of (or_zero (lookup f c.last_newmail_per_folder)) in
    elim (Bool-cases (counts_new_mail env f)) [
      | inr e ↦ rw e refl
      | inl e ↦ elim (folder_changed_cb-dates env f added c) [
        | inl (zero_mail, same) ↦
            ap
              (λ (dates : List (ℕ × ℤ)).
                (if counts_new_mail env f
                  then scan_added (gint_of (or_zero (lookup f dates))) added
                      (no_mail (gint_of (or_zero (lookup f dates))))
                  else no_mail (gint_of (or_zero (lookup f dates)))).count)
              same
            ∙ zero_mail
        | inr found ↦
            let mail = scan_added first added (no_mail first) in
            let scanned : scan_changes env f added c ≡ mail = rw e refl in
            let stored = found ∙ ap (λ (m : NewMail). some m.latest) scanned in
            rw e (
              ap
                (λ (o : Option ℤ).
                  (scan_added (gint_of (or_zero o)) added (no_mail (gint_of (or_zero o)))).count)
                stored
              ∙ scan_added_again first added
                  (gint_of-gint_of (or_zero (lookup f c.last_newmail_per_folder))) before)
      ]
    ]
