-- ===== src/FolderCache/NewMail.antt =====
-- libemail-engine/mail-folder-cache.c: what folder_changed_cb counts as new mail and reports about
-- it.
use mathlib.Core.List.{append-nil, append_assoc}
use e_mail_factory.Base.{
  ◌+◌, ◌≤◌, ◌<◌, ◌≡◌, ◌⊎◌, refl, inl, inr, Text, ℤ, pos, pos_part, neg_part, true, false, List, [],
  ◌∷◌, ◌++◌, Option, none, some, length, length-append, All, All-append, subst, arith, Bool-cases,
  ltb_ℤ,
}
use e_mail_factory.FolderCache.{MessageInfo}
use e_mail_factory.FolderCache.Callbacks.{NewMail, is_new, count_message, scan_added, no_mail}

-- a ≤ b
abbrev pub IsNotAfter : ℤ → ℤ → Type 0
IsNotAfter a b = pos_part a + neg_part b ≤ pos_part b + neg_part a

-- The message is unread, neither junk nor deleted, and later than the date.
abbrev pub IsBrandNew : ℤ → MessageInfo → Type 0
IsBrandNew latest info =
    (info.seen ≡ false)
    × (info.junk ≡ false)
    × (info.is_deleted ≡ false)
    × (pos_part latest < info.date_received + neg_part latest)

-- The message is read, or junk, or deleted, or no later than the date.
abbrev pub IsOld : ℤ → MessageInfo → Type 0
IsOld latest info =
    (info.seen ≡ true)
    ⊎ ((info.junk ≡ true) ⊎ ((info.is_deleted ≡ true) ⊎ IsNotAfter (pos info.date_received) latest))

-- The second list has the brand new messages of the first, in their order, and no others.
pub data Selects (latest : ℤ) : List (Option MessageInfo) → List MessageInfo → Type 0 where
  nothing : Selects latest [] []
  missing :
      {infos : List (Option MessageInfo)} {new : List MessageInfo}
      → Selects latest infos new
      → Selects latest (none ∷ infos) new
  passed :
      {infos : List (Option MessageInfo)} {new : List MessageInfo} (info : MessageInfo)
      → IsOld latest info
      → Selects latest infos new
      → Selects latest (some info ∷ infos) new
  taken :
      {infos : List (Option MessageInfo)} {new : List MessageInfo} (info : MessageInfo)
      → IsBrandNew latest info
      → Selects latest infos new
      → Selects latest (some info ∷ infos) (info ∷ new)

-- A field of the only message, and NULL where there is none or more than one.
abbrev pub only : (MessageInfo → Text) → List MessageInfo → Option Text
only f [] = none
only f (x ∷ []) = some (f x)
only f (_ ∷ _ ∷ _) = none

-- The date is that of one of the messages.
abbrev pub IsDateOf : ℤ → List MessageInfo → Type 0
IsDateOf latest [] = ⊥
IsDateOf latest (x ∷ xs) = (latest ≡ pos x.date_received) ⊎ IsDateOf latest xs

record Reports (floor : ℤ) (mail : NewMail) (xs : List MessageInfo) : Type 0 where
  count : mail.count ≡ length xs
  uid : mail.uid ≡ only (λ x. x.uid) xs
  sender : mail.sender ≡ only (λ x. x.sender) xs
  subject : mail.subject ≡ only (λ x. x.subject) xs
  from_floor : IsNotAfter floor mail.latest
  newest : All (λ (x : MessageInfo). IsNotAfter (pos x.date_received) mail.latest) xs
  dated : (mail.latest ≡ floor) ⊎ IsDateOf mail.latest xs

is_new_cases :
    (floor : ℤ) (info : MessageInfo)
    → ((is_new floor info ≡ true) × IsBrandNew floor info)
      ⊎ ((is_new floor info ≡ false) × IsOld floor info)
is_new_cases floor info = elim (Bool-cases info.seen) [
  | inl e ↦ inr (rw e refl, inl e)
  | inr e ↦ elim (Bool-cases info.junk) [
    | inl d ↦ inr (rw e (rw d refl), inr (inl d))
    | inr d ↦ elim (Bool-cases info.is_deleted) [
      | inl b ↦ inr (rw e (rw d (rw b refl)), inr (inr (inl b)))
      | inr b ↦ elim (Bool-cases (ltb_ℤ floor (pos info.date_received))) [
        | inl l ↦ inl (ground (arith, e, d, b, l), (e, d, b, ground (arith, l)))
        | inr l ↦ inr (ground (arith, e, d, b, l), inr (inr (inr (ground (arith, l)))))
      ]
    ]
  ]
]

All-mono :
    (m n : ℤ) (xs : List MessageInfo)
    → IsNotAfter m n
    → All (λ (x : MessageInfo). IsNotAfter (pos x.date_received) m) xs
    → All (λ (x : MessageInfo). IsNotAfter (pos x.date_received) n) xs
All-mono m n [] le h = tt
All-mono m n (x ∷ xs) le h = (omega (arith, le, h.0), All-mono m n xs le h.1)

only-append :
    (f : MessageInfo → Text) (x : MessageInfo) (xs : List MessageInfo) (info : MessageInfo)
    → only f ((x ∷ xs) ++ info ∷ []) ≡ none
only-append f x [] info = refl
only-append f x (y ∷ xs) info = refl

IsDateOf-append :
    (latest : ℤ) (xs : List MessageInfo) (info : MessageInfo)
    → (latest ≡ pos info.date_received) ⊎ IsDateOf latest xs
    → IsDateOf latest (xs ++ info ∷ [])
IsDateOf-append latest [] info (inl e) = inl e
IsDateOf-append latest [] info (inr h) = absurd h
IsDateOf-append latest (x ∷ xs) info (inl e) = inr (IsDateOf-append latest xs info (inl e))
IsDateOf-append latest (x ∷ xs) info (inr (inl e)) = inl e
IsDateOf-append latest (x ∷ xs) info (inr (inr h)) = inr (IsDateOf-append latest xs info (inr h))

-- What a message that counts does to the date.
count_message-latest :
    (floor : ℤ) (info : MessageInfo) (acc : NewMail) (xs : List MessageInfo)
    → Reports floor acc xs
    → IsBrandNew floor info
    → IsNotAfter acc.latest (count_message info acc).latest
      × IsNotAfter (pos info.date_received) (count_message info acc).latest
      × IsDateOf (count_message info acc).latest (xs ++ info ∷ [])
count_message-latest floor info acc xs r new =
    elim (Bool-cases (ltb_ℤ acc.latest (pos info.date_received))) [
      | inl l ↦ rw l (ground (arith, l), omega arith, IsDateOf-append _ xs info (inl refl))
      | inr l ↦ rw l (
        omega arith,
        ground (arith, l),
        IsDateOf-append acc.latest xs info (elim r.dated [
          | inl e ↦ absurd (earlier acc.latest e (ground (arith, l)))
          | inr h ↦ inr h
        ]),
      )
    ]
  where
    earlier : (latest : ℤ) → latest ≡ floor → IsNotAfter (pos info.date_received) latest → ⊥
    earlier latest e le = omega (arith, new.3, subst (IsNotAfter (pos info.date_received)) e le)

count_message-Reports :
    (floor : ℤ) (info : MessageInfo) (acc : NewMail) (xs : List MessageInfo)
    → Reports floor acc xs
    → IsBrandNew floor info
    → Reports floor (count_message info acc) (xs ++ info ∷ [])
count_message-Reports floor info acc xs r new =
    let (later, own, dated) = count_message-latest floor info acc xs r new in
    let counted = counted_fields xs r in
    record {
      count = counted.0;
      uid = counted.1;
      sender = counted.2;
      subject = counted.3;
      from_floor = omega (arith, r.from_floor, later);
      newest =
          All-append
            (λ (y : MessageInfo). IsNotAfter (pos y.date_received) (count_message info acc).latest)
            xs (info ∷ []) (All-mono acc.latest _ xs later r.newest) (own, tt);
      dated = inr dated;
    }
  where
    counted_fields :
        (xs : List MessageInfo)
        → Reports floor acc xs
        → ((count_message info acc).count ≡ length (xs ++ info ∷ []))
          × ((count_message info acc).uid ≡ only (λ x. x.uid) (xs ++ info ∷ []))
          × ((count_message info acc).sender ≡ only (λ x. x.sender) (xs ++ info ∷ []))
          × ((count_message info acc).subject ≡ only (λ x. x.subject) (xs ++ info ∷ []))
    counted_fields [] r = (
      ground (arith, r.count),
      ground (arith, r.count),
      ground (arith, r.count),
      ground (arith, r.count),
    )
    counted_fields (x ∷ xs) r = (
      omega (arith, length-append xs (info ∷ []), r.count),
      ground (arith, only-append (λ x. x.uid) x xs info, r.count),
      ground (arith, only-append (λ x. x.sender) x xs info, r.count),
      ground (arith, only-append (λ x. x.subject) x xs info, r.count),
    )

scan_added-Reports :
    (floor : ℤ) (infos : List (Option MessageInfo)) (acc : NewMail) (xs : List MessageInfo)
    → Reports floor acc xs
    → (new : List MessageInfo) × Selects floor infos new
      × Reports floor (scan_added floor infos acc) (xs ++ new)
unfolding scan_added
scan_added-Reports floor [] acc xs r = ([], nothing, rw (append-nil xs) r)
scan_added-Reports floor (none ∷ infos) acc xs r =
    let (new, chosen, reports) = scan_added-Reports floor infos acc xs r in
    (new, missing chosen, reports)
scan_added-Reports floor (some info ∷ infos) acc xs r = elim (is_new_cases floor info) [
  | inl (e, fresh) ↦
      let (new, chosen, reports) =
        scan_added-Reports floor infos (count_message info acc) (xs ++ info ∷ [])
          (count_message-Reports floor info acc xs r fresh) in
      (info ∷ new, taken info fresh chosen, rw e (rw (← append_assoc xs (info ∷ []) new) reports))
  | inr (e, old) ↦
      let (new, chosen, reports) = scan_added-Reports floor infos acc xs r in
      (new, passed info old chosen, rw e reports)
]

-- The loop counts exactly the messages that are unread, neither junk nor deleted, and later than the
-- date that it is given; it reports a uid, a sender and a subject exactly when there is one such
-- message, and then its own; and the date that it leaves is that date or the date of one of them, and
-- no earlier than any of these.
pub scan_added-reports :
    (latest : ℤ) (infos : List (Option MessageInfo))
    → let mail = scan_added latest infos (no_mail latest) in
      (new : List MessageInfo) × Selects latest infos new
      × (mail.count ≡ length new)
      × (mail.uid ≡ only (λ x. x.uid) new)
      × (mail.sender ≡ only (λ x. x.sender) new)
      × (mail.subject ≡ only (λ x. x.subject) new)
      × IsNotAfter latest mail.latest
      × All (λ (x : MessageInfo). IsNotAfter (pos x.date_received) mail.latest) new
      × ((mail.latest ≡ latest) ⊎ IsDateOf mail.latest new)
scan_added-reports latest infos =
    let (new, chosen, r) = scan_added-Reports latest infos (no_mail latest) [] (record {
      count = refl;
      uid = refl;
      sender = refl;
      subject = refl;
      from_floor = omega arith;
      newest = tt;
      dated = inl refl;
    }) in
    (new, chosen, r.count, r.uid, r.sender, r.subject, r.from_floor, r.newest, r.dated)
