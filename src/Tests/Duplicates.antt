-- ===== src/Tests/Duplicates.antt =====
-- libemail-engine/e-mail-folder-utils.c at three messages of one id, of which two have one content.
use e_mail_factory.Base.{
  ℕ, ◌≡◌, ◌∙◌, refl, Text, codes, text_eq, text_beq, nat_eq, if◌then◌else◌, true, false, List, [],
  ◌∷◌, Option, none, some, arith, All, lookup, insert, remove, lookup-remove, text_beq_iff,
  Bool-cases, inl, inr,
}
use e_mail_factory.FolderUtils.{Folder}
use e_mail_factory.FolderUtils.Duplicates.{
  digest_of, hash_messages, scan_duplicates, remove_keys, find_duplicate_messages,
}
use e_mail_factory.FolderUtils.Scans.{holds_text}
use e_mail_factory.FolderUtils.Originals.{find_duplicate_messages-originals}

-- A table without the entries that an earlier one hides.
abbrev visible : List (Text × Option Text) → List (Text × Option Text)
visible [] = []
visible ((k, v) ∷ table) = (k, v) ∷ remove k (visible table)

All-remove :
    (P Q : Text × Option Text → Type 0) (k : Text) (entries : List (Text × Option Text))
    → ((e : Text × Option Text) → text_beq e.0 k ≡ false → P e → Q e)
    → All P entries
    → All Q (remove k entries)
unfolding remove
All-remove P Q k [] f h = tt
All-remove P Q k ((j, v) ∷ entries) f h = elim (Bool-cases (text_beq j k)) [
  | inl e ↦ rw e (All-remove P Q k entries f h.1)
  | inr e ↦ rw e (f (j, v) e h.0, All-remove P Q k entries f h.1)
]

visible_sound :
    (table : List (Text × Option Text))
    → All (λ (e : Text × Option Text). lookup e.0 table ≡ some e.1) (visible table)
unfolding lookup
visible_sound [] = tt
visible_sound ((k, v) ∷ table) = (
  ground (arith, text_beq_iff k k),
  All-remove (λ (e : Text × Option Text). lookup e.0 table ≡ some e.1) _ k (visible table)
      (λ e apart at. ground (arith, text_beq_iff k e.0, text_beq_iff e.0 k, apart, at))
      (visible_sound table),
)

visible_complete :
    (table : List (Text × Option Text)) (uid : Text) (value : Option Text)
    → lookup uid table ≡ some value
    → lookup uid (visible table) ≡ some value
unfolding lookup
visible_complete [] uid value h = h
visible_complete ((k, v) ∷ table) uid value h = elim (Bool-cases (text_beq k uid)) [
  | inl e ↦ rw e (rw e at h)
  | inr e ↦ rw e (
      lookup-remove k uid (visible table)
      ∙ ground (arith, e, visible_complete table uid value (rw e at h)))
]

-- The messages "a", "b" and "c" have one id; "a" and "c" have one content.
abbrev content_of : Text → ℕ
content_of uid = if text_beq uid (codes "b") then 2 else 1

abbrev folder : Folder
folder = record {
  get_message = λ uid. some (content_of uid);
  get_content = λ message. some message;
  decode = λ content. some (content ∷ []);
  checksum = λ bytes. bytes;
  message_id = λ uid. 7;
  is_deleted = λ uid. false;
  iterate = visible;
}

abbrev uids : List Text
uids = codes "a" ∷ codes "c" ∷ codes "b" ∷ []

abbrev reported : List (Text × Option Text)
reported = (codes "c", some (1 ∷ [])) ∷ []

find_duplicate_messages-originals_example :
    (other : Text) × (digest : Text) × (m : ℕ) × (n : ℕ) × (holds_text (codes "c") uids ≡ true)
    × (folder.is_deleted (codes "c") ≡ false)
    × (folder.get_message (codes "c") ≡ some m)
    × (digest_of folder m ≡ some digest)
    × (holds_text other uids ≡ true)
    × (folder.is_deleted other ≡ false)
    × (folder.get_message other ≡ some n)
    × (digest_of folder n ≡ some digest)
    × (folder.message_id other ≡ folder.message_id (codes "c"))
    × (lookup other reported ≡ none)
unfolding find_duplicate_messages hash_messages scan_duplicates remove_keys digest_of lookup insert
    remove
find_duplicate_messages-originals_example =
    find_duplicate_messages-originals folder uids reported (codes "c") (some (1 ∷ []))
      (record { sound = visible_sound; complete = visible_complete }) refl refl
