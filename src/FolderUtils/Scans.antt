-- ===== src/FolderUtils/Scans.antt =====
-- libemail-engine/e-mail-folder-utils.c: what the loop over the digests leaves in the trash.
use e_mail_factory.Base.{
  ℕ, ◌≡◌, refl, sym, ap, ◌∙◌, inl, inr, Text, text_eq, nat_eq, nat_beq, nat_beq_iff, text_beq,
  text_beq_iff, if◌then◌else◌, option_beq, option_beq_iff, Bool, true, false, Bool-cases, List, [],
  ◌∷◌, Option, none, some, arith, All, lookup, insert, remove, lookup-insert, lookup-remove,
}
use e_mail_factory.FolderUtils.{Folder}
use e_mail_factory.FolderUtils.Duplicates.{scan_duplicates, remove_keys}

-- The text is in the list.
abbrev pub holds_text : Text → List Text → Bool
holds_text k [] = false
holds_text k (j ∷ js) = if text_beq j k then true else holds_text k js

-- GHashTableIter goes through the entries of the table.
pub record Iterates (iterate : List (Text × Option Text) → List (Text × Option Text)) : Type 0 where
  pub sound :
      (table : List (Text × Option Text))
      → All (λ (e : Text × Option Text). lookup e.0 table ≡ some e.1) (iterate table)
  pub complete :
      (table : List (Text × Option Text)) (uid : Text) (value : Option Text)
      → lookup uid table ≡ some value
      → lookup uid (iterate table) ≡ some value

pub empty_table : (k : Text) (v : Option Text) → ¬ (lookup k [] ≡ some v)
unfolding lookup
empty_table k v e = cc

pub empty_ids : (id : ℕ) (digest : Text) → ¬ (lookup id [] ≡ some digest)
unfolding lookup
empty_ids id digest e = cc

module _ (folder : Folder) where
  pub lookup-remove_keys :
      (uid : Text) (trash : List Text) (table : List (Text × Option Text))
      → lookup uid (remove_keys folder trash table)
        ≡ (if holds_text uid trash then none else lookup uid table)
  unfolding remove_keys
  lookup-remove_keys uid [] table = refl
  lookup-remove_keys uid (k ∷ trash) table =
      ground (arith, lookup-remove_keys uid trash (remove k table), lookup-remove k uid table)

  module _ (table : List (Text × Option Text)) where
    -- A message that is not reported, with the digest and the id.
    abbrev pub IsOriginal : Text → ℕ → Text → Type 0
    IsOriginal uid id digest =
        (folder.message_id uid ≡ id)
        × (folder.is_deleted uid ≡ false)
        × (lookup uid table ≡ some (some digest))

    module _ (trash : List Text) where
      -- Each digest that stands for an id is that of a message in the trash.
      abbrev pub HasOriginals : List (ℕ × Text) → Type 0
      HasOriginals unique_ids =
          (id : ℕ) (digest : Text)
          → lookup id unique_ids ≡ some digest
          → (uid : Text) × (holds_text uid trash ≡ true) × IsOriginal uid id digest

      -- What the rest of the loop throws away is in the trash.
      abbrev pub Within : List Text → Type 0
      Within now = (k : Text) → holds_text k now ≡ true → holds_text k trash ≡ true

      -- A message has an original in the trash.
      abbrev pub IsDuplicate : Text → Option Text → Type 0
      IsDuplicate uid value =
          (digest : Text) × (other : Text) × (value ≡ some digest)
          × (folder.is_deleted uid ≡ false)
          × (holds_text other trash ≡ true)
          × IsOriginal other (folder.message_id uid) digest

      Within-tail : (k : Text) (now : List Text) → Within (k ∷ now) → Within now
      Within-tail k now h j e =
          h j
            (elim (Bool-cases (text_beq k j)) [ inl here ↦ rw here refl | inr other ↦ rw other e ])

      Within-head : (k : Text) (now : List Text) → Within (k ∷ now) → holds_text k trash ≡ true
      Within-head k now h = h k (ground (arith, text_beq_iff k k))

      HasOriginals-insert :
          (uid digest : Text) (unique_ids : List (ℕ × Text))
          → HasOriginals unique_ids
          → holds_text uid trash ≡ true
          → IsOriginal uid (folder.message_id uid) digest
          → HasOriginals (insert (folder.message_id uid) digest unique_ids)
      HasOriginals-insert uid digest unique_ids h kept this id d e =
          elim (Bool-cases (nat_beq (folder.message_id uid) id)) [
            | inl here ↦
                let same : some digest ≡ some d =
                  sym (lookup-insert (folder.message_id uid) id digest unique_ids ∙ rw here refl)
                  ∙ e in
                (
                  uid,
                  kept,
                  (
                    (nat_beq_iff (folder.message_id uid) id).0 here,
                    this.1,
                    this.2 ∙ ap (λ (o : Option Text). some o) same,
                  ),
                )
            | inr other ↦ h id d (
                sym (lookup-insert (folder.message_id uid) id digest unique_ids ∙ rw other refl)
                ∙ e)
          ]

      -- The head of the loop, where it is the message in question.
      scan_head :
          (uid : Text) (value : Option Text) (entries : List (Text × Option Text))
          (unique_ids : List (ℕ × Text))
          → Within (scan_duplicates folder ((uid, value) ∷ entries) unique_ids)
          → HasOriginals unique_ids
          → holds_text uid trash ≡ false
          → IsDuplicate uid value
      unfolding scan_duplicates
      scan_head uid none entries unique_ids within originals kept =
          let thrown : holds_text uid trash ≡ true = elim (Bool-cases (folder.is_deleted uid)) [
            | inl e ↦
                Within-head uid (scan_duplicates folder entries unique_ids)
                  (λ k h. within k (rw (e, scan_duplicates) h))
            | inr e ↦
                Within-head uid (scan_duplicates folder entries unique_ids)
                  (λ k h. within k (rw (e, scan_duplicates) h))
          ] in
          absurd (cc)
      scan_head uid (some digest) entries unique_ids within originals kept =
          elim (Bool-cases (folder.is_deleted uid)) [
            | inl e ↦
                let thrown =
                  Within-head uid (scan_duplicates folder entries unique_ids)
                    (λ k h. within k (rw (e, scan_duplicates) h)) in
                absurd (cc)
            | inr e ↦
                let seen = lookup (folder.message_id uid) unique_ids in
                elim (Bool-cases (option_beq seen (some digest))) [
                  | inl f ↦
                      let (other, thrown, original) =
                        originals (folder.message_id uid) digest
                          ((option_beq_iff seen (some digest)).0 f) in
                      (digest, other, refl, e, thrown, original)
                  | inr f ↦
                      let thrown =
                        Within-head uid
                          (scan_duplicates folder entries
                            (insert (folder.message_id uid) digest unique_ids))
                          (λ k h. within k (rw (e, scan_duplicates) (rw (f, scan_duplicates) h))) in
                      absurd (cc)
                ]
          ]

      -- What the rest of the loop is given.
      abbrev Continues : List (Text × Option Text) → Type 0
      Continues entries =
          (unique_ids : List (ℕ × Text)) × Within (scan_duplicates folder entries unique_ids)
          × HasOriginals unique_ids

      scan_tail :
          (uid : Text) (value : Option Text) (entries : List (Text × Option Text))
          (unique_ids : List (ℕ × Text))
          → lookup uid table ≡ some value
          → Within (scan_duplicates folder ((uid, value) ∷ entries) unique_ids)
          → HasOriginals unique_ids
          → Continues entries
      unfolding scan_duplicates
      scan_tail uid none entries unique_ids at within originals = (
        unique_ids,
        Within-tail uid (scan_duplicates folder entries unique_ids)
            (elim (Bool-cases (folder.is_deleted uid)) [
              | inl e ↦ (λ k h. within k (rw (e, scan_duplicates) h))
              | inr e ↦ (λ k h. within k (rw (e, scan_duplicates) h))
            ]),
        originals,
      )
      scan_tail uid (some digest) entries unique_ids at within originals =
          elim (Bool-cases (folder.is_deleted uid)) [
            | inl e ↦ (
              unique_ids,
              Within-tail uid (scan_duplicates folder entries unique_ids)
                  (λ k h. within k (rw (e, scan_duplicates) h)),
              originals,
            )
            | inr e ↦
                let seen = lookup (folder.message_id uid) unique_ids in
                elim (Bool-cases (option_beq seen (some digest))) [
                  | inl f ↦ (
                    unique_ids,
                    (λ k h. within k (rw (e, scan_duplicates) (rw (f, scan_duplicates) h))),
                    originals,
                  )
                  | inr f ↦
                      let more = insert (folder.message_id uid) digest unique_ids in
                      let whole : Within (uid ∷ scan_duplicates folder entries more) =
                        λ k h. within k (rw (e, scan_duplicates) (rw (f, scan_duplicates) h)) in
                      (
                        more,
                        Within-tail uid (scan_duplicates folder entries more) whole,
                        HasOriginals-insert uid digest unique_ids originals
                            (Within-head uid (scan_duplicates folder entries more) whole)
                            (refl, e, at),
                      )
                ]
          ]

      pub scan_originals :
          (entries : List (Text × Option Text)) (unique_ids : List (ℕ × Text)) (uid : Text)
          (value : Option Text)
          → All (λ (e : Text × Option Text). lookup e.0 table ≡ some e.1) entries
          → Within (scan_duplicates folder entries unique_ids)
          → HasOriginals unique_ids
          → lookup uid entries ≡ some value
          → holds_text uid trash ≡ false
          → IsDuplicate uid value
      unfolding lookup
      scan_originals [] unique_ids uid value sound within originals at kept = absurd (cc)
      scan_originals ((k, v) ∷ entries) unique_ids uid value sound within originals at kept =
          elim (Bool-cases (text_beq k uid)) [
            | inl here ↦
                let same : some v ≡ some value = rw here at at in
                let here' : k ≡ uid = (text_beq_iff k uid).0 here in
                let head : IsDuplicate k v =
                  scan_head k v entries unique_ids within originals
                    (ap (λ (x : Text). holds_text x trash) here' ∙ kept) in
                let (digest, other, this, alive, thrown, original) = head in
                (
                  digest,
                  other,
                  ground (arith, same, this),
                  ap folder.is_deleted (sym here') ∙ alive,
                  thrown,
                  (original.0 ∙ ap folder.message_id here', original.1, original.2),
                )
            | inr apart ↦
                let at' : lookup uid entries ≡ some value = rw apart at at in
                let (more, within', originals') =
                  scan_tail k v entries unique_ids sound.0 within originals in
                scan_originals entries more uid value sound.1 within' originals' at' kept
          ]
