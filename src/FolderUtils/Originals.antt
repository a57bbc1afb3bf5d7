-- ===== src/FolderUtils/Originals.antt =====
-- libemail-engine/e-mail-folder-utils.c: of each duplicate an original is left.
use e_mail_factory.Base.{
  ℕ, ◌≡◌, refl, sym, ap, ◌∙◌, inl, inr, Text, text_eq, nat_eq, text_beq, text_beq_iff, true, false,
  Bool-cases, Option-cases, List, [], ◌∷◌, Option, none, some, arith, lookup, insert, from_some,
  lookup-insert,
}
use e_mail_factory.FolderUtils.{Folder}
use e_mail_factory.FolderUtils.Duplicates.{
  digest_of, scan_duplicates, remove_keys, hash_messages, find_duplicate_messages,
}
use e_mail_factory.FolderUtils.Scans.{
  holds_text, Iterates, empty_table, empty_ids, lookup-remove_keys, scan_originals,
}

module _ (folder : Folder) where
  module _ (uids : List Text) where
    -- What a table of digests holds is a message that was asked for, with its digest.
    abbrev AreHashed : List (Text × Option Text) → Type 0
    AreHashed table =
        (uid : Text) (value : Option Text)
        → lookup uid table ≡ some value
        → (holds_text uid uids ≡ true)
          × (message : ℕ) × (folder.get_message uid ≡ some message)
          × (digest_of folder message ≡ value)

    hash_messages-AreHashed :
        (left : List Text) (start table : List (Text × Option Text))
        → ((k : Text) → holds_text k left ≡ true → holds_text k uids ≡ true)
        → AreHashed start
        → hash_messages folder left start ≡ some table
        → AreHashed table
    unfolding hash_messages
    hash_messages-AreHashed [] start table among hashed e = λ uid value at.
        hashed uid value (ap (lookup uid) (from_some (λ t. start ≡ t) start table refl e) ∙ at)
    hash_messages-AreHashed (k ∷ left) start table among hashed e =
        elim (Option-cases (folder.get_message k)) [
          | inl f ↦ let clash : none ≡ some table = rw (f, hash_messages) at e in absurd (cc)
          | inr (message, f) ↦
              let rest : hash_messages folder left (insert k (digest_of folder message) start)
                  ≡ some table =
                rw (f, hash_messages) at e in
              hash_messages-AreHashed left (insert k (digest_of folder message) start) table
                (λ j h. among j (elim (Bool-cases (text_beq k j)) [
                  | inl here ↦ rw here refl
                  | inr other ↦ rw other h
                ]))
                (λ uid value at. elim (Bool-cases (text_beq k uid)) [
                  | inl here ↦
                      let here' : k ≡ uid = (text_beq_iff k uid).0 here in
                      let same : some (digest_of folder message) ≡ some value =
                        sym (lookup-insert k uid (digest_of folder message) start ∙ rw here refl)
                        ∙ at in
                      (
                        among uid (rw here refl),
                        message,
                        ap folder.get_message (sym here') ∙ f,
                        ground (arith, same),
                      )
                  | inr other ↦ hashed uid value (
                      sym (lookup-insert k uid (digest_of folder message) start ∙ rw other refl)
                      ∙ at)
                ])
                rest
        ]

  -- No content is lost: each message that is reported as a duplicate is one of those asked about and
  -- is not deleted, and another of those asked about, which is not deleted and is not reported, has
  -- the same message id and a content of the same digest; in whatever order the hash table is gone
  -- through, as long as that visits its entries.
  pub find_duplicate_messages-originals :
      (uids : List Text) (result : List (Text × Option Text)) (uid : Text) (value : Option Text)
      → Iterates folder.iterate
      → find_duplicate_messages folder uids ≡ some result
      → lookup uid result ≡ some value
      → (other : Text) × (digest : Text) × (m : ℕ) × (n : ℕ) × (holds_text uid uids ≡ true)
        × (folder.is_deleted uid ≡ false)
        × (folder.get_message uid ≡ some m)
        × (digest_of folder m ≡ some digest)
        × (holds_text other uids ≡ true)
        × (folder.is_deleted other ≡ false)
        × (folder.get_message other ≡ some n)
        × (digest_of folder n ≡ some digest)
        × (folder.message_id other ≡ folder.message_id uid)
        × (lookup other result ≡ none)
  unfolding find_duplicate_messages
  find_duplicate_messages-originals uids result uid value iterates e at =
      elim (Option-cases (hash_messages folder uids [])) [
        | inl f ↦
            let clash : none ≡ some result = rw (f, find_duplicate_messages) at e in absurd (cc)
        | inr (table, f) ↦
            let trash = scan_duplicates folder (folder.iterate table) [] in
            let made : some (remove_keys folder trash table) ≡ some result =
              rw (f, find_duplicate_messages) at e in
            let made' : remove_keys folder trash table ≡ result =
              from_some (λ t. remove_keys folder trash table ≡ t) _ result refl made in
            let look =
              λ (k : Text). ap (lookup k) (sym made') ∙ lookup-remove_keys folder k trash table in
            let found : (holds_text uid trash ≡ false) × (lookup uid table ≡ some value) =
              ground (arith, look uid, at) in
            let hashed =
              hash_messages-AreHashed uids uids [] table (λ k h. h)
                (λ k v h. absurd (empty_table k v h)) f in
            let (digest, other, this, alive, thrown, original) =
              scan_originals folder table trash (folder.iterate table) [] uid value
                (iterates.sound table) (λ k h. h) (λ id d h. absurd (empty_ids id d h))
                (iterates.complete table uid value found.1) found.0 in
            let (asked, m, got, digested) = hashed uid value found.1 in
            let (asked', n, got', digested') = hashed other (some digest) original.2 in
            (
              other,
              digest,
              m,
              n,
              asked,
              alive,
              got,
              digested ∙ this,
              asked',
              original.1,
              got',
              digested',
              original.0,
              look other ∙ rw thrown refl,
            )
      ]
