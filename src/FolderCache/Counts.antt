-- ===== src/FolderCache/Counts.antt =====
-- libemail-engine/mail-folder-cache.c: the count that update_1folder reports for Drafts and
-- Outbox.
use e_mail_factory.Base.{
  ℕ, ◌+◌, ◌≡◌, Text, ℤ, pos, negsuc, sub_ℕ, int_beq, nat_beq, true, ◌||◌, Option, some, arith,
  if◌then◌else◌,
}
use e_mail_factory.FolderCache.{Camel, FolderInfo, Cache}
use e_mail_factory.FolderCache.Updates.{
  count_unread, blank_update, push_update, is_special_case, less_positive, update_1folder,
}

subtract_both :
    (total gone junk : ℕ)
    → less_positive (less_positive (pos total) (pos gone)) (pos junk) ≡ sub_ℕ total (gone + junk)
subtract_both total gone junk = ground arith

drafts_special :
    (env : Camel) (c : Cache) (f : ℕ)
    → (env.folder_is_drafts f || env.folder_is_outbox f) ≡ true
    → is_special_case env c f ≡ true
drafts_special env c f h = ground arith

count_unread_drafts :
    (env : Camel) (c : Cache) (f total gone : ℕ) (info : Option ℤ)
    → (env.folder_is_drafts f || env.folder_is_outbox f) ≡ true
    → env.message_count f ≡ pos total
    → env.deleted_message_count f ≡ pos gone
    → count_unread env c (some f) info ≡ sub_ℕ total (gone + env.junk_count f)
unfolding count_unread
count_unread_drafts env c f total gone info special count deleted =
    rw (drafts_special env c f special)
      (rw (special, count, deleted) (subtract_both total gone (env.junk_count f)))

sub_ℕ_minus_one :
    (total removed : ℕ) → int_beq (sub_ℕ total removed) (negsuc 0) ≡ nat_beq removed (total + 1)
sub_ℕ_minus_one total removed = ground arith

-- In a Drafts or Outbox folder the count is the total less the deleted and the junk messages, so a
-- message that is both is subtracted twice. Exactly where this comes to -1, the value that stands
-- for `unknown`, the update is dropped; otherwise it is queued with that count.
pub update_1folder_drafts :
    (env : Camel) (s new : ℕ) (mfi : FolderInfo) (uid sender subject : Option Text)
    (info : Option ℤ) (c : Cache) (f total gone : ℕ)
    → mfi.folder ≡ some f
    → (env.folder_is_drafts f || env.folder_is_outbox f) ≡ true
    → env.message_count f ≡ pos total
    → env.deleted_message_count f ≡ pos gone
    → update_1folder env s mfi new uid sender subject info c ≡ (
        if nat_beq (gone + env.junk_count f) (total + 1)
        then c
        else push_update env
            (record (blank_update mfi.full_name s) {
              unread = sub_ℕ total (gone + env.junk_count f);
              new_mail = new;
              msg_uid = uid;
              msg_sender = sender;
              msg_subject = subject;
            })
            c)
unfolding update_1folder
update_1folder_drafts env s new mfi uid sender subject info c f total gone watched special count
      deleted =
    simp (
      watched,
      count_unread_drafts env c f total gone info special count deleted,
      sub_ℕ_minus_one total (gone + env.junk_count f),
    )
