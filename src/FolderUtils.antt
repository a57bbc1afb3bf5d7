-- ===== src/FolderUtils.antt =====
-- libemail-engine/e-mail-folder-utils.c: what the search for duplicate messages asks of a folder.
pub mod Duplicates
pub mod Scans
pub mod Originals
use e_mail_factory.Base.{ℕ, Text, Bool, List, Option}

-- A folder as Camel shows it during one search, with g_compute_checksum_for_data and the order in
-- which GHashTableIter goes through a table. Messages and contents are addresses; `none` is NULL, a
-- failed decoding, or a message that could not be had.
pub record Folder : Type 0 where
  pub get_message : Text → Option ℕ
  pub get_content : ℕ → Option ℕ
  pub decode : ℕ → Option (List ℕ)
  pub checksum : List ℕ → Text
  pub message_id : Text → ℕ
  pub is_deleted : Text → Bool
  pub iterate : List (Text × Option Text) → List (Text × Option Text)
