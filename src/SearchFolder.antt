-- ===== src/SearchFolder.antt =====
-- libemail-engine/em-vfolder-rule.c: the rule of a search folder, as far as its sources go. A source
-- is a string at an address, since include_subfolders holds addresses.
pub mod Sources
pub mod Deletion
pub mod Renames
pub mod Subfolders
use e_mail_factory.Base.{ℕ, Text, List}

-- struct _EMVFolderRulePrivate, its sources
pub record VFolderRule : Type 0 where
  pub sources : List (ℕ × Text)
  pub include_subfolders : List ℕ
  pub changes : ℕ
