-- ===== src/FolderCache/Uris.antt =====
-- libemail-engine/mail-folder-cache.c: the two lists of folder URIs, which the class handlers of
-- folder-available, folder-unavailable and folder-deleted keep.
use e_mail_factory.Base.{
  ℕ, Text, text_beq, if◌then◌else◌, Bool, false, ◌&&◌, ◌||◌, List, [], ◌∷◌, ◌++◌,
}
use e_mail_factory.FolderCache.{
  Camel, Cache, Signal, folder_available, folder_unavailable, folder_deleted, folder_renamed,
  folder_unread_updated, folder_changed,
}

-- find_folder_uri, as a test
unfoldable pub has_folder_uri : Camel → Text → List Text → Bool
has_folder_uri env uri [] = false
has_folder_uri env uri (u ∷ us) = env.uri_equal u uri || has_folder_uri env uri us

-- find_folder_uri and g_queue_delete_link
unfoldable pub delete_folder_uri : Camel → Text → List Text → List Text
delete_folder_uri env uri [] = []
delete_folder_uri env uri (u ∷ us) =
    if env.uri_equal u uri then us else u ∷ delete_folder_uri env uri us

-- The three early returns that the handlers begin with.
unfoldable pub is_disregarded : Camel → ℕ → Text → Bool
is_disregarded env s name =
    env.is_vee_store s
    || (env.has_vjunk s && text_beq name env.vjunk_name)
    || (env.has_vtrash s && text_beq name env.vtrash_name)

-- What the handlers do to one of the lists.
unfoldable pub add_folder_uri : Camel → Text → List Text → List Text
add_folder_uri env uri us = if has_folder_uri env uri us then us else us ++ uri ∷ []

-- mail_folder_cache_folder_available
unfoldable pub handle_available : Camel → ℕ → Text → Cache → Cache
handle_available env s name c =
    if is_disregarded env s name
    then c
    else let uri = env.uri_build s name in
      if env.is_remote s
      then record c { remote_folder_uris = add_folder_uri env uri c.remote_folder_uris }
      else record c { local_folder_uris = add_folder_uri env uri c.local_folder_uris }

-- mail_folder_cache_folder_unavailable
unfoldable pub handle_unavailable : Camel → ℕ → Text → Cache → Cache
handle_unavailable env s name c =
    if is_disregarded env s name
    then c
    else let uri = env.uri_build s name in
      if env.is_remote s
      then record c { remote_folder_uris = delete_folder_uri env uri c.remote_folder_uris }
      else record c { local_folder_uris = delete_folder_uri env uri c.local_folder_uris }

-- mail_folder_cache_folder_deleted
unfoldable pub handle_deleted : Camel → ℕ → Text → Cache → Cache
handle_deleted env s name c =
    if is_disregarded env s name
    then c
    else let uri = env.uri_build s name in
      record c {
        local_folder_uris = delete_folder_uri env uri c.local_folder_uris;
        remote_folder_uris = delete_folder_uri env uri c.remote_folder_uris;
      }

-- The class handler that the emission of a signal runs.
unfoldable pub emit : Camel → Signal → Cache → Cache
emit env (folder_available s name) c = handle_available env s name c
emit env (folder_unavailable s name) c = handle_unavailable env s name c
emit env (folder_deleted s name) c = handle_deleted env s name c
emit env (folder_renamed s old name) c = c
emit env (folder_unread_updated s name n) c = c
emit env (folder_changed s name n uid sender subject) c = c

-- mail_folder_cache_get_local_folder_uris and mail_folder_cache_get_remote_folder_uris
unfoldable pub get_local_folder_uris : Cache → List Text → List Text
get_local_folder_uris c out_queue = out_queue ++ c.local_folder_uris

unfoldable pub get_remote_folder_uris : Cache → List Text → List Text
get_remote_folder_uris c out_queue = out_queue ++ c.remote_folder_uris
