-- ===== src/FolderCache/UriLists.antt =====
-- libemail-engine/mail-folder-cache.c: the lists of local and remote folder URIs under the class
-- handlers.
use e_mail_factory.Base.{
  ℕ, ◌≡◌, refl, inl, inr, Text, Bool, true, false, ◌||◌, List, [], ◌∷◌, ◌++◌, arith, Bool-cases,
}
use e_mail_factory.FolderCache.{Camel, Cache, folder_available, folder_deleted}
use e_mail_factory.FolderCache.Uris.{
  has_folder_uri, delete_folder_uri, is_disregarded, add_folder_uri, handle_available,
  handle_deleted, emit,
}

-- What e_mail_folder_uri_equal keeps to: it compares the stores and the folder names of two valid URIs,
-- and an invalid one, also one whose store has left the session, is equal to none, not to itself
-- either.
abbrev pub IsPartialEquivalence : (Text → Text → Bool) → Type 0
IsPartialEquivalence eq =
    ((u v : Text) → eq u v ≡ true → eq v u ≡ true)
    × ((u v w : Text) → eq u v ≡ true → eq v w ≡ true → eq u w ≡ true)

abbrev pub IsUnique : Camel → List Text → Type 0
IsUnique env [] = Unit {0}
IsUnique env (u ∷ us) = (has_folder_uri env u us ≡ false) × IsUnique env us

module _ (env : Camel) (equiv : IsPartialEquivalence env.uri_equal) where
  has_folder_uri-append :
      (u v : Text) (us : List Text)
      → has_folder_uri env u us ≡ false
      → env.uri_equal v u ≡ false
      → has_folder_uri env u (us ++ v ∷ []) ≡ false
  unfolding has_folder_uri
  has_folder_uri-append u v [] h e = ground arith
  has_folder_uri-append u v (w ∷ us) h e = ground (arith, has_folder_uri-append u v us)

  append-IsUnique :
      (uri : Text) (us : List Text)
      → has_folder_uri env uri us ≡ false
      → IsUnique env us
      → IsUnique env (us ++ uri ∷ [])
  unfolding has_folder_uri
  append-IsUnique uri [] h un = (refl, tt)
  append-IsUnique uri (u ∷ us) h un = (
    has_folder_uri-append u uri us un.0 (ground (arith, equiv.0 uri u)),
    append-IsUnique uri us (ground arith) un.1,
  )

  pub add_folder_uri-IsUnique :
      (uri : Text) (us : List Text) → IsUnique env us → IsUnique env (add_folder_uri env uri us)
  unfolding add_folder_uri
  add_folder_uri-IsUnique uri us un = elim (Bool-cases (has_folder_uri env uri us)) [
    | inl e ↦ rw e un
    | inr e ↦ rw e (append-IsUnique uri us e un)
  ]

  has_folder_uri-delete :
      (u uri : Text) (us : List Text)
      → has_folder_uri env u us ≡ false
      → has_folder_uri env u (delete_folder_uri env uri us) ≡ false
  unfolding has_folder_uri delete_folder_uri
  has_folder_uri-delete u uri [] h = refl
  has_folder_uri-delete u uri (v ∷ us) h = ground (arith, has_folder_uri-delete u uri us)

  pub delete_folder_uri-IsUnique :
      (uri : Text) (us : List Text) → IsUnique env us → IsUnique env (delete_folder_uri env uri us)
  unfolding delete_folder_uri
  delete_folder_uri-IsUnique uri [] un = tt
  delete_folder_uri-IsUnique uri (u ∷ us) un = elim (Bool-cases (env.uri_equal u uri)) [
    | inl e ↦ rw e un.1
    | inr e ↦ rw e (has_folder_uri-delete u uri us un.0, delete_folder_uri-IsUnique uri us un.1)
  ]

  -- A URI equal to one that is not listed is not listed.
  has_folder_uri_equal :
      (u v : Text) (us : List Text)
      → env.uri_equal u v ≡ true
      → has_folder_uri env u us ≡ false
      → has_folder_uri env v us ≡ false
  unfolding has_folder_uri
  has_folder_uri_equal u v [] e h = refl
  has_folder_uri_equal u v (w ∷ us) e h =
      ground (arith, has_folder_uri_equal u v us e, equiv.0 u v, equiv.1 w v u)

  pub has_folder_uri-delete_self :
      (uri : Text) (us : List Text)
      → IsUnique env us
      → has_folder_uri env uri (delete_folder_uri env uri us) ≡ false
  unfolding has_folder_uri delete_folder_uri
  has_folder_uri-delete_self uri [] un = refl
  has_folder_uri-delete_self uri (u ∷ us) un =
      ground (arith, has_folder_uri-delete_self uri us un.1, has_folder_uri_equal u uri us, un.0)

  has_folder_uri-append_self :
      (uri : Text) (us : List Text)
      → env.uri_equal uri uri ≡ true
      → has_folder_uri env uri (us ++ uri ∷ []) ≡ true
  unfolding has_folder_uri
  has_folder_uri-append_self uri [] valid = rw valid refl
  has_folder_uri-append_self uri (u ∷ us) valid =
      ground (arith, has_folder_uri-append_self uri us valid)

  pub has_folder_uri-add_self :
      (uri : Text) (us : List Text)
      → env.uri_equal uri uri ≡ true
      → has_folder_uri env uri (add_folder_uri env uri us) ≡ true
  unfolding add_folder_uri
  has_folder_uri-add_self uri us valid = elim (Bool-cases (has_folder_uri env uri us)) [
    | inl e ↦ rw e e
    | inr e ↦ rw e (has_folder_uri-append_self uri us valid)
  ]

  abbrev pub AreUnique : Cache → Type 0
  AreUnique c = IsUnique env c.local_folder_uris × IsUnique env c.remote_folder_uris

  -- A folder that the handlers do not disregard and whose URI is valid, so that it is equal to itself,
  -- has its URI in one of the lists once it became available, and in neither once it was deleted, given
  -- that the comparison of URIs is symmetric and transitive and that no list has two equal URIs.
  pub emit_listed :
      (s : ℕ) (name : Text) (c : Cache)
      → is_disregarded env s name ≡ false
      → env.uri_equal (env.uri_build s name) (env.uri_build s name) ≡ true
      → AreUnique c
      → let uri = env.uri_build s name in
        let came = emit env (folder_available s name) c in
        let gone = emit env (folder_deleted s name) c in
        (has_folder_uri env uri came.local_folder_uris
            || has_folder_uri env uri came.remote_folder_uris
          ≡ true)
        × (has_folder_uri env uri gone.local_folder_uris ≡ false)
        × (has_folder_uri env uri gone.remote_folder_uris ≡ false)
  unfolding emit handle_available handle_deleted
  emit_listed s name c kept valid un =
      let uri = env.uri_build s name in
      (
        ground (
          arith,
          has_folder_uri-add_self uri c.local_folder_uris valid,
          has_folder_uri-add_self uri c.remote_folder_uris valid,
        ),
        rw kept (has_folder_uri-delete_self uri c.local_folder_uris un.0),
        rw kept (has_folder_uri-delete_self uri c.remote_folder_uris un.1),
      )
