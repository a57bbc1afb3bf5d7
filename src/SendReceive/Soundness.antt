-- ===== src/SendReceive/Soundness.antt =====
-- src/mail-send-recv.c: what the entries, the table of active ones and the outstanding operations
-- have to do with one another.
use e_mail_factory.Base.{
  ℕ, ◌≡◌, ◌≢◌, refl, sym, ap, ◌∙◌, inl, inr, Text, text_eq, nat_eq, nat_beq, nat_beq_iff, Bool,
  true, false, Bool-cases, text_beq, text_beq_iff, List, ◌∷◌, none, some, arith, lookup, insert,
  remove, lookup-insert, lookup-insert_self, lookup-remove, g_list_remove, AreDistinct,
  lookup-g_list_remove,
}
use e_mail_factory.SendReceive.{SendInfo, Job, sending}
use e_mail_factory.SendReceive.Finishing.{is_send, key_of}

abbrev pub is_sending : Job → Bool
is_sending sending = true
is_sending _ = false

-- What an insertion or a removal does to a lookup at another key.
pub lookup-insert_ne :
    (a b : ℕ) (x : SendInfo) (heap : List (ℕ × SendInfo))
    → b ≢ a
    → lookup b (insert a x heap) ≡ lookup b heap
lookup-insert_ne a b x heap ne = ground (arith, lookup-insert a b x heap, nat_beq_iff a b)

module _ (uid_of : ℕ → Text) where
  -- The entry at an address, which stands in the table under its own key.
  abbrev pub IsListed : List (ℕ × SendInfo) → List (Text × ℕ) → Type 0
  IsListed heap active =
      (a : ℕ) (info : SendInfo)
      → lookup a heap ≡ some info
      → lookup (key_of uid_of info) active ≡ some a

  -- What the table holds is an entry, under its own key.
  abbrev pub IsKeyed : List (ℕ × SendInfo) → List (Text × ℕ) → Type 0
  IsKeyed heap active =
      (k : Text) (a : ℕ)
      → lookup k active ≡ some a
      → (info : SendInfo) × (lookup a heap ≡ some info) × (key_of uid_of info ≡ k)

  -- What an outstanding operation will report to is an entry, of the kind of the operation.
  abbrev pub IsAnswered : List (ℕ × SendInfo) → List (ℕ × Job) → Type 0
  IsAnswered heap jobs =
      (a : ℕ) (job : Job)
      → lookup a jobs ≡ some job
      → (info : SendInfo) × (lookup a heap ≡ some info) × (is_sending job ≡ is_send info.type)

  pub record IsSound (heap : List (ℕ × SendInfo)) (active : List (Text × ℕ)) (jobs : List (ℕ × Job))
      : Type 0 where
    pub listed : IsListed heap active
    pub keyed : IsKeyed heap active
    pub answered : IsAnswered heap jobs
    pub distinct : AreDistinct jobs

  -- Replacing an entry by one of the same kind and service.
  pub replace-IsListed :
      (heap : List (ℕ × SendInfo)) (active : List (Text × ℕ)) (a : ℕ) (old new : SendInfo)
      → IsListed heap active
      → lookup a heap ≡ some old
      → key_of uid_of new ≡ key_of uid_of old
      → IsListed (insert a new heap) active
  replace-IsListed heap active a old new listed at same b info e = elim (Bool-cases (nat_beq a b)) [
    | inl here ↦
        let here' : a ≡ b = (nat_beq_iff a b).0 here in
        let seen : some new ≡ some info =
          sym (lookup-insert_self a new heap)
          ∙ ap (λ (x : ℕ). lookup x (insert a new heap)) here'
          ∙ e in
        ground (arith, listed a old at, same, seen, here')
    | inr other ↦
        listed b info
          (sym (lookup-insert_ne a b new heap (λ (h : b ≡ a). ground (arith, nat_beq_iff a b))) ∙ e)
  ]

  pub replace-IsKeyed :
      (heap : List (ℕ × SendInfo)) (active : List (Text × ℕ)) (a : ℕ) (old new : SendInfo)
      → IsKeyed heap active
      → lookup a heap ≡ some old
      → key_of uid_of new ≡ key_of uid_of old
      → IsKeyed (insert a new heap) active
  replace-IsKeyed heap active a old new keyed at same k b e =
      let (info, found, key) = keyed k b e in
      elim (Bool-cases (nat_beq a b)) [
        | inl here ↦
            let here' : a ≡ b = (nat_beq_iff a b).0 here in
            let this : some old ≡ some info =
              sym at ∙ ap (λ (x : ℕ). lookup x heap) here' ∙ found in
            (
              new,
              ap (λ (x : ℕ). lookup x (insert a new heap)) (sym here')
                  ∙ lookup-insert_self a new heap,
              ground (arith, same, this, key),
            )
        | inr other ↦ (
          info,
          lookup-insert_ne a b new heap (λ (h : b ≡ a). ground (arith, nat_beq_iff a b)) ∙ found,
          key,
        )
      ]

  pub replace-IsAnswered :
      (heap : List (ℕ × SendInfo)) (jobs : List (ℕ × Job)) (a : ℕ) (old new : SendInfo)
      → IsAnswered heap jobs
      → lookup a heap ≡ some old
      → new.type ≡ old.type
      → IsAnswered (insert a new heap) jobs
  replace-IsAnswered heap jobs a old new answered at same b job e =
      let (info, found, fits) = answered b job e in
      elim (Bool-cases (nat_beq a b)) [
        | inl here ↦
            let here' : a ≡ b = (nat_beq_iff a b).0 here in
            let this : some old ≡ some info =
              sym at ∙ ap (λ (x : ℕ). lookup x heap) here' ∙ found in
            (
              new,
              ap (λ (x : ℕ). lookup x (insert a new heap)) (sym here')
                  ∙ lookup-insert_self a new heap,
              ground (arith, same, this, fits),
            )
        | inr other ↦ (
          info,
          lookup-insert_ne a b new heap (λ (h : b ≡ a). ground (arith, nat_beq_iff a b)) ∙ found,
          fits,
        )
      ]

  -- A new entry, under a key that is free, at an address that is.
  pub add-IsListed :
      (heap : List (ℕ × SendInfo)) (active : List (Text × ℕ)) (k : Text) (a : ℕ) (new : SendInfo)
      → IsListed heap active
      → lookup k active ≡ none
      → key_of uid_of new ≡ k
      → IsListed ((a, new) ∷ heap) (insert k a active)
  unfolding lookup
  add-IsListed heap active k a new listed free key b info e = elim (Bool-cases (nat_beq a b)) [
    | inl here ↦
        let this : some new ≡ some info = rw here at e in
        let here' : a ≡ b = (nat_beq_iff a b).0 here in
        ground (
          arith,
          lookup-insert k (key_of uid_of info) a active,
          text_beq_iff k (key_of uid_of info),
          this,
          key,
          here',
        )
    | inr other ↦
        let this : lookup b heap ≡ some info = rw other at e in
        ground (
          arith,
          lookup-insert k (key_of uid_of info) a active,
          text_beq_iff k (key_of uid_of info),
          listed b info this,
          free,
        )
  ]

  pub add-IsKeyed :
      (heap : List (ℕ × SendInfo)) (active : List (Text × ℕ)) (k : Text) (a : ℕ) (new : SendInfo)
      → IsKeyed heap active
      → lookup a heap ≡ none
      → key_of uid_of new ≡ k
      → IsKeyed ((a, new) ∷ heap) (insert k a active)
  unfolding lookup
  add-IsKeyed heap active k a new keyed fresh key j b e = elim (Bool-cases (text_beq k j)) [
    | inl here ↦
        let here' : k ≡ j = (text_beq_iff k j).0 here in
        let this : some a ≡ some b = sym (rw here refl) ∙ sym (lookup-insert k j a active) ∙ e in
        (new, ground (arith, this, nat_beq_iff a b), key ∙ here')
    | inr other ↦
        let this : lookup j active ≡ some b =
          sym (lookup-insert k j a active ∙ rw other refl) ∙ e in
        let (info, found, own) = keyed j b this in
        (info, ground (arith, found, fresh, nat_beq_iff a b), own)
  ]

  pub add-IsAnswered :
      (heap : List (ℕ × SendInfo)) (jobs : List (ℕ × Job)) (a : ℕ) (new : SendInfo)
      → IsAnswered heap jobs
      → lookup a heap ≡ none
      → IsAnswered ((a, new) ∷ heap) jobs
  unfolding lookup
  add-IsAnswered heap jobs a new answered fresh b job e =
      let (info, found, fits) = answered b job e in
      (info, ground (arith, found, fresh, nat_beq_iff a b), fits)

  -- An entry that goes, with its key.
  pub free-IsListed :
      (heap : List (ℕ × SendInfo)) (active : List (Text × ℕ)) (a : ℕ) (old : SendInfo)
      → IsListed heap active
      → lookup a heap ≡ some old
      → IsListed (remove a heap) (remove (key_of uid_of old) active)
  free-IsListed heap active a old listed at b info e = elim (Bool-cases (nat_beq a b)) [
    | inl here ↦
        let this : none ≡ some info = sym (lookup-remove a b heap ∙ rw here refl) ∙ e in absurd (cc)
    | inr other ↦
        let this : lookup b heap ≡ some info = sym (lookup-remove a b heap ∙ rw other refl) ∙ e in
        ground (
          arith,
          lookup-remove (key_of uid_of old) (key_of uid_of info) active,
          text_beq_iff (key_of uid_of old) (key_of uid_of info),
          listed b info this,
          listed a old at,
          nat_beq_iff a b,
        )
  ]

  pub free-IsKeyed :
      (heap : List (ℕ × SendInfo)) (active : List (Text × ℕ)) (a : ℕ) (old : SendInfo)
      → IsKeyed heap active
      → lookup a heap ≡ some old
      → IsKeyed (remove a heap) (remove (key_of uid_of old) active)
  free-IsKeyed heap active a old keyed at j b e =
      let k = key_of uid_of old in
      elim (Bool-cases (text_beq k j)) [
        | inl here ↦
            let this : none ≡ some b = sym (lookup-remove k j active ∙ rw here refl) ∙ e in
            absurd (cc)
        | inr other ↦
            let this : lookup j active ≡ some b =
              sym (lookup-remove k j active ∙ rw other refl) ∙ e in
            let (info, found, own) = keyed j b this in
            (
              info,
              ground (
                arith,
                lookup-remove a b heap,
                nat_beq_iff a b,
                found,
                at,
                own,
                text_beq_iff (key_of uid_of old) j,
              ),
              own,
            )
      ]

  pub free-IsAnswered :
      (heap : List (ℕ × SendInfo)) (jobs : List (ℕ × Job)) (a : ℕ)
      → IsAnswered heap jobs
      → lookup a jobs ≡ none
      → IsAnswered (remove a heap) jobs
  free-IsAnswered heap jobs a answered idle b job e =
      let (info, found, fits) = answered b job e in
      (info, ground (arith, lookup-remove a b heap, nat_beq_iff a b, found, idle, e), fits)

  -- An operation that starts, for an entry that has none, and one that ends.
  pub start-IsAnswered :
      (heap : List (ℕ × SendInfo)) (jobs : List (ℕ × Job)) (a : ℕ) (info : SendInfo) (job : Job)
      → IsAnswered heap jobs
      → lookup a heap ≡ some info
      → is_sending job ≡ is_send info.type
      → IsAnswered heap ((a, job) ∷ jobs)
  unfolding lookup
  start-IsAnswered heap jobs a info job answered at fits b other e =
      elim (Bool-cases (nat_beq a b)) [
        | inl here ↦
            let this : some job ≡ some other = rw here at e in
            let here' : a ≡ b = (nat_beq_iff a b).0 here in
            (info, ap (λ (x : ℕ). lookup x heap) (sym here') ∙ at, ground (arith, this, fits))
        | inr elsewhere ↦
            let this : lookup b jobs ≡ some other = rw elsewhere at e in answered b other this
      ]

  pub end-IsAnswered :
      (heap : List (ℕ × SendInfo)) (jobs : List (ℕ × Job)) (a : ℕ)
      → IsAnswered heap jobs
      → AreDistinct jobs
      → IsAnswered heap (g_list_remove a jobs)
  end-IsAnswered heap jobs a answered distinct b job e =
      answered b job (ground (arith, lookup-g_list_remove a b jobs distinct, e))
