-- ===== src/SendReceive/Building.antt =====
-- src/mail-send-recv.c: build_infra makes sound entries, with no operation yet.
use e_mail_factory.Base.{
  ℕ, ◌≡◌, ◌≢◌, refl, sym, ap, ◌∙◌, inl, inr, Text, text_eq, nat_eq, if◌then◌else◌, Bool, true,
  false, Bool-cases, Option-cases, List, [], ◌∷◌, none, some, arith, All, lookup, lookup-insert,
}
use e_mail_factory.SendReceive.{SendInfo, send_active, send_complete, SendReceive, Registry}
use e_mail_factory.SendReceive.Starting.{
  send_uri_key, active_of, add_info, add_timeout, get_receive_type, is_receivable, receive_info,
  send_info, build_account, build_accounts, build_send,
}
use e_mail_factory.SendReceive.Finishing.{key_of}
use e_mail_factory.SendReceive.Effects.{
  IsFaithful, HasData, Sound, add_info-Sound, add_timeout-Sound,
}
use e_mail_factory.SendReceive.Requests.{
  add_info-lookup, add_info-jobs, add_info-HasData, add_info-known, receive_info-key,
}

-- No address stands twice in a list.
abbrev pub AreApart : List ℕ → Type 0
AreApart [] = Unit
AreApart (a ∷ xs) = All (λ (b : ℕ). b ≢ a) xs × AreApart xs

All-implies : (P Q : ℕ → Type 0) (xs : List ℕ) → ((a : ℕ) → P a → Q a) → All P xs → All Q xs
All-implies P Q [] f h = tt
All-implies P Q (x ∷ xs) f h = (f x h.0, All-implies P Q xs f h.1)

-- What the loops of build_infra keep: an entry for each address of the list, each once, and no
-- operation.
pub record IsBuilt (uid_of : ℕ → Text) (s : SendReceive) (list : List ℕ) : Type 0 where
  pub sound : Sound uid_of s
  pub idle : s.jobs ≡ []
  pub has_data : HasData s
  pub known : All (λ (a : ℕ). lookup a s.heap ≢ none) list
  pub apart : AreApart list

add_timeout-jobs : (a : ℕ) (s : SendReceive) → (add_timeout a s).jobs ≡ s.jobs
unfolding add_timeout
add_timeout-jobs a s = elim (Option-cases (lookup a s.heap)) [
  | inl e ↦ rw (e, add_timeout) refl
  | inr (info, e) ↦ rw (e, add_timeout) refl
]

add_timeout-HasData : (a : ℕ) (s : SendReceive) → HasData s → HasData (add_timeout a s)
unfolding add_timeout
add_timeout-HasData a s h = elim (Option-cases (lookup a s.heap)) [
  | inl e ↦ rw (e, add_timeout) h
  | inr (info, e) ↦ rw (e, add_timeout) h
]

add_timeout-known :
    (a : ℕ) (s : SendReceive) (b : ℕ)
    → lookup b s.heap ≢ none
    → lookup b (add_timeout a s).heap ≢ none
unfolding add_timeout
add_timeout-known a s b h = elim (Option-cases (lookup a s.heap)) [
  | inl e ↦ rw (e, add_timeout) h
  | inr (info, e) ↦
      rw (e, add_timeout)
        (λ absent.
          ground (arith, lookup-insert a b (record info { has_timeout = true }) s.heap, h, absent))
]

module _ (uid_of : ℕ → Text) where
  add_timeout-IsBuilt :
      (a : ℕ) (s : SendReceive) (list : List ℕ)
      → IsBuilt uid_of s list
      → IsBuilt uid_of (add_timeout a s) list
  add_timeout-IsBuilt a s list h = record {
    sound = add_timeout-Sound uid_of a s h.sound;
    idle = add_timeout-jobs a s ∙ h.idle;
    has_data = add_timeout-HasData a s h.has_data;
    known = All-implies _ _ list (add_timeout-known a s) h.known;
    apart = h.apart;
  }

  module _ (env : Registry) (faithful : IsFaithful uid_of env) where
    add_info-IsBuilt :
        (k : Text) (info : SendInfo) (s : SendReceive) (list : List ℕ)
        → IsBuilt uid_of s list
        → lookup k (active_of s) ≡ none
        → key_of uid_of info ≡ k
        → IsBuilt uid_of (add_info env k info s) (env.alloc s.heap ∷ list)
    add_info-IsBuilt k info s list h free key =
        let at = add_info-lookup env k info s h.has_data in
        let new : lookup (env.alloc s.heap) s.heap ≡ none = faithful.fresh s.heap in
        record {
          sound = add_info-Sound uid_of env k info s h.has_data h.sound free new key;
          idle = add_info-jobs env k info s ∙ h.idle;
          has_data = add_info-HasData env k info s h.has_data;
          known = (
            (λ absent. let clash : some info ≡ none = sym at ∙ absent in cc),
            All-implies _ _ list (λ b. add_info-known env k info s b h.has_data) h.known,
          );
          apart = (
            All-implies (λ (b : ℕ). lookup b s.heap ≢ none) (λ (b : ℕ). b ≢ env.alloc s.heap) list
                (λ b seen same. seen (ap (λ (x : ℕ). lookup x s.heap) same ∙ new)) h.known,
            h.apart,
          );
        }

    -- A type that is received from is that of a service, which has the uid it was found by.
    ref_service-key :
        (uid : Text)
        → is_receivable (get_receive_type env (env.ref_service uid)) ≡ true
        → env.service_uid (env.ref_service uid) ≡ uid
    ref_service-key uid e = elim (Bool-cases (env.is_service (env.ref_service uid))) [
      | inl f ↦ faithful.same_uid (env.ref_service uid) ∙ faithful.named uid f
      | inr f ↦
          let no : false ≡ true =
            sym (ap is_receivable (faithful.untyped (env.ref_service uid) f)) ∙ e in
          absurd (cc)
    ]

    pub choose-IsBuilt :
        (b : Bool) (p q : SendReceive × List ℕ)
        → (b ≡ true → IsBuilt uid_of p.0 p.1)
        → IsBuilt uid_of q.0 q.1
        → IsBuilt uid_of (if b then p else q).0 (if b then p else q).1
    choose-IsBuilt true p q h k = h refl
    choose-IsBuilt false p q h k = k

    build_account-IsBuilt :
        (allow_send : Bool) (uid : Text) (s : SendReceive) (list : List ℕ)
        → IsBuilt uid_of s list
        → IsBuilt uid_of
            (build_account env allow_send uid (s, list)).0
            (build_account env allow_send uid (s, list)).1
    unfolding build_account
    build_account-IsBuilt allow_send uid s list h = elim (Option-cases (lookup uid (active_of s))) [
      | inr (a, e) ↦ rw (e, build_account) (add_timeout-IsBuilt a s list h)
      | inl e ↦
          let type = get_receive_type env (env.ref_service uid) in
          rw (e, build_account)
            (choose-IsBuilt (is_receivable type) _ (s, list)
              (λ f.
                add_info-IsBuilt uid
                  (record (receive_info env type (env.ref_service uid)) {
                    state = if allow_send then send_active else send_complete;
                    has_timeout = true;
                  })
                  s list h e
                  (receive_info-key uid_of env faithful type (env.ref_service uid) f
                    ∙ ref_service-key uid f))
              h)
    ]

    pub build_accounts-IsBuilt :
        (allow_send : Bool) (sources : List ℕ) (p : SendReceive × List ℕ)
        → IsBuilt uid_of p.0 p.1
        → IsBuilt uid_of
            (build_accounts env allow_send sources p).0
            (build_accounts env allow_send sources p).1
    unfolding build_accounts
    build_accounts-IsBuilt allow_send [] p h = h
    build_accounts-IsBuilt allow_send (source ∷ sources) p h =
        build_accounts-IsBuilt allow_send sources _ (
          choose-IsBuilt (env.is_enabled source) _ p
            (λ _. build_account-IsBuilt allow_send (env.source_uid source) p.0 p.1 h) h)

    pub build_send-IsBuilt :
        (transport : ℕ) (s : SendReceive) (list : List ℕ)
        → IsBuilt uid_of s list
        → IsBuilt uid_of
            (build_send env transport (s, list)).0
            (build_send env transport (s, list)).1
    unfolding build_send
    build_send-IsBuilt transport s list h =
        elim (Option-cases (lookup send_uri_key (active_of s))) [
          | inr (a, e) ↦ rw (e, build_send) (add_timeout-IsBuilt a s list h)
          | inl e ↦
              rw (e, build_send)
                (add_info-IsBuilt send_uri_key
                  (record (send_info transport) { has_session = false; has_timeout = true }) s list
                  h e refl)
        ]
