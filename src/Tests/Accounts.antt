-- ===== src/Tests/Accounts.antt =====
-- src/mail-send-recv.c with one account to receive from, its service at 1, and one transport, at 2.
use e_mail_factory.Base.{
  ℕ, suc, ◌+◌, ◌≤◌, ◌≡◌, ◌≢◌, ◌⊎◌, refl, Text, codes, text_eq, text_beq, text_beq_iff, nat_eq,
  nat_beq, if◌then◌else◌, Bool, true, false, ◌&&◌, ◌||◌, List, [], ◌∷◌, some, arith, lookup, insert,
  remove, AreDistinct, g_list_remove, IsAbsent, lookup-IsAbsent,
}
use e_mail_factory.SendReceive.{SendInfo, fetching, sending, SendReceive, Registry}
use e_mail_factory.SendReceive.Starting.{
  active_of, setup_send_data, add_info, start_job, send_again, get_receive_type, send_by, mail_send,
  default_transport_uid, build_account, build_accounts, build_send, set_infos, build_infra,
  start_all, mail_send_receive, ref_default_transport, send_info,
}
use e_mail_factory.SendReceive.Finishing.{
  is_send, key_of, remove_info, free_send_info, send_once_more, done_info, receive_done, finish,
  Event, asked_send, asked_all, finished, step, run, at_rest,
}
use e_mail_factory.SendReceive.Soundness.{is_sending}
use e_mail_factory.SendReceive.Effects.{IsFaithful}
use e_mail_factory.SendReceive.Histories.{run-answers, run-Sound, at_rest-Sound}
use e_mail_factory.SendReceive.LostSends.{mail_send-lost}

abbrev above : List (ℕ × SendInfo) → ℕ
above [] = 0
above ((a, info) ∷ heap) = suc (a + above heap)

IsAbsent-above : (bound : ℕ) (heap : List (ℕ × SendInfo)) → above heap ≤ bound → IsAbsent bound heap
IsAbsent-above bound [] le = tt
IsAbsent-above bound ((a, info) ∷ heap) le =
    ((λ e. omega (arith, e, le)), IsAbsent-above bound heap (omega arith))

abbrev is_known : ℕ → Bool
is_known a = nat_beq a 1 || nat_beq a 2

abbrev uid_of : ℕ → Text
uid_of a = if nat_beq a 1 then codes "one" else codes "smtp"

abbrev by_uid : Text → ℕ
by_uid uid = if text_beq uid (codes "one") then 1 else if text_beq uid (codes "smtp") then 2 else 0

abbrev env : Registry
env = record {
  is_service = is_known;
  is_null_store = λ a. false;
  is_transport = λ a. nat_beq a 2;
  is_local_delivery = λ a. false;
  has_provider = is_known;
  service_uid = uid_of;
  provides_store = λ a. nat_beq a 1;
  is_storage = λ a. false;
  provides_transport = λ a. nat_beq a 2;
  keeps_on_server = λ a. false;
  ref_service = by_uid;
  accounts = 1 ∷ 2 ∷ [];
  is_enabled = λ a. true;
  source_uid = uid_of;
  default_identity = some 9;
  has_submission = λ a. true;
  transport_uid = λ a. codes "smtp";
  ref_source = λ uid. some (by_uid uid);
  is_online = true;
  has_outbox = true;
  outbox_messages = 3;
  outbox_deleted = 1;
  local_uid = codes "local";
  vfolder_uid = codes "vfolder";
  alloc = above;
}

env-IsFaithful : IsFaithful uid_of env
unfolding get_receive_type
env-IsFaithful = record {
  same_uid = λ a. refl;
  named = λ uid e. ground (arith, text_beq_iff uid (codes "one"), text_beq_iff uid (codes "smtp"));
  untyped = λ a e. ground arith;
  fresh =
      λ heap. lookup-IsAbsent (above heap) heap (IsAbsent-above (above heap) heap (omega arith));
}

-- The history: everything is started, a send is asked for, and the first two operations end.
abbrev events : List (Registry × Event)
events = (env, asked_all true) ∷ (env, asked_send) ∷ (env, finished 1) ∷ (env, finished 0) ∷ []

abbrev started : SendReceive
started = run ((env, asked_all true) ∷ []) at_rest

-- The first entry receives, the second sends.
started_test : started.jobs ≡ (0, fetching) ∷ (1, sending) ∷ []
unfolding run step mail_send_receive build_infra build_accounts build_account build_send set_infos
    start_all start_job add_info setup_send_data ref_default_transport default_transport_uid
    get_receive_type lookup insert
started_test = refl

run-answers_example :
    (info : SendInfo) × (lookup 1 started.heap ≡ some info)
    × (lookup (key_of uid_of info) (active_of started) ≡ some 1)
    × (is_sending sending ≡ is_send info.type)
    × AreDistinct started.jobs
unfolding run step mail_send_receive build_infra build_accounts build_account build_send set_infos
    start_all start_job add_info setup_send_data ref_default_transport default_transport_uid
    get_receive_type lookup insert
run-answers_example =
    run-answers uid_of ((env, asked_all true) ∷ []) 1 sending (env-IsFaithful, tt) refl

-- After both have ended the entry for sending is still active, and a send only counts.
stuck_test :
    (active_of (run events at_rest) ≡ (codes "send-task:", 1) ∷ [])
    × (step env asked_send (run events at_rest)).jobs ≡ []
unfolding run step mail_send_receive build_infra build_accounts build_account build_send set_infos
    start_all start_job add_info setup_send_data ref_default_transport default_transport_uid
    get_receive_type lookup insert mail_send send_by send_again finish receive_done done_info
    send_once_more free_send_info remove_info remove g_list_remove
stuck_test = (refl, refl)

abbrev sender : SendInfo
sender = record (send_info 2) { has_session = false; has_timeout = true }

mail_send-lost_example :
    ((env.is_transport 2 && sender.has_session ≡ true)
      × (lookup 1 (step env (finished 1) (step env asked_send started)).jobs ≡ some sending))
    ⊎ ((env.is_transport 2 && sender.has_session ≡ false)
        × ((b : ℕ)
            → lookup b
                (run
                  ((env, asked_send) ∷ (env, finished 0) ∷ [])
                  (step env (finished 1) (step env asked_send started))).jobs
              ≢ some sending))
unfolding run step mail_send_receive build_infra build_accounts build_account build_send set_infos
    start_all start_job add_info setup_send_data ref_default_transport default_transport_uid
    get_receive_type lookup insert
mail_send-lost_example =
    mail_send-lost uid_of env env (codes "smtp") 1 sender started
      ((env, asked_send) ∷ (env, finished 0) ∷ []) env-IsFaithful env-IsFaithful
      (env-IsFaithful, (env-IsFaithful, tt))
      (run-Sound uid_of ((env, asked_all true) ∷ []) at_rest (env-IsFaithful, tt)
        (at_rest-Sound uid_of))
      (record { active = refl; entry = refl; sends = refl; goes_on = refl; under_way = refl }) refl
