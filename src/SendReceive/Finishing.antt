-- ===== src/SendReceive/Finishing.antt =====
-- src/mail-send-recv.c: how sending and receiving ends, and the history of both.
use e_mail_factory.Base.{
  ℕ, Text, text_eq, nat_eq, nat_beq, if◌then◌else◌, Bool, true, false, not, ◌&&◌, List, [], ◌∷◌,
  Option, none, some, lookup, insert, remove, g_list_remove,
}
use e_mail_factory.SendReceive.{
  SendInfoType, send_send, SendState, send_active, SendInfo, SendData, listing, refreshing, sending,
  SendReceive, Registry,
}
use e_mail_factory.SendReceive.Starting.{
  send_uri_key, mail_receive_service, mail_send, mail_send_receive,
}

abbrev pub is_send : SendInfoType → Bool
is_send send_send = true
is_send _ = false

abbrev pub is_active : SendState → Bool
is_active send_active = true
is_active _ = false

-- g_list_remove, for the list of addresses
unfoldable pub remove_info : ℕ → List ℕ → List ℕ
remove_info a [] = []
remove_info a (b ∷ bs) = if nat_beq b a then bs else b ∷ remove_info a bs

-- free_send_data, if nothing is active any more
abbrev pub free_send_data : SendData → Option SendData
free_send_data d = elim d.active [ [] ↦ none | _ ∷ _ ↦ some d ]

-- The key under which an entry is taken out, given camel_service_get_uid.
abbrev pub key_of : (ℕ → Text) → SendInfo → Text
key_of service_uid info = if is_send info.type then send_uri_key else service_uid info.service

module _ (env : Registry) where
  -- The end of receive_done, with free_send_info
  unfoldable pub free_send_info : ℕ → SendInfo → SendReceive → SendReceive
  free_send_info a info s = elim s.send_data [
    | none ↦ s
    | some d ↦ record s {
      send_data = free_send_data (record {
        infos = remove_info a d.infos;
        active = remove (key_of env.service_uid info) d.active;
      });
      heap = remove a s.heap;
    }
  ]

  -- The part of receive_done that sends once more; mail_send_queue returns at once if the session is
  -- NULL.
  unfoldable pub send_once_more : ℕ → SendInfo → SendReceive → SendReceive
  send_once_more a info s =
      let reset = record s { heap = insert a (record info { again = 0 }) s.heap } in
      if env.is_transport info.service
      then if info.has_session then record reset { jobs = (a, sending) ∷ s.jobs } else reset
      else s

  -- receive_done, with the entry that its argument points to
  unfoldable pub done_info : ℕ → SendInfo → SendReceive → SendReceive
  done_info a info s =
      if is_send info.type && is_active info.state && not (nat_beq info.again 0)
      then send_once_more a info s
      else free_send_info a info s

  -- receive_done; without an entry it would read freed memory.
  unfoldable pub receive_done : ℕ → SendReceive → SendReceive
  receive_done a s = elim (lookup a s.heap) [ none ↦ s | some info ↦ done_info a info s ]

  -- A job that ends reports to receive_done.
  unfoldable pub finish : ℕ → SendReceive → SendReceive
  finish a s = receive_done a (record s { jobs = g_list_remove a s.jobs })

  -- receive_update_got_folderinfo: with folders a message refreshes them, and reports later.
  unfoldable pub got_folderinfo : ℕ → Bool → SendReceive → SendReceive
  got_folderinfo a has_folders s =
      if has_folders
      then record s { jobs = (a, refreshing) ∷ g_list_remove a s.jobs }
      else finish a s

pub data Event : Type 0 where
  asked_service : ℕ → Event
  asked_send : Event
  asked_all : Bool → Event
  listed : ℕ → Bool → Event
  finished : ℕ → Event

-- One event; a report comes only from a job that is outstanding.
unfoldable pub step : Registry → Event → SendReceive → SendReceive
step env (asked_service service) s = mail_receive_service env service s
step env asked_send s = mail_send env s
step env (asked_all allow_send) s = mail_send_receive env allow_send s
step env (listed a has_folders) s = elim (lookup a s.jobs) [
  | some listing ↦ got_folderinfo env a has_folders s
  | _ ↦ s
]
step env (finished a) s = elim (lookup a s.jobs) [
  | none ↦ s
  | some listing ↦ s
  | some _ ↦ finish env a s
]

unfoldable pub run : List (Registry × Event) → SendReceive → SendReceive
run [] s = s
run ((env, event) ∷ events) s = run events (step env event s)

abbrev pub at_rest : SendReceive
at_rest = record { send_data = none; heap = []; jobs = [] }
