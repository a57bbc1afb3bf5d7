-- ===== src/SendReceive/Starting.antt =====
-- src/mail-send-recv.c: how sending and receiving is started.
use e_mail_factory.Base.{
  ℕ, ◌+◌, Text, codes, text_eq, text_beq, nat_eq, nat_beq, if◌then◌else◌, Bool, true, false, not,
  ◌&&◌, ◌||◌, List, [], ◌∷◌, Option, none, some, lookup, insert,
}
use e_mail_factory.SendReceive.{
  SendInfoType, send_receive, send_send, send_update, send_invalid, send_active, send_complete,
  SendInfo, SendData, Job, fetching, sending, listing, SendReceive, Registry,
}

abbrev pub send_uri_key : Text
send_uri_key = codes "send-task:"

-- setup_send_data
unfoldable pub setup_send_data : SendReceive → SendReceive
setup_send_data s = elim s.send_data [
  | none ↦ record s { send_data = some (record { infos = []; active = [] }) }
  | some d ↦ s
]

-- data->active
abbrev pub active_in : Option SendData → List (Text × ℕ)
active_in none = []
active_in (some d) = d.active

abbrev pub active_of : SendReceive → List (Text × ℕ)
active_of s = active_in s.send_data

abbrev pub infos_of : SendReceive → List ℕ
infos_of s = elim s.send_data [ none ↦ [] | some d ↦ d.infos ]

-- The operation that a switch on the type starts.
abbrev pub job_of : SendInfoType → Option Job
job_of send_receive = some fetching
job_of send_send = some sending
job_of send_update = some listing
job_of send_invalid = none

unfoldable pub start_job : ℕ → SendInfo → SendReceive → SendReceive
start_job a info s = elim (job_of info.type) [
  | none ↦ s
  | some job ↦ record s { jobs = (a, job) ∷ s.jobs }
]

abbrev pub is_receivable : SendInfoType → Bool
is_receivable send_receive = true
is_receivable send_send = false
is_receivable send_update = true
is_receivable send_invalid = false

abbrev pub send_info : ℕ → SendInfo
send_info service = record {
  type = send_send;
  has_session = true;
  service = service;
  keep_on_server = false;
  state = send_active;
  again = 0;
  has_timeout = false;
}

-- `info->again++`
unfoldable pub send_again : ℕ → SendReceive → SendReceive
send_again a s = elim (lookup a s.heap) [
  | none ↦ s
  | some info ↦ record s { heap = insert a (record info { again = info.again + 1 }) s.heap }
]

abbrev pub is_invalid : SendInfoType → Bool
is_invalid send_invalid = true
is_invalid _ = false

-- The timeout of an entry that has none.
unfoldable pub add_timeout : ℕ → SendReceive → SendReceive
add_timeout a s = elim (lookup a s.heap) [
  | none ↦ s
  | some info ↦ record s { heap = insert a (record info { has_timeout = true }) s.heap }
]

-- `data->infos = list`
unfoldable pub set_infos : SendReceive × List ℕ → SendReceive
set_infos (s, list) = elim s.send_data [
  | none ↦ s
  | some d ↦ record s { send_data = some (record d { infos = list }) }
]

abbrev pub or_null : Option ℕ → ℕ
or_null none = 0
or_null (some a) = a

module _ (env : Registry) where
  -- get_receive_type
  unfoldable pub get_receive_type : ℕ → SendInfoType
  get_receive_type service =
      if env.is_null_store service
      then send_invalid
      else if env.is_local_delivery service
      then send_receive
      else if not (env.has_provider service)
      then send_invalid
      else if text_beq (env.service_uid service) env.local_uid
          || text_beq (env.service_uid service) env.vfolder_uid
      then send_invalid
      else if env.provides_store service
      then if env.is_storage service then send_update else send_receive
      else if env.provides_transport service
      then send_send
      else send_invalid

  -- The transport account of the default identity, as ref_default_transport and mail_send find it.
  unfoldable pub default_transport_uid : Option Text
  default_transport_uid = elim env.default_identity [
    | none ↦ none
    | some source ↦
        if env.has_submission source
        then elim (env.ref_source (env.transport_uid source)) [
          | none ↦ none
          | some account ↦ some (env.source_uid account)
        ]
        else none
  ]

  -- ref_default_transport, NULL as none
  unfoldable pub ref_default_transport : Option ℕ
  ref_default_transport = elim default_transport_uid [
    | none ↦ none
    | some uid ↦ some (env.ref_service uid)
  ]

  -- A new entry under a key, at the address that g_malloc0 gives.
  unfoldable pub add_info : Text → SendInfo → SendReceive → SendReceive
  add_info key info s = elim s.send_data [
    | none ↦ s
    | some d ↦ record s {
      send_data = some (record d { active = insert key (env.alloc s.heap) d.active });
      heap = (env.alloc s.heap, info) ∷ s.heap;
    }
  ]

  -- The entry that mail_receive_service makes; build_infra makes another below.
  abbrev pub receive_info : SendInfoType → ℕ → SendInfo
  receive_info type service = record {
    type = type;
    has_session = true;
    service = service;
    keep_on_server = env.keeps_on_server service;
    state = send_active;
    again = 0;
    has_timeout = false;
  }

  -- mail_receive_service after setup_send_data
  unfoldable pub receive_service : ℕ → SendReceive → SendReceive
  receive_service service s = elim (lookup (env.service_uid service) (active_of s)) [
    | some a ↦ s
    | none ↦
        let info = receive_info (get_receive_type service) service in
        if is_receivable info.type
        then start_job (env.alloc s.heap) info (add_info (env.service_uid service) info s)
        else s
  ]

  -- mail_receive_service
  unfoldable pub mail_receive_service : ℕ → SendReceive → SendReceive
  mail_receive_service service s =
      if env.is_service service then receive_service service (setup_send_data s) else s

  -- mail_receive_account
  unfoldable pub mail_receive_account : ℕ → SendReceive → SendReceive
  mail_receive_account account s = mail_receive_service (env.ref_service (env.source_uid account)) s

  -- mail_send after setup_send_data, for the account of the transport
  unfoldable pub send_by : Text → SendReceive → SendReceive
  send_by uid s = elim (lookup send_uri_key (active_of s)) [
    | some a ↦ send_again a s
    | none ↦
        let service = env.ref_service uid in
        if env.is_transport service && not (is_invalid (get_receive_type service))
        then start_job (env.alloc s.heap) (send_info service)
            (add_info send_uri_key (send_info service) s)
        else s
  ]

  -- mail_send
  unfoldable pub mail_send : SendReceive → SendReceive
  mail_send s = elim default_transport_uid [ none ↦ s | some uid ↦ send_by uid (setup_send_data s) ]

  -- The entry of an account in build_infra, by its uid.
  unfoldable pub build_account : Bool → Text → SendReceive × List ℕ → SendReceive × List ℕ
  build_account allow_send uid (s, list) = elim (lookup uid (active_of s)) [
    | some a ↦ (add_timeout a s, list)
    | none ↦
        let service = env.ref_service uid in
        let type = get_receive_type service in
        let info = record (receive_info type service) {
          state = if allow_send then send_active else send_complete;
          has_timeout = true;
        } in
        if is_receivable type then (add_info uid info s, env.alloc s.heap ∷ list) else (s, list)
  ]

  -- The loop over the accounts in build_infra.
  unfoldable pub build_accounts : Bool → List ℕ → SendReceive × List ℕ → SendReceive × List ℕ
  build_accounts allow_send [] p = p
  build_accounts allow_send (source ∷ sources) p =
      build_accounts allow_send sources
        (if env.is_enabled source then build_account allow_send (env.source_uid source) p else p)

  -- The entry for sending in build_infra; its session is left NULL.
  unfoldable pub build_send : ℕ → SendReceive × List ℕ → SendReceive × List ℕ
  build_send transport (s, list) = elim (lookup send_uri_key (active_of s)) [
    | some a ↦ (add_timeout a s, list)
    | none ↦
        let info = record (send_info transport) { has_session = false; has_timeout = true } in
        (add_info send_uri_key info s, env.alloc s.heap ∷ list)
  ]

  -- The condition for that entry.
  abbrev pub may_send : Bool → Option ℕ → Bool
  may_send allow_send none = false
  may_send allow_send (some transport) =
      allow_send
      && env.has_outbox
      && env.is_transport transport
      && not (nat_beq env.outbox_messages env.outbox_deleted)

  -- build_infra
  unfoldable pub build_infra : Bool → SendReceive → SendReceive
  build_infra allow_send s =
      let transport = ref_default_transport in
      let p = build_accounts allow_send env.accounts (setup_send_data s, []) in
      set_infos (if may_send allow_send transport then build_send (or_null transport) p else p)

  -- The loop of send_receive.
  unfoldable pub start_all : List ℕ → SendReceive → SendReceive
  start_all [] s = s
  start_all (a ∷ scan) s = start_all scan (elim (lookup a s.heap) [
    | none ↦ s
    | some info ↦ if env.is_service info.service then start_job a info s else s
  ])

  -- send_receive, which mail_send_receive and mail_receive call
  unfoldable pub mail_send_receive : Bool → SendReceive → SendReceive
  mail_send_receive allow_send s = elim s.send_data [
    | some d ↦ s
    | none ↦
        let built = build_infra allow_send s in
        if env.is_online then start_all (infos_of built) built else s
  ]
