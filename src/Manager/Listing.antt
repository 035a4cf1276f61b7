-- ===== src/Manager/Listing.antt =====
-- pkg/manager/manager.go: the commands that show what the server has. `printed` lists the lines and
-- the tables in their order.
pub mod Services
use clienthub.Prelude.{
  ℕ, ◌+◌, String, text_append, Bool, true, false, Option, none, some, List, [], ◌∷◌, ◌++◌, map, ltb,
  leb, ◌==◌, string_eq, if◌then◌else◌, is_empty, length, Result, ok, err, ℤ, pos, negsuc, ◌>>=◌,
}
use clienthub.Proto.Message.{
  Bytes, MsgType, msg_list_clients, msg_list_tunnels, msg_list_forwards, msg_list_expose,
}
use clienthub.Proto.Payload.{
  ServiceInfo, ClientInfo, ClientSpeedInfo, TunnelInfo, ForwardInfo, ExposeListEntry,
  ResponsePayload, KickPayload, ListClientsPayload, Codec, encode_json, decode_json,
}
use clienthub.Crypto.{Primitives}
use clienthub.Manager.{Manager, Library, Line, Event, Answered, Arg, or_error, send_command}
use clienthub.Manager.Commands.{Ran, failed}

-- fmt.Sprintf("%s(%s:%d)", …)
abbrev pub service_text : Library → ServiceInfo → String
service_text lib svc =
    lib.sprintf "%s(%s:%d)" (Arg.text svc.name ∷ Arg.text svc.protocol ∷ Arg.integer svc.port ∷ [])

-- The loop at its index i, with the text so far.
service_loop : Library → ℕ → String → List ServiceInfo → String
service_loop lib i s [] = s
service_loop lib i s (svc ∷ svcs) =
    let s' = if ltb 0 i then text_append s ", " else s in
    service_loop lib (i + 1) (text_append s' (service_text lib svc)) svcs

unfoldable pub format_services : Library → List ServiceInfo → String
unfolding service_loop
format_services lib services = service_loop lib 0 "" services

-- What is printed of an answer: its message, and a table where it has data.
abbrev pub Table : Type 0
Table = Bytes → Result String (List String)

table_of : Library → String → List Event → Result String (List String) → Ran
table_of lib message es (err e) = record { error = some e; printed = message ∷ []; events = es }
table_of lib message es (ok lines) = record {
  error = none;
  printed = message ∷ lib.tabulate lines ∷ [];
  events = es;
}

shows : Library → Table → Answered → Ran
unfolding table_of
shows lib table (err e, es) = failed e es
shows lib table (ok resp, es) =
    if is_empty resp.raw
    then record { error = none; printed = resp.message ∷ []; events = es }
    else table_of lib resp.message es (table resp.raw)

-- json.Unmarshal, then one line for the head and one for each entry.
abbrev pub rows : {A : Type 0} → Library → String → Codec (List A) → String → (A → String) → Table
rows lib what codec head row b =
    or_error lib what b (codec.unmarshal b) >>= λ xs. ok (head ∷ map row xs)

-- "-" for what was not measured.
abbrev pub rtt_text : Library → ℤ → String
rtt_text lib (pos n) = lib.sprintf "%dms" (Arg.number n ∷ [])
rtt_text lib (negsuc n) = "-"

abbrev pub speed_text : Library → ℤ → String
speed_text lib (pos n) =
    if leb 1024 n then lib.megabytes n else lib.sprintf "%dKB/s" (Arg.number n ∷ [])
speed_text lib (negsuc n) = "-"

abbrev pub line_of : Library → String → List String → String
line_of lib format columns = lib.sprintf format (map (λ c. Arg.text c) columns)

client_row : Library → ClientInfo → String
client_row lib c =
    line_of lib "%s\t%s\t%s\t%s\n"
      (c.name ∷ c.addr ∷ format_services lib c.services ∷ c.connected_at ∷ [])

speed_row : Library → ClientSpeedInfo → String
speed_row lib c = line_of lib "%s\t%s\t%s\t%s\t%s\t%s\n" (
    c.info.name
    ∷ c.info.addr
    ∷ format_services lib c.info.services
    ∷ rtt_text lib c.rtt_ms
    ∷ speed_text lib c.throughput_kbps
    ∷ c.info.connected_at
    ∷ [])

tunnel_row : Library → TunnelInfo → String
tunnel_row lib t = lib.sprintf "%d\t%s\t%s\t%s\t%s\n" (
    Arg.number t.session_id
    ∷ Arg.text t.source_client
    ∷ Arg.text t.target_client
    ∷ Arg.text t.target_service
    ∷ Arg.text t.protocol
    ∷ [])

expose_row : Library → ExposeListEntry → String
expose_row lib e =
    line_of lib "%s\t%s\t%s\t%s\n"
      (e.client_name ∷ e.rule.name ∷ e.rule.local_addr ∷ e.rule.protocol ∷ [])

forward_row : Library → ForwardInfo → String
forward_row lib f =
    line_of lib "%s\t%s\t%s\t%s\t%s\n"
      (f.client_name ∷ f.listen_addr ∷ f.remote_client ∷ f.remote_service ∷ f.protocol ∷ [])

-- What stands above an answer.
after_line : String → Ran → Ran
after_line l r = record { error = r.error; printed = l ∷ r.printed; events = r.events }

-- len of what json.Unmarshal leaves, where there are bytes
abbrev pub left_in : {A : Type 0} → (Bytes → List A) → Bytes → ℕ
left_in left b = if is_empty b then 0 else length (left b)

module _ (p : Primitives) (lib : Library) (m : Manager) where
  unfoldable pub list_clients : Line → Bool → Ran
  unfolding shows client_row speed_row after_line
  list_clients line true = after_line "Running speed test, please wait..." (
      shows lib
        (rows lib "decode clients: %w" lib.speed_infos
          "NAME\tADDRESS\tSERVICES\tRTT\tSPEED\tCONNECTED" (speed_row lib))
        (send_command p lib line msg_list_clients
          (encode_json lib.list_clients (record { speed_test = true })) m))
  list_clients line false =
      shows lib
        (rows lib "decode clients: %w" lib.client_infos "NAME\tADDRESS\tSERVICES\tCONNECTED"
          (client_row lib))
        (send_command p lib line msg_list_clients [] m)

  unfoldable pub list_tunnels : Line → Ran
  unfolding shows tunnel_row
  list_tunnels line =
      shows lib
        (rows lib "decode tunnels: %w" lib.tunnel_infos "SESSION\tSOURCE\tTARGET\tSERVICE\tPROTOCOL"
          (tunnel_row lib))
        (send_command p lib line msg_list_tunnels [] m)

  unfoldable pub list_expose : Line → String → Ran
  unfolding shows expose_row
  list_expose line client_name =
      let payload =
        if client_name == ""
        then []
        else encode_json lib.kick (record { client_name = client_name }) in
      shows lib
        (rows lib "decode expose list: %w" lib.expose_entries "CLIENT\tNAME\tLOCAL_ADDR\tPROTOCOL"
          (expose_row lib))
        (send_command p lib line msg_list_expose payload m)

  unfoldable pub list_forwards : Line → Ran
  unfolding shows forward_row
  list_forwards line =
      shows lib
        (rows lib "decode forwards: %w" lib.forward_infos
          "CLIENT\tLISTEN\tTARGET\tSERVICE\tPROTOCOL" (forward_row lib))
        (send_command p lib line msg_list_forwards [] m)

  status_of : ResponsePayload → List Event → Answered → Ran
  status_of clients es (err e, es') = failed e (es ++ es')
  status_of clients es (ok tunnels, es') = record {
    error = none;
    printed =
        lib.sprintf "Server: %s (reachable)\n" (Arg.text m.addr ∷ [])
        ∷ lib.sprintf "Clients: %d\n" (Arg.number (left_in lib.clients_left clients.raw) ∷ [])
        ∷ lib.sprintf "Active Tunnels: %d\n"
            (Arg.number (left_in lib.tunnels_left tunnels.raw) ∷ [])
        ∷ [];
    events = es ++ es';
  }

  reached : Line → Answered → Ran
  unfolding status_of
  reached line (err e, es) = failed (lib.sprintf "server unreachable: %w" (Arg.text e ∷ [])) es
  reached line (ok clients, es) =
      status_of clients es (send_command p lib line msg_list_tunnels [] m)

  -- The two commands go over a connection each.
  unfoldable pub status : Line → Line → Ran
  unfolding reached
  status first second = reached second (send_command p lib first msg_list_clients [] m)
