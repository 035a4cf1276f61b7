-- ===== src/Library.antt =====
-- What the program takes from packages that are not its own: encoding/json and fmt. A theorem that needs
-- a law of theirs names it as a hypothesis.
use clienthub.Prelude.{ℤ, ℕ, String, List}
use clienthub.Proto.Message.{Bytes}
use clienthub.Proto.Payload.{
  AuthPayload, RegisterPayload, OpenTunnelPayload, TunnelReadyPayload, TunnelFailPayload,
  KickPayload, AddForwardPayload, RemoveForwardPayload, ResponsePayload, PushConfigPayload,
  AddExposePayload, RemoveExposePayload, ExposeListEntry, ListClientsPayload, SpeedResultPayload,
  ClientSpeedInfo, ClientInfo, TunnelInfo, ForwardInfo, Codec,
}
use clienthub.Store.{Clients, SaveError}

-- What a format directive is given.
pub data Arg : Type 0 where
  text : String → Arg
  number : ℕ → Arg
  integer : ℤ → Arg

-- encoding/json at each type of payload, and fmt.Sprintf. The texts of addresses and times are the
-- standard library's too.
pub record Library : Type 0 where
  pub auth : Codec AuthPayload
  pub register : Codec RegisterPayload
  pub open_tunnel : Codec OpenTunnelPayload
  pub tunnel_ready : Codec TunnelReadyPayload
  pub tunnel_fail : Codec TunnelFailPayload
  pub kick : Codec KickPayload
  pub add_forward : Codec AddForwardPayload
  pub remove_forward : Codec RemoveForwardPayload
  pub response : Codec ResponsePayload
  pub push_config : Codec PushConfigPayload
  pub add_expose : Codec AddExposePayload
  pub remove_expose : Codec RemoveExposePayload
  pub list_clients : Codec ListClientsPayload
  pub speed_result : Codec SpeedResultPayload
  pub client_infos : Codec (List ClientInfo)
  pub speed_infos : Codec (List ClientSpeedInfo)
  pub tunnel_infos : Codec (List TunnelInfo)
  pub forward_infos : Codec (List ForwardInfo)
  pub expose_entries : Codec (List ExposeListEntry)
  pub clients : Codec Clients
  -- what json.Unmarshal leaves in an empty slice, also where it fails
  pub forwards_left : Bytes → List ForwardInfo
  pub clients_left : Bytes → List ClientInfo
  pub tunnels_left : Bytes → List TunnelInfo
  -- the text of the error of json.Unmarshal
  pub unmarshal_error : Bytes → String
  pub save_error : SaveError → String
  pub sprintf : String → List Arg → String
  -- what text/tabwriter makes of lines, and the directive %.1f of a number of KB in MB
  pub tabulate : List String → String
  pub megabytes : ℕ → String
  -- the number that net.SplitHostPort and fmt.Sscanf find behind an address, 0 if none
  pub port_of : String → ℤ
  pub addr : ℕ → String
  pub rfc3339 : ℕ → String
